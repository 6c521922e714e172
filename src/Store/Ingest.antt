-- ===== src/Store/Ingest.antt =====
-- src/stems/store.ts: how `VerifiedStemStore` makes room for a stem and takes it in.
use engine_web_adapter.Prelude.{
  ℕ, ◌+◌, Bool, true, false, not, ◌&&◌, ◌||◌, leb, ltb, ◌==◌, if◌then◌else◌, Option, none, some,
  List, [], ◌∷◌, ◌++◌, length, Text, text_eq,
}
use engine_web_adapter.Errors.{
  Result, ok, err, Failure, quota_error, timeout_error, failure, stem_corrupt, stem_quota,
  stem_read_deadline, Ran, and_next, require, ◌>>=◌, ◌>>◌,
}
use engine_web_adapter.Identity.{assert_stem_identity}
use engine_web_adapter.CanonicalJson.{text_less}
use engine_web_adapter.MemoryStorage.{get, put, discard}
use engine_web_adapter.Store.{
  Row, Index, Disk, Stem, digest_of, final_name, staging_name, unless_failed, mutate_index, Check,
  verify_indexed, own_stem, unpinned,
}

-- What the reader of the resolved stream gives: a chunk, with the failure of its write, or a
-- rejection; the end of the list is the end of the stream.
pub data Pull : Type 0 where
  chunk : List ℕ → Option Failure → Pull
  rejected : Failure → Pull

-- What the environment does to one `#ingest`: the failures of its statements, in their order.
-- `preparing` is those before the `try`, `starting` those up to the first read. A close that fails
-- stores nothing; a move that fails by its deadline may have moved the file.
pub record Intake : Type 0 where
  pub preparing : Option Failure
  pub starting : Option Failure
  pub pulls : List Pull
  pub package_digest : Option Text
  pub closing : Option Failure
  pub moving : Option Failure
  pub moved_late : Bool
  pub indexing : Option Failure
  pub cleans_staging : Bool
  pub cleans_final : Bool

-- The loop over the chunks, with the bytes so far.
unfoldable pub copy_chunks : ℕ → List ℕ → List Pull → Result (List ℕ)
copy_chunks declared received [] = ok received
copy_chunks declared received (rejected thrown ∷ pulls) = err thrown
copy_chunks declared received (chunk bytes (some thrown) ∷ pulls) =
    if ltb declared (length (received ++ bytes)) then err (failure stem_corrupt) else err thrown
copy_chunks declared received (chunk bytes none ∷ pulls) =
    if ltb declared (length (received ++ bytes))
    then err (failure stem_corrupt)
    else copy_chunks declared (received ++ bytes) pulls

-- `hash?.digest("hex") ?? packageResult?.digest?.()`: there is no hash where the package has one.
abbrev pub observed : (List ℕ → Text) → Option Text → List ℕ → Text
observed blake3 none received = blake3 received
observed blake3 (some digest) received = digest

unfoldable pub receive : (List ℕ → Text) → Stem → Intake → Result (List ℕ)
unfolding copy_chunks
receive blake3 stem intake = do
  received ← copy_chunks stem.bytes [] intake.pulls
  require
      ((length received == stem.bytes)
        && text_eq (observed blake3 intake.package_digest received) (digest_of stem.identity))
      (failure stem_corrupt)
  ok received

abbrev pub pins_of : Option Row → List Text
pins_of none = []
pins_of (some row) = row.pins

unfoldable pub index_row : Stem → ℕ → Index → Result (Option Index)
index_row stem now index = ok (
    some (
      put stem.identity
        (record {
          bytes = stem.bytes;
          pins = pins_of (get stem.identity index);
          last_used_at = now;
        })
        index))

-- The disk behind `close` and behind `move`.
abbrev pub close_staging : Text → List ℕ → Disk → Disk
close_staging staging content d = record d { files = put staging content d.files }

abbrev pub move_final : Text → Stem → List ℕ → Disk → Disk
move_final staging stem content d = record d {
  files = discard staging (put (final_name stem.identity) content d.files);
}

-- The clean-up of a failed ingest, `promoted` once its file was moved.
unfoldable pub clean_up : Intake → Text → Stem → Bool → Disk → Disk
clean_up intake staging stem promoted d =
    let swept = if intake.cleans_staging then record d { files = discard staging d.files } else d in
    if promoted && intake.cleans_final
    then record swept { files = discard (final_name stem.identity) swept.files }
    else swept

unfoldable pub translate : Failure → Failure
translate quota_error = failure stem_quota
translate timeout_error = failure stem_read_deadline
translate thrown = thrown

abbrev pub fail_ingest : Intake → Text → Stem → Bool → Failure → Disk → Ran Disk (Unit {0})
fail_ingest intake staging stem promoted thrown d =
    (err (translate thrown), clean_up intake staging stem promoted d)

-- The statements behind the move.
abbrev pub settle_index : Intake → Text → Stem → Ran Disk (Unit {0}) → Ran Disk (Unit {0})
settle_index intake staging stem (ok done, d) = (ok done, d)
settle_index intake staging stem (err thrown, d) = fail_ingest intake staging stem true thrown d

unfoldable pub index_final : Intake → Text → Stem → ℕ → Disk → Ran Disk (Unit {0})
unfolding mutate_index index_row translate clean_up
index_final intake staging stem now d =
    settle_index intake staging stem (mutate_index intake.indexing (index_row stem now) d)

-- The statements behind `close`.
unfoldable pub move_closed :
    Intake → Text → Stem → ℕ → List ℕ → Disk → Option Failure → Ran Disk (Unit {0})
unfolding index_final
move_closed intake staging stem now content closed none =
    index_final intake staging stem now (move_final staging stem content closed)
move_closed intake staging stem now content closed (some thrown) =
    fail_ingest intake staging stem false thrown
      (if intake.moved_late then move_final staging stem content closed else closed)

-- The statements behind the tests of the count and the digest.
unfoldable pub promote :
    Intake → Text → Stem → ℕ → List ℕ → Disk → Option Failure → Ran Disk (Unit {0})
unfolding move_closed
promote intake staging stem now content d none =
    move_closed intake staging stem now content (close_staging staging content d) intake.moving
promote intake staging stem now content d (some thrown) =
    fail_ingest intake staging stem false thrown d

unfoldable pub promote_received :
    Intake → Text → Stem → ℕ → Disk → Result (List ℕ) → Ran Disk (Unit {0})
unfolding promote
promote_received intake staging stem now d (ok content) =
    promote intake staging stem now content d intake.closing
promote_received intake staging stem now d (err thrown) =
    fail_ingest intake staging stem false thrown d

unfoldable pub start_intake :
    (List ℕ → Text) → Intake → Text → Stem → ℕ → Disk → Option Failure → Ran Disk (Unit {0})
unfolding receive promote_received
start_intake blake3 intake staging stem now d none =
    promote_received intake staging stem now d (receive blake3 stem intake)
start_intake blake3 intake staging stem now d (some thrown) =
    fail_ingest intake staging stem false thrown d

-- `#ingest`.
unfoldable pub ingest : (List ℕ → Text) → Text → ℕ → Stem → Intake → Disk → Ran Disk (Unit {0})
unfolding start_intake
ingest blake3 instance_id now stem intake d =
    let staging = staging_name instance_id stem.identity in
    unless_failed intake.preparing d (
      start_intake blake3 intake staging stem now (record d { files = discard staging d.files })
        intake.starting)

-- What `#availableBytes` answers: its calls are numbered, and `none` is an estimate that is missing.
abbrev pub enough : Option ℕ → ℕ → Bool
enough none required = true
enough (some available) required = leb required available

-- `left.lastUsedAt - right.lastUsedAt || (a < b ? -1 : a > b ? 1 : 0)`, as "not after".
abbrev pub victim_before : Text × Row → Text × Row → Bool
victim_before a b =
    if (a.1).last_used_at == (b.1).last_used_at
    then not (text_less b.0 a.0)
    else ltb (a.1).last_used_at (b.1).last_used_at

abbrev pub insert_victim : Text × Row → List (Text × Row) → List (Text × Row)
insert_victim v [] = v ∷ []
insert_victim v (w ∷ ws) = if victim_before v w then v ∷ w ∷ ws else w ∷ insert_victim v ws

abbrev pub sort_victims : List (Text × Row) → List (Text × Row)
sort_victims [] = []
sort_victims (v ∷ vs) = insert_victim v (sort_victims vs)

abbrev pub without_pins : Index → Index
without_pins [] = []
without_pins (r ∷ rs) = if length (r.1).pins == 0 then r ∷ without_pins rs else without_pins rs

unfoldable pub victims : Index → List (Text × Row)
victims index = sort_victims (without_pins index)

-- The failures of one eviction: an abort, its removal, its write of the index.
pub record Eviction : Type 0 where
  pub stopping : Option Failure
  pub removing : Option Failure
  pub writing : Option Failure

-- The protected section of one victim.
unfoldable pub evict : Option ℕ → ℕ → Eviction → Text → Disk → Ran Disk (Unit {0})
evict available required e identity d =
    if enough available required || not (unpinned (get identity d.index))
    then (ok tt, d)
    else unless_failed e.stopping d (
        unless_failed e.removing d (
          let removed = record d { files = discard (final_name identity) d.files } in
          unless_failed e.writing removed
            (ok tt, record removed { index = discard identity removed.index })))

-- The loop over the victims; the call `n` of the estimate is inside the section, `n + 1` behind it.
unfoldable pub evict_all :
    (ℕ → Option ℕ) → ℕ → (ℕ → Eviction) → ℕ → List (Text × Row) → Disk → Ran Disk (Unit {0})
unfolding evict
evict_all available required e n [] d = (err (failure stem_quota), d)
evict_all available required e n (v ∷ vs) d =
    and_next (assert_stem_identity v.0, d)
      λ _ d. and_next (evict (available n) required (e n) v.0 d) λ _ d1.
        if enough (available (n + 1)) required
        then (ok tt, d1)
        else evict_all available required e (n + 2) vs d1

-- `#preflight` with `reclaim`.
unfoldable pub reclaim : (ℕ → Option ℕ) → ℕ → (ℕ → Eviction) → Disk → Ran Disk (Unit {0})
unfolding evict_all victims
reclaim available required e d =
    if enough (available 0) required
    then (ok tt, d)
    else evict_all available required e 1 (victims d.index) d

-- What the environment does to one `#ensure`.
pub record Ensuring : Type 0 where
  pub first : Check
  pub available : ℕ → Option ℕ
  pub evictions : ℕ → Eviction
  pub second : Check
  pub intake : Intake
  pub owning : Option Failure
  pub now : ℕ

abbrev pub translate_quota : Failure → Failure
translate_quota quota_error = failure stem_quota
translate_quota thrown = thrown

abbrev pub on_quota : Ran Disk (Unit {0}) → Ran Disk (Unit {0})
on_quota (ok done, d) = (ok done, d)
on_quota (err thrown, d) = (err (translate_quota thrown), d)

-- `#ensure`: a section under the lock of the stem, the reclamation, and a second section.
unfoldable pub ensure : (List ℕ → Text) → Text → Text → Stem → Ensuring → Disk → Ran Disk (Unit {0})
unfolding verify_indexed own_stem reclaim ingest
ensure blake3 instance_id pin stem x d = and_next (verify_indexed blake3 x.first stem d) λ warm d1.
    if warm
    then own_stem x.owning pin x.now stem d1
    else and_next (on_quota (reclaim x.available stem.bytes x.evictions d1)) λ _ d2.
      and_next (verify_indexed blake3 x.second stem d2) λ good d3.
        and_next (if good then (ok tt, d3) else ingest blake3 instance_id x.now stem x.intake d3)
          λ _ d4. own_stem x.owning pin x.now stem d4

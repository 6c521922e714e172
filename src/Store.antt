-- ===== src/Store.antt =====
-- src/stems/store.ts, `VerifiedStemStore`: the index of verified stems, its pins, and the files
-- behind it. A section under one lock is a function, and sections follow each other. Each call of
-- the backend is given the failure that it meets, if any; the BLAKE3 of a whole content is a
-- parameter.
pub mod Ingest
pub mod Session
pub mod Held
pub mod Pins
pub mod Keeps
pub mod Kept
pub mod Unique
pub mod Leased
pub mod Closed
pub mod Taken
pub mod Tests
pub mod Found
pub mod Ensured
use engine_web_adapter.Prelude.{
  ℕ, Bool, true, false, not, ◌&&◌, ◌||◌, leb, ltb, ◌==◌, if◌then◌else◌, Option, none, some, List,
  [], ◌∷◌, ◌++◌, length, drop, Text, text_eq, codes,
}
use engine_web_adapter.Errors.{
  Result, ok, err, Failure, type_error, failure, stem_not_found, stem_corrupt,
  stem_invalid_declaration, abort_error, adapter, Ran, and_next, require, ◌>>=◌, ◌>>◌,
}
use engine_web_adapter.Identity.{assert_stem_identity}
use engine_web_adapter.MemoryStorage.{get, put, discard, Files, has_name}

-- `IndexRow`.
pub record Row : Type 0 where
  pub bytes : ℕ
  pub pins : List Text
  pub last_used_at : ℕ

-- `StoreIndex`, by identity.
abbrev pub Index : Type 0
Index = List (Text × Row)

-- What the backend keeps; the file of the index is its decoded value.
pub record Disk : Type 0 where
  pub files : Files
  pub index : Index

-- `StemRequirement`.
pub record Stem : Type 0 where
  pub source_id : Text
  pub identity : Text
  pub bytes : ℕ

-- `digest`, `finalName` and the name of a staging file.
abbrev pub digest_of : Text → Text
digest_of identity = drop 7 identity

abbrev pub final_name : Text → Text
final_name identity = codes "blake3-" ++ digest_of identity

abbrev pub staging_name : Text → Text → Text
staging_name instance_id identity =
    codes "staging-" ++ (instance_id ++ (codes "-" ++ digest_of identity))

-- Statements behind a call that may fail.
abbrev pub unless_failed {ℓ κ} : {S : Type ℓ} {A : Type κ} → Option Failure → S → Ran S A → Ran S A
unless_failed (some thrown) s rest = (err thrown, s)
unless_failed none s rest = rest

-- `#mutateIndex`: `ok none` is a mutation that returns false, and a failed write leaves the index
-- as it was.
abbrev pub settle_change : Option Failure → Disk → Result (Option Index) → Ran Disk (Unit {0})
settle_change fault d (err thrown) = (err thrown, d)
settle_change fault d (ok none) = (ok tt, d)
settle_change fault d (ok (some index)) = unless_failed fault d (ok tt, record d { index = index })

unfoldable pub mutate_index :
    Option Failure → (Index → Result (Option Index)) → Disk → Ran Disk (Unit {0})
mutate_index fault change d = settle_change fault d (change d.index)

-- `own` of `openSession`.
abbrev pub own_found : Text → ℕ → Stem → Index → Option Row → Result (Option Index)
own_found pin now stem index none = err (failure stem_corrupt)
own_found pin now stem index (some row) =
    if row.bytes == stem.bytes
    then ok (
        some (
          put stem.identity (record row { pins = row.pins ++ (pin ∷ []); last_used_at = now })
            index))
    else err (failure stem_corrupt)

unfoldable pub own_row : Text → ℕ → Stem → Index → Result (Option Index)
own_row pin now stem index = own_found pin now stem index (get stem.identity index)

unfoldable pub own_stem : Option Failure → Text → ℕ → Stem → Disk → Ran Disk (Unit {0})
unfolding mutate_index own_row
own_stem fault pin now stem d = mutate_index fault (own_row pin now stem) d

-- `filter((candidate) => candidate !== pin)`.
abbrev pub without_pin : Text → List Text → List Text
without_pin pin [] = []
without_pin pin (p ∷ ps) = if text_eq p pin then without_pin pin ps else p ∷ without_pin pin ps

abbrev pub unpin_row : Text → Text → Option Row → Index → Index
unpin_row pin identity none index = index
unpin_row pin identity (some row) index =
    put identity (record row { pins = without_pin pin row.pins }) index

-- The loop of `release`; an identity that comes twice is filtered twice.
unfoldable pub unpin_all : Text → List Stem → Index → Index
unpin_all pin [] index = index
unpin_all pin (stem ∷ stems) index =
    unpin_all pin stems (unpin_row pin stem.identity (get stem.identity index) index)

-- `release`.
unfoldable pub release_pin : Option Failure → Text → List Stem → Disk → Ran Disk (Unit {0})
unfolding mutate_index unpin_all
release_pin fault pin stems d =
    mutate_index fault (λ index. ok (some (unpin_all pin stems index))) d

-- `value.trim().length === 0`, for ASCII.
abbrev pub is_blank : Text → Bool
is_blank [] = true
is_blank (c ∷ t) = ((c == 32) || (leb 9 c && leb c 13)) && is_blank t

abbrev pub offline_pin : Text → Text
offline_pin id = codes "offline:" ++ id

-- `Array.prototype.includes` is `has_name`.
abbrev pub pin_found : Text → Text → Bool → Index → Option Row → Result (Option Index)
pin_found identity pin pinned index none = if pinned then err (failure stem_not_found) else ok none
pin_found identity pin true index (some row) =
    if has_name pin row.pins
    then ok none
    else ok (some (put identity (record row { pins = row.pins ++ (pin ∷ []) }) index))
pin_found identity pin false index (some row) =
    if has_name pin row.pins
    then ok (some (put identity (record row { pins = without_pin pin row.pins }) index))
    else ok none

unfoldable pub pin_row : Text → Text → Bool → Index → Result (Option Index)
pin_row identity pin pinned index = pin_found identity pin pinned index (get identity index)

abbrev pub valid_offline : Text → Text → Result (Unit {0})
valid_offline identity id = do assert_stem_identity identity; require (not (is_blank id)) type_error

-- `setOfflinePin`.
unfoldable pub set_offline_pin : Option Failure → Text → Text → Bool → Disk → Ran Disk (Unit {0})
unfolding mutate_index pin_row
set_offline_pin fault identity id pinned d =
    and_next (valid_offline identity id, d)
      λ _ d. mutate_index fault (pin_row identity (offline_pin id) pinned) d

-- What a check of a stored file meets: its bytes, an abort or a failure of `exists`, which are thrown,
-- or any other failure.
pub data Reading : Type 0 where
  readable aborted broken : Reading

unfoldable pub check_content : (List ℕ → Text) → Text → ℕ → Reading → Option (List ℕ) → Result Bool
check_content blake3 identity bytes reading none = ok false
check_content blake3 identity bytes readable (some content) =
    ok ((length content == bytes) && text_eq (blake3 content) (digest_of identity))
check_content blake3 identity bytes aborted (some content) = err abort_error
check_content blake3 identity bytes broken (some content) = ok false

-- `#verifyFile`.
unfoldable pub verify_file : (List ℕ → Text) → Text → ℕ → Reading → Disk → Result Bool
unfolding check_content
verify_file blake3 identity bytes reading d =
    check_content blake3 identity bytes reading (get (final_name identity) d.files)

abbrev pub unpinned : Option Row → Bool
unpinned none = false
unpinned (some row) = length row.pins == 0

unfoldable pub demote_row : Text → Index → Result (Option Index)
demote_row identity index =
    ok (some (if unpinned (get identity index) then discard identity index else index))

-- `#demote`, with the failures of its removal and of its write.
unfoldable pub demote : Option Failure → Option Failure → Text → Disk → Ran Disk (Unit {0})
unfolding mutate_index demote_row
demote removing writing identity d = unless_failed removing d (
    mutate_index writing (demote_row identity)
      (record d { files = discard (final_name identity) d.files }))

-- What the environment does to one `#verifyIndexed`.
pub record Check : Type 0 where
  pub reading : Reading
  pub removing : Option Failure
  pub writing : Option Failure

unfoldable pub demoted : Check → Text → Disk → Ran Disk Bool
unfolding demote
demoted c identity d = and_next (demote c.removing c.writing identity d) λ _ d1. (ok false, d1)

unfoldable pub judge_size : Check → Text → Bool → Disk → Ran Disk Bool
unfolding demoted
judge_size c identity good d =
    if good then (err (failure stem_invalid_declaration), d) else demoted c identity d

unfoldable pub judge_content : Check → Text → Bool → Disk → Ran Disk Bool
unfolding demoted
judge_content c identity good d = if good then (ok true, d) else demoted c identity d

unfoldable pub check_row : (List ℕ → Text) → Check → Stem → Option Row → Disk → Ran Disk Bool
unfolding verify_file judge_size judge_content
check_row blake3 c stem none d = (ok false, d)
check_row blake3 c stem (some row) d =
    if row.bytes == stem.bytes
    then and_next (verify_file blake3 stem.identity stem.bytes c.reading d, d)
        (judge_content c stem.identity)
    else and_next (verify_file blake3 stem.identity row.bytes c.reading d, d)
        (judge_size c stem.identity)

-- `#verifyIndexed`.
unfoldable pub verify_indexed : (List ℕ → Text) → Check → Stem → Disk → Ran Disk Bool
unfolding check_row
verify_indexed blake3 c stem d = check_row blake3 c stem (get stem.identity d.index) d

-- `verify`, whose demotions are those of the readings only.
unfoldable pub verify_stem : (List ℕ → Text) → Reading → Text → Option ℕ → Disk → Result Bool
unfolding verify_file
verify_stem blake3 reading identity expected d = do
  assert_stem_identity identity
  compare_row (get identity d.index)
  where
    other_size : Option ℕ → ℕ → Bool
    other_size none bytes = false
    other_size (some wanted) bytes = not (bytes == wanted)

    compare_row : Option Row → Result Bool
    compare_row none = ok false
    compare_row (some row) =
        if other_size expected row.bytes
        then ok false
        else verify_file blake3 identity row.bytes reading d

-- The blob of a final file: an absent file is a failure of its read.
abbrev pub final_bytes : Bool → Option (List ℕ) → Option (List ℕ)
final_bytes fails none = none
final_bytes fails (some content) = if fails then none else some content

-- A failed read demotes its stem; what the demotion meets is dropped.
unfoldable pub answer_read :
    Option Failure → Option Failure → Text → Disk → Option (List ℕ) → Ran Disk (List ℕ)
unfolding demote
answer_read removing writing identity d (some content) = (ok content, d)
answer_read removing writing identity d none =
    (err (failure stem_corrupt), (demote removing writing identity d).1)

unfoldable pub read_indexed :
    Bool → Option Failure → Option Failure → Text → Disk → Option Row → Ran Disk (List ℕ)
unfolding answer_read
read_indexed fails removing writing identity d none = (err (failure stem_not_found), d)
read_indexed fails removing writing identity d (some row) =
    answer_read removing writing identity d (final_bytes fails (get (final_name identity) d.files))

-- `read`.
unfoldable pub read_stem : Bool → Option Failure → Option Failure → Text → Disk → Ran Disk (List ℕ)
unfolding read_indexed
read_stem fails removing writing identity d =
    and_next (assert_stem_identity identity, d)
      λ _ d1. read_indexed fails removing writing identity d1 (get identity d1.index)

-- ===== src/Store/Session.antt =====
-- src/stems/store.ts: `openSession` and the lease that it returns. The stems are ensured one after
-- the other, as with one slot.
use engine_web_adapter.Prelude.{
  ℕ, ◌+◌, Bool, true, false, not, ◌&&◌, ◌||◌, leb, ◌==◌, if◌then◌else◌, Option, none, some, List,
  [], ◌∷◌, ◌++◌, Text, text_eq, codes,
}
use engine_web_adapter.Errors.{
  Result, ok, err, Failure, type_error, range_error, abort_error, failure, stem_invalid_declaration,
  stem_cancelled, stem_not_found, session_closed, Ran, and_next, require, ◌>>=◌, ◌>>◌,
}
use engine_web_adapter.Json.{is_safe}
use engine_web_adapter.Identity.{assert_stem_identity}
use engine_web_adapter.Store.{Disk, Stem, release_pin, read_stem, is_blank}
use engine_web_adapter.Store.Ingest.{Ensuring, ensure}

unfoldable pub normalize_stem : Stem → Result (Unit {0})
normalize_stem stem = do
  assert_stem_identity stem.identity
  require (not (is_blank stem.source_id)) type_error
  require (is_safe stem.bytes && leb 1 stem.bytes) range_error

-- `normalizeRequirements`.
unfoldable pub normalize_requirements : List Stem → Result (List Stem)
unfolding normalize_stem
normalize_requirements [] = ok []
normalize_requirements (stem ∷ stems) = do
  normalize_stem stem
  rest ← normalize_requirements stems
  ok (stem ∷ rest)

-- The first stem of an identity, as `unique.get`.
abbrev pub find_stem : Text → List Stem → Option Stem
find_stem identity [] = none
find_stem identity (s ∷ ss) = if text_eq s.identity identity then some s else find_stem identity ss

-- One turn of the loop of `uniqueRequirements`, on the values of the map in the order of insertion.
unfoldable pub join_unique : List Stem → Stem → Option Stem → Result (List Stem)
join_unique unique stem none = ok (unique ++ (stem ∷ []))
join_unique unique stem (some prior) =
    if prior.bytes == stem.bytes then ok unique else err (failure stem_invalid_declaration)

unfoldable pub unique_from : List Stem → List Stem → Result (List Stem)
unfolding join_unique
unique_from unique [] = ok unique
unique_from unique (stem ∷ stems) = do
  joined ← join_unique unique stem (find_stem stem.identity unique)
  unique_from joined stems

-- `uniqueRequirements`.
unfoldable pub unique_requirements : List Stem → Result (List Stem)
unfolding unique_from
unique_requirements stems = unique_from [] stems

-- What the environment does to one `openSession`: each stem has a number.
pub record Opening : Type 0 where
  pub lease_id : Text
  pub instance_id : Text
  pub unique_id : Text
  pub aborted_first : Bool
  pub locking : Option Failure
  pub ensuring : ℕ → Ensuring
  pub stopping : ℕ → Option Failure
  pub finishing : Option Failure
  pub releasing : Option Failure
  pub aborted : Bool

-- `VerifiedStemSessionLease`.
pub record Lease : Type 0 where
  pub pin : Text
  pub stems : List Stem
  pub closed : Bool

abbrev pub session_pin : Opening → Text
session_pin o =
    codes "session:" ++ (o.instance_id ++ (codes ":" ++ (o.lease_id ++ (codes ":" ++ o.unique_id))))

-- What a loop leaves that may stop: its result, the stems it owns, the disk.
abbrev pub Owned : Type 0
Owned = Ran (List Stem × Disk) (Unit {0})

abbrev pub stop_at : Option Failure → List Stem → Disk → Owned
stop_at none owned d = (ok tt, (owned, d))
stop_at (some thrown) owned d = (err thrown, (owned, d))

-- `ensure` and `own` of one stem, and the abort test behind it.
abbrev pub settle_stem : Opening → ℕ → Stem → List Stem → Ran Disk (Unit {0}) → Owned
settle_stem o n stem owned (ok done, d) = stop_at (o.stopping n) (owned ++ (stem ∷ [])) d
settle_stem o n stem owned (err thrown, d) = (err thrown, (owned, d))

unfoldable pub open_stem : (List ℕ → Text) → Opening → ℕ → Stem → List Stem → Disk → Owned
unfolding ensure
open_stem blake3 o n stem owned d =
    settle_stem o n stem owned (ensure blake3 o.instance_id (session_pin o) stem (o.ensuring n) d)

unfoldable pub open_stems : (List ℕ → Text) → Opening → ℕ → List Stem → List Stem → Disk → Owned
unfolding open_stem
open_stems blake3 o n [] owned d = stop_at o.finishing owned d
open_stems blake3 o n (stem ∷ stems) owned d =
    and_next (open_stem blake3 o n stem owned d) λ _ s. open_stems blake3 o (n + 1) stems s.0 s.1

-- The `catch` of `openSession`.
abbrev pub is_abort : Failure → Bool
is_abort abort_error = true
is_abort _ = false

abbrev pub gave_up : Opening → Failure → Ran Disk (Unit {0}) → Ran Disk Lease
gave_up o thrown (err again, d) = (err again, d)
gave_up o thrown (ok done, d) =
    (err (if o.aborted || is_abort thrown then failure stem_cancelled else thrown), d)

unfoldable pub give_up : Opening → Failure → List Stem → Disk → Ran Disk Lease
unfolding release_pin
give_up o thrown [] d = gave_up o thrown (ok tt, d)
give_up o thrown (stem ∷ owned) d =
    gave_up o thrown (release_pin o.releasing (session_pin o) (stem ∷ owned) d)

-- The statements of the `try`, from the last to the first.
unfoldable pub settle_session : Opening → List Stem → Owned → Ran Disk Lease
unfolding give_up
settle_session o declared (ok done, (owned, d)) =
    (ok (record { pin = session_pin o; stems = declared; closed = false }), d)
settle_session o declared (err thrown, (owned, d)) = give_up o thrown owned d

unfoldable pub lock_session :
    (List ℕ → Text) → Opening → List Stem → List Stem → Disk → Option Failure → Ran Disk Lease
unfolding settle_session open_stems
lock_session blake3 o declared unique d (some thrown) = give_up o thrown [] d
lock_session blake3 o declared unique d none =
    settle_session o declared (open_stems blake3 o 0 unique [] d)

-- The statements before it.
unfoldable pub declare : Opening → List Stem → Result (List Stem × List Stem)
unfolding normalize_requirements unique_requirements
declare o stems = do
  require (not (is_blank o.lease_id)) type_error
  declared ← normalize_requirements stems
  unique ← unique_requirements declared
  require (not o.aborted_first) (failure stem_cancelled)
  ok (declared, unique)

abbrev pub declare_session :
    (List ℕ → Text) → Opening → Disk → Result (List Stem × List Stem) → Ran Disk Lease
declare_session blake3 o d (err thrown) = (err thrown, d)
declare_session blake3 o d (ok (declared, unique)) =
    lock_session blake3 o declared unique d o.locking

-- `openSession`.
unfoldable pub open_session : (List ℕ → Text) → Opening → List Stem → Disk → Ran Disk Lease
unfolding declare lock_session
open_session blake3 o stems d = declare_session blake3 o d (declare o stems)

abbrev pub has_stem : Text → List Stem → Bool
has_stem identity [] = false
has_stem identity (s ∷ ss) = text_eq s.identity identity || has_stem identity ss

-- `read` of a lease.
unfoldable pub read_lease :
    Bool → Option Failure → Option Failure → Text → Lease → Disk → Ran Disk (List ℕ)
unfolding read_stem
read_lease fails removing writing identity lease d =
    if lease.closed
    then (err (failure session_closed), d)
    else if not (has_stem identity lease.stems)
    then (err (failure stem_not_found), d)
    else read_stem fails removing writing identity d

-- `close` of a lease, whose pin lock is released without a failure; a release that fails leaves the
-- lease open.
abbrev pub settle_close : Lease → Ran Disk (Unit {0}) → Ran (Lease × Disk) (Unit {0})
settle_close lease (ok done, d) = (ok tt, (record lease { closed = true }, d))
settle_close lease (err thrown, d) = (err thrown, (lease, d))

unfoldable pub close_lease : Option Failure → Lease → Disk → Ran (Lease × Disk) (Unit {0})
unfolding release_pin
close_lease fault lease d =
    if lease.closed
    then (ok tt, (lease, d))
    else settle_close lease (release_pin fault lease.pin lease.stems d)

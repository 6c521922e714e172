-- ===== src/MemoryStorage.antt =====
-- src/stems/storage.ts, `MemoryStemStorageBackend`: the storage of stems that tests and hosts inject.
-- A map is the list of its entries, in the order of insertion.
pub mod Files
mod Quota
mod Tests
use engine_web_adapter.Prelude.{
  ℕ, ◌+◌, ◌-◌, Bool, true, false, ◌||◌, ltb, if◌then◌else◌, Option, none, some, List, [], ◌∷◌, ◌++◌,
  length, Text, text_eq,
}

abbrev pub Files : Type 0
Files = List (Text × List ℕ)

abbrev pub get {ℓ} : {A : Type ℓ} → Text → List (Text × A) → Option A
get name [] = none
get name (f ∷ fs) = if text_eq f.0 name then some f.1 else get name fs

-- `Map.set` and `Map.delete`.
abbrev pub put {ℓ} : {A : Type ℓ} → Text → A → List (Text × A) → List (Text × A)
put name a [] = (name, a) ∷ []
put name a (f ∷ fs) = if text_eq f.0 name then (f.0, a) ∷ fs else f ∷ put name a fs

abbrev pub discard {ℓ} : {A : Type ℓ} → Text → List (Text × A) → List (Text × A)
discard name [] = []
discard name (f ∷ fs) = if text_eq f.0 name then fs else f ∷ discard name fs

-- `files.get(name)?.byteLength ?? 0`.
abbrev pub size_of : Text → Files → ℕ
size_of name [] = 0
size_of name (f ∷ fs) = if text_eq f.0 name then length f.1 else size_of name fs

-- `#usage`.
abbrev pub usage : Files → ℕ
usage [] = 0
usage (f ∷ fs) = length f.1 + usage fs

-- The fields; `fail_move_once` are the names whose next move is to fail.
pub record Storage : Type 0 where
  pub files : Files
  pub quota_bytes : Option ℕ
  pub fail_move_once : List Text

pub data StorageError : Type 0 where
  was_aborted writer_closed quota_exceeded not_found move_crashed : StorageError

pub data Stored (A : Type 0) : Type 0 where
  stored : A → Stored A
  failed : StorageError → Stored A

-- The closure that `createWriter` returns.
pub record Writer : Type 0 where
  pub name : Text
  pub chunks : List (List ℕ)
  pub closed : Bool

-- `concat`.
abbrev pub joined : List (List ℕ) → List ℕ
joined [] = []
joined (chunk ∷ chunks) = chunk ++ joined chunks

-- Each call takes whether its signal has aborted.
unfoldable pub create_writer : Bool → Text → Stored Writer
create_writer aborted name =
    if aborted
    then failed was_aborted
    else stored (record { name = name; chunks = []; closed = false })

unfoldable pub write : Bool → List ℕ → Writer → Stored Writer
write aborted chunk w =
    if aborted
    then failed was_aborted
    else if w.closed
    then failed writer_closed
    else stored (record w { chunks = w.chunks ++ (chunk ∷ []) })

abbrev pub exceeds : Option ℕ → ℕ → Bool
exceeds none size = false
exceeds (some quota) size = ltb quota size

-- `close` of a writer.
unfoldable pub close : Bool → Writer → Storage → Stored (Writer × Storage)
close aborted w s =
    let bytes = joined w.chunks in
    if w.closed
    then stored (w, s)
    else if aborted
    then failed was_aborted
    else if exceeds s.quota_bytes (usage s.files - size_of w.name s.files + length bytes)
    then failed quota_exceeded
    else stored (record w { closed = true }, record s { files = put w.name bytes s.files })

abbrev pub abort : Writer → Writer
abort w = record w { closed = true }

unfoldable pub read : Text → Storage → Stored (List ℕ)
read name s = elim (get name s.files) [ none ↦ failed not_found | some bytes ↦ stored bytes ]

abbrev pub has_name : Text → List Text → Bool
has_name name [] = false
has_name name (n ∷ ns) = text_eq n name || has_name name ns

abbrev pub without : Text → List Text → List Text
without name [] = []
without name (n ∷ ns) = if text_eq n name then ns else n ∷ without name ns

abbrev pub moved : Text → Text → Option (List ℕ) → Storage → Stored (Unit {0}) × Storage
moved from to none s = (failed not_found, s)
moved from to (some bytes) s = (stored tt, record s { files = discard from (put to bytes s.files) })

-- `move`, with the storage that it leaves.
unfoldable pub move : Text → Text → Storage → Stored (Unit {0}) × Storage
move from to s =
    if has_name from s.fail_move_once
    then (failed move_crashed, record s { fail_move_once = without from s.fail_move_once })
    else moved from to (get from s.files) s

unfoldable pub remove : Text → Storage → Storage
remove name s = record s { files = discard name s.files }

-- `failNextMove`.
unfoldable pub fail_next_move : Text → Storage → Storage
fail_next_move from s =
    if has_name from s.fail_move_once
    then s
    else record s { fail_move_once = s.fail_move_once ++ (from ∷ []) }

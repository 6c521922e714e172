-- ===== src/MemoryStorage/Quota.antt =====
-- src/stems/storage.ts: the storage stays within its quota, and a closed file is read back.
use engine_web_adapter.Prelude.{
  ℕ, ◌+◌, ◌-◌, ◌≤◌, ◌≡◌, refl, subst, Bool, false, if_elim, if_inv, Option, none, some, List, arith,
  length, Text,
}
use engine_web_adapter.MemoryStorage.{
  Files, get, put, discard, size_of, usage, Storage, Stored, stored, Writer, joined, exceeds, close,
  has_name, moved, move, remove, fail_next_move,
}
use engine_web_adapter.MemoryStorage.Files.{usage-put, usage-discard, size_of-put}

stored_injective : {A : Type 0} {a b : A} → stored a ≡ stored b → a ≡ b
stored_injective e = cc

-- The bytes in use are at most the quota, where there is one.
abbrev pub Within : Option ℕ → Files → Type 0
Within none files = Unit {0}
Within (some quota) files = usage files ≤ quota

abbrev pub IsWithin : Storage → Type 0
IsWithin s = Within s.quota_bytes s.files

-- A change that does not make the files larger.
Within-smaller :
    (quota : Option ℕ) (fs gs : Files) → usage gs ≤ usage fs → Within quota fs → Within quota gs
Within-smaller none fs gs smaller v = tt
Within-smaller (some quota) fs gs smaller v = omega arith

Within-put :
    (quota : Option ℕ) (name : Text) (bytes : List ℕ) (fs : Files)
    → exceeds quota (usage fs - size_of name fs + length bytes) ≡ false
    → Within quota (put name bytes fs)
Within-put none name bytes fs e = tt
Within-put (some quota) name bytes fs e =
    let total = usage-put name bytes fs in let kept = usage-discard name fs in ground arith

moved-IsWithin :
    (from to : Text) (found : Option (List ℕ)) (s : Storage)
    → get from s.files ≡ found
    → IsWithin s
    → IsWithin (moved from to found s).1
moved-IsWithin from to none s e v = v
moved-IsWithin from to (some bytes) s e v =
    let grown = usage-put to bytes s.files in
    let shrunk = usage-discard from (put to bytes s.files) in
    let same = size_of-put from to bytes s.files e in
    Within-smaller s.quota_bytes s.files (discard from (put to bytes s.files)) (omega arith) v

-- The calls that change a storage.
pub data Step : Storage → Storage → Type 0 where
  closes :
      (s : Storage) (aborted : Bool) (w : Writer) (r : Writer × Storage)
      → close aborted w s ≡ stored r
      → Step s r.1
  moves : (s : Storage) (from to : Text) → Step s (move from to s).1
  removes : (s : Storage) (name : Text) → Step s (remove name s)
  fails : (s : Storage) (from : Text) → Step s (fail_next_move from s)

close-IsWithin :
    (s : Storage) (aborted : Bool) (w : Writer) (r : Writer × Storage)
    → close aborted w s ≡ stored r
    → IsWithin s
    → IsWithin r.1
unfolding close
close-IsWithin s aborted w r e v =
    if_inv w.closed e
      (λ before e1. subst (λ (r : Writer × Storage). IsWithin r.1) (stored_injective e1) v)
      (λ open_ e1.
        if_inv aborted e1 (λ stop e2. absurd (cc))
          (λ go e2.
            if_inv
              (exceeds s.quota_bytes
                (usage s.files - size_of w.name s.files + length (joined w.chunks)))
              e2 (λ over e3. absurd (cc))
              (λ fits e3.
                subst (λ (r : Writer × Storage). IsWithin r.1) (stored_injective e3)
                  (Within-put s.quota_bytes w.name (joined w.chunks) s.files fits))))

Step-IsWithin : {s t : Storage} → Step s t → IsWithin s → IsWithin t
unfolding move remove fail_next_move
Step-IsWithin (closes s aborted w r e) v = close-IsWithin s aborted w r e v
Step-IsWithin (moves s from to) v =
    if_elim (λ (r : Stored (Unit {0}) × Storage). IsWithin r.1) (has_name from s.fail_move_once)
      (λ e. v) (λ e. moved-IsWithin from to (get from s.files) s refl v)
Step-IsWithin (removes s name) v =
    let shrunk = usage-discard name s.files in
    Within-smaller s.quota_bytes s.files (discard name s.files) (omega arith) v
Step-IsWithin (fails s from) v = if_elim IsWithin (has_name from s.fail_move_once) (λ e. v) (λ e. v)

-- A storage behind any calls.
pub data Steps (start : Storage) : Storage → Type 0 where
  begins : Steps start start
  next : {s t : Storage} → Steps start s → Step s t → Steps start t

-- A storage that is within its quota stays within it in every order of closings, moves, removals and
-- injected failures.
pub Steps-IsWithin : {start s : Storage} → IsWithin start → Steps start s → IsWithin s
Steps-IsWithin v begins = v
Steps-IsWithin v (next before step) = Step-IsWithin step (Steps-IsWithin v before)

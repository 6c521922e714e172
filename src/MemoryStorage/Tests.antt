-- ===== src/MemoryStorage/Tests.antt =====
-- src/stems/storage.ts: a storage of one file with a quota of five bytes.
use engine_web_adapter.Prelude.{◌≡◌, refl, true, false, some, [], ◌∷◌, arith, codes}
use engine_web_adapter.MemoryStorage.{
  Storage, stored, failed, quota_exceeded, Writer, close, move, fail_next_move,
}
use engine_web_adapter.MemoryStorage.Quota.{IsWithin, begins, next, closes, moves, Steps-IsWithin}

abbrev held : Storage
held = record { files = (codes "a", 1 ∷ 2 ∷ []) ∷ []; quota_bytes = some 5; fail_move_once = [] }

abbrev writer : Writer
writer = record { name = codes "b"; chunks = (7 ∷ 8 ∷ []) ∷ (9 ∷ []) ∷ []; closed = false }

abbrev written : Storage
written = record held { files = (codes "a", 1 ∷ 2 ∷ []) ∷ (codes "b", 7 ∷ 8 ∷ 9 ∷ []) ∷ [] }

closes_writer : close false writer held ≡ stored (record writer { closed = true }, written)
unfolding close
closes_writer = refl

too_large :
    close false (record writer { chunks = (1 ∷ 2 ∷ 3 ∷ 4 ∷ []) ∷ [] }) held ≡ failed quota_exceeded
unfolding close
too_large = refl

moves_file :
    (move (codes "a") (codes "b") written).1 ≡ record held { files = (codes "b", 1 ∷ 2 ∷ []) ∷ [] }
unfolding move
moves_file = refl

crash_keeps : (move (codes "a") (codes "b") (fail_next_move (codes "a") held)).1 ≡ held
unfolding move fail_next_move
crash_keeps = refl

Steps-IsWithin_example : IsWithin (move (codes "a") (codes "b") written).1
Steps-IsWithin_example = Steps-IsWithin (omega arith) (
    next
      (next begins
        (closes held false writer (record writer { closed = true }, written) closes_writer))
      (moves written (codes "a") (codes "b")))

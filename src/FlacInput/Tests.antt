-- ===== src/FlacInput/Tests.antt =====
-- A chunk of three bytes, read in two parts, over a small memory.
use engine_web_adapter.Prelude.{ℕ, ◌≡◌, refl, true, false, List, [], ◌∷◌, replicate}
use engine_web_adapter.Errors.{plain_error, ok, err}
use engine_web_adapter.FlacInput.{Slot, full, eof, bytes_read, fresh, publish, read}
use engine_web_adapter.FlacInput.Order.{Flow, starts, publishes, reads, IsOrdered, Flow-IsOrdered}

abbrev chunk : List ℕ
chunk = 11 ∷ 12 ∷ 13 ∷ []

abbrev published_slot : Slot
published_slot = record {
  state = full;
  byte_count = 3;
  offset = 0;
  final = true;
  bytes = 11 ∷ 12 ∷ 13 ∷ 0 ∷ [];
  refill_requested = false;
}

abbrev half_read : Slot
half_read = record published_slot { offset = 2 }

abbrev all_read : Slot
all_read = record published_slot { offset = 0; byte_count = 0; final = false; state = eof }

chunk_published : publish chunk true (fresh (replicate 4 0)) ≡ ok published_slot
unfolding publish
chunk_published = refl

second_chunk_refused : publish chunk true published_slot ≡ err plain_error
unfolding publish
second_chunk_refused = refl

first_read : read 2 published_slot ≡ ok (bytes_read (11 ∷ 12 ∷ []), half_read)
unfolding read
first_read = refl

last_read : read 9 half_read ≡ ok (bytes_read (13 ∷ []), all_read)
unfolding read
last_read = refl

whole-Flow : Flow (replicate 4 0) all_read chunk (11 ∷ 12 ∷ 13 ∷ [])
whole-Flow =
    reads 9 (bytes_read (13 ∷ []))
      (reads 2 (bytes_read (11 ∷ 12 ∷ [])) (publishes chunk true starts chunk_published) first_read)
      last_read

Flow-IsOrdered_example : IsOrdered all_read chunk (11 ∷ 12 ∷ 13 ∷ [])
Flow-IsOrdered_example = Flow-IsOrdered whole-Flow

-- ===== src/Sha256/Absorb.antt =====
-- src/stems/sha256.ts: what an update does to the bytes hashed so far.
use engine_web_adapter.Prelude.{
  ℕ, ◌+◌, ◌-◌, ◌*◌, ◌≤◌, ◌<◌, ◌≡◌, ◌≢◌, refl, sym, ap, subst, ◌∙◌, ◌⊎◌, inl, inr, ◌==◌, ==_iff,
  if_elim, min, List, [], ◌++◌, append_assoc, append-nil, arith, length, take, subarray, set_at,
  length-append, length-set_at, length-subarray, take-set_at, take_past, subarray_front,
}
use engine_web_adapter.Sha256.{Words, initial}
use engine_web_adapter.Sha256.Hasher.{Backend, Hasher, compress, fill}
use engine_web_adapter.Sha256.Padding.{run}
use engine_web_adapter.Sha256.Runs.{IsSha256, run-append, compress-run}

-- The state is that of the whole blocks of the message, and the block holds what is left of it.
pub record IsHeld (state : Words) (block : List ℕ) (held : ℕ) (message : List ℕ) : Type 0 where
  pub whole : List ℕ
  pub tail : List ℕ
  pub blocks : ℕ
  pub joined : whole ++ tail ≡ message
  pub aligned : length whole ≡ blocks * 64
  pub hashed : state ≡ run initial whole blocks
  pub kept : take held block ≡ tail
  pub room : held < 64
  pub size : length block ≡ 64

-- One more block behind whole blocks.
pub run-one :
    (backend : Backend) (s : Words) (whole block : List ℕ) (q : ℕ)
    → IsSha256 backend
    → length whole ≡ q * 64
    → length block ≡ 64
    → s ≡ run initial whole q
    → compress backend s block 0 1 ≡ run initial (whole ++ block) (q + 1)
run-one backend s whole block q same aligned size hashed =
    compress-run backend s block 0 1 same (omega arith)
    ∙ ap (λ w. run w block 1) hashed
    ∙ sym (run-append q initial whole block 1 aligned)

abbrev pub IsFilled : Hasher → List ℕ → List ℕ → Hasher × ℕ → Type 0
IsFilled s message bytes r =
    IsHeld (r.0).state (r.0).block (r.0).block_bytes (message ++ take r.1 bytes)
    × (r.1 ≤ length bytes)
    × (((r.0).block_bytes ≡ 0) ⊎ (r.1 ≡ length bytes))
    × ((r.0).total_bytes ≡ s.total_bytes)
    × ((r.0).finished ≡ s.finished)

module _ (backend : Backend) (same : IsSha256 backend) (s : Hasher) (message bytes : List ℕ)
    (h : IsHeld s.state s.block s.block_bytes message) where
  abbrev count : ℕ
  count = min (64 - s.block_bytes) (length bytes)

  abbrev filled : List ℕ
  filled = set_at s.block s.block_bytes (subarray bytes 0 count)

  count_length : length (subarray bytes 0 count) ≡ count
  count_length = omega (arith, length-subarray bytes 0 count)

  front_filled : take (s.block_bytes + count) filled ≡ h.tail ++ take count bytes
  front_filled =
      take-set_at s.block s.block_bytes (subarray bytes 0 count) (s.block_bytes + count)
        (omega (arith, count_length)) (omega (arith, h.room, h.size))
      ∙ ap (λ t. t ++ subarray bytes 0 count) h.kept
      ∙ ap (λ b. h.tail ++ b) (subarray_front bytes count)

  filled_size : length filled ≡ 64
  filled_size =
      length-set_at s.block (subarray bytes 0 count) s.block_bytes
        (omega (arith, count_length, h.room, h.size))
      ∙ h.size

  longer : h.whole ++ (h.tail ++ take count bytes) ≡ message ++ take count bytes
  longer =
      sym (append_assoc h.whole h.tail (take count bytes))
      ∙ ap (λ m. m ++ take count bytes) h.joined

  whole_block : s.block_bytes + count ≡ 64 → filled ≡ h.tail ++ take count bytes
  whole_block full =
      sym (take_past (s.block_bytes + count) filled (omega (arith, filled_size))) ∙ front_filled

  -- The block is full: it is compressed, and nothing is left in it.
  fill_whole :
      s.block_bytes + count ≡ 64
      → IsFilled s message bytes (
        record s { block = filled; block_bytes = 0; state = compress backend s.state filled 0 1 },
        count,
      )
  fill_whole full = (
    record {
      whole = h.whole ++ filled;
      tail = [];
      blocks = h.blocks + 1;
      joined = append-nil (h.whole ++ filled) ∙ ap (λ b. h.whole ++ b) (whole_block full) ∙ longer;
      aligned = omega (arith, length-append h.whole filled, h.aligned, filled_size);
      hashed = run-one backend s.state h.whole filled h.blocks same h.aligned filled_size h.hashed;
      kept = refl;
      room = omega arith;
      size = filled_size;
    },
    omega arith,
    inl refl,
    refl,
    refl,
  )

  -- The block is not full: the chunk is at its end.
  fill_part :
      s.block_bytes + count ≢ 64
      → IsFilled s message bytes
          (record s { block = filled; block_bytes = s.block_bytes + count }, count)
  fill_part open_ = (
    record {
      whole = h.whole;
      tail = h.tail ++ take count bytes;
      blocks = h.blocks;
      joined = longer;
      aligned = h.aligned;
      hashed = h.hashed;
      kept = front_filled;
      room = ground (arith, h.room);
      size = filled_size;
    },
    omega arith,
    inr (ground (arith, h.room)),
    refl,
    refl,
  )

  pub fill-IsFilled : IsFilled s message bytes (fill backend s bytes)
  unfolding fill
  fill-IsFilled =
      if_elim (IsFilled s message bytes) (s.block_bytes == 0)
        (λ empty. (
          subst (IsHeld s.state s.block s.block_bytes) (sym (append-nil message)) h,
          omega arith,
          inl ((==_iff s.block_bytes 0).0 empty),
          refl,
          refl,
        ))
        (λ begun.
          if_elim (IsFilled s message bytes) (s.block_bytes + count == 64)
            (λ full. fill_whole ((==_iff (s.block_bytes + count) 64).0 full))
            (λ open_. fill_part (ground arith)))

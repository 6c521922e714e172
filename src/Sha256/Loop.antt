-- ===== src/Sha256/Loop.antt =====
-- src/stems/sha256.ts: the loop of `update` over whole blocks, and the whole of `update`.
use engine_web_adapter.Prelude.{
  ℕ, zero, suc, ◌+◌, ◌-◌, ◌*◌, ◌/◌, ◌≤◌, ◌<◌, ◌≡◌, refl, sym, ap, ◌∙◌, inl, inr, false, leb, ltb,
  if_elim, Bool-cases, leb→le, min, List, [], ◌++◌, append_assoc, append-nil, arith, length, take,
  drop, subarray, length-take, length-drop, length-append, length-set_at, take-set_at, take_past,
  take-split, take-append-drop, subarray_rest,
}
use engine_web_adapter.Sha256.{Words, initial}
use engine_web_adapter.Sha256.Hasher.{Backend, Hasher, compress, batches, keep, max_blocks}
use engine_web_adapter.Sha256.Padding.{run}
use engine_web_adapter.Sha256.Runs.{IsSha256, run-append, run-take, compress-run}
use engine_web_adapter.Sha256.Absorb.{IsHeld}

-- The state is that of the bytes up to the offset, which end a block.
pub record IsRun (pre bytes : List ℕ) (r : Words × ℕ) : Type 0 where
  pub blocks : ℕ
  pub aligned : length (pre ++ take r.1 bytes) ≡ blocks * 64
  pub hashed : r.0 ≡ run initial (pre ++ take r.1 bytes) blocks
  pub inside : r.1 ≤ length bytes

module _ (backend : Backend) (same : IsSha256 backend) (pre bytes : List ℕ) where
  abbrev batch : ℕ → ℕ
  batch offset = min max_blocks ((length bytes - offset) / 64)

  abbrev grown : ℕ → List ℕ
  grown offset = pre ++ take (offset + batch offset * 64) bytes

  grown_lem :
      (offset : ℕ)
      → (pre ++ take offset bytes) ++ take (batch offset * 64) (drop offset bytes) ≡ grown offset
  grown_lem offset =
      append_assoc pre (take offset bytes) (take (batch offset * 64) (drop offset bytes))
      ∙ ap (λ b. pre ++ b) (take-split offset (batch offset * 64) bytes)

  batch-IsRun :
      (s : Words) (offset : ℕ)
      → offset + 64 ≤ length bytes
      → IsRun pre bytes (s, offset)
      → IsRun pre bytes (compress backend s bytes offset (batch offset), offset + batch offset * 64)
  batch-IsRun s offset more r =
      let chunk : List ℕ = take (batch offset * 64) (drop offset bytes) in
      record {
        blocks = r.blocks + batch offset;
        aligned =
            sym (ap length (grown_lem offset))
            ∙ omega (
              arith,
              length-append (pre ++ take offset bytes) chunk,
              r.aligned,
              length-take (batch offset * 64) (drop offset bytes),
              length-drop offset bytes,
            );
        hashed =
            compress-run backend s bytes offset (batch offset) same (omega arith)
            ∙ sym (
                run-take (batch offset) s (drop offset bytes)
                  (omega (arith, length-drop offset bytes)))
            ∙ ap (λ w. run w chunk (batch offset)) r.hashed
            ∙ sym (
                run-append r.blocks initial (pre ++ take offset bytes) chunk (batch offset)
                  r.aligned)
            ∙ ap (λ b. run initial b (r.blocks + batch offset)) (grown_lem offset);
        inside = omega arith;
      }

  abbrev Ends : Words × ℕ → Type 0
  Ends r = IsRun pre bytes r × (length bytes < r.1 + 64)

  pub batches-IsRun :
      (fuel : ℕ) (s : Words) (offset : ℕ)
      → length bytes < offset + fuel
      → IsRun pre bytes (s, offset)
      → Ends (batches fuel backend s bytes offset)
  unfolding batches
  batches-IsRun zero s offset enough r = absurd (omega (arith, r.inside))
  batches-IsRun (suc fuel) s offset enough r =
      elim (Bool-cases (leb (offset + 64) (length bytes))) [
        | inl more ↦
            rw (more, batches)
              (batches-IsRun fuel (compress backend s bytes offset (batch offset))
                (offset + batch offset * 64) (ground arith)
                (batch-IsRun s offset (leb→le (offset + 64) (length bytes) more) r))
        | inr done ↦ rw (done, batches) (r, ground arith)
      ]

-- With nothing left the loop does nothing.
pub batches_end :
    (fuel : ℕ) (backend : Backend) (s : Words) (bytes : List ℕ) (offset : ℕ)
    → offset ≡ length bytes
    → batches fuel backend s bytes offset ≡ (s, offset)
unfolding batches
batches_end zero backend s bytes offset e = refl
batches_end (suc fuel) backend s bytes offset e =
    let stop : leb (offset + 64) (length bytes) ≡ false = ground arith in rw (stop, batches) refl

-- What the last part leaves, from a state at the end of a block.
pub keep-IsHeld :
    (s : Hasher) (pre bytes : List ℕ) (offset : ℕ)
    → IsRun pre bytes (s.state, offset)
    → length bytes < offset + 64
    → s.block_bytes ≡ 0
    → length s.block ≡ 64
    → IsHeld
        (keep s bytes offset).state
        (keep s bytes offset).block
        (keep s bytes offset).block_bytes
        (pre ++ bytes)
unfolding keep
keep-IsHeld s pre bytes offset r near empty size =
    if_elim (λ (k : Hasher). IsHeld k.state k.block k.block_bytes (pre ++ bytes))
      (ltb offset (length bytes))
      (λ some_left. record {
        whole = pre ++ take offset bytes;
        tail = drop offset bytes;
        blocks = r.blocks;
        joined =
            append_assoc pre (take offset bytes) (drop offset bytes)
            ∙ ap (λ b. pre ++ b) (take-append-drop offset bytes);
        aligned = r.aligned;
        hashed = r.hashed;
        kept =
            take-set_at s.block 0 (subarray bytes offset (length bytes)) (length bytes - offset)
              (omega (arith, ap length (subarray_rest bytes offset), length-drop offset bytes))
              (omega arith)
            ∙ subarray_rest bytes offset;
        room = omega arith;
        size =
            length-set_at s.block (subarray bytes offset (length bytes)) 0
              (omega (arith, ap length (subarray_rest bytes offset), length-drop offset bytes))
            ∙ size;
      })
      (λ none_left. record {
        whole = pre ++ take offset bytes;
        tail = [];
        blocks = r.blocks;
        joined =
            append-nil (pre ++ take offset bytes)
            ∙ ap (λ b. pre ++ b) (take_past offset bytes (ground arith));
        aligned = r.aligned;
        hashed = r.hashed;
        kept = ap (λ n. take n s.block) empty;
        room = omega arith;
        size = size;
      })

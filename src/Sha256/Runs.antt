-- ===== src/Sha256/Runs.antt =====
-- The compression of several blocks, as a run of the specification.
use engine_web_adapter.Prelude.{
  ℕ, zero, suc, ◌+◌, ◌*◌, ◌≤◌, ◌≡◌, refl, sym, ap, ◌∙◌, List, [], ◌∷◌, ◌++◌, arith, length, take,
  drop, subarray, suc_add, zero_add, add_zero, subarray-take, length-drop, length-take, take-append,
  drop-append, drop-drop, take-append-drop,
}
use engine_web_adapter.Sha256.{Words, compress_block, compress_js}
use engine_web_adapter.Sha256.Hasher.{Backend, js, wasm, compress}
use engine_web_adapter.Sha256.Padding.{run}

-- What the code relies on of the WebAssembly function: it compresses like the JavaScript one.
abbrev pub IsSha256 : Backend → Type 0
IsSha256 js = Unit {0}
IsSha256 (wasm f) =
    (s : Words) (bytes : List ℕ) (blocks : ℕ) → f s bytes blocks ≡ compress_js s bytes 0 blocks

compress_js-run :
    (blocks : ℕ) (s : Words) (bytes : List ℕ) (offset : ℕ)
    → compress_js s bytes offset blocks ≡ run s (drop offset bytes) blocks
unfolding compress_js run
compress_js-run zero s bytes offset = refl
compress_js-run (suc blocks) s bytes offset =
    ap (λ b. compress_js (compress_block s b) bytes (offset + 64) blocks)
      (subarray-take bytes offset 64)
    ∙ compress_js-run blocks (compress_block s (take 64 (drop offset bytes))) bytes (offset + 64)
    ∙ ap (λ r. run (compress_block s (take 64 (drop offset bytes))) r blocks)
        (sym (drop-drop offset 64 bytes))

pub run-append :
    (q : ℕ) (s : Words) (front back : List ℕ) (r : ℕ)
    → length front ≡ q * 64
    → run s (front ++ back) (q + r) ≡ run (run s front q) back r
unfolding run
run-append zero s [] back r e = ap (run s back) (zero_add r)
run-append zero s (x ∷ front) back r e = absurd (omega arith)
run-append (suc q) s front back r e =
    ap (run s (front ++ back)) (sym (suc_add q r))
    ∙ ap (λ b. run (compress_block s b) (drop 64 (front ++ back)) (q + r))
        (take-append 64 front back (omega arith))
    ∙ ap (λ b. run (compress_block s (take 64 front)) b (q + r))
        (drop-append 64 front back (omega arith))
    ∙ run-append q (compress_block s (take 64 front)) (drop 64 front) back r
        (omega (arith, length-drop 64 front))

-- Blocks behind the run do not matter.
pub run-take :
    (q : ℕ) (s : Words) (bytes : List ℕ)
    → q * 64 ≤ length bytes
    → run s (take (q * 64) bytes) q ≡ run s bytes q
unfolding run
run-take q s bytes inside = sym (
    ap (λ b. run s b q) (sym (take-append-drop (q * 64) bytes))
    ∙ ap (run s (take (q * 64) bytes ++ drop (q * 64) bytes)) (add_zero q)
    ∙ run-append q s (take (q * 64) bytes) (drop (q * 64) bytes) 0
        (omega (arith, length-take (q * 64) bytes)))

-- Either backend compresses the blocks from an offset on.
pub compress-run :
    (backend : Backend) (s : Words) (bytes : List ℕ) (offset blocks : ℕ)
    → IsSha256 backend
    → offset + blocks * 64 ≤ length bytes
    → compress backend s bytes offset blocks ≡ run s (drop offset bytes) blocks
unfolding compress
compress-run js s bytes offset blocks same inside = compress_js-run blocks s bytes offset
compress-run (wasm f) s bytes offset blocks same inside =
    same s (subarray bytes offset (offset + blocks * 64)) blocks
    ∙ compress_js-run blocks s (subarray bytes offset (offset + blocks * 64)) 0
    ∙ ap (λ b. run s b blocks) (subarray-take bytes offset (blocks * 64))
    ∙ run-take blocks s (drop offset bytes) (omega (arith, length-drop offset bytes))

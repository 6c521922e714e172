-- ===== src/Sha256/Hasher.antt =====
-- src/stems/sha256.ts, `IncrementalSha256`.
use engine_web_adapter.Prelude.{
  ℕ, zero, suc, ◌+◌, ◌-◌, ◌*◌, ◌/◌, ◌%◌, ◌^◌, Bool, true, false, leb, ltb, ◌==◌, if◌then◌else◌, min,
  List, [], ◌∷◌, ◌++◌, length, replicate, subarray, set_at,
}
use engine_web_adapter.Errors.{plain_error, Result, ok, err}
use engine_web_adapter.Sha256.{Words, initial, compress_js}

-- `compressionBackend()`; `wasm f` is the instance of the WebAssembly module, called with the state,
-- the bytes that were copied into its memory and their number of blocks.
pub data Backend : Type 0 where
  js : Backend
  wasm : (Words → List ℕ → ℕ → Words) → Backend

-- `#compress`.
unfoldable pub compress : Backend → Words → List ℕ → ℕ → ℕ → Words
unfolding compress_js
compress js s bytes offset blocks = compress_js s bytes offset blocks
compress (wasm f) s bytes offset blocks = f s (subarray bytes offset (offset + blocks * 64)) blocks

-- The fields of the class; `#words` is scratch of the compression.
pub record Hasher : Type 0 where
  pub state : Words
  pub block : List ℕ
  pub block_bytes : ℕ
  pub total_bytes : ℕ
  pub finished : Bool

unfoldable pub fresh : Hasher
unfolding initial
fresh = record {
  state = initial;
  block = replicate 64 0;
  block_bytes = 0;
  total_bytes = 0;
  finished = false;
}

-- `SHA256_WASM_MAX_BLOCKS`.
abbrev pub max_blocks : ℕ
max_blocks = 256

-- The first part of `update`: a block that was begun takes bytes first. With the offset behind them.
unfoldable pub fill : Backend → Hasher → List ℕ → Hasher × ℕ
unfolding compress
fill backend s bytes =
    let count = min (64 - s.block_bytes) (length bytes) in
    let block = set_at s.block s.block_bytes (subarray bytes 0 count) in
    if s.block_bytes == 0
    then (s, 0)
    else if s.block_bytes + count == 64
    then (
      record s { block = block; block_bytes = 0; state = compress backend s.state block 0 1 },
      count,
    )
    else (record s { block = block; block_bytes = s.block_bytes + count }, count)

-- The loop of `update` over whole blocks, with the offset behind them.
unfoldable pub batches : ℕ → Backend → Words → List ℕ → ℕ → Words × ℕ
unfolding compress
batches zero backend s bytes offset = (s, offset)
batches (suc fuel) backend s bytes offset =
    let count = min max_blocks ((length bytes - offset) / 64) in
    let more =
      batches fuel backend (compress backend s bytes offset count) bytes (offset + count * 64) in
    elim (leb (offset + 64) (length bytes)) [ true ↦ more | false ↦ (s, offset) ]

-- The last part of `update`: what is left begins a block.
unfoldable pub keep : Hasher → List ℕ → ℕ → Hasher
keep s bytes offset =
    if ltb offset (length bytes)
    then record s {
      block = set_at s.block 0 (subarray bytes offset (length bytes));
      block_bytes = length bytes - offset;
    }
    else s

-- `update`; each round of the loop takes 64 bytes at least, so its length is fuel enough.
unfoldable pub absorb : Backend → Hasher → List ℕ → Hasher
unfolding fill batches keep
absorb backend s bytes =
    let filled = fill backend s bytes in
    let run = batches (length bytes + 1) backend (filled.0).state bytes filled.1 in
    keep (record (filled.0) { state = run.0 }) bytes run.1

unfoldable pub update : Backend → Hasher → List ℕ → Result Hasher
unfolding absorb
update backend s bytes =
    if s.finished
    then err plain_error
    else ok (absorb backend (record s { total_bytes = s.total_bytes + length bytes }) bytes)

-- `setUint32(offset, value, false)`, as the four bytes.
abbrev pub big_endian : ℕ → List ℕ
big_endian value =
    value / 2 ^ 24 % 256 ∷ value / 2 ^ 16 % 256 ∷ value / 2 ^ 8 % 256 ∷ value % 256 ∷ []

-- The digest of a state.
abbrev pub output : Words → List ℕ
output s =
    big_endian s.a
    ++ big_endian s.b
    ++ big_endian s.c
    ++ big_endian s.d
    ++ big_endian s.e
    ++ big_endian s.f
    ++ big_endian s.g
    ++ big_endian s.h

-- `this.#block[this.#blockBytes++] = 0x80`, and the block that this may fill up.
unfoldable pub mark_end : Backend → Hasher → Hasher
unfolding compress
mark_end backend s =
    let block = set_at s.block s.block_bytes (0x80 ∷ []) in
    let used = s.block_bytes + 1 in
    let padded = set_at block used (replicate (64 - used) 0) in
    if ltb 56 used
    then record s { block = padded; block_bytes = 0; state = compress backend s.state padded 0 1 }
    else record s { block = block; block_bytes = used }

-- The zeros and the bit length.
unfoldable pub last_block : Hasher → List ℕ
last_block s =
    let bit_length = s.total_bytes * 8 in
    let zeros = set_at s.block s.block_bytes (replicate (56 - s.block_bytes) 0) in
    let high = set_at zeros 56 (big_endian (bit_length / 2 ^ 32 % 2 ^ 32)) in
    set_at high 60 (big_endian (bit_length % 2 ^ 32))

-- `digest`.
unfoldable pub digest : Backend → Hasher → Result (List ℕ × Hasher)
unfolding mark_end last_block compress
digest backend s =
    let marked = mark_end backend s in
    let state = compress backend marked.state (last_block marked) 0 1 in
    if s.finished
    then err plain_error
    else ok
        (output state, record marked { block = last_block marked; state = state; finished = true })

-- Updates with one chunk after the other.
unfoldable pub update_all : Backend → Hasher → List (List ℕ) → Result Hasher
unfolding update
update_all backend s [] = ok s
update_all backend s (chunk ∷ chunks) = elim (update backend s chunk) [
  | ok next ↦ update_all backend next chunks
  | err thrown ↦ err thrown
]

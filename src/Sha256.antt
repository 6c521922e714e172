-- ===== src/Sha256.antt =====
-- src/stems/sha256.ts: the compression function of SHA-256 in JavaScript. A 32-bit word is a number
-- below 2 ^ 32; where the source keeps a signed int32 between two operations, the model keeps the
-- same bits unsigned.
pub mod Hasher
pub mod Padding
pub mod Runs
mod Absorb
mod Loop
pub mod Update
pub mod Finish
mod Tests
use Prim.Native.Nat.{bit_and, bit_or, bit_xor}
use engine_web_adapter.Prelude.{
  ℕ, zero, suc, ◌+◌, ◌-◌, ◌*◌, ◌/◌, ◌%◌, ◌^◌, List, [], ◌∷◌, ◌++◌, length, get_or, take, subarray,
}

-- `INITIAL`, and the eight words of `#state`.
pub record Words : Type 0 where
  pub a : ℕ
  pub b : ℕ
  pub c : ℕ
  pub d : ℕ
  pub e : ℕ
  pub f : ℕ
  pub g : ℕ
  pub h : ℕ

unfoldable pub initial : Words
initial = record {
  a = 0x6a09e667;
  b = 0xbb67ae85;
  c = 0x3c6ef372;
  d = 0xa54ff53a;
  e = 0x510e527f;
  f = 0x9b05688c;
  g = 0x1f83d9ab;
  h = 0x5be0cd19;
}

-- `ROUND`.
unfoldable pub round_constants : List ℕ
round_constants =
    0x428a2f98 ∷ 0x71374491 ∷ 0xb5c0fbcf ∷ 0xe9b5dba5 ∷ 0x3956c25b ∷ 0x59f111f1 ∷ 0x923f82a4
    ∷ 0xab1c5ed5 ∷ 0xd807aa98 ∷ 0x12835b01 ∷ 0x243185be ∷ 0x550c7dc3 ∷ 0x72be5d74 ∷ 0x80deb1fe
    ∷ 0x9bdc06a7 ∷ 0xc19bf174 ∷ 0xe49b69c1 ∷ 0xefbe4786 ∷ 0x0fc19dc6 ∷ 0x240ca1cc ∷ 0x2de92c6f
    ∷ 0x4a7484aa ∷ 0x5cb0a9dc ∷ 0x76f988da ∷ 0x983e5152 ∷ 0xa831c66d ∷ 0xb00327c8 ∷ 0xbf597fc7
    ∷ 0xc6e00bf3 ∷ 0xd5a79147 ∷ 0x06ca6351 ∷ 0x14292967 ∷ 0x27b70a85 ∷ 0x2e1b2138 ∷ 0x4d2c6dfc
    ∷ 0x53380d13 ∷ 0x650a7354 ∷ 0x766a0abb ∷ 0x81c2c92e ∷ 0x92722c85 ∷ 0xa2bfe8a1 ∷ 0xa81a664b
    ∷ 0xc24b8b70 ∷ 0xc76c51a3 ∷ 0xd192e819 ∷ 0xd6990624 ∷ 0xf40e3585 ∷ 0x106aa070 ∷ 0x19a4c116
    ∷ 0x1e376c08 ∷ 0x2748774c ∷ 0x34b0bcb5 ∷ 0x391c0cb3 ∷ 0x4ed8aa4a ∷ 0x5b9cca4f ∷ 0x682e6ff3
    ∷ 0x748f82ee ∷ 0x78a5636f ∷ 0x84c87814 ∷ 0x8cc70208 ∷ 0x90befffa ∷ 0xa4506ceb ∷ 0xbef9a3f7
    ∷ 0xc67178f2 ∷ []

abbrev word : ℕ → ℕ
word n = n % 2 ^ 32

-- `rotateRight`.
unfoldable pub rotate_right : ℕ → ℕ → ℕ
rotate_right value count = bit_or (value / 2 ^ count) (word (value * 2 ^ (32 - count)))

abbrev pub xor3 : ℕ → ℕ → ℕ → ℕ
xor3 x y z = bit_xor (bit_xor x y) z

-- `view.getUint32(offset, false)`.
abbrev pub word_at : List ℕ → ℕ → ℕ
word_at bytes offset =
    ((get_or bytes offset 0 * 256 + get_or bytes (offset + 1) 0) * 256
        + get_or bytes (offset + 2) 0)
      * 256
    + get_or bytes (offset + 3) 0

-- The first 16 words of the schedule.
unfoldable pub block_words : ℕ → ℕ → List ℕ → List ℕ
block_words zero offset bytes = []
block_words (suc n) offset bytes = word_at bytes offset ∷ block_words n (offset + 4) bytes

-- The word at the index that is the length of the words before it.
unfoldable pub next_word : List ℕ → ℕ
unfolding rotate_right
next_word words =
    let index = length words in
    let before15 = get_or words (index - 15) 0 in
    let before2 = get_or words (index - 2) 0 in
    let sigma0 = xor3 (rotate_right before15 7) (rotate_right before15 18) (before15 / 2 ^ 3) in
    let sigma1 = xor3 (rotate_right before2 17) (rotate_right before2 19) (before2 / 2 ^ 10) in
    word (get_or words (index - 16) 0 + sigma0 + get_or words (index - 7) 0 + sigma1)

-- The loop from index 16 on.
unfoldable pub extend : ℕ → List ℕ → List ℕ
unfolding next_word
extend zero words = words
extend (suc n) words = extend n (words ++ (next_word words ∷ []))

-- The body of the loop over the rounds.
unfoldable pub round : ℕ → ℕ → Words → Words
unfolding rotate_right
round constant scheduled s =
    let sum1 = xor3 (rotate_right s.e 6) (rotate_right s.e 11) (rotate_right s.e 25) in
    let choose = bit_xor (bit_and s.e s.f) (bit_and (2 ^ 32 - 1 - s.e) s.g) in
    let temporary1 = word (s.h + sum1 + choose + constant + scheduled) in
    let sum0 = xor3 (rotate_right s.a 2) (rotate_right s.a 13) (rotate_right s.a 22) in
    let majority = xor3 (bit_and s.a s.b) (bit_and s.a s.c) (bit_and s.b s.c) in
    let temporary2 = word (sum0 + majority) in
    record {
      a = word (temporary1 + temporary2);
      b = s.a;
      c = s.b;
      d = s.c;
      e = word (s.d + temporary1);
      f = s.e;
      g = s.f;
      h = s.g;
    }

unfoldable pub rounds : List ℕ → List ℕ → Words → Words
unfolding round
rounds [] words s = s
rounds (k ∷ ks) [] s = s
rounds (k ∷ ks) (w ∷ ws) s = rounds ks ws (round k w s)

-- The body of the loop of `#compressJs`, for one block of 64 bytes.
unfoldable pub compress_block : Words → List ℕ → Words
unfolding rounds extend block_words round_constants
compress_block s block =
    let r = rounds round_constants (extend 48 (block_words 16 0 block)) s in
    record {
      a = word (s.a + r.a);
      b = word (s.b + r.b);
      c = word (s.c + r.c);
      d = word (s.d + r.d);
      e = word (s.e + r.e);
      f = word (s.f + r.f);
      g = word (s.g + r.g);
      h = word (s.h + r.h);
    }

-- `#compressJs`.
unfoldable pub compress_js : Words → List ℕ → ℕ → ℕ → Words
unfolding compress_block
compress_js s bytes offset zero = s
compress_js s bytes offset (suc blocks) =
    compress_js (compress_block s (subarray bytes offset (offset + 64))) bytes (offset + 64) blocks

-- ===== src/Sha256/Padding.antt =====
-- SHA-256 as it is specified: the padded message, and its blocks one after the other.
use engine_web_adapter.Prelude.{
  ℕ, zero, suc, ◌-◌, ◌*◌, ◌/◌, ◌%◌, ◌^◌, List, ◌∷◌, ◌++◌, length, replicate, take, drop,
}
use engine_web_adapter.Sha256.{Words, initial, compress_block}
use engine_web_adapter.Sha256.Hasher.{big_endian, output}

-- The state after the first `blocks` blocks of the bytes.
unfoldable pub run : Words → List ℕ → ℕ → Words
run s bytes zero = s
run s bytes (suc blocks) = run (compress_block s (take 64 bytes)) (drop 64 bytes) blocks

-- The fewest zeros that leave room for eight bytes at the end of a block.
abbrev pub zeros_for : ℕ → ℕ
zeros_for bytes = (119 - bytes % 64) % 64

-- The message, a one bit, zeros, and the length in bits as 64 bits.
unfoldable pub padded : List ℕ → List ℕ
padded message =
    message
    ++ (0x80
        ∷ (replicate (zeros_for (length message)) 0
            ++ (big_endian (length message * 8 / 2 ^ 32 % 2 ^ 32)
                ++ big_endian (length message * 8 % 2 ^ 32))))

unfoldable pub sha256 : List ℕ → List ℕ
unfolding run padded initial
sha256 message = output (run initial (padded message) (length (padded message) / 64))

-- ===== src/DecoderSource.antt =====
-- src/stems/decoder-byte-source.ts: the two sources of encoded bytes of a FLAC decoder.
mod Finite
mod Grown
mod Prepare
mod Held
mod Verified
mod Fuel
mod Ranged
mod Served
mod Tests
mod RangedTests
use engine_web_adapter.Prelude.{ℕ, List, [], ◌∷◌, ◌++◌, ◌/◌, ◌%◌, codes, Text, get_or}

-- The `operation` of `DecoderByteSourceError`.
pub data Operation : Type 0 where
  preparing reading finishing : Operation

-- The result of an effect of a source.
pub data Outcome (A : Type 0) : Type 0 where
  done : A → Outcome A
  failed : Operation → Outcome A

-- `byte.toString(16).padStart(2, "0")`.
abbrev hex_digit : ℕ → ℕ
hex_digit n = get_or (codes "0123456789abcdef") n 0

abbrev hex_byte : ℕ → Text
hex_byte byte = hex_digit (byte / 16 % 16) ∷ hex_digit (byte % 16) ∷ []

-- The text of `digestHex`.
unfoldable pub hex_text : List ℕ → Text
hex_text [] = []
hex_text (byte ∷ bytes) = hex_byte byte ++ hex_text bytes

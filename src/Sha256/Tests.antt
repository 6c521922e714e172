-- ===== src/Sha256/Tests.antt =====
-- Digests of known messages, and of a message in three chunks over WebAssembly.
use engine_web_adapter.Prelude.{◌≡◌, refl, List, [], ◌∷◌, take, codes, replicate, ℕ}
use engine_web_adapter.Errors.{ok}
use engine_web_adapter.Sha256.{compress_js, compress_block}
use engine_web_adapter.Sha256.Hasher.{Hasher, Backend, wasm, fresh, update_all, digest}
use engine_web_adapter.Sha256.Padding.{sha256}
use engine_web_adapter.Sha256.Runs.{IsSha256}
use engine_web_adapter.Sha256.Update.{concat}
use engine_web_adapter.Sha256.Finish.{digest_of_chunks}

abc_digest :
    take 8 (sha256 (codes "abc")) ≡ 0xba ∷ 0x78 ∷ 0x16 ∷ 0xbf ∷ 0x8f ∷ 0x01 ∷ 0xcf ∷ 0xea ∷ []
unfolding sha256 compress_block
abc_digest = refl

empty_digest : take 4 (sha256 []) ≡ 0xe3 ∷ 0xb0 ∷ 0xc4 ∷ 0x42 ∷ []
unfolding sha256 compress_block
empty_digest = refl

-- A module that does what its export is documented to do.
abbrev native : Backend
native = wasm (λ s bytes blocks. compress_js s bytes 0 blocks)

abbrev three_chunks : List (List ℕ)
three_chunks = replicate 60 1 ∷ replicate 70 2 ∷ [] ∷ []

native-IsSha256 : IsSha256 native
native-IsSha256 = λ s bytes blocks. refl

digest_of_chunks_example :
    (s final : Hasher) × (update_all native fresh three_chunks ≡ ok s)
    × (digest native s ≡ ok (sha256 (concat three_chunks), final))
digest_of_chunks_example = digest_of_chunks native three_chunks native-IsSha256

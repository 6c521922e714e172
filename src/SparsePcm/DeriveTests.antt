-- ===== src/SparsePcm/DeriveTests.antt =====
-- src/stems/sparse-pcm.ts: the index of five sounding frames out of ten.
use engine_web_adapter.Prelude.{ℕ, ◌≡◌, refl, List, [], ◌∷◌, ◌++◌, codes, replicate, Text}
use engine_web_adapter.Errors.{err}
use engine_web_adapter.Json.{number}
use engine_web_adapter.SparseFormat.{corrupt, Manifest}
use engine_web_adapter.SparseFormat.Encode.{manifest_value}
use engine_web_adapter.SparsePcm.{Index}
use engine_web_adapter.SparsePcm.Derive.{numbered, push_interval, derive_index}

abbrev hash : Text
hash = replicate 64 b'c'

abbrev stem : Manifest
stem = record {
  identity = codes "blake3:" ++ hash;
  sample_rate_hz = 44100;
  channels = 1;
  bit_depth = 16;
  frames = 10;
  intervals =
      record { start_frame = 2; frames = 3; packed_frame_offset = 0 }
      ∷ record { start_frame = 6; frames = 2; packed_frame_offset = 3 }
      ∷ [];
  chunks =
      record {
        offset = 0;
        bytes = 40;
        frames = 5;
        packed_start_frame = 0;
        flac_sha256 = hash;
        pcm_sha256 = hash;
      }
      ∷ [];
}

abbrev packed : List ℕ
packed = 1 ∷ 2 ∷ 3 ∷ 4 ∷ 5 ∷ 6 ∷ 7 ∷ 8 ∷ 9 ∷ 10 ∷ []

abbrev derived : Index
derived = record {
  identity = codes "blake3:" ++ hash;
  sample_rate_hz = 44100;
  channels = 1;
  bit_depth = 16;
  frames = 10;
  intervals =
      record { start_frame = 2; frames = 3; byte_offset = 0 }
      ∷ record { start_frame = 6; frames = 2; byte_offset = 6 }
      ∷ [];
  active_bytes = 10;
  canonical_bytes = 20;
}

short_refused : derive_index (manifest_value stem) (numbered (number 9)) ≡ err corrupt
unfolding derive_index manifest_value
short_refused = refl

touching_merged :
    push_interval
      (record { start_frame = 2; frames = 3; byte_offset = 0 } ∷ [])
      (record { start_frame = 5; frames = 1; byte_offset = 6 })
    ≡ record { start_frame = 2; frames = 4; byte_offset = 0 } ∷ []
unfolding push_interval
touching_merged = refl

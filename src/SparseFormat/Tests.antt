-- ===== src/SparseFormat/Tests.antt =====
-- The validator of sparse stem manifests at concrete inputs.
use engine_web_adapter.Prelude.{◌≡◌, refl, [], ◌∷◌, none, some, Text, replicate, codes, ◌++◌}
use engine_web_adapter.Errors.{ok, err}
use engine_web_adapter.SparseFormat.{Manifest, corrupt}
use engine_web_adapter.SparseFormat.Encode.{manifest_value}
use engine_web_adapter.SparseFormat.Validate.{validate_manifest}
use engine_web_adapter.SparseFormat.Accept.{Accepted, validate_manifest-IsWellFormed}

abbrev hash : Text
hash = replicate 64 b'a'

-- Ten frames of which 2 ..< 5 and 6 ..< 8 sound, in one chunk.
abbrev pub sample : Manifest
sample = record {
  identity = codes "blake3:" ++ hash;
  sample_rate_hz = 48000;
  channels = 1;
  bit_depth = 16;
  frames = 10;
  intervals =
      record { start_frame = 2; frames = 3; packed_frame_offset = 0 }
      ∷ record { start_frame = 6; frames = 2; packed_frame_offset = 3 }
      ∷ [];
  chunks =
      record {
        offset = 0;
        bytes = 40;
        frames = 5;
        packed_start_frame = 0;
        flac_sha256 = hash;
        pcm_sha256 = hash;
      }
      ∷ [];
}

abbrev overlapping : Manifest
overlapping = record sample {
  intervals =
      record { start_frame = 2; frames = 3; packed_frame_offset = 0 }
      ∷ record { start_frame = 4; frames = 2; packed_frame_offset = 3 }
      ∷ [];
}

sample_accepted : validate_manifest (manifest_value sample) (some 40) ≡ ok sample
unfolding validate_manifest manifest_value
sample_accepted = refl

overlap_refused : validate_manifest (manifest_value overlapping) none ≡ err corrupt
unfolding validate_manifest manifest_value
overlap_refused = refl

short_payload_refused : validate_manifest (manifest_value sample) (some 39) ≡ err corrupt
unfolding validate_manifest manifest_value
short_payload_refused = refl

validate_manifest-IsWellFormed_example : Accepted (some 40) sample
validate_manifest-IsWellFormed_example =
    validate_manifest-IsWellFormed (manifest_value sample) (some 40) sample sample_accepted

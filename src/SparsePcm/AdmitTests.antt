-- ===== src/SparsePcm/AdmitTests.antt =====
-- The admission of an index at a concrete value, and a read from it.
use engine_web_adapter.Prelude.{
  ℕ, ◌+◌, ◌≡◌, refl, true, List, [], ◌∷◌, ◌++◌, none, some, arith, codes, replicate, Text,
}
use engine_web_adapter.Errors.{ok, err}
use engine_web_adapter.Json.{Value, number, text, array, object, nil, cons, end, field}
use engine_web_adapter.SparseFormat.{corrupt}
use engine_web_adapter.SparsePcm.{Index, read_window}
use engine_web_adapter.SparsePcm.Serve.{Holds}
use engine_web_adapter.SparsePcm.Admit.{validate_index}
use engine_web_adapter.SparsePcm.Admitted.{validate_index-serves}

abbrev name : Text
name = codes "blake3:" ++ replicate 64 b'a'

abbrev interval : ℕ → ℕ → ℕ → Value
interval start count offset = object (
    field (codes "byteOffset") (number offset)
      (field (codes "frames") (number count) (field (codes "startFrame") (number start) end)))

-- Six frames of 16-bit mono: frames 1 ..< 3 sound, and one frame from `start` on.
abbrev draft : ℕ → Value
draft start = object (
    field (codes "format") (text (codes "miso_sparse_pcm_v1")) (
      field (codes "identity") (text name) (
        field (codes "sampleRateHz") (number 48000) (
          field (codes "channels") (number 1) (
            field (codes "bitDepth") (number 16) (
              field (codes "frames") (number 6) (
                field (codes "intervals")
                  (array (cons (interval 1 2 0) (cons (interval start 1 4) nil))) end)))))))

abbrev drafted : Index
drafted = record {
  identity = name;
  sample_rate_hz = 48000;
  channels = 1;
  bit_depth = 16;
  frames = 6;
  intervals =
      record { start_frame = 1; frames = 2; byte_offset = 0 }
      ∷ record { start_frame = 4; frames = 1; byte_offset = 4 }
      ∷ [];
  active_bytes = 6;
  canonical_bytes = 12;
}

draft_admitted : validate_index (draft 4) (some 6) ≡ ok drafted
unfolding validate_index
draft_admitted = refl

adjacent_refused : validate_index (draft 3) none ≡ err corrupt
unfolding validate_index
adjacent_refused = refl

validate_index-serves_example :
    (out : List ℕ) × (read_window true drafted
        (11 ∷ 12 ∷ 13 ∷ 14 ∷ 15 ∷ 16 ∷ [])
        (number 2)
        (number 3)
      ≡ ok out)
    × Holds 2 drafted.intervals (11 ∷ 12 ∷ 13 ∷ 14 ∷ 15 ∷ 16 ∷ []) 2 (2 + 3) out
validate_index-serves_example =
    validate_index-serves (draft 4) (some 6) drafted (11 ∷ 12 ∷ 13 ∷ 14 ∷ 15 ∷ 16 ∷ []) 2 3
      draft_admitted refl (omega arith) (omega arith) (omega arith)

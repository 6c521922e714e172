-- ===== src/SparsePcm/Tests.antt =====
-- The window read at a concrete index: six frames of 16-bit mono, of which 1 ..< 3 and 4 ..< 5 sound.
use engine_web_adapter.Prelude.{ℕ, List, [], ◌∷◌}
use engine_web_adapter.SparsePcm.{Index}

abbrev six : Index
six = record {
  identity = [];
  sample_rate_hz = 48000;
  channels = 1;
  bit_depth = 16;
  frames = 6;
  intervals =
      record { start_frame = 1; frames = 2; byte_offset = 0 }
      ∷ record { start_frame = 4; frames = 1; byte_offset = 4 }
      ∷ [];
  active_bytes = 6;
  canonical_bytes = 12;
}

abbrev sound : List ℕ
sound = 11 ∷ 12 ∷ 13 ∷ 14 ∷ 15 ∷ 16 ∷ []

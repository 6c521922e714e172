-- ===== src/Store/Taken.antt =====
-- src/stems/store.ts: a stem that is not stored is taken in, and room is made only as far as needed.
use engine_web_adapter.Prelude.{ℕ, ◌≡◌, true, none, List, [], ◌∷◌, ◌++◌}
use engine_web_adapter.Store.Ingest.{Pull, chunk, Intake, enough, Ensuring}

-- Chunks whose writes succeed, and their bytes.
pub data Chunks : List Pull → List ℕ → Type 0 where
  no_chunk : Chunks [] []
  more_chunks :
      (bytes : List ℕ) {pulls : List Pull} {rest : List ℕ}
      → Chunks pulls rest
      → Chunks (chunk bytes none ∷ pulls) (bytes ++ rest)

-- An ingest that meets no failure.
pub record IsSmooth (intake : Intake) : Type 0 where
  pub preparing : intake.preparing ≡ none
  pub starting : intake.starting ≡ none
  pub unpackaged : intake.package_digest ≡ none
  pub closing : intake.closing ≡ none
  pub moving : intake.moving ≡ none
  pub indexing : intake.indexing ≡ none

-- An `#ensure` that finds the stem not indexed, and then meets room enough and no failure.
pub record IsClear (x : Ensuring) (required : ℕ) : Type 0 where
  pub room : enough (x.available 0) required ≡ true
  pub smooth : IsSmooth x.intake
  pub owning : x.owning ≡ none

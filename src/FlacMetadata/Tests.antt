-- ===== src/FlacMetadata/Tests.antt =====
-- The scan of two metadata blocks, a VORBIS_COMMENT of 16 bytes and a final PADDING of 258 bytes.
use engine_web_adapter.Prelude.{ℕ, ◌≡◌, refl, true, false, List, [], ◌∷◌}
use engine_web_adapter.Errors.{ok, err}
use engine_web_adapter.FlacMetadata.{Header, Scanner, scanner, walk, invalid}
use engine_web_adapter.FlacMetadata.Walk.{IsWalked, walk-bounds}

abbrev two_blocks : List (List ℕ)
two_blocks = (4 ∷ 0 ∷ 0 ∷ 16 ∷ []) ∷ (129 ∷ 0 ∷ 1 ∷ 2 ∷ []) ∷ []

abbrev two_headers : List Header
two_headers =
    record { kind = 4; bytes = 16; final = false; offset = 42; next_offset = 62 }
    ∷ record { kind = 1; bytes = 258; final = true; offset = 62; next_offset = 324 }
    ∷ []

abbrev behind : Scanner
behind = record { next_offset = 324; block_count = 3; complete = true }

two_blocks_walked : walk 1000 two_blocks (scanner false) ≡ ok (two_headers, behind)
unfolding walk scanner
two_blocks_walked = refl

object_too_short : walk 324 two_blocks (scanner false) ≡ err invalid
unfolding walk scanner
object_too_short = refl

walk-bounds_example : IsWalked 1000 (scanner false) two_headers behind
walk-bounds_example = walk-bounds 1000 two_blocks false two_headers behind two_blocks_walked

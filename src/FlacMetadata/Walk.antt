-- ===== src/FlacMetadata/Walk.antt =====
-- A walk over any number of metadata headers stays inside the object and within the block limit.
use engine_web_adapter.Prelude.{
  ℕ, ◌+◌, ◌≤◌, ◌<◌, ◌≡◌, refl, sym, subst, Bool, false, List, [], ◌∷◌, arith, length,
}
use engine_web_adapter.Errors.{ok}
use engine_web_adapter.SparseFormat.Sound.{step_elim, ok_injective}
use engine_web_adapter.FlacMetadata.{Scanner, Header, scanner, accept_header, walk, max_blocks}

-- Headers that follow one another from `offset` to `stop`, each with a legal type, and its payload
-- and its end inside the object; `done` tells whether the last header was final, and none follows a
-- final one.
abbrev pub Chained : ℕ → ℕ → Bool → Bool → ℕ → List Header → Type 0
Chained total stop complete done offset [] = (offset ≡ stop) × (done ≡ complete)
Chained total stop complete done offset (h ∷ hs) =
    (done ≡ false)
    × (1 ≤ h.kind)
    × (h.kind ≤ 6)
    × (h.offset ≡ offset)
    × (h.next_offset ≡ offset + 4 + h.bytes)
    × (h.next_offset < total)
    × Chained total stop complete h.final h.next_offset hs

pub record IsWalked (total : ℕ) (before : Scanner) (hs : List Header) (s : Scanner) : Type 0 where
  pub chained : Chained total s.next_offset s.complete before.complete before.next_offset hs
  pub blocks : s.block_count ≡ before.block_count + length hs
  pub within : s.block_count ≤ max_blocks

pub accept_header_ok :
    (s next : Scanner) (bytes : List ℕ) (total : ℕ) (h : Header)
    → accept_header s bytes total ≡ ok (h, next)
    → (s.complete ≡ false)
      × (1 ≤ h.kind)
      × (h.kind ≤ 6)
      × (h.offset ≡ s.next_offset)
      × (h.next_offset ≡ s.next_offset + 4 + h.bytes)
      × (h.next_offset < total)
      × (next.complete ≡ h.final)
      × (next.next_offset ≡ h.next_offset)
      × (next.block_count ≡ s.block_count + 1)
      × (s.block_count < max_blocks)
unfolding accept_header
accept_header_ok s next bytes total h e = ground arith

walk-IsWalked :
    (total : ℕ) (input : List (List ℕ)) (before : Scanner) (r : List Header × Scanner)
    → before.block_count ≤ max_blocks
    → walk total input before ≡ ok r
    → IsWalked total before r.0 r.1
unfolding walk
walk-IsWalked total [] before r few e =
    subst (λ r. IsWalked total before r.0 r.1) (sym (ok_injective e))
      (record { chained = (refl, refl); blocks = omega arith; within = few })
walk-IsWalked total (bytes ∷ more) before r few e =
    step_elim (λ r. IsWalked total before r.0 r.1) (accept_header before bytes total)
      (λ first. walk total more first.1) (λ first rest. (first.0 ∷ rest.0, rest.1)) e
      λ first rest p q.
        let (open_, low, high, here, after, inside, done, place, counted, room) =
          accept_header_ok before first.1 bytes total first.0 p in
        let w = walk-IsWalked total more first.1 rest (omega arith) q in
        record {
          chained = (
            open_,
            low,
            high,
            here,
            after,
            inside,
            subst
                (λ d. Chained total rest.1.next_offset rest.1.complete d first.0.next_offset rest.0)
                done
                (subst
                  (λ n. Chained total rest.1.next_offset rest.1.complete first.1.complete n rest.0)
                  place w.chained),
          );
          blocks = omega (arith, w.blocks);
          within = w.within;
        }

-- A scan behind a STREAMINFO accepts headers that follow one another from byte 42 without a gap and
-- end before the end of the object, accepts none behind a final one, and, STREAMINFO included, no
-- more than 128 blocks.
pub walk-bounds :
    (total : ℕ) (input : List (List ℕ)) (final : Bool) (hs : List Header) (s : Scanner)
    → walk total input (scanner final) ≡ ok (hs, s)
    → IsWalked total (scanner final) hs s
unfolding scanner
walk-bounds total input final hs s e =
    walk-IsWalked total input (scanner final) (hs, s) (omega arith) e

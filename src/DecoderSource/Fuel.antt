-- ===== src/DecoderSource/Fuel.antt =====
-- src/stems/decoder-byte-source.ts: the loop of `prepare` over the metadata blocks ends.
use engine_web_adapter.Prelude.{
  ℕ, zero, suc, ◌+◌, ◌-◌, ◌≤◌, ◌<◌, ◌≡◌, refl, sym, ap, ◌∙◌, Bool, ◌==◌, if◌then◌else◌, List, arith,
  suc_add, if_elim,
}
use engine_web_adapter.Errors.{Result, ok, err}
use engine_web_adapter.FlacMetadata.{max_blocks, Scanner, Header, scanner, accept_header}
use engine_web_adapter.FlacMetadata.Walk.{accept_header_ok}
use engine_web_adapter.DecoderSource.{done, failed}
use engine_web_adapter.DecoderSource.Finite.{
  Reply, Cursor, Extent, After, and_then, read_exact, skip_bytes,
}
use engine_web_adapter.DecoderSource.Prepare.{caught, aligned, scan_blocks}

-- Two continuations that agree on what `m` returns.
and_then_cong :
    {A B : Type 0} (m : After A) (f g : A → List Reply → Cursor → After B)
    → ((a : A) → m.0 ≡ done a → f a m.1 m.2 ≡ g a m.1 m.2)
    → and_then m f ≡ and_then m g
and_then_cong (failed operation, replies, s) f g same = refl
and_then_cong (done a, replies, s) f g same = same a refl

caught_ok :
    {A : Type 0} (r : Result A) (replies : List Reply) (s : Cursor) (a : A)
    → (caught r replies s).0 ≡ done a
    → r ≡ ok a
caught_ok (ok b) replies s a e = ap ok (let same : b ≡ a = cc in same)
caught_ok (err thrown) replies s a e = absurd (cc)

aligned_same :
    (offset : ℕ) (r q : Header × Scanner) (replies : List Reply) (s : Cursor)
    → (aligned offset r replies s).0 ≡ done q
    → r ≡ q
unfolding aligned
aligned_same offset r q replies s e =
    if_elim (λ (a : After (Header × Scanner)). a.0 ≡ done q → r ≡ q) ((r.0).offset == offset)
      (λ there e. let same : r ≡ q = cc in same) (λ elsewhere e. absurd (cc)) e

module _ (x : Extent) where
  -- One more step of fuel changes nothing where the fuel covers the blocks that are allowed.
  scan_blocks_more :
      (fuel : ℕ) (scan : Scanner) (replies : List Reply) (s : Cursor)
      → scan.block_count ≤ max_blocks
      → max_blocks < fuel + scan.block_count
      → scan_blocks (suc fuel) x scan replies s ≡ scan_blocks fuel x scan replies s
  unfolding scan_blocks
  scan_blocks_more zero scan replies s few enough = absurd (omega arith)
  scan_blocks_more (suc fuel) scan replies s few enough =
      let read = read_exact x 4 replies s in
      ap (λ rest. if scan.complete then (done tt, replies, s) else rest)
        (and_then_cong read _ _ λ header _.
          let accepted = caught (accept_header scan header x.total_bytes) read.1 read.2 in
          and_then_cong accepted _ _ λ r accepts.
            let placed = aligned s.offset r accepted.1 accepted.2 in
            and_then_cong placed _ _ λ q places.
              let skipped =
                skip_bytes x ((q.0).next_offset - (placed.2).offset) placed.1 placed.2 in
              let first =
                caught_ok (accept_header scan header x.total_bytes) read.1 read.2 r accepts in
              let same = aligned_same s.offset r q accepted.1 accepted.2 places in
              let (_, _, _, _, _, _, _, _, counted, room) =
                accept_header_ok scan q.1 header x.total_bytes q.0 (first ∙ ap ok same) in
              and_then_cong skipped _ _
                λ _ _. scan_blocks_more fuel q.1 skipped.1 skipped.2 (omega arith) (omega arith))

  -- The loop of `prepare` ends by itself: with any fuel above the limit of blocks it does the same.
  pub scan_blocks_ends :
      (extra : ℕ) (final : Bool) (replies : List Reply) (s : Cursor)
      → scan_blocks (extra + max_blocks) x (scanner final) replies s
        ≡ scan_blocks max_blocks x (scanner final) replies s
  unfolding scanner
  scan_blocks_ends zero final replies s = refl
  scan_blocks_ends (suc extra) final replies s =
      ap (λ n. scan_blocks n x (scanner final) replies s) (sym (suc_add extra max_blocks))
      ∙ scan_blocks_more (extra + max_blocks) (scanner final) replies s (omega arith) (omega arith)
      ∙ scan_blocks_ends extra final replies s

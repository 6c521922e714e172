-- ===== src/Sha256/Update.antt =====
-- src/stems/sha256.ts: updates, chunk by chunk.
use engine_web_adapter.Prelude.{
  ℕ, ◌+◌, ◌≤◌, ◌≡◌, refl, sym, ap, subst, ◌∙◌, inl, inr, false, ltb, if_elim, List, [], ◌∷◌, ◌++◌,
  append_assoc, append-nil, arith, length, take, length-append, take_past, if◌then◌else◌,
}
use engine_web_adapter.Errors.{plain_error, ok, err}
use engine_web_adapter.Sha256.{initial}
use engine_web_adapter.Sha256.Hasher.{
  Backend, Hasher, fill, batches, keep, absorb, update, update_all, fresh,
}
use engine_web_adapter.Sha256.Padding.{run}
use engine_web_adapter.Sha256.Runs.{IsSha256}
use engine_web_adapter.Sha256.Absorb.{IsHeld, fill-IsFilled}
use engine_web_adapter.Sha256.Loop.{IsRun, batches-IsRun, batches_end, keep-IsHeld}

-- An unfinished hasher that has taken the message.
pub record IsAbsorbed (s : Hasher) (message : List ℕ) : Type 0 where
  pub held : IsHeld s.state s.block s.block_bytes message
  pub total : s.total_bytes ≡ length message
  pub unfinished : s.finished ≡ false

keep_rest :
    (s : Hasher) (bytes : List ℕ) (offset : ℕ)
    → ((keep s bytes offset).total_bytes ≡ s.total_bytes)
      × ((keep s bytes offset).finished ≡ s.finished)
unfolding keep
keep_rest s bytes offset =
    if_elim (λ (k : Hasher). (k.total_bytes ≡ s.total_bytes) × (k.finished ≡ s.finished))
      (ltb offset (length bytes)) (λ e. (refl, refl)) (λ e. (refl, refl))

keep_end :
    (s : Hasher) (bytes : List ℕ) (offset : ℕ) → offset ≡ length bytes → keep s bytes offset ≡ s
unfolding keep
keep_end s bytes offset e =
    let stop : ltb offset (length bytes) ≡ false = ground arith in rw stop refl

module _ (backend : Backend) (same : IsSha256 backend) (message bytes : List ℕ) where
  abbrev IsHeldIn : Hasher → Type 0
  IsHeldIn k = IsHeld k.state k.block k.block_bytes (message ++ bytes)

  -- After a filled block the loop starts at the end of a block.
  begin :
      (f : Hasher) (offset : ℕ)
      → f.block_bytes ≡ 0
      → offset ≤ length bytes
      → IsHeld f.state f.block f.block_bytes (message ++ take offset bytes)
      → IsRun message bytes (f.state, offset)
  begin f offset empty inside h =
      let nothing : h.tail ≡ [] = sym h.kept ∙ ap (λ n. take n f.block) empty in
      let whole : h.whole ≡ message ++ take offset bytes =
        sym (append-nil h.whole) ∙ ap (λ t. h.whole ++ t) (sym nothing) ∙ h.joined in
      record {
        blocks = h.blocks;
        aligned = sym (ap length whole) ∙ h.aligned;
        hashed = h.hashed ∙ ap (λ w. run initial w h.blocks) whole;
        inside = inside;
      }

  absorb-IsHeld :
      (s : Hasher)
      → IsHeld s.state s.block s.block_bytes message
      → IsHeldIn (absorb backend s bytes)
        × ((absorb backend s bytes).total_bytes ≡ s.total_bytes)
        × ((absorb backend s bytes).finished ≡ s.finished)
  unfolding absorb
  absorb-IsHeld s h =
      let filled = fill backend s bytes in
      let (held, inside, where_to, total, finished) =
        fill-IsFilled backend same s message bytes h in
      let after = batches (length bytes + 1) backend (filled.0).state bytes filled.1 in
      let rest = keep_rest (record (filled.0) { state = after.0 }) bytes after.1 in
      (
        elim where_to [
          | inl empty ↦
              let ends =
                batches-IsRun backend same message bytes (length bytes + 1) (filled.0).state
                  filled.1 (omega arith) (begin filled.0 filled.1 empty inside held) in
              keep-IsHeld (record (filled.0) { state = after.0 }) message bytes after.1 ends.0
                ends.1 empty held.size
          | inr all_taken ↦
              let still =
                batches_end (length bytes + 1) backend (filled.0).state bytes filled.1 all_taken in
              subst (λ a. IsHeldIn (keep (record (filled.0) { state = a.0 }) bytes a.1)) (sym still)
                (subst IsHeldIn (sym (keep_end filled.0 bytes filled.1 all_taken)) (
                  subst
                    (λ m.
                      IsHeld (filled.0).state (filled.0).block (filled.0).block_bytes
                        (message ++ m))
                    (take_past filled.1 bytes (omega arith)) held))
        ],
        rest.0 ∙ total,
        rest.1 ∙ finished,
      )

  pub update-IsAbsorbed :
      (s : Hasher)
      → IsAbsorbed s message
      → (next : Hasher) × (update backend s bytes ≡ ok next) × IsAbsorbed next (message ++ bytes)
  unfolding update
  update-IsAbsorbed s a =
      let (held, total, finished) =
        absorb-IsHeld (record s { total_bytes = s.total_bytes + length bytes }) a.held in
      (
        absorb backend (record s { total_bytes = s.total_bytes + length bytes }) bytes,
        ap
            (λ b.
              if b
              then err plain_error
              else ok
                  (absorb backend (record s { total_bytes = s.total_bytes + length bytes }) bytes))
            a.unfinished,
        record {
          held = held;
          total = total ∙ omega (arith, a.total, length-append message bytes);
          unfinished = finished ∙ a.unfinished;
        },
      )

-- The chunks, joined.
abbrev pub concat : List (List ℕ) → List ℕ
concat [] = []
concat (chunk ∷ chunks) = chunk ++ concat chunks

pub update_all-IsAbsorbed :
    (backend : Backend) (chunks : List (List ℕ)) (s : Hasher) (message : List ℕ)
    → IsSha256 backend
    → IsAbsorbed s message
    → (next : Hasher) × (update_all backend s chunks ≡ ok next)
      × IsAbsorbed next (message ++ concat chunks)
unfolding update_all
update_all-IsAbsorbed backend [] s message same a =
    (s, refl, subst (IsAbsorbed s) (sym (append-nil message)) a)
update_all-IsAbsorbed backend (chunk ∷ chunks) s message same a =
    let (next, step, b) = update-IsAbsorbed backend same message chunk s a in
    let (final, steps, c) = update_all-IsAbsorbed backend chunks next (message ++ chunk) same b in
    (
      final,
      rw (step, update_all) steps,
      subst (IsAbsorbed final) (append_assoc message chunk (concat chunks)) c,
    )

pub fresh-IsAbsorbed : IsAbsorbed fresh []
unfolding fresh run
fresh-IsAbsorbed = record {
  held = record {
    whole = [];
    tail = [];
    blocks = 0;
    joined = refl;
    aligned = refl;
    hashed = refl;
    kept = refl;
    room = omega arith;
    size = refl;
  };
  total = refl;
  unfinished = refl;
}

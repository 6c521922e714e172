-- ===== src/Store/Kept.antt =====
-- src/stems/store.ts: reclamation, ingests of other stems and `#ensure` leave a held stem held.
use engine_web_adapter.Prelude.{
  ℕ, ◌+◌, ◌≡◌, ◌≢◌, refl, sym, ap, subst, ◌∙◌, inl, inr, Bool, true, false, not, ◌&&◌, ◌||◌,
  if_elim, if◌then◌else◌, Bool-cases, ◌==◌, Option, none, some, List, [], ◌∷◌, arith, length, Text,
  text_eq, text_eq_sound,
}
use engine_web_adapter.Errors.{Result, ok, err, Failure, Ran}
use engine_web_adapter.Identity.{is_stem_identity, assert_stem_identity}
use engine_web_adapter.MemoryStorage.{get, put, discard, has_name}
use engine_web_adapter.MemoryStorage.Files.{text_eq_same}
use engine_web_adapter.Store.{
  Row, Index, Disk, Stem, final_name, staging_name, mutate_index, unpinned, verify_indexed,
}
use engine_web_adapter.Store.Ingest.{
  Intake, receive, index_row, close_staging, move_final, clean_up, settle_index, index_final,
  move_closed, promote, promote_received, start_intake, ingest, enough, victims, Eviction, evict,
  evict_all, reclaim, on_quota, Ensuring, ensure,
}
use engine_web_adapter.Store.Held.{
  Pinned, Held, apart_files, staging_apart, put-Pinned, discard-Pinned, found_row, put-Filed,
  discard-Filed, and_next_keeps, unless_failed_keeps, mutate_index-Held,
}
use engine_web_adapter.Store.Pins.{own_stem-Held}
use engine_web_adapter.Store.Keeps.{
  and_next_known, assert_stem_identity_ok, is_broken, verify_indexed-Held,
}

pins_left : (pin : Text) (pins : List Text) → has_name pin pins ≡ true → (length pins == 0) ≢ true
pins_left pin [] held e = absurd (cc)
pins_left pin (p ∷ ps) held e = absurd (ground arith)

module _ (blake3 : List ℕ → Text) (pin identity : Text) (bytes : ℕ)
    (valid : is_stem_identity identity ≡ true) where
  -- Whether the stem is held.
  abbrev IsHeld : Disk → Type 0
  IsHeld d = Held blake3 pin identity bytes d

  unpinned-apart :
      (other : Text) (index : Index) (r : Option Row)
      → get other index ≡ r
      → Pinned pin identity bytes index
      → unpinned r ≡ true
      → text_eq other identity ≡ false
  unpinned-apart other index none found h e = absurd (cc)
  unpinned-apart other index (some row) found h e = elim (Bool-cases (text_eq other identity)) [
    | inl here ↦ absurd (
        pins_left pin row.pins
          (found_row pin identity bytes other row index found h
            (text_eq_sound other identity here)).1
          e)
    | inr there ↦ there
  ]

  discard-Held :
      (name : Text) (d : Disk)
      → text_eq name (final_name identity) ≡ false
      → IsHeld d
      → IsHeld (record d { files = discard name d.files })
  discard-Held name d apart h = record {
    row = h.row;
    file = discard-Filed blake3 identity bytes name d.files apart h.file;
  }

  put-Held :
      (name : Text) (content : List ℕ) (d : Disk)
      → text_eq name (final_name identity) ≡ false
      → IsHeld d
      → IsHeld (record d { files = put name content d.files })
  put-Held name content d apart h = record {
    row = h.row;
    file = put-Filed blake3 identity bytes name content d.files apart h.file;
  }

  evict-Held :
      (available : Option ℕ) (required : ℕ) (e : Eviction) (other : Text) (d : Disk)
      → is_stem_identity other ≡ true
      → IsHeld d
      → IsHeld (evict available required e other d).1
  unfolding evict
  evict-Held available required e other d valid2 h =
      if_elim (λ (m : Ran Disk (Unit {0})). IsHeld m.1)
        (enough available required || not (unpinned (get other d.index))) (λ _. h)
        (λ free.
          let apart = unpinned-apart other d.index (get other d.index) refl h.row (ground arith) in
          let removed =
            discard-Held (final_name other) d (apart_files other identity valid2 valid apart) h in
          unless_failed_keeps IsHeld e.stopping d _ h (
            unless_failed_keeps IsHeld e.removing d _ h (
              unless_failed_keeps IsHeld e.writing
                (record d { files = discard (final_name other) d.files })
                (
                  ok tt,
                  record {
                    files = discard (final_name other) d.files;
                    index = discard other d.index;
                  },
                )
                removed
                (record {
                  row = discard-Pinned pin identity bytes other d.index apart h.row;
                  file = removed.file;
                }))))

  evict_all-Held :
      (available : ℕ → Option ℕ) (required : ℕ) (e : ℕ → Eviction) (n : ℕ) (vs : List (Text × Row))
      (d : Disk)
      → IsHeld d
      → IsHeld (evict_all available required e n vs d).1
  unfolding evict_all
  evict_all-Held available required e n [] d h = h
  evict_all-Held available required e n (v ∷ vs) d h =
      and_next_known IsHeld (assert_stem_identity v.0, d) _ h
        λ u asserted.
          and_next_keeps IsHeld (evict (available n) required (e n) v.0 d) _
            (evict-Held (available n) required (e n) v.0 d (assert_stem_identity_ok v.0 u asserted)
              h)
            λ _ s hs.
              if_elim (λ (m : Ran Disk (Unit {0})). IsHeld m.1)
                (enough (available (n + 1)) required) (λ _. hs)
                (λ _. evict_all-Held available required e (n + 2) vs s hs)

  pub reclaim-Held :
      (available : ℕ → Option ℕ) (required : ℕ) (e : ℕ → Eviction) (d : Disk)
      → IsHeld d
      → IsHeld (reclaim available required e d).1
  unfolding reclaim
  reclaim-Held available required e d h =
      if_elim (λ (m : Ran Disk (Unit {0})). IsHeld m.1) (enough (available 0) required) (λ _. h)
        (λ _. evict_all-Held available required e 1 (victims d.index) d h)

  on_quota-Held : (m : Ran Disk (Unit {0})) → IsHeld m.1 → IsHeld (on_quota m).1
  on_quota-Held (ok done, d) h = h
  on_quota-Held (err thrown, d) h = h

  -- An ingest of another stem.
  module _ (intake : Intake) (instance_id : Text) (stem : Stem)
      (valid2 : is_stem_identity stem.identity ≡ true)
      (apart : text_eq stem.identity identity ≡ false) where
    staging : Text
    staging = staging_name instance_id stem.identity

    final_apart : text_eq (final_name stem.identity) (final_name identity) ≡ false
    final_apart = apart_files stem.identity identity valid2 valid apart

    other_stem : stem.identity ≢ identity
    other_stem same =
        let equal : text_eq stem.identity identity ≡ true =
          subst (λ t. text_eq t identity ≡ true) (sym same) (text_eq_same identity) in
        absurd (cc)

    away : text_eq staging (final_name identity) ≡ false
    unfolding staging
    away = staging_apart instance_id stem.identity identity

    clean_up-Held :
        (promoted : Bool) (d : Disk) → IsHeld d → IsHeld (clean_up intake staging stem promoted d)
    unfolding clean_up
    clean_up-Held promoted d h =
        let swept =
          if_elim IsHeld intake.cleans_staging (λ _. discard-Held staging d away h) (λ _. h) in
        if_elim IsHeld (promoted && intake.cleans_final)
          (λ _. discard-Held (final_name stem.identity) _ final_apart swept) (λ _. swept)

    settle_index-Held :
        (m : Ran Disk (Unit {0})) → IsHeld m.1 → IsHeld (settle_index intake staging stem m).1
    settle_index-Held (ok done, d) h = h
    settle_index-Held (err thrown, d) h = clean_up-Held true d h

    index_final-Held :
        (now : ℕ) (d : Disk) → IsHeld d → IsHeld (index_final intake staging stem now d).1
    unfolding index_final index_row
    index_final-Held now d h =
        settle_index-Held (mutate_index intake.indexing (index_row stem now) d) (
          mutate_index-Held blake3 pin identity bytes intake.indexing (index_row stem now) d
            (put-Pinned pin identity bytes stem.identity _ d.index
              (λ same. absurd (other_stem same)) h.row)
            h)

    move_final-Held :
        (content : List ℕ) (d : Disk) → IsHeld d → IsHeld (move_final staging stem content d)
    move_final-Held content d h =
        discard-Held staging (record d { files = put (final_name stem.identity) content d.files })
          away (put-Held (final_name stem.identity) content d final_apart h)

    move_closed-Held :
        (now : ℕ) (content : List ℕ) (d : Disk) (fault : Option Failure)
        → IsHeld d
        → IsHeld (move_closed intake staging stem now content d fault).1
    unfolding move_closed
    move_closed-Held now content d none h = index_final-Held now _ (move_final-Held content d h)
    move_closed-Held now content d (some thrown) h =
        clean_up-Held false _
          (if_elim IsHeld intake.moved_late (λ _. move_final-Held content d h) (λ _. h))

    promote-Held :
        (now : ℕ) (content : List ℕ) (d : Disk) (fault : Option Failure)
        → IsHeld d
        → IsHeld (promote intake staging stem now content d fault).1
    unfolding promote
    promote-Held now content d none h =
        move_closed-Held now content (close_staging staging content d) intake.moving
          (put-Held staging content d away h)
    promote-Held now content d (some thrown) h = clean_up-Held false d h

    promote_received-Held :
        (now : ℕ) (d : Disk) (r : Result (List ℕ))
        → IsHeld d
        → IsHeld (promote_received intake staging stem now d r).1
    unfolding promote_received
    promote_received-Held now d (ok content) h = promote-Held now content d intake.closing h
    promote_received-Held now d (err thrown) h = clean_up-Held false d h

    start_intake-Held :
        (now : ℕ) (d : Disk) (fault : Option Failure)
        → IsHeld d
        → IsHeld (start_intake blake3 intake staging stem now d fault).1
    unfolding start_intake
    start_intake-Held now d none h = promote_received-Held now d (receive blake3 stem intake) h
    start_intake-Held now d (some thrown) h = clean_up-Held false d h

    ingest-Held :
        (now : ℕ) (d : Disk) → IsHeld d → IsHeld (ingest blake3 instance_id now stem intake d).1
    unfolding ingest staging
    ingest-Held now d h =
        unless_failed_keeps IsHeld intake.preparing d _ h
          (start_intake-Held now _ intake.starting (discard-Held staging d away h))

  -- The environment of an `#ensure` in which no read of a stored file fails or misses its deadline.
  pub ensure-Held :
      (instance_id q : Text) (stem : Stem) (x : Ensuring) (d : Disk)
      → is_stem_identity stem.identity ≡ true
      → is_broken (x.first).reading ≡ false
      → is_broken (x.second).reading ≡ false
      → IsHeld d
      → IsHeld (ensure blake3 instance_id q stem x d).1
  unfolding ensure
  ensure-Held instance_id q stem x d valid2 sound1 sound2 h =
      and_next_keeps P (verify_indexed blake3 x.first stem d) _
        (verify_indexed-Held blake3 pin identity bytes valid x.first stem d valid2 sound1 h).0
        λ warm d1 h1.
          if_elim (λ (m : Ran Disk (Unit {0})). IsHeld m.1) warm
            (λ _. own_stem-Held blake3 pin identity bytes x.owning q x.now stem d1 h1)
            (λ _.
              and_next_keeps P (on_quota (reclaim x.available stem.bytes x.evictions d1)) _
                (on_quota-Held _ (reclaim-Held x.available stem.bytes x.evictions d1 h1))
                λ _ d2 h2.
                  let checked =
                    verify_indexed-Held blake3 pin identity bytes valid x.second stem d2 valid2
                      sound2 h2 in
                  and_next_known P (verify_indexed blake3 x.second stem d2) _ checked.0
                    λ good answer.
                      let d3 = (verify_indexed blake3 x.second stem d2).1 in
                      and_next_keeps P
                        (if good
                          then (ok tt, d3)
                          else ingest blake3 instance_id x.now stem x.intake d3)
                        _
                        (if_elim (λ (m : Ran Disk (Unit {0})). IsHeld m.1) good (λ _. checked.0)
                          (λ bad.
                            ingest-Held x.intake instance_id stem valid2
                              (checked.1 (answer ∙ ap ok bad)) x.now d3 checked.0))
                        λ _ d4 h4.
                          own_stem-Held blake3 pin identity bytes x.owning q x.now stem d4 h4)
    where
      P : Disk → Type 0
      P d = IsHeld d

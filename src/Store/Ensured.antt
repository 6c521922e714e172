-- ===== src/Store/Ensured.antt =====
-- src/stems/store.ts: what `#ensure` holds once it returns.
use engine_web_adapter.Prelude.{
  ℕ, ◌≡◌, refl, sym, ap, subst, ◌∙◌, if_elim, if◌then◌else◌, Option, none, some, List, [], arith,
  length, Text, text_eq_sound,
}
use engine_web_adapter.Errors.{Result, ok, err, Failure, Ran, failure, stem_corrupt}
use engine_web_adapter.SparseFormat.Sound.{bind_elim, ok_injective}
use engine_web_adapter.SparseFormat.Accept.{require_elim}
use engine_web_adapter.MemoryStorage.{put, discard}
use engine_web_adapter.MemoryStorage.Files.{get-put, get-discard_other}
use engine_web_adapter.Store.{
  Index, Disk, Stem, digest_of, final_name, staging_name, unless_failed, settle_change,
  mutate_index, verify_indexed,
}
use engine_web_adapter.Store.Ingest.{
  Intake, copy_chunks, observed, receive, index_row, move_final, close_staging, settle_index,
  index_final, move_closed, promote, promote_received, start_intake, ingest, reclaim, on_quota,
  Ensuring, ensure,
}
use engine_web_adapter.Store.Held.{Filed, Held, staging_apart}
use engine_web_adapter.Store.Found.{and_next_gives, own_stem-gives, verify_indexed-Filed}

-- The digest that a package reports is that of the bytes it gave.
pub record IsHonest (blake3 : List ℕ → Text) (intake : Intake) : Type 0 where
  pub honest :
      (declared : ℕ) (content : List ℕ) (digest : Text)
      → copy_chunks declared [] intake.pulls ≡ ok content
      → intake.package_digest ≡ some digest
      → digest ≡ blake3 content

module _ (blake3 : List ℕ → Text) (instance_id : Text) (stem : Stem) (intake : Intake)
    (honest : IsHonest blake3 intake) where
  -- What was received is the stem.
  abbrev Received : List ℕ → Type 0
  Received content = (length content ≡ stem.bytes) × (blake3 content ≡ digest_of stem.identity)

  observed_same :
      (digest : Option Text) (content : List ℕ)
      → intake.package_digest ≡ digest
      → copy_chunks stem.bytes [] intake.pulls ≡ ok content
      → observed blake3 digest content ≡ blake3 content
  observed_same none content given e = refl
  observed_same (some digest) content given e = honest.honest stem.bytes content digest e given

  receive-Received : (content : List ℕ) → receive blake3 stem intake ≡ ok content → Received content
  unfolding receive
  receive-Received content e =
      bind_elim (copy_chunks stem.bytes [] intake.pulls) _ e λ got copied e1.
        require_elim _ (failure stem_corrupt) (ok got) e1 λ good e2.
          let same = observed_same intake.package_digest got refl copied in
          let digests =
            text_eq_sound (observed blake3 intake.package_digest got) (digest_of stem.identity)
              (ground arith) in
          let size : length got ≡ stem.bytes = ground arith in
          subst Received (sym (ok_injective e2)) (size, sym same ∙ digests)

  indexed_files :
      (staging : Text) (d : Disk) (index : Index) (fault : Option Failure)
      → let m = settle_index intake staging stem (settle_change fault d (ok (some index))) in
        m.0 ≡ ok tt → (m.1).files ≡ d.files
  indexed_files staging d index none e = refl
  indexed_files staging d index (some thrown) e = absurd (cc)

  index_final-files :
      (staging : Text) (now : ℕ) (d : Disk)
      → (index_final intake staging stem now d).0 ≡ ok tt
      → ((index_final intake staging stem now d).1).files ≡ d.files
  unfolding index_final mutate_index index_row
  index_final-files staging now d e = indexed_files staging d _ intake.indexing e

  moved-Filed :
      (content : List ℕ) (d : Disk)
      → Received content
      → Filed blake3 stem.identity stem.bytes
          (move_final (staging_name instance_id stem.identity) stem content d).files
  moved-Filed content d got = record {
    content = content;
    stored =
        get-discard_other (final_name stem.identity) (staging_name instance_id stem.identity)
          (put (final_name stem.identity) content d.files)
          (staging_apart instance_id stem.identity stem.identity)
        ∙ get-put (final_name stem.identity) content d.files;
    whole = got.0;
    verified = got.1;
  }

  -- The statements of an ingest that returns leave the stem in its final file.
  Ends : Ran Disk (Unit {0}) → Type 0
  Ends m = m.0 ≡ ok tt → Filed blake3 stem.identity stem.bytes (m.1).files

  move_closed-Ends :
      (now : ℕ) (content : List ℕ) (d : Disk) (fault : Option Failure)
      → Received content
      → Ends (move_closed intake (staging_name instance_id stem.identity) stem now content d fault)
  unfolding move_closed Ends
  move_closed-Ends now content d none got e =
      subst (Filed blake3 stem.identity stem.bytes)
        (sym (
          index_final-files (staging_name instance_id stem.identity) now
            (move_final (staging_name instance_id stem.identity) stem content d) e))
        (moved-Filed content d got)
  move_closed-Ends now content d (some thrown) got e = absurd (cc)

  promote-Ends :
      (now : ℕ) (content : List ℕ) (d : Disk) (fault : Option Failure)
      → Received content
      → Ends (promote intake (staging_name instance_id stem.identity) stem now content d fault)
  unfolding promote Ends
  promote-Ends now content d none got e =
      move_closed-Ends now content
        (close_staging (staging_name instance_id stem.identity) content d) intake.moving got e
  promote-Ends now content d (some thrown) got e = absurd (cc)

  promote_received-Ends :
      (now : ℕ) (d : Disk) (r : Result (List ℕ))
      → receive blake3 stem intake ≡ r
      → Ends (promote_received intake (staging_name instance_id stem.identity) stem now d r)
  unfolding promote_received Ends
  promote_received-Ends now d (ok content) got e =
      promote-Ends now content d intake.closing (receive-Received content got) e
  promote_received-Ends now d (err thrown) got e = absurd (cc)

  start_intake-Ends :
      (now : ℕ) (d : Disk) (fault : Option Failure)
      → Ends (start_intake blake3 intake (staging_name instance_id stem.identity) stem now d fault)
  unfolding start_intake Ends
  start_intake-Ends now d none e = promote_received-Ends now d (receive blake3 stem intake) refl e
  start_intake-Ends now d (some thrown) e = absurd (cc)

  prepared-Ends :
      (d s : Disk) (m : Ran Disk (Unit {0})) (fault : Option Failure)
      → Ends m
      → Ends (unless_failed fault s m)
  unfolding Ends
  prepared-Ends d s m none h e = h e
  prepared-Ends d s m (some thrown) h e = absurd (cc)

  ingest-Filed :
      (now : ℕ) (d : Disk)
      → (ingest blake3 instance_id now stem intake d).0 ≡ ok tt
      → Filed blake3 stem.identity stem.bytes (ingest blake3 instance_id now stem intake d).1.files
  unfolding ingest Ends
  ingest-Filed now d e =
      let staging = staging_name instance_id stem.identity in
      prepared-Ends d d
        (start_intake blake3 intake staging stem now (record d { files = discard staging d.files })
          intake.starting)
        intake.preparing
        (start_intake-Ends now (record d { files = discard staging d.files }) intake.starting) e

-- An `#ensure` that returns leaves its stem held by its pin, verified file included, where a digest
-- that a package reports is that of its bytes.
pub ensure-gives :
    (blake3 : List ℕ → Text) (instance_id pin : Text) (stem : Stem) (x : Ensuring) (d : Disk)
    → IsHonest blake3 x.intake
    → (ensure blake3 instance_id pin stem x d).0 ≡ ok tt
    → Held blake3 pin stem.identity stem.bytes (ensure blake3 instance_id pin stem x d).1
unfolding ensure
ensure-gives blake3 instance_id pin stem x d honest e =
    and_next_gives P (verify_indexed blake3 x.first stem d) _ tt e λ warm first e1.
      let d1 = (verify_indexed blake3 x.first stem d).1 in
      if_elim Q warm
        (λ yes e2.
          own_stem-gives blake3 x.owning pin x.now stem d1 e2
            (verify_indexed-Filed blake3 x.first stem d (first ∙ ap ok yes)))
        (λ no e2.
          and_next_gives P (on_quota (reclaim x.available stem.bytes x.evictions d1)) _ tt e2
            λ _ room e3.
              let d2 = (on_quota (reclaim x.available stem.bytes x.evictions d1)).1 in
              and_next_gives P (verify_indexed blake3 x.second stem d2) _ tt e3 λ good second e4.
                let d3 = (verify_indexed blake3 x.second stem d2).1 in
                let taken =
                  if good then (ok tt, d3) else ingest blake3 instance_id x.now stem x.intake d3 in
                and_next_gives P taken _ tt e4 λ u third e5.
                  own_stem-gives blake3 x.owning pin x.now stem taken.1 e5 (
                    if_elim
                      (λ (m : Ran Disk (Unit {0})).
                        m.0 ≡ ok u → Filed blake3 stem.identity stem.bytes (m.1).files)
                      good
                      (λ yes _. verify_indexed-Filed blake3 x.second stem d2 (second ∙ ap ok yes))
                      (λ no e6. ingest-Filed blake3 instance_id stem x.intake honest x.now d3 e6)
                      third))
        e1
  where
    P : Disk → Type 0
    P s = Held blake3 pin stem.identity stem.bytes s

    Q : Ran Disk (Unit {0}) → Type 0
    Q m = m.0 ≡ ok tt → Held blake3 pin stem.identity stem.bytes m.1

-- ===== src/Store/Keeps.antt =====
-- src/stems/store.ts: checks, reads and demotions leave a held stem held.
use engine_web_adapter.Prelude.{
  ℕ, ◌≡◌, ◌≢◌, refl, sym, ap, subst, ◌∙◌, inl, inr, Bool, true, false, if_elim, Bool-cases, ◌==◌,
  Option, none, some, List, arith, length, Text, text_eq, text_eq_sound,
}
use engine_web_adapter.Errors.{Result, ok, err, Failure, Ran, and_next}
use engine_web_adapter.Identity.{is_stem_identity, assert_stem_identity}
use engine_web_adapter.MemoryStorage.{get}
use engine_web_adapter.MemoryStorage.Files.{text_eq_same}
use engine_web_adapter.Store.{
  Row, Index, Disk, Stem, digest_of, final_name, Reading, readable, aborted, broken, check_content,
  verify_file, unpinned, demote_row, demote, Check, demoted, judge_size, judge_content, check_row,
  verify_indexed, final_bytes, answer_read, read_indexed, read_stem,
}
use engine_web_adapter.Store.Held.{
  Pinned, Held, apart_files, discard-Pinned, found_row, discard-Filed, and_next_keeps,
  unless_failed_keeps, mutate_index-Held,
}

-- What statements keep, with the result of the first.
pub and_next_known :
    {S A B : Type 0} (P : S → Type 0) (m : Ran S A) (rest : A → S → Ran S B)
    → P m.1
    → ((a : A) → m.0 ≡ ok a → P (rest a m.1).1)
    → P (and_next m rest).1
and_next_known P (err thrown, s) rest h next = h
and_next_known P (ok a, s) rest h next = next a refl

pub assert_stem_identity_ok :
    (t : Text) (u : Unit {0}) → assert_stem_identity t ≡ ok u → is_stem_identity t ≡ true
unfolding assert_stem_identity
assert_stem_identity_ok t u e = elim (Bool-cases (is_stem_identity t)) [
  | inl valid ↦ valid
  | inr bad ↦ absurd (ground arith)
]

abbrev pub is_broken : Reading → Bool
is_broken readable = false
is_broken aborted = false
is_broken broken = true

good_check :
    (blake3 : List ℕ → Text) (other : Text) (size : ℕ) (reading : Reading) (content : List ℕ)
    → is_broken reading ≡ false
    → length content ≡ size
    → blake3 content ≡ digest_of other
    → check_content blake3 other size reading (some content) ≢ ok false
unfolding check_content
good_check blake3 other size readable content sound whole verified e =
    let counts : (length content == size) ≡ true = ground arith in
    let digests : text_eq (blake3 content) (digest_of other) ≡ true =
      subst (λ t. text_eq t (digest_of other) ≡ true) (sym verified)
        (text_eq_same (digest_of other)) in
    let passed : check_content blake3 other size readable (some content) ≡ ok true =
      rw (counts, digests) refl in
    absurd (cc)
good_check blake3 other size aborted content sound whole verified e = absurd (cc)
good_check blake3 other size broken content sound whole verified e = absurd (cc)

module _ (blake3 : List ℕ → Text) (pin identity : Text) (bytes : ℕ)
    (valid : is_stem_identity identity ≡ true) where
  -- Whether the stem is held.
  abbrev IsHeld : Disk → Type 0
  IsHeld d = Held blake3 pin identity bytes d

  pub demote-Held :
      (removing writing : Option Failure) (other : Text) (d : Disk)
      → is_stem_identity other ≡ true
      → text_eq other identity ≡ false
      → IsHeld d
      → IsHeld (demote removing writing other d).1
  unfolding demote demote_row
  demote-Held removing writing other d valid2 apart h = unless_failed_keeps IsHeld removing d _ h (
      mutate_index-Held blake3 pin identity bytes writing (demote_row other) _
        (if_elim (λ (i : Index). Pinned pin identity bytes i) (unpinned (get other d.index))
          (λ e. discard-Pinned pin identity bytes other d.index apart h.row) (λ e. h.row))
        (record {
          row = h.row;
          file =
              discard-Filed blake3 identity bytes (final_name other) d.files
                (apart_files other identity valid2 valid apart) h.file;
        }))

  -- A check of a held stem is not answered by false.
  verify_file-apart :
      (other : Text) (size : ℕ) (reading : Reading) (d : Disk)
      → is_broken reading ≡ false
      → (other ≡ identity → size ≡ bytes)
      → IsHeld d
      → verify_file blake3 other size reading d ≡ ok false
      → text_eq other identity ≡ false
  unfolding verify_file check_content
  verify_file-apart other size reading d sound fits h e =
      elim (Bool-cases (text_eq other identity)) [
        | inl here ↦
            let same = text_eq_sound other identity here in
            let there = ap (λ t. get (final_name t) d.files) same ∙ h.file.stored in
            let judged = sym (ap (check_content blake3 other size reading) there) ∙ e in
            absurd (
              good_check blake3 other size reading h.file.content sound
                (h.file.whole ∙ sym (fits same)) (h.file.verified ∙ ap digest_of (sym same)) judged)
        | inr there ↦ there
      ]

  demoted-Held :
      (c : Check) (other : Text) (d : Disk)
      → is_stem_identity other ≡ true
      → text_eq other identity ≡ false
      → IsHeld d
      → IsHeld (demoted c other d).1
  unfolding demoted
  demoted-Held c other d valid2 apart h =
      and_next_keeps IsHeld (demote c.removing c.writing other d) _
        (demote-Held c.removing c.writing other d valid2 apart h) λ _ s hs. hs

  judge_content-Held :
      (c : Check) (other : Text) (v : Result Bool) (d : Disk)
      → is_stem_identity other ≡ true
      → (v ≡ ok false → text_eq other identity ≡ false)
      → IsHeld d
      → IsHeld (and_next (v, d) (judge_content c other)).1
  unfolding judge_content
  judge_content-Held c other (err thrown) d valid2 apart h = h
  judge_content-Held c other (ok true) d valid2 apart h = h
  judge_content-Held c other (ok false) d valid2 apart h =
      demoted-Held c other d valid2 (apart refl) h

  judge_size-Held :
      (c : Check) (other : Text) (v : Result Bool) (d : Disk)
      → is_stem_identity other ≡ true
      → (v ≡ ok false → text_eq other identity ≡ false)
      → IsHeld d
      → IsHeld (and_next (v, d) (judge_size c other)).1
  unfolding judge_size
  judge_size-Held c other (err thrown) d valid2 apart h = h
  judge_size-Held c other (ok true) d valid2 apart h = h
  judge_size-Held c other (ok false) d valid2 apart h = demoted-Held c other d valid2 (apart refl) h

  judge_content-apart :
      (c : Check) (other : Text) (v : Result Bool) (d : Disk)
      → (and_next (v, d) (judge_content c other)).0 ≡ ok false
      → v ≡ ok false
  unfolding judge_content
  judge_content-apart c other (err thrown) d e = absurd (cc)
  judge_content-apart c other (ok true) d e = absurd (cc)
  judge_content-apart c other (ok false) d e = refl

  judge_size-apart :
      (c : Check) (other : Text) (v : Result Bool) (d : Disk)
      → (and_next (v, d) (judge_size c other)).0 ≡ ok false
      → v ≡ ok false
  unfolding judge_size
  judge_size-apart c other (err thrown) d e = absurd (cc)
  judge_size-apart c other (ok true) d e = absurd (cc)
  judge_size-apart c other (ok false) d e = refl

  -- A check that is answered by false is not of the held stem, and any check leaves it held.
  Checked : Text → Ran Disk Bool → Type 0
  Checked other m = IsHeld m.1 × (m.0 ≡ ok false → text_eq other identity ≡ false)

  check_row-Checked :
      (c : Check) (stem : Stem) (r : Option Row) (d : Disk)
      → is_stem_identity stem.identity ≡ true
      → is_broken c.reading ≡ false
      → get stem.identity d.index ≡ r
      → IsHeld d
      → Checked stem.identity (check_row blake3 c stem r d)
  unfolding check_row Checked
  check_row-Checked c stem none d valid2 sound found h = (
    h,
    λ _. elim (Bool-cases (text_eq stem.identity identity)) [
      | inl here ↦
          let there : get identity d.index ≡ none =
            subst (λ t. get t d.index ≡ none) (text_eq_sound stem.identity identity here) found in
          let present = h.row.found in absurd (cc)
      | inr there ↦ there
    ],
  )
  check_row-Checked c stem (some row) d valid2 sound found h =
      let size = found_row pin identity bytes stem.identity row d.index found h.row in
      if_elim (Checked stem.identity) (row.bytes == stem.bytes)
        (λ e.
          let apart =
            verify_file-apart stem.identity stem.bytes c.reading d sound
              (λ same. let s = (size same).0 in ground arith) h in
          let v = verify_file blake3 stem.identity stem.bytes c.reading d in
          (
            judge_content-Held c stem.identity v d valid2 apart h,
            λ e2. apart (judge_content-apart c stem.identity v d e2),
          ))
        (λ e.
          let apart =
            verify_file-apart stem.identity row.bytes c.reading d sound (λ same. (size same).0) h in
          let v = verify_file blake3 stem.identity row.bytes c.reading d in
          (
            judge_size-Held c stem.identity v d valid2 apart h,
            λ e2. apart (judge_size-apart c stem.identity v d e2),
          ))

  pub verify_indexed-Held :
      (c : Check) (stem : Stem) (d : Disk)
      → is_stem_identity stem.identity ≡ true
      → is_broken c.reading ≡ false
      → IsHeld d
      → IsHeld (verify_indexed blake3 c stem d).1
        × ((verify_indexed blake3 c stem d).0 ≡ ok false → text_eq stem.identity identity ≡ false)
  unfolding verify_indexed Checked
  verify_indexed-Held c stem d valid2 sound h =
      check_row-Checked c stem (get stem.identity d.index) d valid2 sound refl h

  answer_read-Held :
      (removing writing : Option Failure) (other : Text) (d : Disk) (r : Option (List ℕ))
      → is_stem_identity other ≡ true
      → (r ≡ none → text_eq other identity ≡ false)
      → IsHeld d
      → IsHeld (answer_read removing writing other d r).1
  unfolding answer_read
  answer_read-Held removing writing other d (some content) valid2 apart h = h
  answer_read-Held removing writing other d none valid2 apart h =
      demote-Held removing writing other d valid2 (apart refl) h

  final_bytes-apart :
      (fails : Bool) (other : Text) (d : Disk)
      → (other ≡ identity → fails ≡ false)
      → IsHeld d
      → final_bytes fails (get (final_name other) d.files) ≡ none
      → text_eq other identity ≡ false
  final_bytes-apart fails other d sound h e = elim (Bool-cases (text_eq other identity)) [
    | inl here ↦
        let same = text_eq_sound other identity here in
        let there = ap (λ t. get (final_name t) d.files) same ∙ h.file.stored in
        let given : final_bytes fails (get (final_name other) d.files) ≡ some h.file.content =
          rw (there, sound same) refl in
        absurd (cc)
    | inr there ↦ there
  ]

  read_indexed-Held :
      (fails : Bool) (removing writing : Option Failure) (other : Text) (d : Disk) (r : Option Row)
      → is_stem_identity other ≡ true
      → (other ≡ identity → fails ≡ false)
      → IsHeld d
      → IsHeld (read_indexed fails removing writing other d r).1
  unfolding read_indexed
  read_indexed-Held fails removing writing other d none valid2 sound h = h
  read_indexed-Held fails removing writing other d (some row) valid2 sound h =
      answer_read-Held removing writing other d (final_bytes fails (get (final_name other) d.files))
        valid2 (final_bytes-apart fails other d sound h) h

  pub read_stem-Held :
      (fails : Bool) (removing writing : Option Failure) (other : Text) (d : Disk)
      → (other ≡ identity → fails ≡ false)
      → IsHeld d
      → IsHeld (read_stem fails removing writing other d).1
  unfolding read_stem
  read_stem-Held fails removing writing other d sound h =
      and_next_known IsHeld (assert_stem_identity other, d) _ h
        λ u e.
          read_indexed-Held fails removing writing other d (get other d.index)
            (assert_stem_identity_ok other u e) sound h

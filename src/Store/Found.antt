-- ===== src/Store/Found.antt =====
-- src/stems/store.ts: what a check that succeeds has seen, and what `own` adds to it.
use engine_web_adapter.Prelude.{
  ℕ, ◌≡◌, ◌≢◌, refl, sym, subst, Bool, true, false, ◌&&◌, if_elim, ◌==◌, Option, none, some, List,
  [], ◌∷◌, ◌++◌, arith, length, Text, text_eq, text_eq_sound,
}
use engine_web_adapter.Errors.{Result, ok, err, Failure, Ran, and_next}
use engine_web_adapter.SparseFormat.Sound.{ok_injective}
use engine_web_adapter.MemoryStorage.{get, has_name}
use engine_web_adapter.MemoryStorage.Files.{text_eq_same, get-put}
use engine_web_adapter.Store.{
  Row, Index, Disk, Stem, digest_of, final_name, settle_change, mutate_index, own_found, own_row,
  own_stem, Reading, readable, aborted, broken, check_content, verify_file, demote, Check, demoted,
  judge_size, judge_content, check_row, verify_indexed,
}
use engine_web_adapter.Store.Held.{Pinned, Filed, Held}

-- What holds behind statements that return.
pub and_next_gives :
    {S A B : Type 0} (Q : S → Type 0) (m : Ran S A) (rest : A → S → Ran S B) (b : B)
    → (and_next m rest).0 ≡ ok b
    → ((a : A) → m.0 ≡ ok a → (rest a m.1).0 ≡ ok b → Q (rest a m.1).1)
    → Q (and_next m rest).1
and_next_gives Q (err thrown, s) rest b e k = absurd (cc)
and_next_gives Q (ok a, s) rest b e k = k a refl e

last_name : (pin : Text) (pins : List Text) → has_name pin (pins ++ (pin ∷ [])) ≡ true
last_name pin [] = rw (text_eq_same pin) refl
last_name pin (p ∷ ps) = rw (last_name pin ps) (ground arith)

module _ (blake3 : List ℕ → Text) where
  own_found-Held :
      (fault : Option Failure) (pin : Text) (now : ℕ) (stem : Stem) (d : Disk) (r : Option Row)
      → (settle_change fault d (own_found pin now stem d.index r)).0 ≡ ok tt
      → Filed blake3 stem.identity stem.bytes d.files
      → Held blake3 pin stem.identity stem.bytes
          (settle_change fault d (own_found pin now stem d.index r)).1
  own_found-Held fault pin now stem d none e h = absurd (cc)
  own_found-Held fault pin now stem d (some row) e h =
      if_elim
        (λ (r : Result (Option Index)).
          (settle_change fault d r).0 ≡ ok tt
          → Held blake3 pin stem.identity stem.bytes (settle_change fault d r).1)
        (row.bytes == stem.bytes)
        (λ same e1.
          written_row fault
            (record {
              row = record row { pins = row.pins ++ (pin ∷ []); last_used_at = now };
              found =
                  get-put stem.identity
                    (record row { pins = row.pins ++ (pin ∷ []); last_used_at = now }) d.index;
              size = ground arith;
              pinned = last_name pin row.pins;
            })
            h e1)
        (λ other e1. absurd (cc)) e
    where
      written_row :
          (fault : Option Failure) {index : Index}
          → Pinned pin stem.identity stem.bytes index
          → Filed blake3 stem.identity stem.bytes d.files
          → (settle_change fault d (ok (some index))).0 ≡ ok tt
          → Held blake3 pin stem.identity stem.bytes (settle_change fault d (ok (some index))).1
      written_row (some thrown) row h e = absurd (cc)
      written_row none row h e = record {
        row = row;
        file = record {
          content = h.content;
          stored = h.stored;
          whole = h.whole;
          verified = h.verified;
        };
      }

  pub own_stem-gives :
      (fault : Option Failure) (pin : Text) (now : ℕ) (stem : Stem) (d : Disk)
      → (own_stem fault pin now stem d).0 ≡ ok tt
      → Filed blake3 stem.identity stem.bytes d.files
      → Held blake3 pin stem.identity stem.bytes (own_stem fault pin now stem d).1
  unfolding own_stem own_row mutate_index
  own_stem-gives fault pin now stem d e h =
      own_found-Held fault pin now stem d (get stem.identity d.index) e h

  check_content-Filed :
      (identity : Text) (bytes : ℕ) (reading : Reading) (d : Disk) (r : Option (List ℕ))
      → get (final_name identity) d.files ≡ r
      → check_content blake3 identity bytes reading r ≡ ok true
      → Filed blake3 identity bytes d.files
  unfolding check_content
  check_content-Filed identity bytes reading d none found e = absurd (cc)
  check_content-Filed identity bytes readable d (some content) found e =
      let both : ((length content == bytes) && text_eq (blake3 content) (digest_of identity))
          ≡ true =
        sym (ok_injective e) in
      record {
        content = content;
        stored = found;
        whole = ground arith;
        verified = text_eq_sound (blake3 content) (digest_of identity) (ground arith);
      }
  check_content-Filed identity bytes aborted d (some content) found e = absurd (cc)
  check_content-Filed identity bytes broken d (some content) found e = absurd (cc)

  demoted-not : (c : Check) (identity : Text) (d : Disk) → (demoted c identity d).0 ≢ ok true
  unfolding demoted
  demoted-not c identity d e = not_true (demote c.removing c.writing identity d) e
    where
      not_true : (m : Ran Disk (Unit {0})) → (and_next m λ _ d1. (ok false, d1)).0 ≢ ok true
      not_true (err thrown, s) e = absurd (cc)
      not_true (ok done, s) e = absurd (cc)

  judge_content-true :
      (c : Check) (identity : Text) (v : Result Bool) (d : Disk)
      → (and_next (v, d) (judge_content c identity)).0 ≡ ok true
      → (v ≡ ok true) × ((and_next (v, d) (judge_content c identity)).1 ≡ d)
  unfolding judge_content
  judge_content-true c identity (err thrown) d e = absurd (cc)
  judge_content-true c identity (ok true) d e = (refl, refl)
  judge_content-true c identity (ok false) d e = absurd (demoted-not c identity d e)

  judge_size-not :
      (c : Check) (identity : Text) (v : Result Bool) (d : Disk)
      → (and_next (v, d) (judge_size c identity)).0 ≢ ok true
  unfolding judge_size
  judge_size-not c identity (err thrown) d e = absurd (cc)
  judge_size-not c identity (ok true) d e = absurd (cc)
  judge_size-not c identity (ok false) d e = demoted-not c identity d e

  check_row-Filed :
      (c : Check) (stem : Stem) (r : Option Row) (d : Disk)
      → (check_row blake3 c stem r d).0 ≡ ok true
      → Filed blake3 stem.identity stem.bytes (check_row blake3 c stem r d).1.files
  unfolding check_row verify_file
  check_row-Filed c stem none d e = absurd (cc)
  check_row-Filed c stem (some row) d e =
      if_elim
        (λ (m : Ran Disk Bool). m.0 ≡ ok true → Filed blake3 stem.identity stem.bytes (m.1).files)
        (row.bytes == stem.bytes)
        (λ _ e1.
          let v = verify_file blake3 stem.identity stem.bytes c.reading d in
          let (passed, same) = judge_content-true c stem.identity v d e1 in
          subst (λ (s : Disk). Filed blake3 stem.identity stem.bytes s.files) (sym same)
            (check_content-Filed stem.identity stem.bytes c.reading d
              (get (final_name stem.identity) d.files) refl passed))
        (λ _ e1. absurd (
          judge_size-not c stem.identity (verify_file blake3 stem.identity row.bytes c.reading d) d
            e1))
        e

  pub verify_indexed-Filed :
      (c : Check) (stem : Stem) (d : Disk)
      → (verify_indexed blake3 c stem d).0 ≡ ok true
      → Filed blake3 stem.identity stem.bytes (verify_indexed blake3 c stem d).1.files
  unfolding verify_indexed
  verify_indexed-Filed c stem d e = check_row-Filed c stem (get stem.identity d.index) d e

-- ===== src/Store/Pins.antt =====
-- src/stems/store.ts: pins that others take and release leave a held stem held.
use engine_web_adapter.Prelude.{
  ℕ, ◌≡◌, refl, sym, subst, inl, inr, Bool, true, false, if_elim, Bool-cases, ◌==◌, Option, none,
  some, List, [], ◌∷◌, ◌++◌, arith, Text, text_eq, text_eq_sound,
}
use engine_web_adapter.Errors.{Result, ok, Failure}
use engine_web_adapter.MemoryStorage.{get, has_name}
use engine_web_adapter.Store.{
  Row, Index, Disk, Stem, own_found, own_row, own_stem, without_pin, unpin_row, unpin_all,
  release_pin, offline_pin, valid_offline, pin_found, pin_row, set_offline_pin,
}
use engine_web_adapter.Store.Held.{
  Pinned, Held, put-Pinned, found_row, and_next_keeps, outcome_of, mutate_index-Held,
}

has_name-append :
    (p : Text) (xs ys : List Text) → has_name p xs ≡ true → has_name p (xs ++ ys) ≡ true
has_name-append p [] ys e = absurd (cc)
has_name-append p (x ∷ xs) ys e = elim (Bool-cases (text_eq x p)) [
  | inl here ↦ rw here refl
  | inr there ↦
      let rest : has_name p xs ≡ true = ground arith in
      rw (there, has_name-append p xs ys rest) refl
]

has_name-without_pin :
    (p q : Text) (ps : List Text)
    → text_eq q p ≡ false
    → has_name p ps ≡ true
    → has_name p (without_pin q ps) ≡ true
has_name-without_pin p q [] apart e = absurd (cc)
has_name-without_pin p q (x ∷ ps) apart e = elim (Bool-cases (text_eq x q)) [
  | inl gone ↦
      let same = text_eq_sound x q gone in
      let other : text_eq x p ≡ false = subst (λ t. text_eq t p ≡ false) (sym same) apart in
      let rest : has_name p ps ≡ true = ground arith in
      rw gone (has_name-without_pin p q ps apart rest)
  | inr kept ↦ elim (Bool-cases (text_eq x p)) [
    | inl here ↦ rw (kept, here) refl
    | inr there ↦
        let rest : has_name p ps ≡ true = ground arith in
        rw (kept, there, has_name-without_pin p q ps apart rest) refl
  ]
]

module _ (blake3 : List ℕ → Text) (pin identity : Text) (bytes : ℕ) where
  -- Whether the stem is held.
  abbrev IsHeld : Disk → Type 0
  IsHeld d = Held blake3 pin identity bytes d

  own_found-Pinned :
      (q : Text) (now : ℕ) (stem : Stem) (index : Index) (r : Option Row)
      → get stem.identity index ≡ r
      → Pinned pin identity bytes index
      → Pinned pin identity bytes (outcome_of (own_found q now stem index r) index)
  own_found-Pinned q now stem index none found h = h
  own_found-Pinned q now stem index (some row) found h =
      if_elim (λ (r : Result (Option Index)). Pinned pin identity bytes (outcome_of r index))
        (row.bytes == stem.bytes)
        (λ e.
          put-Pinned pin identity bytes stem.identity _ index
            (λ same.
              let (size, held) =
                found_row pin identity bytes stem.identity row index found h same in
              (size, has_name-append pin row.pins (q ∷ []) held))
            h)
        (λ e. h)

  pub own_stem-Held :
      (fault : Option Failure) (q : Text) (now : ℕ) (stem : Stem) (d : Disk)
      → IsHeld d
      → IsHeld (own_stem fault q now stem d).1
  unfolding own_stem own_row
  own_stem-Held fault q now stem d h =
      mutate_index-Held blake3 pin identity bytes fault (own_row q now stem) d
        (own_found-Pinned q now stem d.index (get stem.identity d.index) refl h.row) h

  unpin_row-Pinned :
      (q other : Text) (index : Index) (r : Option Row)
      → get other index ≡ r
      → text_eq q pin ≡ false
      → Pinned pin identity bytes index
      → Pinned pin identity bytes (unpin_row q other r index)
  unpin_row-Pinned q other index none found apart h = h
  unpin_row-Pinned q other index (some row) found apart h =
      put-Pinned pin identity bytes other _ index
        (λ same.
          let (size, held) = found_row pin identity bytes other row index found h same in
          (size, has_name-without_pin pin q row.pins apart held))
        h

  unpin_all-Pinned :
      (q : Text) (stems : List Stem) (index : Index)
      → text_eq q pin ≡ false
      → Pinned pin identity bytes index
      → Pinned pin identity bytes (unpin_all q stems index)
  unfolding unpin_all
  unpin_all-Pinned q [] index apart h = h
  unpin_all-Pinned q (stem ∷ stems) index apart h =
      unpin_all-Pinned q stems (unpin_row q stem.identity (get stem.identity index) index) apart
        (unpin_row-Pinned q stem.identity index (get stem.identity index) refl apart h)

  pub release_pin-Held :
      (fault : Option Failure) (q : Text) (stems : List Stem) (d : Disk)
      → text_eq q pin ≡ false
      → IsHeld d
      → IsHeld (release_pin fault q stems d).1
  unfolding release_pin
  release_pin-Held fault q stems d apart h =
      mutate_index-Held blake3 pin identity bytes fault
        (λ index. ok (some (unpin_all q stems index))) d
        (unpin_all-Pinned q stems d.index apart h.row) h

  pin_found-Pinned :
      (other q : Text) (pinned : Bool) (index : Index) (r : Option Row)
      → get other index ≡ r
      → text_eq q pin ≡ false
      → Pinned pin identity bytes index
      → Pinned pin identity bytes (outcome_of (pin_found other q pinned index r) index)
  pin_found-Pinned other q pinned index none found apart h =
      if_elim (λ (r : Result (Option Index)). Pinned pin identity bytes (outcome_of r index)) pinned
        (λ e. h) (λ e. h)
  pin_found-Pinned other q true index (some row) found apart h =
      if_elim (λ (r : Result (Option Index)). Pinned pin identity bytes (outcome_of r index))
        (has_name q row.pins) (λ e. h)
        (λ e.
          put-Pinned pin identity bytes other _ index
            (λ same.
              let (size, held) = found_row pin identity bytes other row index found h same in
              (size, has_name-append pin row.pins (q ∷ []) held))
            h)
  pin_found-Pinned other q false index (some row) found apart h =
      if_elim (λ (r : Result (Option Index)). Pinned pin identity bytes (outcome_of r index))
        (has_name q row.pins)
        (λ e.
          put-Pinned pin identity bytes other _ index
            (λ same.
              let (size, held) = found_row pin identity bytes other row index found h same in
              (size, has_name-without_pin pin q row.pins apart held))
            h)
        (λ e. h)

  pub set_offline_pin-Held :
      (fault : Option Failure) (other id : Text) (pinned : Bool) (d : Disk)
      → text_eq (offline_pin id) pin ≡ false
      → IsHeld d
      → IsHeld (set_offline_pin fault other id pinned d).1
  unfolding set_offline_pin pin_row
  set_offline_pin-Held fault other id pinned d apart h =
      and_next_keeps IsHeld (valid_offline other id, d) _ h
        λ _ s hs.
          mutate_index-Held blake3 pin identity bytes fault (pin_row other (offline_pin id) pinned)
            s
            (pin_found-Pinned other (offline_pin id) pinned s.index (get other s.index) refl apart
              hs.row)
            hs

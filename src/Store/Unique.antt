-- ===== src/Store/Unique.antt =====
-- src/stems/store.ts: what the list of unique requirements says of the declared ones.
use engine_web_adapter.Prelude.{
  ℕ, ◌≡◌, refl, sym, ap, subst, ◌∙◌, true, if_inv, ◌==◌, Option, none, some, List, [], ◌∷◌, ◌++◌,
  arith, Text, text_eq, text_eq_sound,
}
use engine_web_adapter.Errors.{ok}
use engine_web_adapter.SparseFormat.Sound.{bind_elim, ok_injective}
use engine_web_adapter.Identity.{is_stem_identity, assert_stem_identity}
use engine_web_adapter.Store.{Stem}
use engine_web_adapter.Store.Keeps.{assert_stem_identity_ok}
use engine_web_adapter.Store.Session.{
  normalize_stem, normalize_requirements, find_stem, join_unique, unique_from, unique_requirements,
}

-- Every stem of a list has the property of its identity and byte count.
pub data Every (P : Text → ℕ → Type 0) : List Stem → Type 0 where
  every_nil : Every P []
  every_cons :
      {stem : Stem} {stems : List Stem}
      → P stem.identity stem.bytes
      → Every P stems
      → Every P (stem ∷ stems)

pub Every-map :
    (P Q : Text → ℕ → Type 0) {stems : List Stem}
    → ((identity : Text) (bytes : ℕ) → P identity bytes → Q identity bytes)
    → Every P stems
    → Every Q stems
Every-map P Q f every_nil = every_nil
Every-map P Q f (every_cons p ps) = every_cons (f _ _ p) (Every-map P Q f ps)

pub Every-append :
    (P : Text → ℕ → Type 0) {stems : List Stem} (stem : Stem)
    → Every P stems
    → P stem.identity stem.bytes
    → Every P (stems ++ (stem ∷ []))
Every-append P stem every_nil p = every_cons p every_nil
Every-append P stem (every_cons q qs) p = every_cons q (Every-append P stem qs p)

Every-front :
    (P : Text → ℕ → Type 0) (stems : List Stem) (stem : Stem)
    → Every P (stems ++ (stem ∷ []))
    → Every P stems × P stem.identity stem.bytes
Every-front P [] stem (every_cons p ps) = (every_nil, p)
Every-front P (s ∷ stems) stem (every_cons p ps) =
    let (front, last) = Every-front P stems stem ps in (every_cons p front, last)

pub find_stem-Every :
    (P : Text → ℕ → Type 0) (identity : Text) (stems : List Stem) (stem : Stem)
    → find_stem identity stems ≡ some stem
    → Every P stems
    → P identity stem.bytes
find_stem-Every P identity [] stem e h = absurd (cc)
find_stem-Every P identity (s ∷ stems) stem e (every_cons p ps) =
    if_inv (text_eq s.identity identity) e
      (λ here found.
        let same : s ≡ stem = cc in
        subst (λ b. P identity b) (ap (λ t. t.bytes) same)
          (subst (λ i. P i s.bytes) (text_eq_sound s.identity identity here) p))
      (λ there found. find_stem-Every P identity stems stem found ps)

valid_stem :
    (stem : Stem) (u : Unit {0})
    → normalize_stem stem ≡ ok u
    → is_stem_identity stem.identity ≡ true
unfolding normalize_stem
valid_stem stem u e =
    bind_elim (assert_stem_identity stem.identity) _ e
      λ v asserted e1. assert_stem_identity_ok stem.identity v asserted

-- What the normalization returns is what it was given, and its identities are well formed.
pub normalize_requirements-Every :
    (stems declared : List Stem)
    → normalize_requirements stems ≡ ok declared
    → (declared ≡ stems) × Every (λ identity _. is_stem_identity identity ≡ true) declared
unfolding normalize_requirements
normalize_requirements-Every [] declared e =
    let same = ok_injective e in (same, subst (Every _) (sym same) every_nil)
normalize_requirements-Every (stem ∷ stems) declared e =
    bind_elim (normalize_stem stem) _ e λ u valid e1.
      bind_elim (normalize_requirements stems) _ e1 λ rest normal e2.
        let (same, all) = normalize_requirements-Every stems rest normal in
        let whole = ok_injective e2 in
        (
          whole ∙ ap (λ r. stem ∷ r) same,
          subst (Every _) (sym whole) (every_cons (valid_stem stem u valid) all),
        )

join_unique-Every :
    (P : Text → ℕ → Type 0) (before : List Stem) (stem : Stem) (prior : Option Stem)
    (joined : List Stem)
    → find_stem stem.identity before ≡ prior
    → join_unique before stem prior ≡ ok joined
    → Every P joined
    → Every P before × P stem.identity stem.bytes
unfolding join_unique
join_unique-Every P before stem none joined found e h =
    Every-front P before stem (subst (Every P) (ok_injective e) h)
join_unique-Every P before stem (some prior) joined found e h =
    if_inv (prior.bytes == stem.bytes) e
      (λ equal e1.
        let all = subst (Every P) (ok_injective e1) h in
        let size : prior.bytes ≡ stem.bytes = ground arith in
        (
          all,
          subst (P stem.identity) size (find_stem-Every P stem.identity before prior found all),
        ))
      (λ other e1. absurd (cc))

-- What holds of the unique stems holds of those before the loop and of all that it sees.
unique_from-Every :
    (P : Text → ℕ → Type 0) (before stems unique : List Stem)
    → unique_from before stems ≡ ok unique
    → Every P unique
    → Every P before × Every P stems
unfolding unique_from
unique_from-Every P before [] unique e h = (subst (Every P) (ok_injective e) h, every_nil)
unique_from-Every P before (stem ∷ stems) unique e h =
    bind_elim (join_unique before stem (find_stem stem.identity before)) _ e λ joined one e1.
      let (front, back) = unique_from-Every P joined stems unique e1 h in
      let (all, this) =
        join_unique-Every P before stem (find_stem stem.identity before) joined refl one front in
      (all, every_cons this back)

pub unique_requirements-Every :
    (P : Text → ℕ → Type 0) (stems unique : List Stem)
    → unique_requirements stems ≡ ok unique
    → Every P unique
    → Every P stems
unfolding unique_requirements
unique_requirements-Every P stems unique e h = (unique_from-Every P [] stems unique e h).1

join_unique-kept :
    (P : Text → ℕ → Type 0) (before : List Stem) (stem : Stem) (prior : Option Stem)
    (joined : List Stem)
    → join_unique before stem prior ≡ ok joined
    → Every P before
    → P stem.identity stem.bytes
    → Every P joined
unfolding join_unique
join_unique-kept P before stem none joined e h p =
    subst (Every P) (sym (ok_injective e)) (Every-append P stem h p)
join_unique-kept P before stem (some prior) joined e h p =
    if_inv (prior.bytes == stem.bytes) e (λ equal e1. subst (Every P) (sym (ok_injective e1)) h)
      (λ other e1. absurd (cc))

unique_from-kept :
    (P : Text → ℕ → Type 0) (before stems unique : List Stem)
    → unique_from before stems ≡ ok unique
    → Every P before
    → Every P stems
    → Every P unique
unfolding unique_from
unique_from-kept P before [] unique e h every_nil = subst (Every P) (sym (ok_injective e)) h
unique_from-kept P before (stem ∷ stems) unique e h (every_cons p ps) =
    bind_elim (join_unique before stem (find_stem stem.identity before)) _ e λ joined one e1.
      unique_from-kept P joined stems unique e1
        (join_unique-kept P before stem (find_stem stem.identity before) joined one h p) ps

-- What holds of the declared stems holds of the unique ones.
pub unique_requirements-kept :
    (P : Text → ℕ → Type 0) (stems unique : List Stem)
    → unique_requirements stems ≡ ok unique
    → Every P stems
    → Every P unique
unfolding unique_requirements
unique_requirements-kept P stems unique e h = unique_from-kept P [] stems unique e every_nil h

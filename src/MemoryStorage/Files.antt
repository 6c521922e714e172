-- ===== src/MemoryStorage/Files.antt =====
-- src/stems/storage.ts: the map of files, its sizes and its reads.
use engine_web_adapter.Prelude.{
  ℕ, ◌+◌, ◌≡◌, refl, sym, ap, subst, true, false, if_elim, if_inv, Bool-cases, inl, inr, some, List,
  [], ◌∷◌, arith, length, Text, text_eq, text_eq_sound,
}
use engine_web_adapter.MemoryStorage.{Files, get, put, discard, size_of, usage}

pub text_eq_same : (t : Text) → text_eq t t ≡ true
text_eq_same [] = refl
text_eq_same (a ∷ t) = let rest = text_eq_same t in ground arith

pub usage-put :
    (name : Text) (bytes : List ℕ) (fs : Files)
    → usage (put name bytes fs) + size_of name fs ≡ usage fs + length bytes
usage-put name bytes [] = omega arith
usage-put name bytes (f ∷ fs) =
    let rest = usage-put name bytes fs in
    elim (Bool-cases (text_eq f.0 name)) [ inl e ↦ rw e (omega arith) | inr e ↦ rw e (omega arith) ]

pub usage-discard :
    (name : Text) (fs : Files) → usage (discard name fs) + size_of name fs ≡ usage fs
usage-discard name [] = refl
usage-discard name (f ∷ fs) =
    let rest = usage-discard name fs in
    elim (Bool-cases (text_eq f.0 name)) [ inl e ↦ rw e (omega arith) | inr e ↦ rw e (omega arith) ]

pub get-put {ℓ} :
    {A : Type ℓ} (name : Text) (bytes : A) (fs : List (Text × A))
    → get name (put name bytes fs) ≡ some bytes
get-put name bytes [] = rw (text_eq_same name) refl
get-put name bytes (f ∷ fs) = elim (Bool-cases (text_eq f.0 name)) [
  | inl e ↦ rw (e, e) refl
  | inr e ↦ rw (e, e) (get-put name bytes fs)
]

get-size_of :
    (name : Text) (bytes : List ℕ) (fs : Files)
    → get name fs ≡ some bytes
    → size_of name fs ≡ length bytes
get-size_of name bytes [] e = absurd (cc)
get-size_of name bytes (f ∷ fs) e =
    if_inv (text_eq f.0 name) e (λ here e1. let same : f.1 ≡ bytes = cc in rw here (ap length same))
      (λ there e1. rw there (get-size_of name bytes fs e1))

-- The size of a file that is there, once its bytes are stored under any name.
pub size_of-put :
    (from to : Text) (bytes : List ℕ) (fs : Files)
    → get from fs ≡ some bytes
    → size_of from (put to bytes fs) ≡ length bytes
size_of-put from to bytes [] e = absurd (cc)
size_of-put from to bytes (f ∷ fs) e =
    if_inv (text_eq f.0 from) e
      (λ here e1.
        let same : f.1 ≡ bytes = cc in
        if_elim (λ (g : Files). size_of from g ≡ length bytes) (text_eq f.0 to)
          (λ target. rw here refl) (λ other. rw here (ap length same)))
      (λ there e1.
        if_elim (λ (g : Files). size_of from g ≡ length bytes) (text_eq f.0 to)
          (λ target. rw there (get-size_of from bytes fs e1))
          (λ other. rw there (size_of-put from to bytes fs e1)))

-- Two names that differ do not disturb each other.
differ :
    (name other given : Text)
    → text_eq other name ≡ false
    → text_eq given other ≡ true
    → text_eq given name ≡ false
differ name other given apart same =
    subst (λ t. text_eq t name ≡ false) (sym (text_eq_sound given other same)) apart

pub get-put_other {ℓ} :
    {A : Type ℓ} (name other : Text) (a : A) (fs : List (Text × A))
    → text_eq other name ≡ false
    → get name (put other a fs) ≡ get name fs
get-put_other name other a [] apart = rw apart refl
get-put_other name other a (f ∷ fs) apart = elim (Bool-cases (text_eq f.0 other)) [
  | inl e ↦ let e2 = differ name other f.0 apart e in rw (e, e2) refl
  | inr e ↦ let rest = get-put_other name other a fs apart in rw (e, rest) refl
]

pub get-discard_other {ℓ} :
    {A : Type ℓ} (name other : Text) (fs : List (Text × A))
    → text_eq other name ≡ false
    → get name (discard other fs) ≡ get name fs
get-discard_other name other [] apart = refl
get-discard_other name other (f ∷ fs) apart = elim (Bool-cases (text_eq f.0 other)) [
  | inl e ↦ let e2 = differ name other f.0 apart e in rw (e, e2) refl
  | inr e ↦ let rest = get-discard_other name other fs apart in rw (e, rest) refl
]

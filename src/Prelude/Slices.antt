-- ===== src/Prelude/Slices.antt =====
-- Parts of lists: how `take`, `drop`, `subarray` and `set` meet.
use Prim.Native.Nat.{ℕ, zero, suc, ◌+◌, ◌-◌, ◌≤◌}
use mathlib.Core.Path.{◌≡◌, refl, sym, ap, ◌∙◌}
use mathlib.Core.List.{List, [], ◌∷◌, ◌++◌, append_assoc}
use native.Mathlib.Omega.{arith}
use engine_web_adapter.Prelude.Lists.{length, take, drop, length-append, length-take, length-drop}
use engine_web_adapter.Prelude.Bytes.{subarray, set_at}

pub suc_add : (k j : ℕ) → suc (k + j) ≡ suc k + j
suc_add k j = omega arith

pub zero_add : (n : ℕ) → 0 + n ≡ n
zero_add n = omega arith

pub add_zero : (n : ℕ) → n ≡ n + 0
add_zero n = omega arith

pub sub_zero : (n : ℕ) → n - 0 ≡ n
sub_zero n = omega arith

pub add_sub_self : (o n : ℕ) → o + n - o ≡ n
add_sub_self o n = omega arith

module _ {ℓ} {A : Type ℓ} where
  pub take_nil : (n : ℕ) → take {A = A} n [] ≡ []
  take_nil zero = refl
  take_nil (suc n) = refl

  pub drop_nil : (n : ℕ) → drop {A = A} n [] ≡ []
  drop_nil zero = refl
  drop_nil (suc n) = refl

  -- The front and the back of two lists joined.
  pub take-append_all : (xs ys : List A) → take (length xs) (xs ++ ys) ≡ xs
  take-append_all [] ys = refl
  take-append_all (x ∷ xs) ys = ap (λ r. x ∷ r) (take-append_all xs ys)

  pub take_past : (n : ℕ) (xs : List A) → length xs ≤ n → take n xs ≡ xs
  take_past zero [] h = refl
  take_past zero (x ∷ xs) h = absurd (omega arith)
  take_past (suc n) [] h = refl
  take_past (suc n) (x ∷ xs) h = ap (λ r. x ∷ r) (take_past n xs (omega arith))

  pub take-append : (n : ℕ) (xs ys : List A) → n ≤ length xs → take n (xs ++ ys) ≡ take n xs
  take-append zero xs ys h = refl
  take-append (suc n) [] ys h = absurd (omega arith)
  take-append (suc n) (x ∷ xs) ys h = ap (λ r. x ∷ r) (take-append n xs ys (omega arith))

  pub drop-append : (n : ℕ) (xs ys : List A) → n ≤ length xs → drop n (xs ++ ys) ≡ drop n xs ++ ys
  drop-append zero xs ys h = refl
  drop-append (suc n) [] ys h = absurd (omega arith)
  drop-append (suc n) (x ∷ xs) ys h = drop-append n xs ys (omega arith)

  pub take-split : (k j : ℕ) (xs : List A) → take k xs ++ take j (drop k xs) ≡ take (k + j) xs
  take-split zero j xs = ap (λ n. take n xs) (omega arith)
  take-split (suc k) j [] = take_nil j ∙ sym (take_nil (suc k + j))
  take-split (suc k) j (x ∷ xs) =
      ap (λ r. x ∷ r) (take-split k j xs) ∙ ap (λ n. take n (x ∷ xs)) (suc_add k j)

  pub drop-drop : (k j : ℕ) (xs : List A) → drop j (drop k xs) ≡ drop (k + j) xs
  drop-drop zero j xs = ap (λ n. drop n xs) (omega arith)
  drop-drop (suc k) j [] = drop_nil j ∙ sym (drop_nil (suc k + j))
  drop-drop (suc k) j (x ∷ xs) = drop-drop k j xs ∙ ap (λ n. drop n (x ∷ xs)) (suc_add k j)

  -- A range, up to a point and from there on.
  pub subarray-split :
      (xs : List A) (from count to : ℕ)
      → from + count ≤ to
      → subarray xs from (from + count) ++ subarray xs (from + count) to ≡ subarray xs from to
  subarray-split xs from count to inside =
      ap (λ n. take n (drop from xs) ++ subarray xs (from + count) to) (omega arith)
      ∙ ap (λ r. take count (drop from xs) ++ take (to - (from + count)) r)
          (sym (drop-drop from count xs))
      ∙ take-split count (to - (from + count)) (drop from xs)
      ∙ ap (λ n. take n (drop from xs)) (omega arith)

  front_length :
      (t : List A) (o : ℕ) (s : List A) (n : ℕ)
      → n ≡ o + length s
      → n ≤ length t
      → n ≡ length (take o t ++ s)
  front_length t o s n e h = omega (arith, length-append (take o t) s, length-take o t)

  -- The front of an array, up to the end of what was written into it.
  pub take-set_at :
      (t : List A) (o : ℕ) (s : List A) (n : ℕ)
      → n ≡ o + length s
      → n ≤ length t
      → take n (set_at t o s) ≡ take o t ++ s
  take-set_at t o s n e h =
      sym (ap (take n) (append_assoc (take o t) s (drop (o + length s) t)))
      ∙ ap (λ k. take k ((take o t ++ s) ++ drop (o + length s) t)) (front_length t o s n e h)
      ∙ take-append_all (take o t ++ s) (drop (o + length s) t)

  pub subarray-take : (xs : List A) (o n : ℕ) → subarray xs o (o + n) ≡ take n (drop o xs)
  subarray-take xs o n = ap (λ k. take k (drop o xs)) (add_sub_self o n)

  pub subarray_rest : (xs : List A) (o : ℕ) → subarray xs o (length xs) ≡ drop o xs
  subarray_rest xs o = take_past (length xs - o) (drop o xs) (omega (arith, length-drop o xs))

  pub subarray_front : (xs : List A) (n : ℕ) → subarray xs 0 n ≡ take n xs
  subarray_front xs n = ap (λ k. take k xs) (sub_zero n)

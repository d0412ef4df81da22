-- ===== src/Common/Lists.antt =====
-- C arrays and the sequences behind `t_list`, measured and indexed by native numbers.
use Prim.Native.Nat.{ℕ, zero, suc, ◌+◌}
use mathlib.Core.Path.{◌≡◌, refl, sym, ap, ◌∙◌}
use mathlib.Core.Logic.{◌⊎◌, inl, inr}
use mathlib.Core.List.{List, [], ◌∷◌, ◌++◌}
use mathlib.Core.Option.{Option, none, some}
use native.Mathlib.Omega.{arith}

module _ {ℓ} {A : Type ℓ} where
  abbrev pub length : List A → ℕ
  length [] = 0
  length (x ∷ xs) = suc (length xs)

  abbrev pub get_elem? : List A → ℕ → Option A
  get_elem? [] i = none
  get_elem? (x ∷ xs) zero = some x
  get_elem? (x ∷ xs) (suc i) = get_elem? xs i

  abbrev pub take : ℕ → List A → List A
  take zero xs = []
  take (suc n) [] = []
  take (suc n) (x ∷ xs) = x ∷ take n xs

  abbrev pub drop : ℕ → List A → List A
  drop zero xs = xs
  drop (suc n) [] = []
  drop (suc n) (x ∷ xs) = drop n xs

  pub length-append : (xs ys : List A) → length (xs ++ ys) ≡ length xs + length ys
  length-append [] ys = omega arith
  length-append (x ∷ xs) ys = omega (arith, length-append xs ys)

  -- The part of an append that its first list makes up, and what follows.
  pub take-append : (n : ℕ) (xs ys : List A) → n ≡ length xs → take n (xs ++ ys) ≡ xs
  take-append zero [] ys e = refl
  take-append zero (x ∷ xs) ys e = absurd (omega arith)
  take-append (suc n) [] ys e = absurd (omega arith)
  take-append (suc n) (x ∷ xs) ys e = ap (λ t. x ∷ t) (take-append n xs ys (omega arith))

  pub drop-append : (n : ℕ) (xs ys : List A) → n ≡ length xs → drop n (xs ++ ys) ≡ ys
  drop-append zero [] ys e = refl
  drop-append zero (x ∷ xs) ys e = absurd (omega arith)
  drop-append (suc n) [] ys e = absurd (omega arith)
  drop-append (suc n) (x ∷ xs) ys e = drop-append n xs ys (omega arith)

  drop-nil : (n : ℕ) → drop n [] ≡ []
  drop-nil zero = refl
  drop-nil (suc n) = refl

  pub drop-add : (n m : ℕ) (xs : List A) → drop m (drop n xs) ≡ drop (m + n) xs
  drop-add n zero xs = ap (λ k. drop k xs) {x = n} (omega arith)
  drop-add zero (suc m) xs = ap (λ k. drop k xs) {x = suc m} (omega arith)
  drop-add (suc n) (suc m) [] = sym (drop-nil (suc m + suc n))
  drop-add (suc n) (suc m) (x ∷ xs) =
      drop-add n (suc m) xs ∙ ap (λ k. drop k (x ∷ xs)) {x = suc (suc m + n)} (omega arith)

  -- Of two equal appends, the first parts are equal if they are of one length.
  pub append_cancel :
      (xs xs' ys ys' : List A) → length xs ≡ length xs' → xs ++ ys ≡ xs' ++ ys' → xs ≡ xs'
  append_cancel xs xs' ys ys' e h =
      sym (take-append (length xs) xs ys refl)
      ∙ ap (take (length xs)) h
      ∙ take-append (length xs) xs' ys' e

-- `x` stands in the list.
abbrev pub In : {A : Type 0} → A → List A → Type 0
In x [] = ⊥
In x (y ∷ ys) = (x ≡ y) ⊎ In x ys

pub In-middle : {A : Type 0} (xs : List A) (a : A) (ys : List A) → In a (xs ++ a ∷ ys)
In-middle [] a ys = inl refl
In-middle (x ∷ xs) a ys = inr (In-middle xs a ys)

abbrev pub All {ℓ κ} : {A : Type ℓ} → (A → Type κ) → List A → Type κ
All P [] = Unit
All P (x ∷ xs) = P x × All P xs

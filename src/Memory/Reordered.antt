-- ===== src/Memory/Reordered.antt =====
-- One list of pointers in the order of another: what `list_sort` promises.
use tp_so_tuki.Common.{ℕ, ◌≤◌, ◌≡◌, refl, sym, ◌∙◌, inl, inr, List, [], ◌∷◌, In, All, arith}
use tp_so_tuki.Memory.State.{Segment}
use tp_so_tuki.Memory.Blocks.{Distinct, total}

pub data Reordered : List ℕ → List ℕ → Type 0 where
  nil : Reordered [] []
  cons : (x : ℕ) {xs ys : List ℕ} → Reordered xs ys → Reordered (x ∷ xs) (x ∷ ys)
  swap : (x y : ℕ) (xs : List ℕ) → Reordered (x ∷ y ∷ xs) (y ∷ x ∷ xs)
  trans : {xs ys zs : List ℕ} → Reordered xs ys → Reordered ys zs → Reordered xs zs

pub Reordered-sym : {xs ys : List ℕ} → Reordered xs ys → Reordered ys xs
Reordered-sym nil = nil
Reordered-sym (cons x r) = cons x (Reordered-sym r)
Reordered-sym (swap x y xs) = swap y x xs
Reordered-sym (trans r s) = trans (Reordered-sym s) (Reordered-sym r)

pub In-Reordered : {xs ys : List ℕ} → Reordered xs ys → (p : ℕ) → In p xs → In p ys
In-Reordered nil p i = i
In-Reordered (cons x r) p i = elim i [ inl e ↦ inl e | inr j ↦ inr (In-Reordered r p j) ]
In-Reordered (swap x y xs) p i = elim i [
  | inl e ↦ inr (inl e)
  | inr (inl e) ↦ inl e
  | inr (inr j) ↦ inr (inr j)
]
In-Reordered (trans r s) p i = In-Reordered s p (In-Reordered r p i)

pub Distinct-Reordered : {xs ys : List ℕ} → Reordered xs ys → Distinct xs → Distinct ys
Distinct-Reordered nil d = d
Distinct-Reordered (cons x r) d =
    ((λ i. d.0 (In-Reordered (Reordered-sym r) x i)), Distinct-Reordered r d.1)
Distinct-Reordered (swap x y xs) d =
    ((λ i. elim i [ inl e ↦ d.0 (inl (sym e)) | inr j ↦ d.1.0 j ]), ((λ i. d.0 (inr i)), d.1.1))
Distinct-Reordered (trans r s) d = Distinct-Reordered s (Distinct-Reordered r d)

pub total-Reordered :
    (cells : ℕ → Segment) {xs ys : List ℕ} → Reordered xs ys → total cells xs ≡ total cells ys
total-Reordered cells nil = refl
total-Reordered cells (cons x r) = omega (arith, total-Reordered cells r)
total-Reordered cells (swap x y xs) = omega arith
total-Reordered cells (trans r s) = total-Reordered cells r ∙ total-Reordered cells s

-- Bases do not fall along the list.
abbrev pub Ascending : (ℕ → Segment) → List ℕ → Type 0
Ascending cells [] = Unit {0}
Ascending cells (p ∷ ps) = All (λ q. (cells p).base ≤ (cells q).base) ps × Ascending cells ps

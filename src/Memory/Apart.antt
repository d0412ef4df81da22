-- ===== src/Memory/Apart.antt =====
-- Blocks that share no byte, pointer by pointer and along a list.
use tp_so_tuki.Common.{
  ℕ, ◌+◌, ◌≡◌, ◌≢◌, refl, sym, subst, ◌∙◌, inl, inr, List, [], ◌∷◌, In, All, arith,
}
use tp_so_tuki.Memory.State.{Segment}
use tp_so_tuki.Memory.Blocks.{Distinct}
use tp_so_tuki.Memory.Invariant.{Disjoint}

-- A property of blocks that two adjacent blocks hand on to their union.
abbrev pub Joins : (Segment → Type 0) → Type 0
Joins P =
    (a b c : Segment)
    → c.base ≡ a.base
    → c.offset ≡ a.offset + b.offset
    → a.base + a.offset ≡ b.base
    → P a
    → P b
    → P c

pub Disjoint-joins : (s : Segment) → Joins (Disjoint s)
Disjoint-joins s a b c base offset next p q x i j = ground (arith, p x, q x)

pub Disjoint-sym : (a b : Segment) → Disjoint a b → Disjoint b a
Disjoint-sym a b d x i j = d x j i

-- No byte is in two holes of the list.
abbrev pub Apart : (ℕ → Segment) → List ℕ → Type 0
Apart cells [] = Unit {0}
Apart cells (p ∷ ps) = All (λ q. Disjoint (cells p) (cells q)) ps × Apart cells ps

pub All-In : {A : Type 0} (P : A → Type 0) (xs : List A) (x : A) → All P xs → In x xs → P x
All-In P [] x a i = elim i [ ]
All-In P (y ∷ xs) x a i = elim i [ inl e ↦ subst P (sym e) a.0 | inr j ↦ All-In P xs x a.1 j ]

pub All-of_In : {A : Type 0} (P : A → Type 0) (xs : List A) → ((x : A) → In x xs → P x) → All P xs
All-of_In P [] f = tt
All-of_In P (x ∷ xs) f = (f x (inl refl), All-of_In P xs (λ y i. f y (inr i)))

pub Apart-pair :
    (c : ℕ → Segment) (ps : List ℕ) (p q : ℕ)
    → Apart c ps
    → In p ps
    → In q ps
    → p ≢ q
    → Disjoint (c p) (c q)
Apart-pair c [] p q a i j n = elim i [ ]
Apart-pair c (first_hole ∷ ps) p q a i j n = elim i [
  | inl e ↦ elim j [
    | inl e' ↦ absurd (n (e ∙ sym e'))
    | inr j' ↦
        subst (λ k. Disjoint (c k) (c q)) (sym e)
          (All-In (λ k. Disjoint (c first_hole) (c k)) ps q a.0 j')
  ]
  | inr i' ↦ elim j [
    | inl e' ↦ Disjoint-sym (c q) (c p) (
        subst (λ k. Disjoint (c k) (c p)) (sym e')
          (All-In (λ k. Disjoint (c first_hole) (c k)) ps p a.0 i'))
    | inr j' ↦ Apart-pair c ps p q a.1 i' j' n
  ]
]

pub Apart-of_pairs :
    (c : ℕ → Segment) (ps : List ℕ)
    → Distinct ps
    → ((p q : ℕ) → In p ps → In q ps → p ≢ q → Disjoint (c p) (c q))
    → Apart c ps
Apart-of_pairs c [] d f = tt
Apart-of_pairs c (p ∷ ps) d f = (
  All-of_In _ ps (λ q i. f p q (inl refl) (inr i) (λ e. d.0 (subst (λ r. In r ps) (sym e) i))),
  Apart-of_pairs c ps d.1 (λ q r i j n. f q r (inr i) (inr j) n),
)

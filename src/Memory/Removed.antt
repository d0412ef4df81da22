-- ===== src/Memory/Removed.antt =====
-- `remove_from_ram` of memoria/src/handler_instruction_memoria.c: the list of all segments without one of them.
use tp_so_tuki.Common.{
  ℕ, ◌+◌, ◌≡◌, ◌≢◌, refl, sym, subst, ◌∙◌, inl, inr, List, [], ◌∷◌, In, ◌==◌, Bool-cases, arith,
}
use tp_so_tuki.Memory.State.{Segment}
use tp_so_tuki.Memory.Delete.{remove_base}
use tp_so_tuki.Memory.Blocks.{Distinct, total}

-- The entry that leaves the list is the only one with its base.
module _ (cells : ℕ → Segment) (p : ℕ) where
  abbrev pub Lone : List ℕ → Type 0
  Lone ps = (q : ℕ) → In q ps → (cells q).base ≡ (cells p).base → q ≡ p

  pub In-remove_base : (ps : List ℕ) (q : ℕ) → In q (remove_base cells (cells p).base ps) → In q ps
  unfolding remove_base
  In-remove_base [] q i = i
  In-remove_base (r ∷ ps) q i = ground (arith, In-remove_base ps q)

  pub Distinct-remove_base :
      (ps : List ℕ) → Distinct ps → Distinct (remove_base cells (cells p).base ps)
  unfolding remove_base
  Distinct-remove_base [] d = tt
  Distinct-remove_base (r ∷ ps) d = elim (Bool-cases ((cells r).base == (cells p).base)) [
    | inl e ↦ rw e d.1
    | inr e ↦ rw e ((λ i. d.0 (In-remove_base ps r i)), Distinct-remove_base ps d.1)
  ]

  pub not_in-remove_base :
      (ps : List ℕ) → Distinct ps → Lone ps → ¬ In p (remove_base cells (cells p).base ps)
  unfolding remove_base
  not_in-remove_base [] d l = λ i. i
  not_in-remove_base (r ∷ ps) d l = elim (Bool-cases ((cells r).base == (cells p).base)) [
    | inl e ↦ rw e (λ i. d.0 (subst (λ k. In k ps) (sym (l r (inl refl) (ground arith))) i))
    | inr e ↦ rw e (λ i. elim i [
      | inl k ↦ ground arith
      | inr j ↦ not_in-remove_base ps d.1 (λ q j. l q (inr j)) j
    ])
  ]

  pub total-remove_base :
      (ps : List ℕ)
      → Lone ps
      → In p ps
      → total cells (remove_base cells (cells p).base ps) + (cells p).offset ≡ total cells ps
  unfolding remove_base
  total-remove_base [] l i = elim i [ ]
  total-remove_base (r ∷ ps) l i = elim (Bool-cases ((cells r).base == (cells p).base)) [
    | inl e ↦ rw e (let same : r ≡ p = l r (inl refl) (ground arith) in ground arith)
    | inr e ↦ rw e (elim i [
      | inl k ↦ absurd (ground arith)
      | inr j ↦ omega (arith, total-remove_base ps (λ q j. l q (inr j)) j)
    ])
  ]

pub remove_base-In :
    (cells : ℕ → Segment) (p : ℕ) (ps : List ℕ)
    → Lone cells p ps
    → (q : ℕ) → In q ps
    → q ≢ p
    → In q (remove_base cells (cells p).base ps)
unfolding remove_base
remove_base-In cells p [] l q i n = i
remove_base-In cells p (r ∷ ps) l q i n = elim (Bool-cases ((cells r).base == (cells p).base)) [
  | inl e ↦ rw e (elim i [ inl k ↦ absurd (n (k ∙ l r (inl refl) (ground arith))) | inr j ↦ j ])
  | inr e ↦ rw e (elim i [
    | inl k ↦ inl k
    | inr j ↦ inr (remove_base-In cells p ps (λ x y. l x (inr y)) q j n)
  ])
]

-- ===== src/Memory/Blocks.antt =====
-- Lists of pointers to segments and holes: what they add up to, and what they hold once.
use tp_so_tuki.Common.{
  ℕ, ◌+◌, ◌≡◌, ◌≢◌, refl, sym, ap, subst, ◌⊎◌, inl, inr, Bool, List, [], ◌∷◌, ◌++◌, In,
  if◌then◌else◌, Bool-cases, arith,
}
use tp_so_tuki.Memory.State.{Segment, update}
use tp_so_tuki.Memory.Fit.{is_hole_empty, remove_empty}

abbrev pub Distinct : List ℕ → Type 0
Distinct [] = Unit {0}
Distinct (x ∷ xs) = (¬ In x xs) × Distinct xs

-- The bytes of all blocks of a list.
abbrev pub total : (ℕ → Segment) → List ℕ → ℕ
total cells [] = 0
total cells (p ∷ ps) = (cells p).offset + total cells ps

pub update_self {ℓ} : {A : Type ℓ} (f : ℕ → A) (p : ℕ) (v : A) → update f p v p ≡ v
unfolding update
update_self f p v = ground arith

pub update_ne {ℓ} : {A : Type ℓ} (f : ℕ → A) (p : ℕ) (v : A) (q : ℕ) → q ≢ p → update f p v q ≡ f q
unfolding update
update_ne f p v q n = ground arith

pub total-update_out :
    (cells : ℕ → Segment) (p : ℕ) (v : Segment) (ps : List ℕ)
    → ¬ In p ps
    → total (update cells p v) ps ≡ total cells ps
total-update_out cells p v [] n = refl
total-update_out cells p v (q ∷ ps) n = omega (
  arith,
  ap (λ (c : Segment). c.offset) (update_ne cells p v q (λ e. n (inl (sym e)))),
  total-update_out cells p v ps (λ i. n (inr i)),
)

pub total-update_in :
    (cells : ℕ → Segment) (p : ℕ) (v : Segment) (ps : List ℕ)
    → Distinct ps
    → In p ps
    → total (update cells p v) ps + (cells p).offset ≡ total cells ps + v.offset
total-update_in cells p v [] d i = elim i [ ]
total-update_in cells p v (q ∷ ps) d i = elim i [
  | inl e ↦
      (let n : ¬ In p ps = λ j. d.0 (subst (λ r. In r ps) e j) in
        ground (arith, e, update_self cells p v, total-update_out cells p v ps n))
  | inr i ↦ omega (
    arith,
    ap (λ (c : Segment). c.offset)
        (update_ne cells p v q (λ e. d.0 (subst (λ r. In r ps) (sym e) i))),
    total-update_in cells p v ps d.1 i,
  )
]

pub total-append :
    (cells : ℕ → Segment) (ps qs : List ℕ)
    → total cells (ps ++ qs) ≡ total cells ps + total cells qs
total-append cells [] qs = omega arith
total-append cells (p ∷ ps) qs = omega (arith, total-append cells ps qs)

-- Removing an empty hole takes nothing away.
pub total-remove_empty :
    (cells : ℕ → Segment) (ps : List ℕ) → total cells (remove_empty cells ps) ≡ total cells ps
unfolding remove_empty is_hole_empty
total-remove_empty cells [] = refl
total-remove_empty cells (p ∷ ps) = ground (arith, total-remove_empty cells ps)

pub In-remove_empty :
    (cells : ℕ → Segment) (ps : List ℕ) (q : ℕ) → In q (remove_empty cells ps) → In q ps
unfolding remove_empty
In-remove_empty cells [] q i = i
In-remove_empty cells (p ∷ ps) q i = ground (arith, In-remove_empty cells ps q)

pub Distinct-remove_empty :
    (cells : ℕ → Segment) (ps : List ℕ) → Distinct ps → Distinct (remove_empty cells ps)
unfolding remove_empty
Distinct-remove_empty cells [] d = tt
Distinct-remove_empty cells (p ∷ ps) d = elim (Bool-cases (is_hole_empty (cells p))) [
  | inl e ↦ rw e d.1
  | inr e ↦ rw e ((λ i. d.0 (In-remove_empty cells ps p i)), Distinct-remove_empty cells ps d.1)
]

-- The list that is left after a hole was shrunk: without the first empty hole if it was emptied.
module _ (emptied : Bool) (cells : ℕ → Segment) (ps : List ℕ) where
  abbrev pub kept : List ℕ
  kept = if emptied then remove_empty cells ps else ps

  pub total-kept : total cells kept ≡ total cells ps
  total-kept = ground (arith, total-remove_empty cells ps)

  pub In-kept : (q : ℕ) → In q kept → In q ps
  In-kept q i = ground (arith, In-remove_empty cells ps q)

  pub Distinct-kept : Distinct ps → Distinct kept
  Distinct-kept d = ground (arith, Distinct-remove_empty cells ps d)

pub In-append : {A : Type 0} (xs ys : List A) (a : A) → In a (xs ++ ys) → In a xs ⊎ In a ys
In-append [] ys a i = inr i
In-append (x ∷ xs) ys a i = ground (arith, In-append xs ys a)

pub In-append_left : {A : Type 0} (xs ys : List A) (a : A) → In a xs → In a (xs ++ ys)
In-append_left [] ys a i = elim i [ ]
In-append_left (x ∷ xs) ys a i = ground (arith, In-append_left xs ys a)

pub In-append_right : {A : Type 0} (xs ys : List A) (a : A) → In a ys → In a (xs ++ ys)
In-append_right [] ys a i = i
In-append_right (x ∷ xs) ys a i = inr (In-append_right xs ys a i)

pub Distinct-append_one :
    (ps : List ℕ) (p : ℕ) → Distinct ps → ¬ In p ps → Distinct (ps ++ (p ∷ []))
Distinct-append_one [] p d n = (λ i. i, tt)
Distinct-append_one (q ∷ ps) p d n = (fresh, Distinct-append_one ps p d.1 (λ i. n (inr i)))
  where
    fresh : ¬ In q (ps ++ (p ∷ []))
    fresh i = elim (In-append ps (p ∷ []) q i) [
      | inl j ↦ d.0 j
      | inr (inl e) ↦ n (inl (sym e))
      | inr (inr j) ↦ j
    ]

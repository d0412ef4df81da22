-- ===== src/Memory/Allocation.antt =====
-- A segment taken from the start of a hole leaves the memory structures valid.
use native.Mathlib.Decide.{ℕ_discrete}
use tp_so_tuki.Common.{
  ℕ, ◌+◌, ◌-◌, ◌≤◌, ◌<◌, ◌≡◌, ◌≢◌, refl, sym, ap, subst, ◌∙◌, ◌⊎◌, inl, inr, List, [], ◌∷◌, ◌++◌,
  In, arith,
}
use tp_so_tuki.Memory.State.{Segment, Memory, update, table_put}
use tp_so_tuki.Memory.Fit.{is_hole_empty, new_segment, register, shrink_hole}
use tp_so_tuki.Memory.Blocks.{
  total, update_self, update_ne, total-update_out, total-update_in, total-append, total-kept,
  In-kept, Distinct-kept, In-append, Distinct-append_one,
}
use tp_so_tuki.Memory.Invariant.{Disjoint, Owned, IsMemory}

-- The bytes of `a` are among those of `b`.
abbrev pub Inside : Segment → Segment → Type 0
Inside a b = (b.base ≤ a.base) × (a.base + a.offset ≤ b.base + b.offset)

pub Inside-Disjoint :
    (a a' b b' : Segment) → Inside a a' → Inside b b' → Disjoint a' b' → Disjoint a b
Inside-Disjoint a a' b b' i j d x k l = d x (omega arith) (omega arith)

-- The memory once a segment is taken from the hole `h`, and entered in `table` and in the list of
-- all segments.
unfoldable pub carve : Memory → ℕ → ℕ → ℕ → ℕ → List ℕ → Memory
unfolding new_segment register shrink_hole
carve m h size s_id pid table =
    shrink_hole (register (new_segment m h size s_id) m.fresh pid table) h size

module _ {memory_size : ℕ} {m : Memory} (v : IsMemory memory_size m) (h : ℕ)
    (held : In h m.hole_list) (size s_id pid : ℕ) (table : List ℕ)
    (fits : size ≤ (m.cells h).offset) where
  abbrev taken : Memory
  taken = carve m h size s_id pid table

  h-lt-fresh : h < m.fresh
  h-lt-fresh = v.allocated h (inl held)

  pub cell_fresh :
      (carve m h size s_id pid table).cells m.fresh
      ≡ record { base = (m.cells h).base; offset = size; s_id = s_id }
  unfolding carve
  cell_fresh = update_ne _ h _ m.fresh (omega (arith, h-lt-fresh)) ∙ update_self m.cells m.fresh _

  cell_h : (taken.cells h) ≡ record {
    base = (m.cells h).base + size;
    offset = (m.cells h).offset - size;
    s_id = (m.cells h).s_id;
  }
  unfolding carve
  cell_h =
      update_self _ h _
      ∙ ap
          (λ (c : Segment). record {
            base = c.base + size;
            offset = c.offset - size;
            s_id = c.s_id;
          })
          (update_ne m.cells m.fresh _ h (omega (arith, h-lt-fresh)))

  cell_other : (q : ℕ) → q ≢ h → q ≢ m.fresh → taken.cells q ≡ m.cells q
  unfolding carve
  cell_other q n k = update_ne _ h _ q n ∙ update_ne m.cells m.fresh _ q k

  In-holes : (p : ℕ) → In p taken.hole_list → In p m.hole_list
  unfolding carve
  In-holes p i = In-kept (is_hole_empty (taken.cells h)) taken.cells m.hole_list p i

  In-ram : (p : ℕ) → In p taken.ram → In p m.ram ⊎ (p ≡ m.fresh)
  unfolding carve
  In-ram p i = elim (In-append m.ram (m.fresh ∷ []) p i) [
    | inl j ↦ inl j
    | inr (inl e) ↦ inr e
    | inr (inr j) ↦ absurd j
  ]

  -- The block of `m` that the block `p` was part of.
  record Origin (p : ℕ) : Type 0 where
    parent : ℕ
    owned : Owned m parent
    inside : Inside (taken.cells p) (m.cells parent)
    same : (p ≡ parent) ⊎ ((p ≡ m.fresh) × (parent ≡ h))

  Origin-fresh : Origin m.fresh
  Origin-fresh = record {
    parent = h;
    owned = inl held;
    inside = rw cell_fresh (omega arith);
    same = inr (refl, refl);
  }

  Origin-old : (p : ℕ) → Owned m p → Origin p
  Origin-old p o = elim (ℕ_discrete p h) [
    | yes e ↦ record {
      parent = h;
      owned = inl held;
      inside = rw (e, cell_h) (omega arith);
      same = inl e;
    }
    | no n ↦ record {
      parent = p;
      owned = o;
      inside = rw (cell_other p n (omega (arith, v.allocated p o))) (omega arith);
      same = inl refl;
    }
  ]

  origin : (p : ℕ) → Owned taken p → Origin p
  origin p (inl i) = Origin-old p (inl (In-holes p i))
  origin p (inr i) = elim (In-ram p i) [
    | inl j ↦ Origin-old p (inr j)
    | inr e ↦ subst Origin (sym e) Origin-fresh
  ]

  split_hole : Disjoint (taken.cells m.fresh) (taken.cells h)
  split_hole = rw (cell_fresh, cell_h) (λ x a b. omega arith)

  Disjoint-of : (p q : ℕ) → Origin p → Origin q → p ≢ q → Disjoint (taken.cells p) (taken.cells q)
  Disjoint-of p q a b n = elim (ℕ_discrete a.parent b.parent) [
    | no d ↦
        Inside-Disjoint (taken.cells p) (m.cells a.parent) (taken.cells q) (m.cells b.parent)
          a.inside b.inside (v.disjoint a.parent b.parent a.owned b.owned d)
    | yes e ↦ elim a.same [
      | inl x ↦ elim b.same [
        | inl y ↦ absurd (n (x ∙ e ∙ sym y))
        | inr (y, z) ↦ rw (x ∙ e ∙ z, y) (λ t i j. split_hole t j i)
      ]
      | inr (x, w) ↦ elim b.same [
        | inl y ↦ rw (x, y ∙ sym e ∙ w) split_hole
        | inr (y, z) ↦ absurd (n (x ∙ sym y))
      ]
    ]
  ]

  not_fresh : (p : ℕ) → Owned m p → p ≢ m.fresh
  not_fresh p o e = omega (arith, v.allocated p o)

  holes_total : total taken.cells taken.hole_list + size ≡ total m.cells m.hole_list
  unfolding carve
  holes_total =
      let c =
        update m.cells m.fresh (record { base = (m.cells h).base; offset = size; s_id = s_id }) in
      omega (
        arith,
        total-kept (is_hole_empty (taken.cells h)) taken.cells m.hole_list,
        total-update_in c h
            (record { base = (c h).base + size; offset = (c h).offset - size; s_id = (c h).s_id })
            m.hole_list v.holes_once held,
        total-update_out m.cells m.fresh
            (record { base = (m.cells h).base; offset = size; s_id = s_id }) m.hole_list
            (λ i. not_fresh m.fresh (inl i) refl),
        ap (λ (s : Segment). s.offset)
            (update_ne m.cells m.fresh
              (record { base = (m.cells h).base; offset = size; s_id = s_id }) h
              (omega (arith, h-lt-fresh))),
        fits,
      )

  ram_total : total taken.cells taken.ram ≡ total m.cells m.ram + size
  unfolding carve
  ram_total =
      let c =
        update m.cells m.fresh (record { base = (m.cells h).base; offset = size; s_id = s_id }) in
      omega (
        arith,
        total-append taken.cells m.ram (m.fresh ∷ []),
        ap (λ (s : Segment). s.offset) cell_fresh,
        total-update_out c h
            (record { base = (c h).base + size; offset = (c h).offset - size; s_id = (c h).s_id })
            m.ram (v.apart h held),
        total-update_out m.cells m.fresh
            (record { base = (m.cells h).base; offset = size; s_id = s_id }) m.ram
            (λ i. not_fresh m.fresh (inr i) refl),
      )

  pub carve-IsMemory :
      IsMemory memory_size
        (record (carve m h size s_id pid table) { remaining_memory = m.remaining_memory - size })
  unfolding carve
  carve-IsMemory = record {
    allocated = λ p o. elim o [
      | inl i ↦ omega (arith, v.allocated p (inl (In-holes p i)))
      | inr i ↦ elim (In-ram p i) [
        | inl j ↦ omega (arith, v.allocated p (inr j))
        | inr e ↦ omega arith
      ]
    ];
    holes_once = Distinct-kept (is_hole_empty (taken.cells h)) taken.cells m.hole_list v.holes_once;
    segments_once =
        Distinct-append_one m.ram m.fresh v.segments_once (λ i. not_fresh m.fresh (inr i) refl);
    apart = λ p i j. elim (In-ram p j) [
      | inl k ↦ v.apart p (In-holes p i) k
      | inr e ↦ not_fresh p (inl (In-holes p i)) e
    ];
    within = λ p o. let a = origin p o in omega (arith, a.inside, v.within a.parent a.owned);
    disjoint = λ p q o k. Disjoint-of p q (origin p o) (origin q k);
    free_total = omega (arith, holes_total, v.free_total);
    all_total = omega (arith, holes_total, ram_total, v.all_total);
  }

  pub ram-carve : (carve m h size s_id pid table).ram ≡ m.ram ++ (m.fresh ∷ [])
  unfolding carve
  ram-carve = refl

  pub tables-carve :
      (carve m h size s_id pid table).tables ≡ table_put pid (table ++ (m.fresh ∷ [])) m.tables
  unfolding carve
  tables-carve = refl

-- ===== src/Memory/Slide.antt =====
-- Compaction moves the segments together and keeps what is in them.
use tp_so_tuki.Common.{
  ℕ, ◌+◌, ◌≤◌, ◌≡◌, ◌≢◌, refl, sym, ap, subst, ◌∙◌, ◌⊎◌, inl, inr, List, [], ◌∷◌, In, arith,
}
use tp_so_tuki.Memory.State.{Segment}
use tp_so_tuki.Memory.Blocks.{Distinct, update_self, update_ne}
use tp_so_tuki.Memory.Heap.{load, length-load, load-store, load-store_outside}
use tp_so_tuki.Memory.Compact.{Moving, move_segment, slide}

abbrev pub end_of : Segment → ℕ
end_of s = s.base + s.offset

-- The bytes of a segment.
abbrev pub content : Moving → ℕ → List ℕ
content s p = load s.heap (s.cells p).base (s.cells p).offset

-- From `from` on the listed segments follow one another, with gaps.
abbrev pub Ordered : (ℕ → Segment) → ℕ → List ℕ → Type 0
Ordered cells from [] = Unit {0}
Ordered cells from (p ∷ ps) = (from ≤ (cells p).base) × Ordered cells (end_of (cells p)) ps

-- The same, with no gap.
abbrev pub Packed : (ℕ → Segment) → ℕ → List ℕ → Type 0
Packed cells from [] = Unit {0}
Packed cells from (p ∷ ps) = ((cells p).base ≡ from) × Packed cells (end_of (cells p)) ps

module _ (s : Moving) (p dest : ℕ) where
  cells_self :
      (move_segment s p dest).cells p
      ≡ record { base = dest; offset = (s.cells p).offset; s_id = (s.cells p).s_id }
  unfolding move_segment
  cells_self = update_self s.cells p _

  cells_ne : (q : ℕ) → q ≢ p → (move_segment s p dest).cells q ≡ s.cells q
  unfolding move_segment
  cells_ne q n = update_ne s.cells p _ q n

  content_self : content (move_segment s p dest) p ≡ content s p
  unfolding move_segment
  content_self =
      ap (λ (c : Segment). load (move_segment s p dest).heap c.base c.offset) cells_self ∙ moved
    where
      moved : load (move_segment s p dest).heap dest (s.cells p).offset ≡ content s p
      moved =
          ap (load (move_segment s p dest).heap dest)
            (sym (length-load s.heap (s.cells p).base (s.cells p).offset))
          ∙ load-store s.heap dest (content s p)

  -- A block that ends before the place or starts behind the old end keeps its bytes.
  load_ne :
      (x n : ℕ)
      → dest ≤ (s.cells p).base
      → (x + n ≤ dest) ⊎ (end_of (s.cells p) ≤ x)
      → load (move_segment s p dest).heap x n ≡ load s.heap x n
  unfolding move_segment
  load_ne x n before o =
      load-store_outside s.heap dest (content s p) x n
        (omega (arith, length-load s.heap (s.cells p).base (s.cells p).offset))

Ordered-after :
    (cells : ℕ → Segment) (from : ℕ) (ps : List ℕ) (q : ℕ)
    → Ordered cells from ps
    → In q ps
    → from ≤ (cells q).base
Ordered-after cells from [] q o i = elim i [ ]
Ordered-after cells from (p ∷ ps) q o i = elim i [
  | inl e ↦ rw e o.0
  | inr j ↦ omega (arith, o.0, Ordered-after cells (end_of (cells p)) ps q o.1 j)
]

Ordered-cells :
    (c c' : ℕ → Segment) (from from' : ℕ) (ps : List ℕ)
    → ((q : ℕ) → In q ps → c' q ≡ c q)
    → from' ≤ from
    → Ordered c from ps
    → Ordered c' from' ps
Ordered-cells c c' from from' [] e h o = tt
Ordered-cells c c' from from' (p ∷ ps) e h o =
    let same = e p (inl refl) in
    (
      omega (arith, o.0, ap (λ (s : Segment). s.base) same),
      Ordered-cells c c' (end_of (c p)) (end_of (c' p)) ps (λ q i. e q (inr i))
          (omega (arith, ap end_of same)) o.1,
    )

-- What the slide of the listed segments behind `prev` leaves.
pub record Slid (s : Moving) (prev : ℕ) (ps : List ℕ) (s' : Moving) : Type 0 where
  pub packed : Packed s'.cells (end_of (s.cells prev)) ps
  pub contents : (q : ℕ) → In q ps → content s' q ≡ content s q
  pub sizes : (q : ℕ) → In q ps → (s'.cells q).offset ≡ (s.cells q).offset
  pub others : (q : ℕ) → ¬ In q ps → s'.cells q ≡ s.cells q
  pub before : (x n : ℕ) → x + n ≤ end_of (s.cells prev) → load s'.heap x n ≡ load s.heap x n

-- One round, and the slide of the segments behind.
Slid-step :
    (s : Moving) (prev p : ℕ) (ps : List ℕ) (s' : Moving)
    → ¬ In p ps
    → Ordered s.cells (end_of (s.cells prev)) (p ∷ ps)
    → Slid (move_segment s p (end_of (s.cells prev))) p ps s'
    → Slid s prev (p ∷ ps) s'
Slid-step s prev p ps s' fresh o v = record {
  packed = (
    ap (λ (c : Segment). c.base) here,
    subst (λ e. Packed s'.cells e ps) (sym (ap end_of (v.others p fresh))) v.packed,
  );
  contents = λ q i. elim i [
    | inl e ↦ subst (λ r. content s' r ≡ content s r) (sym e) own
    | inr j ↦ v.contents q j ∙ later q j
  ];
  sizes = λ q i. elim i [
    | inl e ↦
        subst (λ r. (s'.cells r).offset ≡ (s.cells r).offset) (sym e)
          (ap (λ (c : Segment). c.offset) here)
    | inr j ↦ v.sizes q j ∙ ap (λ (c : Segment). c.offset) (cells_ne s p d q (other q j))
  ];
  others = λ q n. v.others q (λ j. n (inr j)) ∙ cells_ne s p d q (λ e. n (inl e));
  before = λ x n h.
      v.before x n (omega (arith, h, ap end_of (cells_self s p d))) ∙ load_ne s p d x n o.0 (inl h);
}
  where
    d : ℕ
    d = end_of (s.cells prev)

    here : s'.cells p ≡ record {
      base = end_of (s.cells prev);
      offset = (s.cells p).offset;
      s_id = (s.cells p).s_id;
    }
    here = v.others p fresh ∙ cells_self s p (end_of (s.cells prev))

    other : (q : ℕ) → In q ps → q ≢ p
    other q i e = fresh (subst (λ r. In r ps) e i)

    own : content s' p ≡ content s p
    own =
        ap (λ (c : Segment). load s'.heap c.base c.offset) (v.others p fresh)
        ∙ v.before _ _ (omega arith)
        ∙ content_self s p (end_of (s.cells prev))

    later : (q : ℕ) → In q ps → content (move_segment s p (end_of (s.cells prev))) q ≡ content s q
    later q i =
        ap (λ (c : Segment). load (move_segment s p (end_of (s.cells prev))).heap c.base c.offset)
          (cells_ne s p (end_of (s.cells prev)) q (other q i))
        ∙ load_ne s p (end_of (s.cells prev)) _ _ o.0
            (inr (Ordered-after s.cells (end_of (s.cells p)) ps q o.1 i))

pub slide-Slid :
    (s : Moving) (prev : ℕ) (ps : List ℕ)
    → Distinct ps
    → Ordered s.cells (end_of (s.cells prev)) ps
    → Slid s prev ps (slide s prev ps)
unfolding slide
slide-Slid s prev [] d o = record {
  packed = tt;
  contents = λ q i. refl;
  sizes = λ q i. refl;
  others = λ q n. refl;
  before = λ x n h. refl;
}
slide-Slid s prev (p ∷ ps) d o = Slid-step s prev p ps _ d.0 o (
    slide-Slid (move_segment s p (end_of (s.cells prev))) p ps d.1 (
      Ordered-cells s.cells _ (end_of (s.cells p)) _ ps
        (λ q i. cells_ne s p (end_of (s.cells prev)) q (λ e. d.0 (subst (λ r. In r ps) e i)))
        (omega (arith, o.0, ap end_of (cells_self s p (end_of (s.cells prev))))) o.1))

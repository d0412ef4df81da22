-- ===== src/Memory/Compacted.antt =====
-- What `compact_memory` does to a valid memory, and where it puts the free bytes.
use native.Mathlib.Decide.{ℕ_discrete, dec_le}
use tp_so_tuki.Common.{
  ℕ, ◌+◌, ◌≤◌, ◌<◌, ◌≡◌, ◌≢◌, refl, sym, ap, subst, ◌∙◌, inl, inr, List, [], ◌∷◌, some, In, arith,
}
use tp_so_tuki.Memory.State.{Segment, Memory, update}
use tp_so_tuki.Memory.Blocks.{Distinct, total, update_self, update_ne}
use tp_so_tuki.Memory.Invariant.{IsMemory}
use tp_so_tuki.Memory.Apart.{All-In}
use tp_so_tuki.Memory.Release.{IsRam}
use tp_so_tuki.Memory.Heap.{load}
use tp_so_tuki.Memory.Compact.{Moving, slide, last_of, compact_sorted}
use tp_so_tuki.Memory.Reordered.{
  Reordered, Reordered-sym, In-Reordered, Distinct-Reordered, total-Reordered, Ascending,
}
use tp_so_tuki.Memory.Slide.{end_of, content, Ordered, Packed, Slid, slide-Slid}

-- Segment zero starts the heap, and is not empty.
pub record IsZero (m : Memory) : Type 0 where
  pub at_start : (m.cells m.segment_zero).base ≡ 0
  pub nonempty : 0 < (m.cells m.segment_zero).offset

module _ {memory_size : ℕ} {m : Memory} (v : IsMemory memory_size m) (used : List ℕ)
    (ram : IsRam m used) (zero_seg : IsZero m) where
  positive : (p : ℕ) → In p m.ram → 0 < (m.cells p).offset
  positive p i = elim (subst (In p) ram.split i) [
    | inl e ↦ rw e zero_seg.nonempty
    | inr j ↦ ram.positive p j
  ]

  -- Of two segments the one that starts first ends before the other starts.
  end-le-base :
      (p q : ℕ)
      → In p m.ram
      → In q m.ram
      → p ≢ q
      → (m.cells p).base ≤ (m.cells q).base
      → end_of (m.cells p) ≤ (m.cells q).base
  end-le-base p q i j n h = elim (dec_le (end_of (m.cells p)) (m.cells q).base) [
    | yes k ↦ k
    | no k ↦ absurd (
        v.disjoint p q (inr i) (inr j) n (m.cells q).base (omega arith)
          (omega (arith, positive q j)))
  ]

  Ordered-of_Ascending :
      (p : ℕ) (ps : List ℕ)
      → Distinct (p ∷ ps)
      → ((q : ℕ) → In q (p ∷ ps) → In q m.ram)
      → Ascending m.cells (p ∷ ps)
      → Ordered m.cells (end_of (m.cells p)) ps
  Ordered-of_Ascending p [] d f a = tt
  Ordered-of_Ascending p (q ∷ ps) d f a = (
    end-le-base p q (f p (inl refl)) (f q (inr (inl refl))) (λ e. d.0 (inl e)) a.0.0,
    Ordered-of_Ascending q ps d.1 (λ r i. f r (inr i)) a.1,
  )

  -- Sorted by their bases, the segments begin with segment zero.
  pub head_is_zero :
      (p : ℕ) (ps : List ℕ)
      → ((q : ℕ) → In q m.ram → In q (p ∷ ps))
      → In p m.ram
      → Ascending m.cells (p ∷ ps)
      → p ≡ m.segment_zero
  head_is_zero p ps f i a = elim (ℕ_discrete p m.segment_zero) [
    | yes e ↦ e
    | no n ↦ elim (f m.segment_zero in_ram) [
      | inl e ↦ sym e
      | inr j ↦
          let least = All-In (λ q. (m.cells p).base ≤ (m.cells q).base) ps m.segment_zero a.0 j in
          absurd (
            v.disjoint p m.segment_zero (inr i) (inr in_ram) n 0
              (omega (arith, least, zero_seg.at_start, positive p i))
              (omega (arith, zero_seg.at_start, zero_seg.nonempty)))
    ]
  ]
    where
      in_ram : In m.segment_zero m.ram
      in_ram = subst (In m.segment_zero) (sym ram.split) (inl refl)

  -- The memory after compaction: the same segments with the same bytes in them, packed behind segment
  -- zero, and one hole that starts one byte behind the last of them.
  pub record Compacted (remaining_size : ℕ) (m' : Memory) : Type 0 where
    pub rest : List ℕ
    pub split : m'.ram ≡ m.segment_zero ∷ rest
    pub packed : Packed m'.cells (m.cells m.segment_zero).offset rest
    pub members : Reordered m.ram m'.ram
    pub sizes : (q : ℕ) → In q m.ram → (m'.cells q).offset ≡ (m.cells q).offset
    pub bytes :
        (q : ℕ)
        → In q m.ram
        → load m'.heap (m'.cells q).base (m'.cells q).offset
          ≡ load m.heap (m.cells q).base (m.cells q).offset
    pub holes : m'.hole_list ≡ m.fresh ∷ []
    pub hole :
        m'.cells m.fresh
        ≡ record { base = total m.cells m.ram + 1; offset = remaining_size; s_id = 0 }

end_of_last :
    (c : ℕ → Segment) (from p : ℕ) (ps : List ℕ)
    → Packed c from (p ∷ ps)
    → end_of (c (last_of p ps)) ≡ from + total c (p ∷ ps)
unfolding last_of
end_of_last c from p [] k = omega (arith, k.0)
end_of_last c from p (q ∷ ps) k = omega (arith, k.0, end_of_last c (end_of (c p)) q ps k.1)

total-sizes :
    (c c' : ℕ → Segment) (ps : List ℕ)
    → ((q : ℕ) → In q ps → (c' q).offset ≡ (c q).offset)
    → total c' ps ≡ total c ps
total-sizes c c' [] e = refl
total-sizes c c' (p ∷ ps) e =
    omega (arith, e p (inl refl), total-sizes c c' ps (λ q i. e q (inr i)))

Packed-cells :
    (c c' : ℕ → Segment) (from : ℕ) (ps : List ℕ)
    → ((q : ℕ) → In q ps → c' q ≡ c q)
    → Packed c from ps
    → Packed c' from ps
Packed-cells c c' from [] e k = tt
Packed-cells c c' from (p ∷ ps) e k = (
  ap (λ (s : Segment). s.base) (e p (inl refl)) ∙ k.0,
  subst (λ n. Packed c' n ps) (sym (ap end_of (e p (inl refl))))
      (Packed-cells c c' (end_of (c p)) ps (λ q i. e q (inr i)) k.1),
)

module _ {memory_size : ℕ} {m : Memory} (v : IsMemory memory_size m) (used : List ℕ)
    (ram : IsRam m used) (zero_seg : IsZero m) (remaining_size p : ℕ) (qs : List ℕ)
    (r : Reordered m.ram (m.segment_zero ∷ p ∷ qs))
    (a : Ascending m.cells (m.segment_zero ∷ p ∷ qs)) where
  abbrev before : Moving
  before = record { cells = m.cells; heap = m.heap }

  abbrev after : Moving
  after = slide before m.segment_zero (p ∷ qs)

  once : Distinct (m.segment_zero ∷ p ∷ qs)
  once = Distinct-Reordered r v.segments_once

  slid : Slid before m.segment_zero (p ∷ qs) after
  slid = slide-Slid before m.segment_zero (p ∷ qs) once.1 (
      Ordered-of_Ascending v used ram zero_seg m.segment_zero (p ∷ qs) once
        (In-Reordered (Reordered-sym r)) a)

  size_kept : (q : ℕ) → In q (m.segment_zero ∷ p ∷ qs) → (after.cells q).offset ≡ (m.cells q).offset
  size_kept q i = elim i [
    | inl e ↦ rw (e, slid.others m.segment_zero once.0)
    | inr j ↦ slid.sizes q j
  ]

  content_kept : (q : ℕ) → In q (m.segment_zero ∷ p ∷ qs) → content after q ≡ content before q
  content_kept q i = elim i [
    | inl e ↦
        subst (λ k. content after k ≡ content before k) (sym e)
          (ap (λ (c : Segment). load after.heap c.base c.offset) (slid.others m.segment_zero once.0)
            ∙ slid.before _ _ (omega arith))
    | inr j ↦ slid.contents q j
  ]

  -- The new hole's struct is none of the segments.
  cell_kept :
      (c : Segment) (q : ℕ)
      → In q (m.segment_zero ∷ p ∷ qs)
      → update after.cells m.fresh c q ≡ after.cells q
  cell_kept c q i =
      update_ne after.cells m.fresh c q
        (λ e. omega (arith, e, v.allocated q (inr (In-Reordered (Reordered-sym r) q i))))

  last_end : end_of (after.cells (last_of p qs)) ≡ total m.cells m.ram
  last_end = omega (
    arith,
    end_of_last after.cells (end_of (m.cells m.segment_zero)) p qs slid.packed,
    total-sizes m.cells after.cells (p ∷ qs) (λ q i. slid.sizes q i),
    total-Reordered m.cells r,
    zero_seg.at_start,
  )

  pub compact_sorted-Compacted :
      (m' : Memory) × (compact_sorted m remaining_size (m.segment_zero ∷ p ∷ qs) ≡ some m')
      × Compacted v used ram zero_seg remaining_size m'
  unfolding compact_sorted
  compact_sorted-Compacted = (
    _,
    refl,
    record {
      rest = p ∷ qs;
      split = refl;
      packed =
          Packed-cells after.cells _ _ (p ∷ qs) (λ q i. cell_kept _ q (inr i))
            (subst (λ n. Packed after.cells n (p ∷ qs)) (omega (arith, zero_seg.at_start))
              slid.packed);
      members = r;
      sizes = λ q i.
          let j = In-Reordered r q i in
          ap (λ (c : Segment). c.offset) (cell_kept _ q j) ∙ size_kept q j;
      bytes = λ q i.
          let j = In-Reordered r q i in
          ap (λ (c : Segment). load after.heap c.base c.offset) (cell_kept _ q j)
          ∙ content_kept q j;
      holes = refl;
      hole =
          update_self after.cells m.fresh _
          ∙ ap (λ n. record { base = n + 1; offset = remaining_size; s_id = 0 }) last_end;
    },
  )

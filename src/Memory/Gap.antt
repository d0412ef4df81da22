-- ===== src/Memory/Gap.antt =====
-- `compact_memory` as a whole: the segments are packed with their bytes, and the free bytes end up one
-- byte too far.
use tp_so_tuki.Common.{
  ℕ, ◌+◌, ◌≡◌, refl, sym, ap, subst, ◌∙◌, inl, inr, Bool, List, [], ◌∷◌, some, In, arith,
}
use tp_so_tuki.Memory.State.{Memory}
use tp_so_tuki.Memory.Blocks.{Distinct}
use tp_so_tuki.Memory.Invariant.{IsMemory}
use tp_so_tuki.Memory.Release.{IsRam}
use tp_so_tuki.Memory.Compact.{more_close_to_heap, compact_sorted, compact_memory}
use tp_so_tuki.Memory.Reordered.{Reordered, Reordered-sym, In-Reordered, Ascending}
use tp_so_tuki.Memory.Slide.{end_of}
use tp_so_tuki.Memory.Compacted.{IsZero, Compacted, head_is_zero, compact_sorted-Compacted}

-- What `list_sort` promises of the list of all segments: the same segments, by their bases.
pub record Sorts (list_sort : (ℕ → ℕ → Bool) → List ℕ → List ℕ) (m : Memory) : Type 0 where
  pub reordered : Reordered m.ram (list_sort (more_close_to_heap m.cells) m.ram)
  pub ascending : Ascending m.cells (list_sort (more_close_to_heap m.cells) m.ram)

module _ {memory_size : ℕ} {m : Memory} (v : IsMemory memory_size m) (used : List ℕ)
    (ram : IsRam m used) (zero_seg : IsZero m) where
  abbrev Compacts : ℕ → List ℕ → Type 0
  Compacts n sorted =
      (m' : Memory) × (compact_sorted m n sorted ≡ some m') × Compacted v used ram zero_seg n m'

  compact_sorted_lem :
      (n u : ℕ) (sorted : List ℕ)
      → In u used
      → Reordered m.ram sorted
      → Ascending m.cells sorted
      → Compacts n sorted
  compact_sorted_lem n u [] i r a = absurd (In-Reordered r u (subst (In u) (sym ram.split) (inr i)))
  compact_sorted_lem n u (z ∷ []) i r a =
      absurd (only (In-Reordered r u in_ram) (In-Reordered r m.segment_zero zero_in))
    where
      in_ram : In u m.ram
      in_ram = subst (In u) (sym ram.split) (inr i)

      zero_in : In m.segment_zero m.ram
      zero_in = subst (In m.segment_zero) (sym ram.split) (inl refl)

      only : In u (z ∷ []) → In m.segment_zero (z ∷ []) → ⊥
      only (inl e) (inl f) =
          (subst Distinct ram.split v.segments_once).0 (subst (λ k. In k used) (e ∙ sym f) i)
      only (inl e) (inr f) = f
      only (inr e) f = e
  compact_sorted_lem n u (z ∷ p ∷ qs) i r a =
      let e =
        head_is_zero v used ram zero_seg z (p ∷ qs) (In-Reordered r)
          (In-Reordered (Reordered-sym r) z (inl refl)) a in
      subst (λ k. Compacts n (k ∷ p ∷ qs)) (sym e)
        (compact_sorted-Compacted v used ram zero_seg n p qs
          (subst (λ k. Reordered m.ram (k ∷ p ∷ qs)) e r)
          (subst (λ k. Ascending m.cells (k ∷ p ∷ qs)) e a))

  -- Let the memory be valid, segment zero start the heap and head the list of all segments, no
  -- segment be empty, and some segment besides it be in use. If `list_sort` sorts by base,
  -- `compact_memory` does not fault: it keeps the segments, their sizes and every byte in them,
  -- packs them behind segment zero without gaps, and leaves one hole of the given size.
  pub compact_memory_lem :
      (list_sort : (ℕ → ℕ → Bool) → List ℕ → List ℕ) (n u : ℕ)
      → In u used
      → Sorts list_sort m
      → (m' : Memory) × (compact_memory list_sort m n ≡ some m')
        × Compacted v used ram zero_seg n m'
  unfolding compact_memory
  compact_memory_lem list_sort n u i s = compact_sorted_lem n u _ i s.reordered s.ascending

  -- Let the memory be valid, segment zero start the heap and head the list of all segments, no
  -- segment be empty, some segment besides it be in use, and `list_sort` sort by base. Called as the
  -- module calls it, with the remaining memory, `compact_memory` never leaves the memory valid: the
  -- hole ends one byte behind the memory.
  pub compact_memory_past_end :
      (list_sort : (ℕ → ℕ → Bool) → List ℕ → List ℕ) (u : ℕ)
      → In u used
      → Sorts list_sort m
      → (m' : Memory) × (compact_memory list_sort m m.remaining_memory ≡ some m')
        × (end_of (m'.cells m.fresh) ≡ memory_size + 1)
        × (¬ IsMemory memory_size m')
  compact_memory_past_end list_sort u i s =
      let (m', e, c) = compact_memory_lem list_sort m.remaining_memory u i s in
      let past : end_of (m'.cells m.fresh) ≡ memory_size + 1 =
        omega (arith, ap end_of c.hole, v.free_total, v.all_total) in
      (
        m',
        e,
        past,
        λ w. absurd (
            omega
              (arith, past, w.within m.fresh (inl (subst (In m.fresh) (sym c.holes) (inl refl))))),
      )

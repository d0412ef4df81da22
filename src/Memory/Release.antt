-- ===== src/Memory/Release.antt =====
-- `delete_segment` gives exactly the bytes of one segment back, and leaves the structures valid.
use tp_so_tuki.Common.{
  ℕ, ◌+◌, ◌<◌, ◌≡◌, ◌≢◌, refl, sym, ap, subst, ◌∙◌, ◌⊎◌, inl, inr, List, [], ◌∷◌, some, In, ◌==◌,
  Bool-cases, Option-cases, arith,
}
use native.Mathlib.Decide.{ℕ_discrete}
use tp_so_tuki.Memory.State.{Segment, Memory, table_get, table_put}
use tp_so_tuki.Memory.Delete.{
  take_segment, remove_base, remove_from_ram, release_segment, compact_hole_list, delete_segment,
}
use tp_so_tuki.Memory.Blocks.{
  Distinct, total, total-append, In-append, In-append_left, In-append_right, Distinct-append_one,
}
use tp_so_tuki.Memory.Invariant.{Covers, Owned, IsMemory}
use tp_so_tuki.Memory.Compaction.{
  compact_hole_list-IsMemory, cells-compact_hole_list, bytes-compact_hole_list,
}
use tp_so_tuki.Memory.Removed.{
  Lone, In-remove_base, Distinct-remove_base, not_in-remove_base, total-remove_base,
}
use tp_so_tuki.Memory.Merge.{Held}

-- Segment zero heads the list of all segments, and no other segment is empty.
pub record IsRam (m : Memory) (used : List ℕ) : Type 0 where
  pub split : m.ram ≡ m.segment_zero ∷ used
  pub positive : (p : ℕ) → In p used → 0 < (m.cells p).offset

-- What the search finds has the id, and stands in the table.
pub take_segment-In :
    (cells : ℕ → Segment) (s_id : ℕ) (ps : List ℕ) (p : ℕ) (rest : List ℕ)
    → take_segment cells s_id ps ≡ some (p, rest)
    → In p ps × ((cells p).s_id ≡ s_id)
unfolding take_segment
take_segment-In cells s_id [] p rest e = cc
take_segment-In cells s_id (q ∷ ps) p rest e = elim (Bool-cases ((cells q).s_id == s_id)) [
  | inl t ↦ ground arith
  | inr t ↦ elim (Option-cases (take_segment cells s_id ps)) [
    | inl n ↦ ground arith
    | inr (r, f) ↦ ground (arith, take_segment-In cells s_id ps r.0 r.1)
  ]
]

module _ {memory_size : ℕ} {m : Memory} (v : IsMemory memory_size m) (used : List ℕ)
    (ram : IsRam m used) (pid z p : ℕ) (rest : List ℕ) (live : In p used) where
  pub used_segment : (q : ℕ) → In q used → In q m.ram
  used_segment q i = subst (In q) (sym ram.split) (inr i)

  once : Distinct (m.segment_zero ∷ used)
  once = subst Distinct ram.split v.segments_once

  pub lone : Lone m.cells p used
  lone q i e = elim (ℕ_discrete q p) [
    | yes same ↦ same
    | no n ↦ absurd (
        v.disjoint q p (inr (used_segment q i)) (inr (used_segment p live)) n (m.cells p).base
          (omega (arith, ram.positive q i)) (omega (arith, ram.positive p live)))
  ]

  unfoldable pub released : Memory
  unfolding release_segment
  released = release_segment m pid z p rest

  pub In-released_holes : (q : ℕ) → In q released.hole_list → In q m.hole_list ⊎ (q ≡ p)
  unfolding released
  In-released_holes q i = elim (In-append m.hole_list (p ∷ []) q i) [
    | inl j ↦ inl j
    | inr (inl e) ↦ inr e
    | inr (inr j) ↦ absurd j
  ]

  ram-released : released.ram ≡ m.segment_zero ∷ remove_base m.cells (m.cells p).base used
  unfolding released remove_from_ram
  ram-released = rw ram.split

  In-released_ram : (q : ℕ) → In q released.ram → In q m.ram × (q ≢ p)
  In-released_ram q i = elim (subst (In q) ram-released i) [
    | inl e ↦ (
      subst (In q) (sym ram.split) (inl e),
      λ k. once.0 (subst (λ r. In r used) (sym k ∙ e) live),
    )
    | inr j ↦ (
      used_segment q (In-remove_base m.cells p used q j),
      λ k.
          not_in-remove_base m.cells p used once.1 lone
            (subst (λ r. In r (remove_base m.cells (m.cells p).base used)) k j),
    )
  ]

  Owned-before : (q : ℕ) → Owned released q → Owned m q
  Owned-before q (inl i) = elim (In-released_holes q i) [
    | inl j ↦ inl j
    | inr e ↦ inr (subst (λ r. In r m.ram) (sym e) (used_segment p live))
  ]
  Owned-before q (inr i) = inr (In-released_ram q i).0

  not_hole : ¬ In p m.hole_list
  not_hole i = v.apart p i (used_segment p live)

  -- The bytes of the segment, and those of the holes, are in the holes now.
  pub Held-released :
      (x : ℕ)
      → Covers (m.cells p) x ⊎ Held m.cells m.hole_list x
      → Held released.cells released.hole_list x
  unfolding released
  Held-released x (inl c) = (p, In-append_right m.hole_list (p ∷ []) p (inl refl), c)
  Held-released x (inr (h, i, c)) = (h, In-append_left m.hole_list (p ∷ []) h i, c)

  pub released-IsMemory : IsMemory memory_size released
  unfolding released
  released-IsMemory = record {
    allocated = λ q o. v.allocated q (Owned-before q o);
    holes_once = Distinct-append_one m.hole_list p v.holes_once not_hole;
    segments_once = subst Distinct (sym ram-released) (
      (λ i. once.0 (In-remove_base m.cells p used m.segment_zero i)),
      Distinct-remove_base m.cells p used once.1,
    );
    apart = λ q i j. elim (In-released_holes q i) [
      | inl k ↦ v.apart q k (In-released_ram q j).0
      | inr e ↦ (In-released_ram q j).1 e
    ];
    within = λ q o. v.within q (Owned-before q o);
    disjoint = λ q r o k. v.disjoint q r (Owned-before q o) (Owned-before r k);
    free_total = omega (arith, total-append m.cells m.hole_list (p ∷ []), v.free_total);
    all_total = omega (
      arith,
      total-append m.cells m.hole_list (p ∷ []),
      ap (total m.cells) ram-released,
      ap (total m.cells) ram.split,
      total-remove_base m.cells p used lone live,
      v.all_total,
    );
  }

  pub kept-released :
      (q : ℕ) → In q m.ram → q ≢ p → (compact_hole_list released).cells q ≡ m.cells q
  unfolding released
  kept-released q i n =
      cells-compact_hole_list released released-IsMemory.holes_once q
        (λ h. elim (In-released_holes q h) [ inl j ↦ v.apart q j i | inr k ↦ n k ])

remaining-compact_hole_list :
    (m : Memory) → (compact_hole_list m).remaining_memory ≡ m.remaining_memory
unfolding compact_hole_list
remaining-compact_hole_list m = ground arith

ram-compact_hole_list : (m : Memory) → (compact_hole_list m).ram ≡ m.ram
unfolding compact_hole_list
ram-compact_hole_list m = ground arith

tables-compact_hole_list : (m : Memory) → (compact_hole_list m).tables ≡ m.tables
unfolding compact_hole_list
tables-compact_hole_list m = ground arith

-- Let the memory be valid, segment zero head the list of all segments and no other be empty. If the
-- process has a segment with that id behind the first entry of its table, and those entries are
-- segments in use, then `delete_segment` does not fault: it takes that segment `p` out of the table
-- and out of the list of all segments, gives its size back to the remaining memory, and leaves the
-- memory valid, with the base, size and id of every other segment as they were. Each byte of `p`, and
-- each byte that was in a hole before, is in a hole afterwards.
pub delete_segment_lem :
    {memory_size : ℕ} {m : Memory} (pid s_id z p : ℕ) (used table rest : List ℕ)
    → IsMemory memory_size m
    → IsRam m used
    → table_get pid m.tables ≡ some (z ∷ table)
    → ((q : ℕ) → In q table → In q used)
    → take_segment m.cells s_id table ≡ some (p, rest)
    → (m' : Memory) × (delete_segment m pid s_id ≡ some m')
      × ((m.cells p).s_id ≡ s_id)
      × (m'.tables ≡ table_put pid (z ∷ rest) m.tables)
      × (m'.ram ≡ m.segment_zero ∷ remove_base m.cells (m.cells p).base used)
      × (¬ In p m'.ram)
      × (m'.remaining_memory ≡ m.remaining_memory + (m.cells p).offset)
      × IsMemory memory_size m'
      × ((q : ℕ) → In q m.ram → q ≢ p → (m'.cells q ≡ m.cells q))
      × ((x : ℕ) → Covers (m.cells p) x ⊎ Held m.cells m.hole_list x → Held m'.cells m'.hole_list x)
unfolding delete_segment release_segment released
delete_segment_lem {m = m} pid s_id z p used table rest v r t listed e =
    let found = take_segment-In m.cells s_id table p rest e in
    let live = listed p found.0 in
    let m' = released v used r pid z p rest live in
    (
      compact_hole_list m',
      rw (t, e),
      found.1,
      tables-compact_hole_list m',
      ram-compact_hole_list m' ∙ ram-released v used r pid z p rest live,
      λ i.
          (In-released_ram v used r pid z p rest live p
              (subst (In p) (ram-compact_hole_list m') i)).1
            refl,
      remaining-compact_hole_list m',
      compact_hole_list-IsMemory (released-IsMemory v used r pid z p rest live),
      kept-released v used r pid z p rest live,
      λ x h.
          bytes-compact_hole_list m' (released-IsMemory v used r pid z p rest live).holes_once x
            (Held-released v used r pid z p rest live x h),
    )

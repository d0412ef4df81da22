-- ===== src/Memory/Compaction.antt =====
-- `compact_hole_list` leaves the memory structures valid.
use tp_so_tuki.Common.{
  ℕ, ◌+◌, ◌≤◌, ◌≡◌, ◌≢◌, refl, sym, ap, subst, ◌∙◌, ◌⊎◌, inl, inr, List, [], ◌∷◌, In, All, length,
  ◌==◌, Bool-cases, arith,
}
use tp_so_tuki.Memory.State.{Segment, Memory}
use tp_so_tuki.Memory.Delete.{compact_hole_list}
use tp_so_tuki.Memory.Blocks.{Distinct, total}
use tp_so_tuki.Memory.Invariant.{Disjoint, Owned, IsMemory}
use tp_so_tuki.Memory.Apart.{
  Disjoint-joins, Disjoint-sym, All-In, All-of_In, Apart-pair, Apart-of_pairs,
}
use tp_so_tuki.Memory.Merge.{Held, Merged, merge_holes-Merged}

total-cells :
    (c c' : ℕ → Segment) (ps : List ℕ) → ((q : ℕ) → In q ps → c' q ≡ c q) → total c' ps ≡ total c ps
total-cells c c' [] e = refl
total-cells c c' (p ∷ ps) e = omega (
  arith,
  ap (λ (s : Segment). s.offset) (e p (inl refl)),
  total-cells c c' ps (λ q i. e q (inr i)),
)

-- Holes may be merged in any way: the memory stays valid.
Merged-IsMemory :
    {memory_size : ℕ} {m : Memory} (cells : ℕ → Segment) (hs : List ℕ)
    → IsMemory memory_size m
    → Merged m.cells m.hole_list cells hs
    → IsMemory memory_size (record m { cells = cells; hole_list = hs })
Merged-IsMemory {memory_size} {m} cells hs v w = record {
  allocated = λ p o. v.allocated p (old p o);
  holes_once = w.distinct;
  segments_once = v.segments_once;
  apart = λ p i j. v.apart p (w.kept p i) j;
  within = within;
  disjoint = disjoint;
  free_total = w.same_total ∙ v.free_total;
  all_total =
      omega
        (arith, w.same_total, v.all_total, total-cells m.cells cells m.ram (λ q i. segment q i));
}
  where
    old : (p : ℕ) → In p hs ⊎ In p m.ram → Owned m p
    old p (inl i) = inl (w.kept p i)
    old p (inr i) = inr i

    segment : (q : ℕ) → In q m.ram → cells q ≡ m.cells q
    segment q i = w.others q (λ j. v.apart q j i)

    Below : Segment → Type 0
    Below s = s.base + s.offset ≤ memory_size

    below : All (λ h. Below (cells h)) hs
    below =
        w.every Below (λ a b c base offset next p q. omega arith)
          (All-of_In _ m.hole_list (λ p i. v.within p (inl i)))

    within : (p : ℕ) → In p hs ⊎ In p m.ram → (cells p).base + (cells p).offset ≤ memory_size
    within p (inl i) = All-In (λ h. Below (cells h)) hs p below i
    within p (inr i) = subst Below (sym (segment p i)) (v.within p (inr i))

    from_segment : (p q : ℕ) → In p m.ram → In q hs → Disjoint (cells p) (cells q)
    from_segment p q i j =
        subst (λ s. Disjoint s (cells q)) (sym (segment p i))
          (All-In _ hs q
            (w.every (Disjoint (m.cells p)) (Disjoint-joins (m.cells p)) (
              All-of_In _ m.hole_list (λ h k.
                v.disjoint p h (inr i) (inl k) (λ e. v.apart h k (subst (λ r. In r m.ram) e i)))))
            j)

    disjoint :
        (p q : ℕ)
        → In p hs ⊎ In p m.ram
        → In q hs ⊎ In q m.ram
        → p ≢ q
        → Disjoint (cells p) (cells q)
    disjoint p q (inl i) (inl j) n =
        Apart-pair cells hs p q
          (w.apart (
            Apart-of_pairs m.cells m.hole_list v.holes_once
              (λ r s k l. v.disjoint r s (inl k) (inl l))))
          i j n
    disjoint p q (inl i) (inr j) n = Disjoint-sym (cells q) (cells p) (from_segment q p j i)
    disjoint p q (inr i) (inl j) n = from_segment p q i j
    disjoint p q (inr i) (inr j) n =
        subst (λ s. Disjoint s (cells q)) (sym (segment p i))
          (subst (Disjoint (m.cells p)) (sym (segment q j)) (v.disjoint p q (inr i) (inr j) n))

-- Consolidating the hole list of a valid memory keeps it valid: holes and segments overlap nowhere,
-- and the holes hold as many bytes as before.
pub compact_hole_list-IsMemory :
    {memory_size : ℕ} {m : Memory}
    → IsMemory memory_size m
    → IsMemory memory_size (compact_hole_list m)
unfolding compact_hole_list
compact_hole_list-IsMemory {memory_size} {m} v = elim (Bool-cases (length m.hole_list == 1)) [
  | inl e ↦ rw e v
  | inr e ↦ rw e (Merged-IsMemory _ _ v (merge_holes-Merged m.cells m.hole_list v.holes_once))
]

pub zero-compact_hole_list : (m : Memory) → (compact_hole_list m).segment_zero ≡ m.segment_zero
unfolding compact_hole_list
zero-compact_hole_list m = ground arith

pub cells-compact_hole_list :
    (m : Memory)
    → Distinct m.hole_list
    → (q : ℕ) → ¬ In q m.hole_list
    → (compact_hole_list m).cells q ≡ m.cells q
unfolding compact_hole_list
cells-compact_hole_list m d q n = elim (Bool-cases (length m.hole_list == 1)) [
  | inl e ↦ rw e refl
  | inr e ↦ rw e ((merge_holes-Merged m.cells m.hole_list d).others q n)
]

pub bytes-compact_hole_list :
    (m : Memory)
    → Distinct m.hole_list
    → (x : ℕ) → Held m.cells m.hole_list x
    → Held (compact_hole_list m).cells (compact_hole_list m).hole_list x
unfolding compact_hole_list
bytes-compact_hole_list m d x h = elim (Bool-cases (length m.hole_list == 1)) [
  | inl e ↦ rw e h
  | inr e ↦ rw e ((merge_holes-Merged m.cells m.hole_list d).bytes x h)
]

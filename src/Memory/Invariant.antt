-- ===== src/Memory/Invariant.antt =====
-- What holds of the memory structures between two operations of the memory module.
use tp_so_tuki.Common.{ℕ, ◌+◌, ◌≤◌, ◌<◌, ◌≡◌, ◌≢◌, ◌⊎◌, inl, inr, In, arith}
use tp_so_tuki.Memory.State.{Segment, Memory, new_memory_structure, update}
use tp_so_tuki.Memory.Blocks.{Distinct, total}

-- The byte at `x` is one of the block's.
abbrev pub Covers : Segment → ℕ → Type 0
Covers s x = (s.base ≤ x) × (x < s.base + s.offset)

-- No byte is in both blocks.
abbrev pub Disjoint : Segment → Segment → Type 0
Disjoint a b = (x : ℕ) → Covers a x → Covers b x → ⊥

-- The pointer is that of a hole or of a segment in use.
abbrev pub Owned : Memory → ℕ → Type 0
Owned m p = In p m.hole_list ⊎ In p m.ram

-- Holes and segments are structs of their own, lie within the memory, overlap nowhere, and add up to
-- it; the remaining memory is what the holes hold.
pub record IsMemory (memory_size : ℕ) (m : Memory) : Type 0 where
  pub allocated : (p : ℕ) → Owned m p → p < m.fresh
  pub holes_once : Distinct m.hole_list
  pub segments_once : Distinct m.ram
  pub apart : (p : ℕ) → In p m.hole_list → ¬ In p m.ram
  pub within : (p : ℕ) → Owned m p → (m.cells p).base + (m.cells p).offset ≤ memory_size
  pub disjoint : (p q : ℕ) → Owned m p → Owned m q → p ≢ q → Disjoint (m.cells p) (m.cells q)
  pub free_total : total m.cells m.hole_list ≡ m.remaining_memory
  pub all_total : total m.cells m.hole_list + total m.cells m.ram ≡ memory_size

-- The memory is set up in a valid state, if segment zero fits.
pub new_memory_structure-IsMemory :
    (memory_size sg_zero_size : ℕ)
    → sg_zero_size ≤ memory_size
    → IsMemory memory_size (new_memory_structure memory_size sg_zero_size)
unfolding new_memory_structure update
new_memory_structure-IsMemory n z h = record {
  allocated = λ p o. elim o [
    | inl (inl e) ↦ omega arith
    | inl (inr i) ↦ absurd i
    | inr (inl e) ↦ omega arith
    | inr (inr i) ↦ absurd i
  ];
  holes_once = ((λ i. i), tt);
  segments_once = ((λ i. i), tt);
  apart = λ p i j. ground arith;
  within = λ p o. ground arith;
  disjoint = λ p q o o' ne x a b. ground arith;
  free_total = omega arith;
  all_total = omega arith;
}

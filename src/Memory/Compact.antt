-- ===== src/Memory/Compact.antt =====
-- `compact_memory` of memoria/src/handler_instruction_memoria.c. `list_sort` is the commons library's:
-- it sorts by the comparison that it is given.
use tp_so_tuki.Common.{ℕ, suc, ◌+◌, Bool, List, [], ◌∷◌, Option, none, some, ltb}
use tp_so_tuki.Memory.State.{Segment, Memory, update}
use tp_so_tuki.Memory.Heap.{load, store}

-- `more_close_to_heap`
unfoldable pub more_close_to_heap : (ℕ → Segment) → ℕ → ℕ → Bool
more_close_to_heap cells p q = ltb (cells p).base (cells q).base

-- The segments and the bytes, while segments are moved.
pub record Moving : Type 0 where
  pub cells : ℕ → Segment
  pub heap : ℕ → ℕ

-- A segment's bytes go through a buffer to `dest`, which becomes its base.
unfoldable pub move_segment : Moving → ℕ → ℕ → Moving
move_segment s p dest =
    let segment = s.cells p in
    record {
      cells = update s.cells p (record segment { base = dest });
      heap = store s.heap dest (load s.heap segment.base segment.offset);
    }

-- Each segment of the list is moved to the end of the one before it, the first to that of `prev`.
unfoldable pub slide : Moving → ℕ → List ℕ → Moving
slide s prev [] = s
slide s prev (p ∷ ps) = slide (move_segment s p ((s.cells prev).base + (s.cells prev).offset)) p ps

unfoldable pub last_of : ℕ → List ℕ → ℕ
last_of p [] = p
last_of p (q ∷ ps) = last_of q ps

-- The sorted list is passed in: a `list_get(ram, 1)` of NULL is `none`. The new hole starts one byte
-- behind the end of the last segment, as the code has it.
unfoldable pub compact_sorted : Memory → ℕ → List ℕ → Option Memory
compact_sorted m remaining_size [] = none
compact_sorted m remaining_size (z ∷ []) = none
compact_sorted m remaining_size (z ∷ p ∷ qs) =
    let s = slide (record { cells = m.cells; heap = m.heap }) m.segment_zero (p ∷ qs) in
    let last_segment = s.cells (last_of p qs) in
    some (record m {
      cells = update s.cells m.fresh (record {
        base = last_segment.base + last_segment.offset + 1;
        offset = remaining_size;
        s_id = 0;
      });
      heap = s.heap;
      fresh = suc m.fresh;
      hole_list = m.fresh ∷ [];
      ram = z ∷ p ∷ qs;
    })

unfoldable pub compact_memory : ((ℕ → ℕ → Bool) → List ℕ → List ℕ) → Memory → ℕ → Option Memory
unfolding compact_sorted
compact_memory list_sort m remaining_size =
    compact_sorted m remaining_size (list_sort (more_close_to_heap m.cells) m.ram)

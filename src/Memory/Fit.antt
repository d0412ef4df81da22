-- ===== src/Memory/Fit.antt =====
-- memoria/src/algorithms.c, and `add_segment` of memoria/src/handler_instruction_memoria.c.
use tp_so_tuki.Common.{
  ℕ, suc, ◌+◌, ◌-◌, Bool, true, ◌&&◌, List, [], ◌∷◌, ◌++◌, Option, none, some, ltb, leb, ◌==◌,
  if◌then◌else◌, ◌>>=◌,
}
use tp_so_tuki.Memory.State.{
  Segment, Memory, update, table_get, table_put, transform_base_to_decimal,
}

-- The first hole that is large enough.
unfoldable pub find_first : (ℕ → Segment) → ℕ → List ℕ → Option ℕ
find_first cells size [] = none
find_first cells size (h ∷ hs) =
    if leb size (cells h).offset then some h else find_first cells size hs

-- `best_hole == NULL || current_hole->size < best_hole->size`
unfoldable pub smaller : (ℕ → Segment) → ℕ → Option ℕ → Bool
smaller cells h none = true
smaller cells h (some b) = ltb (cells h).offset (cells b).offset

-- `worst_hole == NULL || current_hole->size > worst_hole->size`
unfoldable pub larger : (ℕ → Segment) → ℕ → Option ℕ → Bool
larger cells h none = true
larger cells h (some b) = ltb (cells b).offset (cells h).offset

-- The loop of `best_fit` from the hole found so far.
unfoldable pub find_best : (ℕ → Segment) → ℕ → List ℕ → Option ℕ → Option ℕ
find_best cells size [] best = best
find_best cells size (h ∷ hs) best =
    find_best cells size hs
      (if leb size (cells h).offset && smaller cells h best then some h else best)

-- The loop of `worst_fit`.
unfoldable pub find_worst : (ℕ → Segment) → ℕ → List ℕ → Option ℕ → Option ℕ
find_worst cells size [] worst = worst
find_worst cells size (h ∷ hs) worst =
    find_worst cells size hs
      (if leb size (cells h).offset && larger cells h worst then some h else worst)

-- `is_hole_empty`
unfoldable pub is_hole_empty : Segment → Bool
is_hole_empty h = h.offset == 0

-- `list_remove_by_condition` with `is_hole_empty`: the first empty hole leaves the list.
unfoldable pub remove_empty : (ℕ → Segment) → List ℕ → List ℕ
remove_empty cells [] = []
remove_empty cells (h ∷ hs) = if is_hole_empty (cells h) then hs else (h ∷ remove_empty cells hs)

-- The hole gives its first `size` bytes away, and leaves the list if none is left.
unfoldable pub shrink_hole : Memory → ℕ → ℕ → Memory
shrink_hole m h size =
    let hole = m.cells h in
    let cells =
      update m.cells h (record hole { base = hole.base + size; offset = hole.offset - size }) in
    record m {
      cells = cells;
      hole_list = if is_hole_empty (cells h) then remove_empty cells m.hole_list else m.hole_list;
    }

-- The new segment, at the start of the hole `h`.
unfoldable pub new_segment : Memory → ℕ → ℕ → ℕ → Memory
new_segment m h size s_id = record m {
  cells = update m.cells m.fresh (record { base = (m.cells h).base; offset = size; s_id = s_id });
  fresh = suc m.fresh;
}

-- `list_add` to the table of the process and to the list of all segments.
unfoldable pub register : Memory → ℕ → ℕ → List ℕ → Memory
register m segment pid table = record m {
  tables = table_put pid (table ++ (segment ∷ [])) m.tables;
  ram = m.ram ++ (segment ∷ []);
}

-- `best_fit` and `worst_fit` once they have a hole. `list_add` to the table of a process that has
-- none goes through NULL: `none`.
unfoldable pub place : Memory → ℕ → ℕ → ℕ → ℕ → Option (Option ℕ × Memory)
place m h size pid s_id = do
  table ← table_get pid m.tables
  some (some m.fresh, shrink_hole (register (new_segment m h size s_id) m.fresh pid table) h size)

unfoldable pub best_fit : Memory → ℕ → ℕ → ℕ → Option (Option ℕ × Memory)
best_fit m size pid s_id = elim (find_best m.cells size m.hole_list none) [
  | none ↦ some (none, m)
  | some h ↦ place m h size pid s_id
]

unfoldable pub worst_fit : Memory → ℕ → ℕ → ℕ → Option (Option ℕ × Memory)
worst_fit m size pid s_id = elim (find_worst m.cells size m.hole_list none) [
  | none ↦ some (none, m)
  | some h ↦ place m h size pid s_id
]

-- `first_fit` registers the segment only if the process has a table, and takes the bytes anyway.
unfoldable pub register_if_known : Memory → ℕ → ℕ → Memory
register_if_known m segment pid = elim (table_get pid m.tables) [
  | none ↦ m
  | some table ↦ register m segment pid table
]

unfoldable pub first_fit : Memory → ℕ → ℕ → ℕ → Option (Option ℕ × Memory)
first_fit m size pid s_id = elim (find_first m.cells size m.hole_list) [
  | none ↦ some (none, m)
  | some h ↦
      some (
        some m.fresh,
        shrink_hole (register_if_known (new_segment m h size s_id) m.fresh pid) h size,
      )
]

-- `ALGORITMO_ASIGNACION`; any other value aborts.
pub data Algorithm : Type 0 where
  first best worst : Algorithm

unfoldable pub fit : Algorithm → Memory → ℕ → ℕ → ℕ → Option (Option ℕ × Memory)
fit first = first_fit
fit best = best_fit
fit worst = worst_fit

-- The `int` that `add_segment` returns: a base, -1 or -2.
pub data Added : Type 0 where
  created : ℕ → Added
  needs_compaction : Added
  no_space : Added

-- What `add_segment` answers for the segment that the search returned. Only a created segment counts
-- against the remaining memory.
unfoldable pub report_segment : Memory → ℕ → Option ℕ → Option (Added × Memory)
report_segment m size none = some (needs_compaction, m)
report_segment m size (some segment) = some (
  created (transform_base_to_decimal (m.cells segment).base (m.cells m.segment_zero).base),
  record m { remaining_memory = m.remaining_memory - size },
)

unfoldable pub add_segment : Algorithm → Memory → ℕ → ℕ → ℕ → Option (Added × Memory)
add_segment algorithm m pid size s_id =
    if leb size m.remaining_memory
    then (fit algorithm m size pid s_id >>= λ r. report_segment r.1 size r.0)
    else some (no_space, m)

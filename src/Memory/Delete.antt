-- ===== src/Memory/Delete.antt =====
-- `delete_segment`, `compact_hole_list` and `remove_sg_table` of
-- memoria/src/handler_instruction_memoria.c.
use tp_so_tuki.Common.{
  ℕ, zero, suc, ◌+◌, ◌-◌, Bool, true, false, List, [], ◌∷◌, ◌++◌, Option, none, some, length,
  get_elem?, ltb, ◌==◌, if◌then◌else◌, ◌>>=◌,
}
use tp_so_tuki.Memory.State.{Segment, Memory, update, table_get, table_put, table_remove}

-- `segment_current->base + segment_current->offset == segment_next->base`
unfoldable pub adjacent : Segment → Segment → Bool
adjacent a b = a.base + a.offset == b.base

-- `segment_current->offset += segment_next->offset`
unfoldable pub join : (ℕ → Segment) → ℕ → ℕ → ℕ → Segment
join cells x y = update cells x (record {
  base = (cells x).base;
  offset = (cells x).offset + (cells y).offset;
  s_id = (cells x).s_id;
})

-- The loop of `compact_hole_list`, on the holes from index `i` on. After a merge `i` rises by two, so
-- that the hole behind the merged pair is passed over.
unfoldable pub merge_holes : (ℕ → Segment) → List ℕ → (ℕ → Segment) × List ℕ
merge_holes cells [] = (cells, [])
merge_holes cells (x ∷ []) = (cells, x ∷ [])
merge_holes cells (x ∷ y ∷ []) = elim (adjacent (cells x) (cells y)) [
  | true ↦ (join cells x y, x ∷ [])
  | false ↦ (cells, x ∷ y ∷ [])
]
merge_holes cells (x ∷ y ∷ z ∷ rest) = elim (adjacent (cells x) (cells y)) [
  | true ↦ (let (cells', hs) = merge_holes (join cells x y) rest in (cells', x ∷ z ∷ hs))
  | false ↦ (let (cells', hs) = merge_holes cells (y ∷ z ∷ rest) in (cells', x ∷ hs))
]

unfoldable pub compact_hole_list : Memory → Memory
compact_hole_list m =
    if length m.hole_list == 1
    then m
    else (let (cells, hs) = merge_holes m.cells m.hole_list in
        record m { cells = cells; hole_list = hs })

-- The loop over a segment table from its second entry on: the entry that is found, and the table
-- without it.
unfoldable pub take_segment : (ℕ → Segment) → ℕ → List ℕ → Option (ℕ × List ℕ)
take_segment cells s_id [] = none
take_segment cells s_id (p ∷ ps) =
    let rest = take_segment cells s_id ps in
    if (cells p).s_id == s_id then some (p, ps) else (rest >>= λ r. some (r.0, p ∷ r.1))

-- The first entry with that base leaves the list.
unfoldable pub remove_base : (ℕ → Segment) → ℕ → List ℕ → List ℕ
remove_base cells base [] = []
remove_base cells base (p ∷ ps) =
    if (cells p).base == base then ps else (p ∷ remove_base cells base ps)

-- The list's first entry, segment zero, is passed over.
unfoldable pub remove_from_ram : (ℕ → Segment) → ℕ → List ℕ → List ℕ
remove_from_ram cells base [] = []
remove_from_ram cells base (z ∷ ps) = z ∷ remove_base cells base ps

-- What follows once segment `p` is found in the table `z ∷ rest`, of which `rest'` stays.
unfoldable pub release_segment : Memory → ℕ → ℕ → ℕ → List ℕ → Memory
release_segment m pid z p rest' = record m {
  tables = table_put pid (z ∷ rest') m.tables;
  hole_list = m.hole_list ++ (p ∷ []);
  ram = remove_from_ram m.cells (m.cells p).base m.ram;
  remaining_memory = m.remaining_memory + (m.cells p).offset;
}

-- `none` where the C code reads through NULL: the process has no table, or no such segment.
unfoldable pub delete_segment : Memory → ℕ → ℕ → Option Memory
delete_segment m pid s_id = do
  table ← table_get pid m.tables
  elim table [
    | [] ↦ none
    | z ∷ rest ↦ (do
      (p, rest') ← take_segment m.cells s_id rest
      some (compact_hole_list (release_segment m pid z p rest')))
  ]

-- `while (list_size(segment_table_delete) > 1)`, which deletes the segment at the falling index `i`.
unfoldable pub remove_segments : ℕ → Memory → ℕ → ℕ → Option Memory
remove_segments zero m pid i = none
remove_segments (suc fuel) m pid i = do
  table ← table_get pid m.tables
  elim (ltb 1 (length table)) [
    | true ↦ (do
      p ← get_elem? table i
      m' ← delete_segment m pid (m.cells p).s_id
      remove_segments fuel m' pid (i - 1))
    | false ↦ some m
  ]

-- A round for each segment of the table, and one to stop.
unfoldable pub remove_sg_table : Memory → ℕ → Option Memory
remove_sg_table m pid = do
  table ← table_get pid m.tables
  m' ← remove_segments (length table) m pid (length table - 1)
  some (record m' { tables = table_remove pid m'.tables })

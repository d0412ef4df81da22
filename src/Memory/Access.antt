-- ===== src/Memory/Access.antt =====
-- `get_segment_by_id`, `read_memory` and `write_memory` of
-- memoria/src/handler_instruction_memoria.c. The logs are left out.
use tp_so_tuki.Common.{
  ℕ, zero, suc, ◌+◌, ◌-◌, ◌*◌, Bool, true, false, List, [], ◌∷◌, ◌++◌, Option, none, some, ltb,
  ◌==◌, if◌then◌else◌, ◌>>=◌,
}
use tp_so_tuki.Memory.State.{Segment, Memory, table_get}
use tp_so_tuki.Memory.Heap.{load, store}

unfoldable pub min : ℕ → ℕ → ℕ
min a b = if ltb a b then a else b

unfoldable pub find_segment : (ℕ → Segment) → ℕ → List ℕ → Option ℕ
find_segment cells s_id [] = none
find_segment cells s_id (p ∷ ps) =
    if (cells p).s_id == s_id then some p else find_segment cells s_id ps

-- The outer `none` is the fault of a process with no table, the inner one is NULL.
unfoldable pub get_segment_by_id : Memory → ℕ → ℕ → Option (Option ℕ)
get_segment_by_id m s_id pid = do
  table ← table_get pid m.tables
  some (find_segment m.cells s_id table)

-- `base + offset + size > base + segment->offset`
unfoldable pub out_of_segment : Segment → ℕ → ℕ → Bool
out_of_segment s offset size = ltb (s.base + s.offset) (s.base + offset + size)

-- The loop of `read_memory`: sixteen bytes a round at most. Again the inner `none` is NULL.
unfoldable pub read_rounds : ℕ → Memory → ℕ → ℕ → ℕ → ℕ → ℕ → ℕ → List ℕ → Option (Option (List ℕ))
read_rounds zero m s_id offset size pid size_rest count_base buffer = none
read_rounds (suc fuel) m s_id offset size pid size_rest count_base buffer = elim (ltb 0 size_rest) [
  | false ↦ some (some buffer)
  | true ↦ (do
    found ← get_segment_by_id m s_id pid
    elim found [
      | none ↦ some none
      | some p ↦
          (let copy_size = min 16 size_rest in
            let next =
              read_rounds fuel m s_id offset size pid (size_rest - copy_size) (count_base + 1)
                (buffer ++ load m.heap ((m.cells p).base + offset + count_base * 16) copy_size) in
            if out_of_segment (m.cells p) offset size then some none else next)
    ])
]

-- The bytes that are read, before the final NUL. With size 0 the loop sets no segment, and the log
-- line behind it reads through an uninitialised pointer. A round takes a byte at least.
unfoldable pub read_memory : Memory → ℕ → ℕ → ℕ → ℕ → Option (Option (List ℕ))
read_memory m s_id offset size pid =
    if size == 0 then none else read_rounds (suc size) m s_id offset size pid size 0 []

-- `memcpy` copies the string and its NUL.
unfoldable pub write_memory : Memory → ℕ → ℕ → ℕ → List ℕ → ℕ → Option (Bool × Memory)
write_memory m s_id offset size buffer pid = do
  found ← get_segment_by_id m s_id pid
  elim found [
    | none ↦ some (false, m)
    | some p ↦ some (
        if out_of_segment (m.cells p) offset size then (false, m) else (
          true,
          record m { heap = store m.heap ((m.cells p).base + offset) (buffer ++ (0 ∷ [])) },
        ))
  ]

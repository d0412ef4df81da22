-- ===== src/Memory/Messages.antt =====
-- `handle_modules` of memoria/src/handlers.c: what the memory module does with one message, and what
-- it answers. `string_itoa` and `list_sort` are the commons library's.
use tp_so_tuki.Common.{
  ℕ, zero, suc, ◌+◌, Bool, true, false, List, [], ◌∷◌, ◌++◌, map, length, get_elem?, Option, none,
  some, ltb, ◌==◌, if◌then◌else◌, ◌>>=◌, ℤ, pos, negsuc, atoi,
}
use tp_so_tuki.Package.{Package, package_new, package_nest, c_str}
use tp_so_tuki.Serializer.{Instruction, serialize_message}
use tp_so_tuki.Serializer.SegmentTables.{serialize_segments_table}
use tp_so_tuki.OpCode.MemoryOp.{
  mem_init_process, mem_end_process, mem_read_address, mem_write_address, mem_create_segment,
  mem_delete_segment, mem_compact_all, seg_fault, ok_instruction, out_of_memory, compact_request,
  segments_table, all_segments_tables,
}
use tp_so_tuki.Memory.State.{Memory, table_get, create_sg_table}
use tp_so_tuki.Memory.Fit.{Algorithm, Added, created, needs_compaction, no_space, add_segment}
use tp_so_tuki.Memory.Delete.{delete_segment, remove_sg_table}
use tp_so_tuki.Memory.Access.{read_memory, write_memory}
use tp_so_tuki.Memory.Compact.{compact_memory}

unfoldable pub natural : ℤ → Option ℕ
natural (pos n) = some n
natural (negsuc n) = none

-- An argument as an `int`: `none` if it is missing, where `atoi` reads through NULL, and if it is
-- negative, which the model does not follow.
unfoldable pub int_arg : Instruction → ℕ → Option ℕ
int_arg i n = do text ← get_elem? i.args n; natural (atoi text)

-- A message is the text up to the first NUL of the bytes that were read.
unfoldable pub handle_read : Memory → Instruction → Option (Package × Memory)
handle_read m i = do
  s_id ← int_arg i 0
  offset ← int_arg i 1
  size ← int_arg i 2
  pid ← int_arg i 3
  buffer ← read_memory m s_id offset size pid
  some (
    elim buffer [
      | none ↦ package_new seg_fault
      | some bytes ↦ serialize_message (c_str (bytes ++ (0 ∷ []))) false
    ],
    m,
  )

unfoldable pub handle_write : Memory → Instruction → Option (Package × Memory)
handle_write m i = do
  s_id ← int_arg i 0
  offset ← int_arg i 1
  buffer ← get_elem? i.args 2
  pid ← int_arg i 3
  (success, m') ← write_memory m s_id offset (length buffer) buffer pid
  some (package_new (if success then ok_instruction else seg_fault), m')

unfoldable pub handle_end : Memory → Instruction → Option (Package × Memory)
handle_end m i = do
  pid ← int_arg i 0
  m' ← remove_sg_table m pid
  some (package_new ok_instruction, m')

unfoldable pub handle_delete : Memory → Instruction → Option (Package × Memory)
handle_delete m i = do
  s_id ← int_arg i 0
  pid ← int_arg i 1
  m' ← delete_segment m pid s_id
  some (package_new ok_instruction, m')

unfoldable pub answered : Option (Package × Memory) → Option (Option Package × Memory)
answered none = none
answered (some (p, m)) = some (some p, m)

module _ (string_itoa : ℤ → List ℕ) where
  unfoldable pub handle_init : Memory → Instruction → Option (Package × Memory)
  handle_init m i = do
    pid ← int_arg i 0
    let (table, m') = create_sg_table m pid
    some (serialize_segments_table string_itoa (map m'.cells table) segments_table, m')

  -- The base is the `int` that `add_segment` returns; a base is below the size of the memory.
  unfoldable pub created_package : Added → Package
  created_package needs_compaction = package_new compact_request
  created_package no_space = package_new out_of_memory
  created_package (created base) = serialize_message (string_itoa (pos base)) false

  unfoldable pub handle_create : Algorithm → Memory → Instruction → Option (Package × Memory)
  handle_create algorithm m i = do
    s_id ← int_arg i 0
    size ← int_arg i 1
    pid ← int_arg i 2
    (flag, m') ← add_segment algorithm m pid size s_id
    some (created_package flag, m')

  -- The loop of `serialize_all_segments_tables` over the process ids, while tables are missing. The
  -- dictionary's entry for segment zero makes its size one more than the tables.
  unfoldable pub nest_tables : ℕ → Memory → ℕ → ℕ → Package → Option Package
  nest_tables zero m pid count p = none
  nest_tables (suc fuel) m pid count p = elim (ltb count (suc (length m.tables))) [
    | false ↦ some p
    | true ↦ elim (table_get pid m.tables) [
      | none ↦ nest_tables fuel m (suc pid) count p
      | some table ↦
          nest_tables fuel m (suc pid) (suc count)
            (package_nest p (serialize_segments_table string_itoa (map m.cells table) pid))
    ]
  ]

  -- The sum of the process ids is not below any of them.
  unfoldable pub key_sum : List (ℕ × List ℕ) → ℕ
  key_sum [] = 0
  key_sum ((pid, table) ∷ rest) = pid + key_sum rest

  unfoldable pub serialize_all_segments_tables : Memory → Option Package
  serialize_all_segments_tables m =
      nest_tables (suc (suc (key_sum m.tables))) m 0 1 (package_new all_segments_tables)

  module _ (list_sort : (ℕ → ℕ → Bool) → List ℕ → List ℕ) (algorithm : Algorithm) where
    unfoldable pub handle_compact : Memory → Option (Package × Memory)
    handle_compact m = do
      m' ← compact_memory list_sort m m.remaining_memory
      answer ← serialize_all_segments_tables m'
      some (answer, m')

    -- The answer, if there is one; an unknown operation has none. The outer `none` is a fault.
    unfoldable pub handle_modules : Memory → Instruction → Option (Option Package × Memory)
    handle_modules m i =
        if i.op_code == mem_read_address
        then answered (handle_read m i)
        else if i.op_code == mem_write_address
        then answered (handle_write m i)
        else if i.op_code == mem_init_process
        then answered (handle_init m i)
        else if i.op_code == mem_end_process
        then answered (handle_end m i)
        else if i.op_code == mem_create_segment
        then answered (handle_create algorithm m i)
        else if i.op_code == mem_delete_segment
        then answered (handle_delete m i)
        else if i.op_code == mem_compact_all
        then answered (handle_compact m)
        else some (none, m)

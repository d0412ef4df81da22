-- ===== src/Filesystem/Transfer.antt =====
-- `iterate_block_file` of filesystem/src/handler_instruction_filesystem.c: the bytes of a file are read
-- or written block by block. `none` is a fault: a missing argument, file or pointer, a block outside
-- the mapped file, and an index outside the buffer or the text. Positions and sizes below zero are
-- not followed.
use tp_so_tuki.Common.{
  ℕ, zero, suc, ◌+◌, ◌-◌, ◌*◌, ◌/◌, Bool, List, [], ◌∷◌, ◌++◌, map, Option, none, some, get_elem?,
  leb, ◌==◌, if◌then◌else◌, ◌>>=◌, ℤ, atoi,
}
use tp_so_tuki.Serializer.{Instruction}
use tp_so_tuki.OpCode.{f_read}
use tp_so_tuki.Memory.State.{update}
use tp_so_tuki.Memory.Messages.{int_arg}
use tp_so_tuki.Cpu.Execute.{to_int}
use tp_so_tuki.Filesystem.Disk.{Fcb, Disk, block_of}
use tp_so_tuki.Filesystem.Resize.{pointers}

-- The bytes of the file system, and those of `str_read` before `read_positions`.
pub record Transfer : Type 0 where
  pub block_file : ℕ → ℕ
  pub str_read : List ℕ

-- `data != '\0' ? data : ' '`
unfoldable pub shown : ℕ → ℕ
shown data' = if data' == 0 then 32 else data'

module _ (block_count : ℕ) (pi_list : List ℤ) where
  -- `*(int*)list_get(pi_list, i)`
  unfoldable pub block_at : ℕ → Option ℕ
  block_at i = do block_number ← get_elem? pi_list i; block_of block_count block_number

module _ (reads : Bool) (size : ℕ) (text : List ℕ) where
  -- The body of the inner loop at an address. The buffer of a read has `size_read + 1` bytes, and the
  -- text of a write ends with its NUL.
  unfoldable pub transfer_byte : Transfer → ℕ → ℕ → Option Transfer
  transfer_byte t a read_positions =
      if reads
      then (if leb read_positions size
          then some (record t { str_read = t.str_read ++ (shown (t.block_file a) ∷ []) })
          else none)
      else (do
        b ← get_elem? (text ++ (0 ∷ [])) read_positions
        some (record t { block_file = update t.block_file a b }))

  -- The inner loop, over the rest of a block, with its `break`.
  unfoldable pub transfer_block : ℕ → Transfer → ℕ → ℕ → Option (ℕ × Transfer)
  transfer_block zero t a read_positions = some (read_positions, t)
  transfer_block (suc n) t a read_positions = transfer_byte t a read_positions >>= λ t'.
      let rest = transfer_block n t' (suc a) (suc read_positions) in
      if suc read_positions == size then some (suc read_positions, t') else rest

  module _ (block_size block_count : ℕ) (pi_list : List ℤ) (position : ℕ) where
    -- The outer loop from block `i` of the file on, where `positions_to_read` is
    -- `position_read + read_positions`.
    unfoldable pub transfer_blocks : ℕ → Transfer → ℕ → ℕ → Option (ℕ × Transfer)
    transfer_blocks zero t i read_positions = some (read_positions, t)
    transfer_blocks (suc n) t i read_positions = do
      b ← block_at block_count pi_list i
      let start = position + read_positions - i * block_size + b * block_size
      s ← transfer_block (b * block_size + block_size - start) t start read_positions
      let rest = transfer_blocks n s.1 (suc i) s.0
      if s.0 == size then some s else rest

    unfoldable pub transfer : Transfer → Option (ℕ × Transfer)
    transfer t =
        transfer_blocks (suc ((size + block_size - 1) / block_size)) t (position / block_size) 0

-- The direct pointer heads the list of the indirect ones.
unfoldable pub file_pointers : Disk → Fcb → Option (List ℤ)
file_pointers d fcb = do
  pi_list ← pointers d (atoi fcb.puntero_indirecto)
  some (atoi fcb.puntero_directo ∷ map to_int pi_list)

-- The text that is returned: what was read, with its NUL in the buffer, or the text to write.
unfoldable pub iterate_block_file : Disk → Instruction → Option (List ℕ × Disk)
iterate_block_file d i = do
  file_name ← get_elem? i.args 0
  position_read ← int_arg i 1
  size_read ← int_arg i 2
  text ← (if i.op_code == f_read then some [] else get_elem? i.args 7)
  fcb ← d.files file_name
  pi_list ← file_pointers d fcb
  (read_positions, t) ←
      transfer (i.op_code == f_read) size_read text d.block_size d.block_count pi_list position_read
        (record { block_file = d.block_file; str_read = [] })
  (if i.op_code == f_read
      then (if leb read_positions size_read then some (t.str_read, d) else none)
      else some (text, record d { block_file = t.block_file }))

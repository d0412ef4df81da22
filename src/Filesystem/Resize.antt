-- ===== src/Filesystem/Resize.antt =====
-- `resize_block` and `truncate_file` of filesystem/src/handler_instruction_filesystem.c. The outer `none`
-- is a fault: a missing argument or file, and a block outside the mapped file. The file on which an
-- indirect block with many pointers would run on has no end.
use tp_so_tuki.Common.{
  ℕ, zero, suc, ◌+◌, ◌-◌, ◌/◌, ◌^◌, Bool, false, List, [], ◌∷◌, ◌++◌, Option, none, some, length,
  take, get_elem?, ltb, leb, ◌==◌, if◌then◌else◌, ◌>>=◌, ℤ, pos, negsuc, atoi,
}
use tp_so_tuki.Serializer.{Instruction}
use tp_so_tuki.Cpu.Execute.{to_int}
use tp_so_tuki.Filesystem.Blocks.{next_bit_position, set_bf_ip, get_bf_ip}
use tp_so_tuki.Filesystem.Disk.{
  Fcb, Disk, is_set, save, block_of, clear_block, free_block, free_blocks,
}

-- The `int` that `next_bit_position` returns, with its -1, and the bit pattern of that.
unfoldable pub position_int : Option ℕ → ℤ
position_int none = negsuc 0
position_int (some b) = pos b

unfoldable pub position_bits : Option ℕ → ℕ
position_bits none = 2 ^ 32 - 1
position_bits (some b) = b

unfoldable pub int_eq : ℤ → ℤ → Bool
int_eq (pos a) (pos b) = a == b
int_eq (pos a) (negsuc b) = false
int_eq (negsuc a) (pos b) = false
int_eq (negsuc a) (negsuc b) = a == b

-- The pointers of the indirect block, and those that are written to it.
unfoldable pub pointers : Disk → ℤ → Option (List ℕ)
pointers d indirect = do
  b ← block_of d.block_count indirect
  some (get_bf_ip d.block_size d.block_file b)

unfoldable pub set_pointers : Disk → ℤ → List ℕ → Option Disk
set_pointers d indirect pi_list = do
  b ← block_of d.block_count indirect
  some (record d { block_file = set_bf_ip d.block_size d.block_file b pi_list })

-- What a file of size 0 does with its direct block.
unfoldable pub release_direct : Disk → Fcb → Option (Disk × Fcb)
release_direct d fcb =
    if is_set fcb.puntero_directo
    then (do
      d' ← free_block d (atoi fcb.puntero_directo)
      some (d', record fcb { puntero_directo = [] }))
    else some (d, fcb)

-- What a file of one block or less does with its indirect block.
unfoldable pub release_indirect : Disk → Fcb → List ℕ → Option (Disk × Fcb)
release_indirect d fcb pi_list =
    if is_set fcb.puntero_indirecto
    then (do
      d' ← free_blocks d pi_list
      d'' ← free_block d' (atoi fcb.puntero_indirecto)
      some (d'', record fcb { puntero_indirecto = [] }))
    else some (d, fcb)

-- The next block of the bitmap.
unfoldable pub next_block : Disk → Option ℕ × Disk
next_block d =
    let (position, bitmap) = next_bit_position d.block_count d.bitmap in
    (position, record d { bitmap = bitmap })

-- The loop that adds as many pointers as are missing.
unfoldable pub take_blocks : ℕ → Disk → List ℕ → Disk × List ℕ
take_blocks zero d pi_list = (d, pi_list)
take_blocks (suc n) d pi_list =
    take_blocks n (next_block d).1 (pi_list ++ (position_bits (next_block d).0 ∷ []))

-- The loop that frees and removes the last pointer.
unfoldable pub drop_blocks : ℕ → Disk → List ℕ → Option (Disk × List ℕ)
drop_blocks zero d pi_list = some (d, pi_list)
drop_blocks (suc n) d pi_list = do
  ip_eliminar ← get_elem? pi_list (length pi_list - 1)
  d' ← free_block d (to_int ip_eliminar)
  drop_blocks n d' (take (length pi_list - 1) pi_list)

-- The indirect block gets `count_pi_need` pointers.
unfoldable pub resize_pointers : Disk → ℤ → List ℕ → ℕ → Option Disk
resize_pointers d indirect pi_list count_pi_need =
    if ltb (length pi_list) count_pi_need
    then (let (d', pi_list') = take_blocks (count_pi_need - length pi_list) d pi_list in
        set_pointers d' indirect pi_list')
    else if ltb count_pi_need (length pi_list)
    then (do
      (d', pi_list') ← drop_blocks (length pi_list - count_pi_need) d pi_list
      b ← block_of d'.block_count indirect
      set_pointers (clear_block d' b) indirect pi_list')
    else some d

module _ (string_itoa : ℤ → List ℕ) where
  unfoldable pub ensure_direct : Disk → Fcb → Disk × Fcb
  ensure_direct d fcb = if is_set fcb.puntero_directo then (d, fcb) else (
    (next_block d).1,
    record fcb { puntero_directo = string_itoa (position_int (next_block d).0) },
  )

  unfoldable pub ensure_indirect : Disk → Fcb → Disk × Fcb
  ensure_indirect d fcb = if is_set fcb.puntero_indirecto then (d, fcb) else (
    (next_block d).1,
    record fcb { puntero_indirecto = string_itoa (position_int (next_block d).0) },
  )

  -- The branches on the size: nothing, at most a block, and more.
  unfoldable pub resize_to_zero : Disk → Fcb → List ℕ → Option (Disk × Fcb)
  resize_to_zero d fcb pi_list = do
    (d', fcb') ← release_direct d fcb
    release_indirect d' fcb' pi_list

  unfoldable pub resize_to_block : Disk → Fcb → List ℕ → Option (Disk × Fcb)
  resize_to_block d fcb pi_list =
      let (d', fcb') = ensure_direct d fcb in release_indirect d' fcb' pi_list

  unfoldable pub resize_to_blocks : Disk → Fcb → List ℕ → ℕ → Option (Disk × Fcb)
  resize_to_blocks d fcb pi_list file_size =
      let (d', fcb') = ensure_direct d fcb in
      let (d'', fcb'') = ensure_indirect d' fcb' in
      resize_pointers d'' (atoi fcb''.puntero_indirecto) pi_list
        ((file_size + d.block_size - 1) / d.block_size - 1)
      >>= λ d'''. some (d''', fcb'')

  unfoldable pub resize_sized : Disk → Fcb → List ℕ → ℤ → Option (Disk × Fcb)
  resize_sized d fcb pi_list (negsuc n) = resize_to_block d fcb pi_list
  resize_sized d fcb pi_list (pos n) =
      if n == 0
      then resize_to_zero d fcb pi_list
      else if leb n d.block_size
      then resize_to_block d fcb pi_list
      else resize_to_blocks d fcb pi_list n

  -- The indirect pointer of a file that has none is read as 0.
  unfoldable pub resize_block : Disk → Fcb → ℤ → Option (Disk × Fcb)
  resize_block d fcb file_size =
      let resized = record fcb { tamanio_archivo = string_itoa file_size } in
      if int_eq file_size (atoi fcb.tamanio_archivo) then some (d, resized) else (do
        pi_list ← pointers d (atoi fcb.puntero_indirecto)
        resize_sized d resized pi_list file_size)

  -- The control block is saved under the name it was read from.
  unfoldable pub truncate_file : Disk → Instruction → Option Disk
  truncate_file d i = do
    file_name ← get_elem? i.args 0
    char_file_size ← get_elem? i.args 1
    fcb ← d.files file_name
    (d', fcb') ← resize_block d fcb (atoi char_file_size)
    some (record d' { files = save d'.files file_name fcb' })

-- ===== src/Filesystem/Disk.antt =====
-- The state behind `config_fs` of filesystem/include/utils_filesystem.h, with the control blocks of the
-- files, and the steps that filesystem/src/handler_instruction_filesystem.c makes on blocks. The logs
-- and the delays are left out. A file of the directory of control blocks goes by the name that its path
-- is made of, and holds the four texts that `create_file` and `resize_block` set.
use tp_so_tuki.Common.{
  ℕ, zero, suc, ◌*◌, Bool, true, false, List, [], ◌∷◌, Option, none, some, ltb, if◌then◌else◌,
  ◌>>=◌, ℤ, pos, negsuc,
}
use tp_so_tuki.Memory.State.{update}
use tp_so_tuki.Cpu.Execute.{to_int}
use tp_so_tuki.OpCode.{str_eq}

pub record Fcb : Type 0 where
  pub nombre_archivo : List ℕ
  pub tamanio_archivo : List ℕ
  pub puntero_directo : List ℕ
  pub puntero_indirecto : List ℕ

pub record Disk : Type 0 where
  pub block_size : ℕ
  pub block_count : ℕ
  pub bitmap : ℕ → Bool
  pub block_file : ℕ → ℕ
  pub files : List ℕ → Option Fcb

-- `strcmp(text, "") != 0`
unfoldable pub is_set : List ℕ → Bool
is_set [] = false
is_set (c ∷ cs) = true

-- `config_save`
unfoldable pub save : (List ℕ → Option Fcb) → List ℕ → Fcb → List ℕ → Option Fcb
save files name fcb other = if str_eq other name then some fcb else files other

-- The block that an `int` names: a block outside the mapped file is a fault.
unfoldable pub block_of : ℕ → ℤ → Option ℕ
block_of block_count (pos b) = if ltb b block_count then some b else none
block_of block_count (negsuc b) = none

-- The loop that writes `n` NULs, from the address on.
unfoldable pub erase : (ℕ → ℕ) → ℕ → ℕ → ℕ → ℕ
erase block_file a zero = block_file
erase block_file a (suc n) = erase (update block_file a 0) (suc a) n

unfoldable pub clear_block : Disk → ℕ → Disk
clear_block d b = record d { block_file = erase d.block_file (b * d.block_size) d.block_size }

-- The block is filled with NULs and its bit is cleaned.
unfoldable pub free_block : Disk → ℤ → Option Disk
free_block d p = do
  b ← block_of d.block_count p
  some (record (clear_block d b) { bitmap = update d.bitmap b false })

-- The loop over the pointers of an indirect block, which are bit patterns of `int`.
unfoldable pub free_blocks : Disk → List ℕ → Option Disk
free_blocks d [] = some d
free_blocks d (p ∷ ps) = free_block d (to_int p) >>= λ d'. free_blocks d' ps

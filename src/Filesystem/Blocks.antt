-- ===== src/Filesystem/Blocks.antt =====
-- `next_bit_position`, `set_bf_ip` and `get_bf_ip` of
-- filesystem/src/handler_instruction_filesystem.c. The bitmap and the block file are given by their bits
-- and bytes. The logs are left out.
use tp_so_tuki.Common.{
  ℕ, zero, suc, ◌+◌, ◌*◌, ◌/◌, ◌%◌, ◌^◌, Bool, true, List, [], ◌∷◌, Option, none, some, ◌==◌,
  if◌then◌else◌,
}
use tp_so_tuki.Package.Bytes.{le_bytes, le_value}
use tp_so_tuki.Memory.State.{update}
use tp_so_tuki.Memory.Heap.{load, store}

-- The loop from block `i` on, over `n` more blocks. The -1 is `none`.
unfoldable pub next_bit_from : ℕ → ℕ → (ℕ → Bool) → Option ℕ × (ℕ → Bool)
next_bit_from zero i bitmap = (none, bitmap)
next_bit_from (suc n) i bitmap =
    let later = next_bit_from n (suc i) bitmap in
    if bitmap i then later else (some i, update bitmap i true)

unfoldable pub next_bit_position : ℕ → (ℕ → Bool) → Option ℕ × (ℕ → Bool)
next_bit_position block_count bitmap = next_bit_from block_count 0 bitmap

-- The loop over the pointers, from the address of the first on.
unfoldable pub write_pointers : (ℕ → ℕ) → ℕ → List ℕ → ℕ → ℕ
write_pointers block_file a [] = block_file
write_pointers block_file a (p ∷ ps) =
    write_pointers (store block_file a (le_bytes 4 (p % 2 ^ 32))) (a + 4) ps

unfoldable pub set_bf_ip : ℕ → (ℕ → ℕ) → ℕ → List ℕ → ℕ → ℕ
set_bf_ip block_size block_file pointer pi_list =
    write_pointers block_file (pointer * block_size) pi_list

-- The loop in steps of four bytes; a word that is zero is no pointer.
unfoldable pub read_pointers : ℕ → (ℕ → ℕ) → ℕ → List ℕ
read_pointers zero block_file a = []
read_pointers (suc n) block_file a =
    let rest = read_pointers n block_file (a + 4) in
    let number = le_value (load block_file a 4) in if number == 0 then rest else (number ∷ rest)

unfoldable pub get_bf_ip : ℕ → (ℕ → ℕ) → ℕ → List ℕ
get_bf_ip block_size block_file pointer =
    read_pointers ((block_size + 3) / 4) block_file (pointer * block_size)

-- ===== src/Filesystem/ResizeTests.antt =====
-- The disk of Filesystem/Sample with its file truncated to nothing, to a block, and to fewer blocks, and
-- one with a smaller file that grows.
use tp_so_tuki.Common.{
  ℕ, ◌≤◌, ◌<◌, ◌≡◌, refl, inl, inr, false, List, [], ◌∷◌, some, length, ltb, In, pos, atoi, signed,
  digits, arith,
}
use tp_so_tuki.OpCode.{codes}
use tp_so_tuki.Memory.State.{update}
use tp_so_tuki.Memory.Heap.{load, store}
use tp_so_tuki.Package.Bytes.{le_bytes, le_value}
use tp_so_tuki.Filesystem.Blocks.{get_bf_ip, set_bf_ip, read_pointers, write_pointers}
use tp_so_tuki.Filesystem.Pointers.{Blank, write_pointers_outside}
use tp_so_tuki.Filesystem.Disk.{Fcb, Disk, is_set, block_of}
use tp_so_tuki.Filesystem.Resize.{int_eq, pointers, resize_block}
use tp_so_tuki.Filesystem.Freed.{Freed}
use tp_so_tuki.Filesystem.Shrink.{Layout, resize_block-zero, resize_block-one}
use tp_so_tuki.Filesystem.Dropped.{Dropped, resize_block-Dropped}
use tp_so_tuki.Filesystem.FreeBlocks.{free_count}
use tp_so_tuki.Filesystem.Grown.{Grown, resize_block-Grown}
use tp_so_tuki.Filesystem.Sample.{itoa, fcb, disk}

listed : pointers disk (pos 2) ≡ some (3 ∷ 4 ∷ [])
unfolding pointers get_bf_ip set_bf_ip read_pointers write_pointers load store le_value le_bytes
    update block_of
listed = refl

layout : Layout disk fcb (some 1) (some 2) (3 ∷ 4 ∷ [])
unfolding is_set atoi signed digits
layout = record {
  direct_text = (refl, refl, omega arith);
  indirect_text = (refl, refl, omega arith);
  listed = listed;
  in_range = (omega arith, (omega arith, (omega arith, tt)));
  addressable = omega arith;
}

size_changes : (n : ℕ) → n < 48 → int_eq (pos n) (atoi fcb.tamanio_archivo) ≡ false
unfolding int_eq atoi signed digits
size_changes n h = ground arith

resize_block-zero_example :
    (d' : Disk) × (resize_block itoa disk fcb (pos 0)
      ≡ some (
        d',
        record fcb { tamanio_archivo = itoa (pos 0); puntero_directo = []; puntero_indirecto = [] },
      ))
    × Freed (1 ∷ 3 ∷ 4 ∷ 2 ∷ []) disk d'
resize_block-zero_example =
    resize_block-zero itoa disk fcb (some 1) (some 2) (3 ∷ 4 ∷ []) layout
      (size_changes 0 (omega arith))

resize_block-one_example :
    (d' : Disk) × (resize_block itoa disk fcb (pos 9)
      ≡ some (d', record fcb { tamanio_archivo = itoa (pos 9); puntero_indirecto = [] }))
    × Freed (3 ∷ 4 ∷ 2 ∷ []) disk d'
resize_block-one_example =
    resize_block-one itoa disk fcb 1 (some 2) (3 ∷ 4 ∷ []) 9 layout (size_changes 9 (omega arith))
      (omega arith) (omega arith)

not_given_back : ¬ In {A = ℕ} 2 (4 ∷ [])
not_given_back h = elim h [ inl e ↦ absurd (omega (arith, e)) | inr k ↦ absurd k ]

resize_block-Dropped_example :
    (d' : Disk) × (resize_block itoa disk fcb (pos 19)
      ≡ some (d', record fcb { tamanio_archivo = itoa (pos 19) }))
    × Dropped disk d' 2 (3 ∷ []) (4 ∷ [])
resize_block-Dropped_example =
    resize_block-Dropped itoa disk fcb 1 2 (3 ∷ []) (4 ∷ []) 19 layout
      (size_changes 19 (omega arith)) (omega arith) (omega arith) (omega arith) (omega arith)
      not_given_back

-- A file of 18 bytes in blocks 1 and 3.
abbrev small_fcb : Fcb
small_fcb = record fcb { tamanio_archivo = codes "18" }

abbrev small_disk : Disk
small_disk = record disk { block_file = set_bf_ip 16 (λ x. 0) 2 (3 ∷ []) }

small_listed : pointers small_disk (pos 2) ≡ some (3 ∷ [])
unfolding pointers get_bf_ip set_bf_ip read_pointers write_pointers load store le_value le_bytes
    update block_of
small_listed = refl

small-Layout : Layout small_disk small_fcb (some 1) (some 2) (3 ∷ [])
unfolding is_set atoi signed digits
small-Layout = record {
  direct_text = (refl, refl, omega arith);
  indirect_text = (refl, refl, omega arith);
  listed = small_listed;
  in_range = (omega arith, (omega arith, tt));
  addressable = omega arith;
}

small-Blank : Blank small_disk.block_file 40 48
unfolding set_bf_ip
small-Blank x h k = write_pointers_outside (λ y. 0) 32 (3 ∷ []) x (inr (omega arith))

three_free : 1 ≤ free_count 8 (λ b. ltb b 5)
unfolding free_count
three_free = omega arith

small_changes : int_eq (pos 48) (atoi (codes "18")) ≡ false
unfolding int_eq atoi signed digits
small_changes = refl

resize_block-Grown_example :
    (d' : Disk) × (new : List ℕ) × (resize_block itoa small_disk small_fcb (pos 48)
      ≡ some (d', record small_fcb { tamanio_archivo = itoa (pos 48) }))
    × (length (3 ∷ new) ≡ 2)
    × Grown small_disk d' 2 (3 ∷ []) new
resize_block-Grown_example =
    resize_block-Grown itoa small_disk small_fcb 1 2 (3 ∷ []) 48 2 small-Layout small_changes
      (omega arith) (omega arith) (omega arith) (omega arith) (omega arith) small-Blank refl
      three_free

-- ===== src/Filesystem/Grown.antt =====
-- `resize_block` of filesystem/src/handler_instruction_filesystem.c for a file that gets more blocks in
-- its indirect block.
use tp_so_tuki.Common.{
  ℕ, zero, suc, ◌+◌, ◌-◌, ◌*◌, ◌/◌, ◌%◌, ◌^◌, ◌≤◌, ◌<◌, ◌≡◌, ◌≢◌, refl, sym, subst, ◌∙◌, inl, inr,
  Bool, true, false, List, [], ◌∷◌, ◌++◌, some, All, In, length, length-append, ◌==◌, leb, ltb, ℤ,
  pos, atoi, arith, true-ne-false,
}
use tp_so_tuki.Filesystem.Pointers.{IsPointer, Blank}
use tp_so_tuki.Filesystem.Disk.{Fcb, Disk}
use tp_so_tuki.Filesystem.Resize.{
  int_eq, pointers, set_pointers, resize_pointers, ensure_direct, ensure_indirect, resize_to_blocks,
  resize_sized, resize_block,
}
use tp_so_tuki.Filesystem.Freed.{SameBlock}
use tp_so_tuki.Filesystem.FreeBlocks.{free_count, NewBlocks, take_blocks_lem}
use tp_so_tuki.Filesystem.PointerBlock.{set_pointers_lem, pointers_fit, All-IsPointer}
use tp_so_tuki.Filesystem.Shrink.{Layout, All-append}

All-join : (P : ℕ → Type 0) (xs ys : List ℕ) → All P xs → All P ys → All P (xs ++ ys)
All-join P [] ys a b = b
All-join P (x ∷ xs) ys a b = (a.0, All-join P xs ys a.1 b)

-- Blocks that were free are not block 0, if that is in use.
new_positive :
    (n : ℕ) (before after : ℕ → Bool) (new : List ℕ) (xs : List ℕ)
    → before 0 ≡ true
    → NewBlocks n before after new
    → ((b : ℕ) → In b xs → In b new)
    → All (λ b. 0 < b) xs
new_positive n before after new [] z r sub = tt
new_positive n before after new (zero ∷ xs) z r sub =
    absurd (true-ne-false (sym z ∙ r.were_free 0 (sub 0 (inl refl))))
new_positive n before after new (suc x ∷ xs) z r sub =
    (above x, new_positive n before after new xs z r (λ b h. sub b (inr h)))
  where
    above : (y : ℕ) → 0 < suc y
    above y = omega arith

-- What an indirect block `i` with more pointers does to the disk.
pub record Grown (d d' : Disk) (i : ℕ) (ps new : List ℕ) : Type 0 where
  pub listed : pointers d' (pos i) ≡ some (ps ++ new)
  pub taken : NewBlocks d.block_count d.bitmap d'.bitmap new
  pub kept : (c : ℕ) → c ≢ i → SameBlock d.block_size d'.block_file d.block_file c

-- The pointers with the new ones are written to the indirect block.
write-Grown :
    (d : Disk) (i : ℕ) (ps new : List ℕ) (bitmap : ℕ → Bool)
    → i < d.block_count
    → d.block_count ≤ 2 ^ 31
    → d.block_size % 4 ≡ 0
    → All IsPointer ps
    → length (ps ++ new) * 4 ≤ d.block_size
    → Blank d.block_file
        (i * d.block_size + length (ps ++ new) * 4)
        (i * d.block_size + d.block_size)
    → d.bitmap 0 ≡ true
    → NewBlocks d.block_count d.bitmap bitmap new
    → (d' : Disk) × (set_pointers (record d { bitmap = bitmap }) (pos i) (ps ++ new) ≡ some d')
      × Grown d d' i ps new
write-Grown d i ps new bitmap h k words old fits blank zero_used r =
    let (block_file, e, read, frame) =
      set_pointers_lem (record d { bitmap = bitmap }) i (ps ++ new) h words
        (All-join IsPointer ps new old (
          All-IsPointer d.block_count new k r.range
            (new_positive d.block_count d.bitmap bitmap new new zero_used r (λ b q. q))))
        fits blank in
    (
      record d { bitmap = bitmap; block_file = block_file },
      e,
      record { listed = read; taken = r; kept = frame },
    )

resize_pointers-Grown :
    (d : Disk) (i count : ℕ) (ps : List ℕ)
    → i < d.block_count
    → d.block_count ≤ 2 ^ 31
    → d.block_size % 4 ≡ 0
    → pointers d (pos i) ≡ some ps
    → All (λ p. p < d.block_count) ps
    → length ps < count
    → count * 4 ≤ d.block_size
    → Blank d.block_file (i * d.block_size + count * 4) (i * d.block_size + d.block_size)
    → d.bitmap 0 ≡ true
    → count - length ps ≤ free_count d.block_count d.bitmap
    → (d' : Disk) × (new : List ℕ) × (resize_pointers d (pos i) ps count ≡ some d')
      × (length (ps ++ new) ≡ count)
      × Grown d d' i ps new
unfolding resize_pointers
resize_pointers-Grown d i count ps h k words listed range more fits blank zero_used free =
    let (new, bitmap, run, lengths, r) = take_blocks_lem (count - length ps) d ps free in
    let total : length (ps ++ new) ≡ count = omega (arith, length-append ps new, lengths, more) in
    let (d', e, g) =
      write-Grown d i ps new bitmap h k words (pointers_fit d i ps h k listed range).0
        (subst (λ n. n * 4 ≤ d.block_size) (sym total) fits)
        (subst
          (λ n. Blank d.block_file (i * d.block_size + n * 4) (i * d.block_size + d.block_size))
          (sym total) blank)
        zero_used r in
    (d', new, rw (below (length ps) count more, run) e, total, g)
  where
    below : (x y : ℕ) → x < y → ltb x y ≡ true
    below x y q = ground arith

module _ (string_itoa : ℤ → List ℕ) where
  -- Let a file have a known layout with a direct and an indirect block, let blocks be whole words, and
  -- let block 0 be in use. Let a new size of more than a block take more pointers than the file has,
  -- which fit the indirect block and behind which that block is blank, and let enough blocks be free.
  -- The resize does not fault, and the control block changes in its size only. The indirect block has
  -- the old pointers and, behind them, new ones, as many as the size takes; their blocks were free, are
  -- distinct and in use now. No other bit changes, and no byte of any other block.
  pub resize_block-Grown :
      (d : Disk) (fcb : Fcb) (b i : ℕ) (ps : List ℕ) (n count : ℕ)
      → Layout d fcb (some b) (some i) ps
      → int_eq (pos n) (atoi fcb.tamanio_archivo) ≡ false
      → d.block_size % 4 ≡ 0
      → d.block_size < n
      → (n + d.block_size - 1) / d.block_size - 1 ≡ count
      → length ps < count
      → count * 4 ≤ d.block_size
      → Blank d.block_file (i * d.block_size + count * 4) (i * d.block_size + d.block_size)
      → d.bitmap 0 ≡ true
      → count - length ps ≤ free_count d.block_count d.bitmap
      → (d' : Disk) × (new : List ℕ) × (resize_block string_itoa d fcb (pos n)
          ≡ some (d', record fcb { tamanio_archivo = string_itoa (pos n) }))
        × (length (ps ++ new) ≡ count)
        × Grown d d' i ps new
  unfolding resize_block resize_sized resize_to_blocks ensure_direct ensure_indirect
  resize_block-Grown d fcb b i ps n count layout changes words large needed more fits blank
        zero_used free =
      let (d', new, e, total, g) =
        resize_pointers-Grown d i count ps layout.indirect_text.2 layout.addressable words
          (subst (λ z. pointers d z ≡ some ps) layout.indirect_text.1 layout.listed)
          (All-append (λ p. p < d.block_count) ps (i ∷ []) layout.in_range).0 more fits blank
          zero_used free in
      (
        d',
        new,
        rw
            (
              changes,
              layout.listed,
              nonzero n (omega arith),
              longer n d.block_size large,
              layout.direct_text.0,
              layout.indirect_text.0,
              layout.indirect_text.1,
              needed,
              e,
            )
            refl,
        total,
        g,
      )
    where
      nonzero : (x : ℕ) → 0 < x → (x == 0) ≡ false
      nonzero x h = ground arith

      longer : (x y : ℕ) → y < x → leb x y ≡ false
      longer x y h = ground arith

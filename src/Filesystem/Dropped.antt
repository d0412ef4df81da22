-- ===== src/Filesystem/Dropped.antt =====
-- `resize_block` of filesystem/src/handler_instruction_filesystem.c for a file that gives back some of
-- the blocks of its indirect block.
use tp_so_tuki.Common.{
  ℕ, ◌+◌, ◌-◌, ◌*◌, ◌/◌, ◌%◌, ◌^◌, ◌≤◌, ◌<◌, ◌≡◌, ◌≢◌, refl, sym, ap, subst, ◌∙◌, true, false, List,
  [], ◌∷◌, ◌++◌, some, All, In, length, length-append, ◌==◌, leb, ltb, ◌>>=◌, ℤ, pos, atoi, arith,
}
use tp_so_tuki.Filesystem.Pointers.{IsPointer, Blank}
use tp_so_tuki.Filesystem.Disk.{Fcb, Disk, block_of, clear_block}
use tp_so_tuki.Filesystem.Resize.{
  int_eq, pointers, set_pointers, resize_pointers, ensure_direct, ensure_indirect, resize_to_blocks,
  resize_sized, resize_block,
}
use tp_so_tuki.Filesystem.Freed.{Freed, block_of-pos, SameBlock, erase_inside, erase_other}
use tp_so_tuki.Filesystem.PointerBlock.{set_pointers_lem, pointers_fit}
use tp_so_tuki.Filesystem.Shrink.{Layout, All-append}
use tp_so_tuki.Filesystem.DropBlocks.{drop_blocks_lem}

-- What an indirect block `i` that keeps its first pointers does to the disk.
pub record Dropped (d d' : Disk) (i : ℕ) (keep gone : List ℕ) : Type 0 where
  pub stay : pointers d' (pos i) ≡ some keep
  pub free : (c : ℕ) → In c gone → d'.bitmap c ≡ false
  pub blank : (c : ℕ) → In c gone → SameBlock d.block_size d'.block_file (λ x. 0) c
  pub kept_bits : (c : ℕ) → ¬ In c gone → d'.bitmap c ≡ d.bitmap c
  pub kept : (c : ℕ) → ¬ In c gone → c ≢ i → SameBlock d.block_size d'.block_file d.block_file c

below : (x y : ℕ) → x < y → ltb x y ≡ true
below x y h = ground arith

not_below : (x y : ℕ) → y ≤ x → ltb x y ≡ false
not_below x y h = ground arith

-- The indirect block is erased, and the pointers that stay are written to it again.
rewrite_pointers :
    (d d' : Disk) (i : ℕ) (keep gone : List ℕ)
    → Freed gone d d'
    → i < d.block_count
    → d.block_size % 4 ≡ 0
    → All IsPointer keep
    → length keep * 4 ≤ d.block_size
    → ¬ In i gone
    → (d'' : Disk) × ((block_of d'.block_count (pos i) >>= λ b.
          set_pointers (clear_block d' b) (pos i) keep)
        ≡ some d'')
      × Dropped d d'' i keep gone
unfolding clear_block
rewrite_pointers d d' i keep gone f h words ip fits apart =
    let (block_file, e, read, frame) =
      set_pointers_lem (clear_block d' i) i keep here (ap (λ n. n % 4) f.same_size ∙ words) ip
        (omega (arith, fits, f.same_size)) erased in
    (
      record (clear_block d' i) { block_file = block_file },
      rw (block_of-pos d'.block_count i here) e,
      record {
        stay = read;
        free = f.free;
        blank = λ c k o l. fresh block_file frame c (other c k) o l ∙ f.blank c k o l;
        kept_bits = f.kept_bits;
        kept = λ c k ne o l. fresh block_file frame c ne o l ∙ f.kept c k o l;
      },
    )
  where
    here : i < d'.block_count
    here = omega (arith, f.same_count, h)

    fresh :
        (block_file : ℕ → ℕ)
        → ((c : ℕ) → c ≢ i → SameBlock d'.block_size block_file (clear_block d' i).block_file c)
        → (c : ℕ) → c ≢ i
        → SameBlock d.block_size block_file d'.block_file c
    fresh block_file frame c ne =
        subst (λ n. SameBlock n block_file d'.block_file c) f.same_size
          (λ o l. frame c ne o l ∙ erase_other d'.block_file d'.block_size i c ne o l)

    other : (c : ℕ) → In c gone → c ≢ i
    other c k e = apart (subst (λ x. In x gone) e k)

    erased :
        Blank
          (clear_block d' i).block_file
          (i * d'.block_size + length keep * 4)
          (i * d'.block_size + d'.block_size)
    erased x k l = erase_inside d'.block_file (i * d'.block_size) d'.block_size x (omega arith) l

resize_pointers-Dropped :
    (d : Disk) (i count : ℕ) (keep gone : List ℕ)
    → i < d.block_count
    → d.block_count ≤ 2 ^ 31
    → d.block_size % 4 ≡ 0
    → pointers d (pos i) ≡ some (keep ++ gone)
    → All (λ p. p < d.block_count) (keep ++ gone)
    → count ≡ length keep
    → 0 < length gone
    → ¬ In i gone
    → (d' : Disk) × (resize_pointers d (pos i) (keep ++ gone) count ≡ some d')
      × Dropped d d' i keep gone
unfolding resize_pointers clear_block
resize_pointers-Dropped d i count keep gone h k words listed range c fewer apart =
    let (d', dropped, f) =
      drop_blocks_lem (length (keep ++ gone) - count) keep gone d (omega (arith, lengths))
        (All-append (λ p. p < d.block_count) keep gone range).1 k in
    let (d'', e, r) =
      rewrite_pointers d d' i keep gone f h words (All-append IsPointer keep gone fit.0).0
        (omega (arith, lengths, fit.1)) apart in
    (
      d'',
      rw
          (
            not_below (length (keep ++ gone)) count (omega (arith, lengths)),
            below count (length (keep ++ gone)) (omega (arith, lengths)),
            dropped,
          )
          e,
      r,
    )
  where
    lengths : length (keep ++ gone) ≡ length keep + length gone
    lengths = length-append keep gone

    fit : All IsPointer (keep ++ gone) × (length (keep ++ gone) ≤ (d.block_size + 3) / 4)
    fit = pointers_fit d i (keep ++ gone) h k listed range

module _ (string_itoa : ℤ → List ℕ) where
  -- Let a file have a known layout with a direct and an indirect block, which is none of those that are
  -- given back, and let blocks be whole words. A size of more than a block that takes fewer pointers
  -- than the file has does not fault. The control block changes in its size only, the first pointers
  -- stay in the indirect block, the blocks of the others are free and blank now, and no other block
  -- has changed.
  pub resize_block-Dropped :
      (d : Disk) (fcb : Fcb) (b i : ℕ) (keep gone : List ℕ) (n : ℕ)
      → Layout d fcb (some b) (some i) (keep ++ gone)
      → int_eq (pos n) (atoi fcb.tamanio_archivo) ≡ false
      → d.block_size % 4 ≡ 0
      → d.block_size < n
      → length keep ≡ (n + d.block_size - 1) / d.block_size - 1
      → 0 < length gone
      → ¬ In i gone
      → (d' : Disk) × (resize_block string_itoa d fcb (pos n)
          ≡ some (d', record fcb { tamanio_archivo = string_itoa (pos n) }))
        × Dropped d d' i keep gone
  unfolding resize_block resize_sized resize_to_blocks ensure_direct ensure_indirect
  resize_block-Dropped d fcb b i keep gone n layout changes words large count fewer apart =
      let (d', e, dropped) =
        resize_pointers-Dropped d i ((n + d.block_size - 1) / d.block_size - 1) keep gone
          layout.indirect_text.2 layout.addressable words
          (subst (λ z. pointers d z ≡ some (keep ++ gone)) layout.indirect_text.1 layout.listed)
          (All-append (λ p. p < d.block_count) (keep ++ gone) (i ∷ []) layout.in_range).0
          (sym count) fewer apart in
      (
        d',
        rw
            (
              changes,
              layout.listed,
              nonzero n (omega arith),
              longer n d.block_size large,
              layout.direct_text.0,
              layout.indirect_text.0,
              layout.indirect_text.1,
              e,
            )
            refl,
        dropped,
      )
    where
      nonzero : (x : ℕ) → 0 < x → (x == 0) ≡ false
      nonzero x h = ground arith

      longer : (x y : ℕ) → y < x → leb x y ≡ false
      longer x y h = ground arith

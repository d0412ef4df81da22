-- ===== src/Filesystem/Shrink.antt =====
-- `resize_block` of filesystem/src/handler_instruction_filesystem.c for a file that shrinks to nothing
-- or to a block.
use tp_so_tuki.Common.{
  ℕ, ◌^◌, ◌≤◌, ◌<◌, ◌≡◌, refl, sym, subst, true, false, List, [], ◌∷◌, ◌++◌, Option, none, some,
  All, ◌==◌, leb, ℤ, pos, atoi, arith,
}
use tp_so_tuki.Filesystem.Disk.{Fcb, Disk, is_set}
use tp_so_tuki.Filesystem.Resize.{
  int_eq, pointers, release_direct, release_indirect, resize_to_zero, ensure_direct,
  resize_to_block, resize_sized, resize_block,
}
use tp_so_tuki.Filesystem.Freed.{Freed, Freed-none, Freed-append, free_block_lem, free_blocks_lem}

-- The text of a control block names a block, or none.
abbrev pub Points : ℕ → List ℕ → Option ℕ → Type 0
Points n text none = text ≡ []
Points n text (some b) = (is_set text ≡ true) × (atoi text ≡ pos b) × (b < n)

abbrev pub direct_blocks : Option ℕ → List ℕ
direct_blocks none = []
direct_blocks (some b) = b ∷ []

abbrev pub indirect_blocks : Option ℕ → List ℕ → List ℕ
indirect_blocks none ps = []
indirect_blocks (some i) ps = ps ++ (i ∷ [])

-- The blocks that a control block stands for.
pub record Layout (d : Disk) (fcb : Fcb) (direct indirect : Option ℕ) (ps : List ℕ) : Type 0 where
  pub direct_text : Points d.block_count fcb.puntero_directo direct
  pub indirect_text : Points d.block_count fcb.puntero_indirecto indirect
  pub listed : pointers d (atoi fcb.puntero_indirecto) ≡ some ps
  pub in_range : All (λ p. p < d.block_count) (indirect_blocks indirect ps)
  pub addressable : d.block_count ≤ 2 ^ 31

pub All-append : (P : ℕ → Type 0) (xs ys : List ℕ) → All P (xs ++ ys) → All P xs × All P ys
All-append P [] ys a = (tt, a)
All-append P (x ∷ xs) ys a = let (l, r) = All-append P xs ys a.1 in ((a.0, l), r)

release_direct_lem :
    (d : Disk) (fcb : Fcb) (direct : Option ℕ)
    → Points d.block_count fcb.puntero_directo direct
    → (d' : Disk) × (release_direct d fcb ≡ some (d', record fcb { puntero_directo = [] }))
      × Freed (direct_blocks direct) d d'
unfolding release_direct is_set
release_direct_lem d fcb none e = (d, rw e refl, Freed-none d)
release_direct_lem d fcb (some b) p =
    let (d', e, f) = free_block_lem d b p.2 in (d', rw (p.0, p.1, e) refl, f)

release_indirect_lem :
    (d : Disk) (fcb : Fcb) (indirect : Option ℕ) (ps : List ℕ)
    → Points d.block_count fcb.puntero_indirecto indirect
    → All (λ p. p < d.block_count) (indirect_blocks indirect ps)
    → d.block_count ≤ 2 ^ 31
    → (d' : Disk) × (release_indirect d fcb ps ≡ some (d', record fcb { puntero_indirecto = [] }))
      × Freed (indirect_blocks indirect ps) d d'
unfolding release_indirect is_set
release_indirect_lem d fcb none ps e v k = (d, rw e refl, Freed-none d)
release_indirect_lem d fcb (some i) ps p v k =
    let (range, last) = All-append (λ p. p < d.block_count) ps (i ∷ []) v in
    let (d', e, f) = free_blocks_lem ps d range k in
    let (d'', e', f') = free_block_lem d' i (subst (λ n. i < n) (sym f.same_count) last.0) in
    (d'', rw (p.0, e, p.1, e') refl, Freed-append ps (i ∷ []) d d' d'' f f')

module _ (string_itoa : ℤ → List ℕ) where
  -- A file of a known layout, whose size is not 0 as yet, is truncated to 0: this does not fault, the
  -- control block has size 0 and no pointer, and exactly the blocks of the file are free and blank now.
  pub resize_block-zero :
      (d : Disk) (fcb : Fcb) (direct indirect : Option ℕ) (ps : List ℕ)
      → Layout d fcb direct indirect ps
      → int_eq (pos 0) (atoi fcb.tamanio_archivo) ≡ false
      → (d' : Disk) × (resize_block string_itoa d fcb (pos 0)
          ≡ some (
            d',
            record fcb {
              tamanio_archivo = string_itoa (pos 0);
              puntero_directo = [];
              puntero_indirecto = [];
            },
          ))
        × Freed (direct_blocks direct ++ indirect_blocks indirect ps) d d'
  unfolding resize_block resize_sized resize_to_zero
  resize_block-zero d fcb direct indirect ps layout changes =
      let sized = record fcb { tamanio_archivo = string_itoa (pos 0) } in
      let (d', e, f) = release_direct_lem d sized direct layout.direct_text in
      let count = sym f.same_count in
      let (d'', e', f') =
        release_indirect_lem d' (record sized { puntero_directo = [] }) indirect ps
          (subst (λ n. Points n fcb.puntero_indirecto indirect) count layout.indirect_text)
          (subst (λ n. All (λ p. p < n) (indirect_blocks indirect ps)) count layout.in_range)
          (subst (λ n. n ≤ 2 ^ 31) count layout.addressable) in
      (
        d'',
        rw (changes, layout.listed, e, e') refl,
        Freed-append (direct_blocks direct) (indirect_blocks indirect ps) d d' d'' f f',
      )

  -- A file of a known layout with a direct block gets a new size of at least a byte and at most a block:
  -- this does not fault, the direct block stays, and exactly the indirect block and the blocks that
  -- it points to are free and blank now.
  pub resize_block-one :
      (d : Disk) (fcb : Fcb) (b : ℕ) (indirect : Option ℕ) (ps : List ℕ) (n : ℕ)
      → Layout d fcb (some b) indirect ps
      → int_eq (pos n) (atoi fcb.tamanio_archivo) ≡ false
      → 0 < n
      → n ≤ d.block_size
      → (d' : Disk) × (resize_block string_itoa d fcb (pos n)
          ≡ some (d', record fcb { tamanio_archivo = string_itoa (pos n); puntero_indirecto = [] }))
        × Freed (indirect_blocks indirect ps) d d'
  unfolding resize_block resize_sized resize_to_block ensure_direct
  resize_block-one d fcb b indirect ps n layout changes some_bytes fits =
      let sized = record fcb { tamanio_archivo = string_itoa (pos n) } in
      let (d', e, f) =
        release_indirect_lem d sized indirect ps layout.indirect_text layout.in_range
          layout.addressable in
      (
        d',
        rw
            (
              changes,
              layout.listed,
              nonzero n some_bytes,
              short n d.block_size fits,
              layout.direct_text.0,
              e,
            )
            refl,
        f,
      )
    where
      nonzero : (x : ℕ) → 0 < x → (x == 0) ≡ false
      nonzero x h = ground arith

      short : (x y : ℕ) → x ≤ y → leb x y ≡ true
      short x y h = ground arith

-- ===== src/Filesystem/FreeBlocks.antt =====
-- `next_bit_position` of filesystem/src/handler_instruction_filesystem.c while blocks are free, and the
-- loop of `resize_block` that calls it.
use native.Mathlib.Decide.{ℕ_discrete}
use tp_so_tuki.Common.{
  ℕ, zero, suc, ◌+◌, ◌≤◌, ◌<◌, ◌≡◌, ◌≢◌, refl, sym, ap, ◌∙◌, inl, inr, Bool, true, false, List, [],
  ◌∷◌, ◌++◌, Option, none, some, All, In, length, append-nil, append_assoc, if◌then◌else◌, arith,
  true-ne-false,
}
use tp_so_tuki.Memory.State.{update}
use tp_so_tuki.Memory.Blocks.{update_self, update_ne}
use tp_so_tuki.Filesystem.Blocks.{next_bit_position}
use tp_so_tuki.Filesystem.Bitmap.{Full, Taken, next_bit_position-Taken}
use tp_so_tuki.Filesystem.Disk.{Disk}
use tp_so_tuki.Filesystem.Resize.{next_block, take_blocks, position_bits}

-- How many of the first blocks are free.
unfoldable pub free_count : ℕ → (ℕ → Bool) → ℕ
free_count zero bitmap = 0
free_count (suc n) bitmap = (if bitmap n then 0 else 1) + free_count n bitmap

free_count-Full : (n : ℕ) (bitmap : ℕ → Bool) → Full bitmap 0 n → free_count n bitmap ≡ 0
unfolding free_count
free_count-Full zero bitmap f = refl
free_count-Full (suc n) bitmap f =
    rw (f n (omega arith) (omega arith))
      (omega (arith, free_count-Full n bitmap (λ j h k. f j h (omega arith))))

free_count_kept :
    (n : ℕ) (bitmap : ℕ → Bool) (b : ℕ)
    → n ≤ b
    → free_count n (update bitmap b true) ≡ free_count n bitmap
unfolding free_count
free_count_kept zero bitmap b h = refl
free_count_kept (suc n) bitmap b h =
    rw (update_ne bitmap b true n (omega arith))
      (ap (λ x. (if bitmap n then 0 else 1) + x) (free_count_kept n bitmap b (omega arith)))

free_count_taken :
    (n : ℕ) (bitmap : ℕ → Bool) (b : ℕ)
    → b < n
    → bitmap b ≡ false
    → free_count n bitmap ≡ suc (free_count n (update bitmap b true))
unfolding free_count
free_count_taken zero bitmap b h e = absurd (omega arith)
free_count_taken (suc n) bitmap b h e = elim (ℕ_discrete n b) [
  | yes s ↦
      rw (ap bitmap s ∙ e, ap (update bitmap b true) s ∙ update_self bitmap b true)
        (omega (arith, free_count_kept n bitmap b (omega arith)))
  | no d ↦
      rw (update_ne bitmap b true n d) (omega (arith, free_count_taken n bitmap b (omega arith) e))
]

-- While a block is free, the first one is taken.
Taken-block :
    (n : ℕ) (bitmap : ℕ → Bool) (r : Option ℕ × (ℕ → Bool))
    → Taken bitmap 0 n r
    → 0 < free_count n bitmap
    → (b : ℕ) × (r ≡ (some b, update bitmap b true)) × (b < n) × (bitmap b ≡ false)
Taken-block n bitmap (none, after) t h = absurd (omega (arith, free_count-Full n bitmap t.0))
Taken-block n bitmap (some b, after) t h = (b, ap (λ m. (some b, m)) t.3, t.0, t.1)

abbrev pub Distinct : List ℕ → Type 0
Distinct [] = Unit
Distinct (x ∷ xs) = (¬ In x xs) × Distinct xs

-- The blocks of the list were free, are distinct and in use now, and the bits of all others are kept.
pub record NewBlocks (n : ℕ) (before after : ℕ → Bool) (blocks : List ℕ) : Type 0 where
  pub range : All (λ b. b < n) blocks
  pub were_free : (b : ℕ) → In b blocks → before b ≡ false
  pub distinct : Distinct blocks
  pub in_use : (b : ℕ) → In b blocks → after b ≡ true
  pub kept : (b : ℕ) → ¬ In b blocks → after b ≡ before b

NewBlocks-none : (n : ℕ) (bitmap : ℕ → Bool) → NewBlocks n bitmap bitmap []
NewBlocks-none n bitmap = record {
  range = tt;
  were_free = λ b h. absurd h;
  distinct = tt;
  in_use = λ b h. absurd h;
  kept = λ b h. refl;
}

NewBlocks-next :
    (n : ℕ) (before after : ℕ → Bool) (b : ℕ) (blocks : List ℕ)
    → b < n
    → before b ≡ false
    → NewBlocks n (update before b true) after blocks
    → NewBlocks n before after (b ∷ blocks)
NewBlocks-next n before after b blocks h e new = record {
  range = (h, new.range);
  were_free = λ c k. elim k [
    | inl s ↦ ap before s ∙ e
    | inr l ↦ sym (update_ne before b true c (other c l)) ∙ new.were_free c l
  ];
  distinct = ((λ k. other b k refl), new.distinct);
  in_use = λ c k. elim k [ inl s ↦ ap after s ∙ used | inr l ↦ new.in_use c l ];
  kept = λ c k. new.kept c (λ l. k (inr l)) ∙ update_ne before b true c (λ s. k (inl s));
}
  where
    other : (c : ℕ) → In c blocks → c ≢ b
    other c l s =
        true-ne-false
          (sym (ap (update before b true) s ∙ update_self before b true) ∙ new.were_free c l)

    used : after b ≡ true
    used = new.kept b (λ l. other b l refl) ∙ update_self before b true

pub take_blocks_lem :
    (n : ℕ) (d : Disk) (ps : List ℕ)
    → n ≤ free_count d.block_count d.bitmap
    → (new : List ℕ) × (bitmap : ℕ → Bool) × (take_blocks n d ps
        ≡ (record d { bitmap = bitmap }, ps ++ new))
      × (length new ≡ n)
      × NewBlocks d.block_count d.bitmap bitmap new
unfolding take_blocks next_block position_bits
take_blocks_lem zero d ps h = (
  [],
  d.bitmap,
  ap (λ l. (d, l)) (sym (append-nil ps)),
  refl,
  NewBlocks-none d.block_count d.bitmap,
)
take_blocks_lem (suc n) d ps h =
    let (b, e, l, f) =
      Taken-block d.block_count d.bitmap (next_bit_position d.block_count d.bitmap)
        (next_bit_position-Taken d.block_count d.bitmap) (omega arith) in
    let (new, bitmap, run, count, r) =
      take_blocks_lem n (record d { bitmap = update d.bitmap b true }) (ps ++ (b ∷ []))
        (omega (arith, free_count_taken d.block_count d.bitmap b l f)) in
    (
      b ∷ new,
      bitmap,
      rw e run ∙ ap (λ t. (record d { bitmap = bitmap }, t)) (append_assoc ps (b ∷ []) new),
      ap suc count,
      NewBlocks-next d.block_count d.bitmap bitmap b new l f r,
    )

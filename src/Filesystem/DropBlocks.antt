-- ===== src/Filesystem/DropBlocks.antt =====
-- The loop of `resize_block` of filesystem/src/handler_instruction_filesystem.c that gives back the last
-- blocks of a file.
use tp_so_tuki.Common.{
  ℕ, zero, suc, ◌-◌, ◌^◌, ◌≤◌, ◌<◌, ◌≡◌, refl, sym, ap, subst, ◌∙◌, inl, inr, List, [], ◌∷◌, ◌++◌,
  some, All, length, length-append, take-append, get_elem?, append-nil, append_assoc, pos, arith,
}
use tp_so_tuki.Filesystem.Disk.{Disk, free_block}
use tp_so_tuki.Filesystem.Resize.{drop_blocks}
use tp_so_tuki.Filesystem.Freed.{
  Freed, Freed-none, Freed-append, Freed-same, In-append, In-left, In-right, free_block_lem,
  to_int-pos,
}
use tp_so_tuki.Filesystem.Shrink.{All-append}

-- The last of the list.
snoc :
    (x : ℕ) (xs : List ℕ)
    → (ys : List ℕ) × (y : ℕ) × (x ∷ xs ≡ ys ++ (y ∷ [])) × (length ys ≡ length xs)
snoc x [] = ([], x, refl, refl)
snoc x (z ∷ xs) = let (ys, y, e, l) = snoc z xs in (x ∷ ys, y, ap (λ t. x ∷ t) e, ap suc l)

last_elem : (xs : List ℕ) (x n : ℕ) → n ≡ length xs → get_elem? (xs ++ (x ∷ [])) n ≡ some x
last_elem [] x zero e = refl
last_elem [] x (suc n) e = absurd (omega arith)
last_elem (y ∷ xs) x zero e = absurd (omega arith)
last_elem (y ∷ xs) x (suc n) e = last_elem xs x n (omega arith)

-- One round, on a list with a last pointer.
drop_step :
    (n x : ℕ) (front : List ℕ) (d d' : Disk)
    → x < d.block_count
    → d.block_count ≤ 2 ^ 31
    → free_block d (pos x) ≡ some d'
    → drop_blocks (suc n) d (front ++ (x ∷ [])) ≡ drop_blocks n d' front
unfolding drop_blocks
drop_step n x front d d' h k e =
    rw
      (
        last_elem front x (length (front ++ (x ∷ [])) - 1) count,
        to_int-pos x d.block_count h k,
        e,
        take-append (length (front ++ (x ∷ [])) - 1) front (x ∷ []) count,
      )
      refl
  where
    count : length (front ++ (x ∷ [])) - 1 ≡ length front
    count = omega (arith, length-append front (x ∷ []))

-- The last pointers are freed, and the others stay in the list.
pub drop_blocks_lem :
    (n : ℕ) (keep gone : List ℕ) (d : Disk)
    → length gone ≡ n
    → All (λ p. p < d.block_count) gone
    → d.block_count ≤ 2 ^ 31
    → (d' : Disk) × (drop_blocks n d (keep ++ gone) ≡ some (d', keep)) × Freed gone d d'
unfolding drop_blocks
drop_blocks_lem zero keep [] d e v k = (d, ap (λ l. some (d, l)) (append-nil keep), Freed-none d)
drop_blocks_lem zero keep (x ∷ gone) d e v k = absurd (omega arith)
drop_blocks_lem (suc n) keep [] d e v k = absurd (omega arith)
drop_blocks_lem (suc n) keep (g ∷ gone) d e v k =
    let (front, x, split, l) = snoc g gone in
    let (vf, vx) =
      All-append (λ p. p < d.block_count) front (x ∷ [])
        (subst (All (λ p. p < d.block_count)) split v) in
    let (d', freed, f) = free_block_lem d x vx.0 in
    let (d'', dropped, f') =
      drop_blocks_lem n keep front d' (omega (arith, e, l))
        (subst (λ m. All (λ p. p < m) front) (sym f.same_count) vf)
        (subst (λ m. m ≤ 2 ^ 31) (sym f.same_count) k) in
    (
      d'',
      ap (drop_blocks (suc n) d)
            (ap (λ l. keep ++ l) split ∙ sym (append_assoc keep front (x ∷ [])))
          ∙ drop_step n x (keep ++ front) d d' vx.0 k freed
          ∙ dropped,
      subst (λ t. Freed t d d'') (sym split)
          (Freed-same (x ∷ front) (front ++ (x ∷ [])) d d''
            (λ b h. elim h [
              | inl q ↦ In-right b front (x ∷ []) (inl q)
              | inr q ↦ In-left b front (x ∷ []) q
            ])
            (λ b h. elim (In-append b front (x ∷ []) h) [
              | inl q ↦ inr q
              | inr q ↦ elim q [ inl s ↦ inl s | inr s ↦ absurd s ]
            ])
            (Freed-append (x ∷ []) front d d' d'' f f')),
    )

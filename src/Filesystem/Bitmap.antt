-- ===== src/Filesystem/Bitmap.antt =====
-- Which block `next_bit_position` takes.
use native.Mathlib.Decide.{ℕ_discrete}
use tp_so_tuki.Common.{
  ℕ, zero, suc, ◌+◌, ◌≤◌, ◌<◌, ◌≡◌, refl, subst, inl, inr, Bool, true, false, Option, none, some,
  Bool-cases, arith,
}
use tp_so_tuki.Memory.State.{update}
use tp_so_tuki.Filesystem.Blocks.{next_bit_from, next_bit_position}

-- The blocks from `i` to before `limit` are all in use.
abbrev pub Full : (ℕ → Bool) → ℕ → ℕ → Type 0
Full bitmap i limit = (j : ℕ) → i ≤ j → j < limit → bitmap j ≡ true

-- The first free block from `i` on is taken, and nothing else changes.
abbrev pub Taken : (ℕ → Bool) → ℕ → ℕ → Option ℕ × (ℕ → Bool) → Type 0
Taken bitmap i limit (none, after) = Full bitmap i limit × (after ≡ bitmap)
Taken bitmap i limit (some b, after) =
    (b < limit) × (bitmap b ≡ false) × Full bitmap i b × (after ≡ update bitmap b true)

Full-extend :
    (bitmap : ℕ → Bool) (i limit : ℕ)
    → bitmap i ≡ true
    → Full bitmap (suc i) limit
    → Full bitmap i limit
Full-extend bitmap i limit e f j h k = elim (ℕ_discrete i j) [
  | yes s ↦ subst (λ n. bitmap n ≡ true) s e
  | no n ↦ f j (omega arith) k
]

Taken-next :
    (bitmap : ℕ → Bool) (i limit : ℕ) (r : Option ℕ × (ℕ → Bool))
    → bitmap i ≡ true
    → Taken bitmap (suc i) limit r
    → Taken bitmap i limit r
Taken-next bitmap i limit (none, after) e t = (Full-extend bitmap i limit e t.0, t.1)
Taken-next bitmap i limit (some b, after) e t = (t.0, t.1, Full-extend bitmap i b e t.2, t.3)

next_bit_from-Taken :
    (n i limit : ℕ) (bitmap : ℕ → Bool)
    → i + n ≡ limit
    → Taken bitmap i limit (next_bit_from n i bitmap)
unfolding next_bit_from
next_bit_from-Taken zero i limit bitmap e = ((λ j h k. absurd (omega arith)), refl)
next_bit_from-Taken (suc n) i limit bitmap e = elim (Bool-cases (bitmap i)) [
  | inl b ↦
      rw (b, next_bit_from)
        (Taken-next bitmap i limit (next_bit_from n (suc i) bitmap) b
          (next_bit_from-Taken n (suc i) limit bitmap (omega arith)))
  | inr b ↦ rw (b, next_bit_from) (omega arith, b, (λ j h k. absurd (omega arith)), refl)
]

-- `next_bit_position` takes the first free block and marks it, and no other, as used; it answers -1 and
-- changes nothing only if every block is used.
pub next_bit_position-Taken :
    (block_count : ℕ) (bitmap : ℕ → Bool)
    → Taken bitmap 0 block_count (next_bit_position block_count bitmap)
unfolding next_bit_position
next_bit_position-Taken block_count bitmap =
    next_bit_from-Taken block_count 0 block_count bitmap (omega arith)

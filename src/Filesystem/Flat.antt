-- ===== src/Filesystem/Flat.antt =====
-- The loops of `iterate_block_file`, block by block, against a reference that goes byte by byte: byte
-- `k` of a file is the byte `k % block_size` of its block `k / block_size`.
use native.Mathlib.Nat.{
  mul-add-div_right, div-eq_of_lt, mod_def, div-add-mod', mod-lt, suc-mul, mul_comm,
}
use tp_so_tuki.Common.{
  ℕ, zero, suc, ◌+◌, ◌-◌, ◌*◌, ◌/◌, ◌%◌, ◌≤◌, ◌<◌, ◌≡◌, refl, ap, ap₂, ◌∙◌, inl, inr, Bool, false,
  List, Option, none, some, ◌==◌, if◌then◌else◌, ◌>>=◌, Option-cases, ==_iff, ℤ, arith,
}
use tp_so_tuki.Filesystem.Transfer.{
  Transfer, transfer_byte, transfer_block, block_at, transfer_blocks, transfer,
}

-- The quotient and the remainder of a number by its parts.
pub in_block : (n i k o : ℕ) → o < n → k ≡ i * n + o → (k / n ≡ i) × (k % n ≡ o)
in_block n i k o h e = (q, omega (arith, mod_def k n, ap (λ t. n * t) q, mul_comm n i))
  where
    q : k / n ≡ i
    q =
        ap (λ t. t / n) e
        ∙ mul-add-div_right {m = n} (omega arith) i o
        ∙ ap (λ t. i + t) (div-eq_of_lt h)
        ∙ omega arith

ne : (x y : ℕ) → x < y → (x == y) ≡ false
ne x y h = ground arith

module _ (block_size block_count : ℕ) (pi_list : List ℤ) where
  -- The address of a byte of the file.
  unfoldable pub byte_address : ℕ → Option ℕ
  byte_address k = do
    b ← block_at block_count pi_list (k / block_size)
    some (b * block_size + k % block_size)

-- The loops also return `read_positions`.
unfoldable pub with_size : ℕ → Option Transfer → Option (ℕ × Transfer)
with_size size none = none
with_size size (some t) = some (size, t)

module _ (reads : Bool) (size : ℕ) (text : List ℕ) (block_size block_count : ℕ) (pi_list : List ℤ)
    (position : ℕ) where
  -- `n` bytes, from byte `position + r` on.
  unfoldable pub flat_transfer : ℕ → Transfer → ℕ → Option Transfer
  flat_transfer zero t r = some t
  flat_transfer (suc n) t r = do
    a ← byte_address block_size block_count pi_list (position + r)
    t' ← transfer_byte reads size text t a r
    flat_transfer n t' (suc r)

  after : ℕ → ℕ → ℕ × Transfer → Option (ℕ × Transfer)
  after n i s =
      let rest =
        transfer_blocks reads size text block_size block_count pi_list position n s.1 (suc i) s.0 in
      if s.0 == size then some s else rest

  byte_address-block :
      (i b p o : ℕ)
      → block_at block_count pi_list i ≡ some b
      → o < block_size
      → p ≡ i * block_size + o
      → byte_address block_size block_count pi_list p ≡ some (b * block_size + o)
  unfolding byte_address
  byte_address-block i b p o e h q = let (d, m) = in_block block_size i p o h q in rw (d, e, m) refl

  abbrev address : ℕ → ℕ → ℕ
  address b k = b * block_size + (block_size - k)

  tail : ℕ → ℕ → ℕ → ℕ → ℕ → Transfer → Option (ℕ × Transfer)
  tail n k i r a t' =
      (if suc r == size
        then some (suc r, t')
        else transfer_block reads size text k t' (suc a) (suc r))
      >>= after n i

  tail_last : (n k i r a : ℕ) (t' : Transfer) → suc r ≡ size → tail n k i r a t' ≡ some (size, t')
  unfolding tail after
  tail_last n k i r a t' s = rw (s, (==_iff size size).1 refl) (rw ((==_iff size size).1 refl) refl)

  tail_more :
      (n k i r a : ℕ) (t' : Transfer)
      → suc r < size
      → tail n k i r a t' ≡ (transfer_block reads size text k t' (suc a) (suc r) >>= after n i)
  unfolding tail
  tail_more n k i r a t' s = rw (ne (suc r) size s) refl

  -- One byte of either side.
  step :
      (n k i r m b : ℕ) (t : Transfer)
      → block_at block_count pi_list i ≡ some b
      → suc k ≤ block_size
      → position + r ≡ i * block_size + (block_size - suc k)
      → ((t' : Transfer)
          → tail n k i r (address b (suc k)) t' ≡ with_size size (flat_transfer m t' (suc r)))
      → (transfer_block reads size text (suc k) t (address b (suc k)) r >>= after n i)
        ≡ with_size size (flat_transfer (suc m) t r)
  unfolding transfer_block flat_transfer with_size tail
  step n k i r m b t e h p next =
      elim (Option-cases (transfer_byte reads size text t (address b (suc k)) r)) [
        | inl v ↦ rw (start, v) refl
        | inr s ↦ rw (start, s.1) (next s.0)
      ]
    where
      start : byte_address block_size block_count pi_list (position + r) ≡ some (address b (suc k))
      start = byte_address-block i b (position + r) (block_size - suc k) e (omega arith) p

  entered :
      (n i r o b : ℕ) (t : Transfer)
      → o < block_size
      → position + r ≡ i * block_size + o
      → (transfer_block reads size text
            (b * block_size + block_size - (position + r - i * block_size + b * block_size))
            t
            (position + r - i * block_size + b * block_size)
            r
          >>= after n i)
        ≡ (transfer_block reads size text
              (suc (block_size - suc o))
              t
              (address b (suc (block_size - suc o)))
              r
            >>= after n i)
  entered n i r o b t z p =
      ap₂ (λ x a. transfer_block reads size text x t a r >>= after n i)
        {x = b * block_size + block_size - (position + r - i * block_size + b * block_size)}
        {y = suc (block_size - suc o)} {u = position + r - i * block_size + b * block_size}
        {v = address b (suc (block_size - suc o))} (omega arith) (omega arith)

  -- The loop enters block `i` at its byte `o`.
  enter :
      (n i r m o : ℕ) (t : Transfer)
      → o < block_size
      → position + r ≡ i * block_size + o
      → ((b : ℕ)
          → block_at block_count pi_list i ≡ some b
          → (transfer_block reads size text
                (suc (block_size - suc o))
                t
                (address b (suc (block_size - suc o)))
                r
              >>= after n i)
            ≡ with_size size (flat_transfer (suc m) t r))
      → transfer_blocks reads size text block_size block_count pi_list position (suc n) t i r
        ≡ with_size size (flat_transfer (suc m) t r)
  unfolding transfer_blocks flat_transfer with_size byte_address after
  enter n i r m o t z p inside = elim (Option-cases (block_at block_count pi_list i)) [
    | inl v ↦ rw (v, (in_block block_size i (position + r) o z p).0, v) refl
    | inr s ↦ rw s.1 (entered n i r o s.0 t z p ∙ inside s.0 s.1)
  ]

  -- The last byte of a block was not the last of all.
  leave :
      (n i r a : ℕ) (t' : Transfer)
      → suc r < size
      → (transfer_block reads size text 0 t' a (suc r) >>= after n i)
        ≡ transfer_blocks reads size text block_size block_count pi_list position n t'
            (suc i)
            (suc r)
  unfolding transfer_block after
  leave n i r a t' s = rw (ne (suc r) size s) refl

  -- From byte `r` in block `i` on, where `k + 1` bytes of the block are left, `m + 1` bytes are to
  -- come, and the loop may enter `n` more blocks.
  inside :
      (n k i r m b : ℕ) (t : Transfer)
      → block_at block_count pi_list i ≡ some b
      → suc k ≤ block_size
      → position + r ≡ i * block_size + (block_size - suc k)
      → r + suc m ≡ size
      → suc m ≤ suc k + n * block_size
      → (transfer_block reads size text (suc k) t (address b (suc k)) r >>= after n i)
        ≡ with_size size (flat_transfer (suc m) t r)
  unfolding flat_transfer with_size
  inside n k i r zero b t e h p s f =
      step n k i r zero b t e h p (λ t'. tail_last n k i r _ t' (omega arith))
  inside n (suc k) i r (suc m) b t e h p s f = step n (suc k) i r (suc m) b t e h p (λ t'.
      tail_more n (suc k) i r _ t' (omega arith)
      ∙ ap (λ a. transfer_block reads size text (suc k) t' a (suc r) >>= after n i)
          {x = suc (address b (suc (suc k)))} {y = address b (suc k)} (omega arith)
      ∙ inside n k i (suc r) m b t' e (omega arith) (omega arith) (omega arith) (omega arith))
  inside zero zero i r (suc m) b t e h p s f = absurd (omega arith)
  inside (suc n) zero i r (suc m) b t e h p s f = step (suc n) zero i r (suc m) b t e h p (λ t'.
      tail_more (suc n) zero i r _ t' (omega arith)
      ∙ leave (suc n) i r _ t' (omega arith)
      ∙ enter n (suc i) (suc r) m 0 t' h (omega (arith, suc-mul i block_size)) (λ b' e'.
        inside n (block_size - 1) (suc i) (suc r) m b' t' e' (omega arith)
          (omega (arith, suc-mul i block_size)) (omega arith)
          (omega (arith, suc-mul n block_size))))

  -- Where a block has bytes and there is a byte to move, the loops of `iterate_block_file` do the same as
  -- the reference, faults included, with as many blocks as the code allows for.
  pub transfer-flat_transfer :
      (t : Transfer)
      → 0 < block_size
      → 0 < size
      → transfer reads size text block_size block_count pi_list position t
        ≡ with_size size (flat_transfer size t 0)
  unfolding transfer
  transfer-flat_transfer t z s =
      enter blocks (position / block_size) 0 (size - 1) (position % block_size) t
        (mod-lt position z) (omega (arith, div-add-mod' position block_size))
        (λ b e.
          inside blocks (block_size - suc (position % block_size)) (position / block_size) 0
            (size - 1) b t e (omega (arith, mod-lt position z))
            (omega (arith, mod-lt position z, div-add-mod' position block_size)) (omega arith)
            (omega (
              arith,
              mod-lt position z,
              div-add-mod' (size + block_size - 1) block_size,
              mod-lt (size + block_size - 1) z,
            )))
      ∙ ap (λ n. with_size size (flat_transfer n t 0)) {x = suc (size - 1)} (omega arith)
    where
      blocks : ℕ
      blocks = (size + block_size - 1) / block_size

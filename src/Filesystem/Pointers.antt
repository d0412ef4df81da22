-- ===== src/Filesystem/Pointers.antt =====
-- The pointers in an indirect block are read back as they were written.
use native.Mathlib.Nat.{mod-eq_of_lt}
use tp_so_tuki.Common.{
  ℕ, zero, suc, ◌+◌, ◌*◌, ◌/◌, ◌%◌, ◌^◌, ◌≤◌, ◌<◌, ◌≡◌, refl, sym, ap, ap₂, ◌∙◌, ◌⊎◌, inl, inr,
  false, List, [], ◌∷◌, length, ◌==◌, All, arith,
}
use tp_so_tuki.Package.Bytes.{le_bytes, le_value, length-le_bytes, le_value-le_bytes}
use tp_so_tuki.Memory.Heap.{load, store, store_outside, load-store}
use tp_so_tuki.Filesystem.Blocks.{write_pointers, set_bf_ip, read_pointers, get_bf_ip}

-- A pointer that is not zero and fits a `uint32_t`.
abbrev pub IsPointer : ℕ → Type 0
IsPointer p = (0 < p) × (p < 2 ^ 32)

-- The bytes from `a` to before `limit` are zero.
abbrev pub Blank : (ℕ → ℕ) → ℕ → ℕ → Type 0
Blank block_file a limit = (x : ℕ) → a ≤ x → x < limit → block_file x ≡ 0

-- The pointers change their own bytes only.
pub write_pointers_outside :
    (block_file : ℕ → ℕ) (a : ℕ) (ps : List ℕ) (x : ℕ)
    → (x < a) ⊎ (a + length ps * 4 ≤ x)
    → write_pointers block_file a ps x ≡ block_file x
unfolding write_pointers
write_pointers_outside block_file a [] x h = refl
write_pointers_outside block_file a (p ∷ ps) x h =
    write_pointers_outside (store block_file a (le_bytes 4 (p % 2 ^ 32))) (a + 4) ps x (omega arith)
    ∙ store_outside block_file a (le_bytes 4 (p % 2 ^ 32)) x
        (omega (arith, length-le_bytes 4 (p % 2 ^ 32)))

pub load-equal :
    (f g : ℕ → ℕ) (a n : ℕ) → ((x : ℕ) → a ≤ x → x < a + n → f x ≡ g x) → load f a n ≡ load g a n
unfolding load
load-equal f g a zero e = refl
load-equal f g a (suc n) e =
    ap₂ ◌∷◌ (e a (omega arith) (omega arith))
      (load-equal f g (suc a) n (λ x h k. e x (omega arith) (omega arith)))

-- The word that the first of the pointers takes.
first_word :
    (block_file : ℕ → ℕ) (a p : ℕ) (ps : List ℕ)
    → IsPointer p
    → le_value (load (write_pointers block_file a (p ∷ ps)) a 4) ≡ p
unfolding write_pointers
first_word block_file a p ps h =
    ap le_value (
      load-equal (write_pointers stored (a + 4) ps) stored a 4
        (λ x k l. write_pointers_outside stored (a + 4) ps x (inl l))
      ∙ ap (load stored a) (sym (length-le_bytes 4 (p % 2 ^ 32)))
      ∙ load-store block_file a (le_bytes 4 (p % 2 ^ 32)))
    ∙ le_value-le_bytes 4 (p % 2 ^ 32) (omega arith)
    ∙ mod-eq_of_lt h.1
  where
    stored : ℕ → ℕ
    stored = store block_file a (le_bytes 4 (p % 2 ^ 32))

read_pointers-Blank :
    (n : ℕ) (block_file : ℕ → ℕ) (a : ℕ)
    → Blank block_file a (a + n * 4)
    → read_pointers n block_file a ≡ []
unfolding read_pointers load le_value
read_pointers-Blank zero block_file a b = refl
read_pointers-Blank (suc n) block_file a b =
    rw (word, read_pointers)
      (read_pointers-Blank n block_file (a + 4) (λ x h k. b x (omega arith) (omega arith)))
  where
    word : le_value (load block_file a 4) ≡ 0
    word = ap le_value (load-equal block_file (λ x. 0) a 4 (λ x h k. b x h (omega arith)))

read_pointers-write_pointers :
    (n : ℕ) (block_file : ℕ → ℕ) (a : ℕ) (ps : List ℕ)
    → All IsPointer ps
    → length ps ≤ n
    → Blank block_file (a + length ps * 4) (a + n * 4)
    → read_pointers n (write_pointers block_file a ps) a ≡ ps
unfolding read_pointers write_pointers
read_pointers-write_pointers n block_file a [] v h b =
    read_pointers-Blank n block_file a (λ x k l. b x (omega arith) (omega arith))
read_pointers-write_pointers zero block_file a (p ∷ ps) v h b = absurd (omega arith)
read_pointers-write_pointers (suc n) block_file a (p ∷ ps) v h b =
    rw (first_word block_file a p ps v.0, nonzero p v.0.0)
      (ap (λ t. p ∷ t) (read_pointers-write_pointers n stored (a + 4) ps v.1 (omega arith) behind))
  where
    stored : ℕ → ℕ
    stored = store block_file a (le_bytes 4 (p % 2 ^ 32))

    nonzero : (q : ℕ) → 0 < q → (q == 0) ≡ false
    nonzero q k = ground arith

    behind : Blank stored (a + 4 + length ps * 4) (a + 4 + n * 4)
    behind x k l =
        store_outside block_file a (le_bytes 4 (p % 2 ^ 32)) x
          (inr (omega (arith, length-le_bytes 4 (p % 2 ^ 32))))
        ∙ b x (omega arith) (omega arith)

-- Let the pointers be neither zero nor wider than 32 bits, fit the indirect block, and let the bytes of
-- the block behind them be zero. What `set_bf_ip` writes into the block `get_bf_ip` reads from it.
pub get_bf_ip-set_bf_ip :
    (block_size pointer : ℕ) (block_file : ℕ → ℕ) (pi_list : List ℕ)
    → All IsPointer pi_list
    → length pi_list ≤ (block_size + 3) / 4
    → Blank block_file
        (pointer * block_size + length pi_list * 4)
        (pointer * block_size + (block_size + 3) / 4 * 4)
    → get_bf_ip block_size (set_bf_ip block_size block_file pointer pi_list) pointer ≡ pi_list
unfolding get_bf_ip set_bf_ip
get_bf_ip-set_bf_ip block_size pointer block_file pi_list v h b =
    read_pointers-write_pointers ((block_size + 3) / 4) block_file (pointer * block_size) pi_list v
      h b

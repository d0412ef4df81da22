-- ===== src/Filesystem/PointerBlock.antt =====
-- The pointers of an indirect block as `resize_block` of
-- filesystem/src/handler_instruction_filesystem.c writes them.
use tp_so_tuki.Common.{
  some-injective, Bool-cases, ℕ, zero, suc, ◌+◌, ◌*◌, ◌/◌, ◌%◌, ◌^◌, ◌≤◌, ◌<◌, ◌≡◌, ◌≢◌, refl, sym,
  ap, subst, ◌∙◌, ◌⊎◌, inl, inr, false, List, [], ◌∷◌, some, All, length, ◌==◌, pos, arith,
}
use tp_so_tuki.Package.Bytes.{le_value}
use tp_so_tuki.Memory.Heap.{load}
use tp_so_tuki.Filesystem.Blocks.{get_bf_ip, set_bf_ip, read_pointers}
use tp_so_tuki.Filesystem.Pointers.{IsPointer, Blank, get_bf_ip-set_bf_ip, write_pointers_outside}
use tp_so_tuki.Filesystem.Disk.{Disk}
use tp_so_tuki.Filesystem.Resize.{pointers, set_pointers}
use tp_so_tuki.Filesystem.Freed.{block_of-pos, SameBlock, block_apart}

-- What `get_bf_ip` returns are not zeros, and at most as many as the block has words.
pub read_pointers_bounds :
    (n : ℕ) (f : ℕ → ℕ) (a : ℕ)
    → All (λ p. 0 < p) (read_pointers n f a) × (length (read_pointers n f a) ≤ n)
unfolding read_pointers
read_pointers_bounds zero f a = (tt, omega arith)
read_pointers_bounds (suc n) f a =
    let later = read_pointers_bounds n f (a + 4) in
    elim (Bool-cases (le_value (load f a 4) == 0)) [
      | inl e ↦ rw e (later.0, omega (arith, later.1))
      | inr e ↦ rw e ((positive (le_value (load f a 4)) e, later.0), omega (arith, later.1))
    ]
  where
    positive : (x : ℕ) → (x == 0) ≡ false → 0 < x
    positive x h = ground arith

pub All-IsPointer :
    (n : ℕ) (ps : List ℕ)
    → n ≤ 2 ^ 31
    → All (λ p. p < n) ps
    → All (λ p. 0 < p) ps
    → All IsPointer ps
All-IsPointer n [] h v w = tt
All-IsPointer n (p ∷ ps) h v w = ((w.0, omega arith), All-IsPointer n ps h v.1 w.1)

-- The pointers are written into a block that is blank behind them, and are read back.
pub set_pointers_lem :
    (d : Disk) (i : ℕ) (ps : List ℕ)
    → i < d.block_count
    → d.block_size % 4 ≡ 0
    → All IsPointer ps
    → length ps * 4 ≤ d.block_size
    → Blank d.block_file (i * d.block_size + length ps * 4) (i * d.block_size + d.block_size)
    → (block_file : ℕ → ℕ) × (set_pointers d (pos i) ps
        ≡ some (record d { block_file = block_file }))
      × (pointers (record d { block_file = block_file }) (pos i) ≡ some ps)
      × ((b : ℕ) → b ≢ i → SameBlock d.block_size block_file d.block_file b)
unfolding set_pointers pointers set_bf_ip
set_pointers_lem d i ps h m v l blank = (
  set_bf_ip d.block_size d.block_file i ps,
  rw (block_of-pos d.block_count i h) refl,
  rw (block_of-pos d.block_count i h) (
      ap some (
        get_bf_ip-set_bf_ip d.block_size i d.block_file ps v (omega arith)
          (λ x k j. blank x k (omega arith)))),
  (λ b ne o k.
      write_pointers_outside d.block_file (i * d.block_size) ps (b * d.block_size + o)
        (apart (block_apart b i d.block_size o ne k))),
)
  where
    apart :
        {x : ℕ}
        → (x < i * d.block_size) ⊎ (i * d.block_size + d.block_size ≤ x)
        → (x < i * d.block_size) ⊎ (i * d.block_size + length ps * 4 ≤ x)
    apart o = omega arith

-- The pointers of a block are fit to be written to it.
pub pointers_fit :
    (d : Disk) (i : ℕ) (ps : List ℕ)
    → i < d.block_count
    → d.block_count ≤ 2 ^ 31
    → pointers d (pos i) ≡ some ps
    → All (λ p. p < d.block_count) ps
    → All IsPointer ps × (length ps ≤ (d.block_size + 3) / 4)
unfolding pointers get_bf_ip
pointers_fit d i ps h k e v =
    let same = some-injective (sym (rw (block_of-pos d.block_count i h) refl) ∙ e) in
    let bounds = read_pointers_bounds ((d.block_size + 3) / 4) d.block_file (i * d.block_size) in
    (
      All-IsPointer d.block_count ps k v (subst (All (λ p. 0 < p)) same bounds.0),
      subst (λ l. length l ≤ (d.block_size + 3) / 4) same bounds.1,
    )

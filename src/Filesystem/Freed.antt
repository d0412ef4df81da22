-- ===== src/Filesystem/Freed.antt =====
-- What freeing blocks does to the disk: `free_block` and `free_blocks` of Filesystem/Disk.
use native.Mathlib.Decide.{ℕ_discrete, dec_lt}
use tp_so_tuki.Common.{
  ℕ, zero, suc, ◌+◌, ◌*◌, ◌^◌, ◌≤◌, ◌<◌, ◌≡◌, ◌≢◌, refl, sym, ap, subst, ◌∙◌, ◌⊎◌, inl, inr, false,
  List, [], ◌∷◌, ◌++◌, some, All, In, pos, arith,
}
use native.Mathlib.Nat.{mod-eq_of_lt}
use tp_so_tuki.Memory.State.{update}
use tp_so_tuki.Memory.Blocks.{update_self, update_ne}
use tp_so_tuki.Cpu.Execute.{to_int}
use tp_so_tuki.Filesystem.Disk.{Disk, block_of, erase, clear_block, free_block, free_blocks}

-- The bytes of block `b` are these in both.
abbrev pub SameBlock : ℕ → (ℕ → ℕ) → (ℕ → ℕ) → ℕ → Type 0
SameBlock block_size f g b =
    (o : ℕ) → o < block_size → f (b * block_size + o) ≡ g (b * block_size + o)

-- The blocks of the list are free and blank, and all others are as they were.
pub record Freed (blocks : List ℕ) (d d' : Disk) : Type 0 where
  pub same_size : d'.block_size ≡ d.block_size
  pub same_count : d'.block_count ≡ d.block_count
  pub same_files : d'.files ≡ d.files
  pub free : (b : ℕ) → In b blocks → d'.bitmap b ≡ false
  pub blank : (b : ℕ) → In b blocks → SameBlock d.block_size d'.block_file (λ x. 0) b
  pub kept_bits : (b : ℕ) → ¬ In b blocks → d'.bitmap b ≡ d.bitmap b
  pub kept : (b : ℕ) → ¬ In b blocks → SameBlock d.block_size d'.block_file d.block_file b

In-dec : (b : ℕ) (bs : List ℕ) → In b bs ⊎ (¬ In b bs)
In-dec b [] = inr (λ h. h)
In-dec b (c ∷ bs) = elim (ℕ_discrete b c) [
  | yes e ↦ inl (inl e)
  | no n ↦ elim (In-dec b bs) [
    | inl h ↦ inl (inr h)
    | inr h ↦ inr (λ g. elim g [ inl e ↦ n e | inr k ↦ h k ])
  ]
]

pub In-append : (b : ℕ) (xs ys : List ℕ) → In b (xs ++ ys) → In b xs ⊎ In b ys
In-append b [] ys h = inr h
In-append b (x ∷ xs) ys (inl e) = inl (inl e)
In-append b (x ∷ xs) ys (inr h) = elim (In-append b xs ys h) [ inl k ↦ inl (inr k) | inr k ↦ inr k ]

pub In-left : (b : ℕ) (xs ys : List ℕ) → In b xs → In b (xs ++ ys)
In-left b [] ys h = absurd h
In-left b (x ∷ xs) ys (inl e) = inl e
In-left b (x ∷ xs) ys (inr h) = inr (In-left b xs ys h)

pub In-right : (b : ℕ) (xs ys : List ℕ) → In b ys → In b (xs ++ ys)
In-right b [] ys h = h
In-right b (x ∷ xs) ys h = inr (In-right b xs ys h)

pub Freed-none : (d : Disk) → Freed [] d d
Freed-none d = record {
  same_size = refl;
  same_count = refl;
  same_files = refl;
  free = λ b h. absurd h;
  blank = λ b h. absurd h;
  kept_bits = λ b h. refl;
  kept = λ b h o k. refl;
}

pub Freed-append :
    (xs ys : List ℕ) (d d' d'' : Disk) → Freed xs d d' → Freed ys d' d'' → Freed (xs ++ ys) d d''
Freed-append xs ys d d' d'' f g = record {
  same_size = g.same_size ∙ f.same_size;
  same_count = g.same_count ∙ f.same_count;
  same_files = g.same_files ∙ f.same_files;
  free = λ b h. elim (In-dec b ys) [
    | inl k ↦ g.free b k
    | inr k ↦ g.kept_bits b k ∙ f.free b (left b h k)
  ];
  blank = λ b h. elim (In-dec b ys) [
    | inl k ↦ subst (λ n. SameBlock n d''.block_file (λ x. 0) b) f.same_size (g.blank b k)
    | inr k ↦ λ o l.
        subst (λ n. SameBlock n d''.block_file d'.block_file b) f.same_size (g.kept b k) o l
        ∙ f.blank b (left b h k) o l
  ];
  kept_bits = λ b h.
      g.kept_bits b (λ k. h (In-right b xs ys k)) ∙ f.kept_bits b (λ k. h (In-left b xs ys k));
  kept = λ b h o l.
      subst (λ n. SameBlock n d''.block_file d'.block_file b) f.same_size
        (g.kept b (λ k. h (In-right b xs ys k))) o l
      ∙ f.kept b (λ k. h (In-left b xs ys k)) o l;
}
  where
    left : (b : ℕ) → In b (xs ++ ys) → ¬ In b ys → In b xs
    left b h k = elim (In-append b xs ys h) [ inl l ↦ l | inr l ↦ absurd (k l) ]

pub erase_outside : (f : ℕ → ℕ) (a n x : ℕ) → (x < a) ⊎ (a + n ≤ x) → erase f a n x ≡ f x
unfolding erase
erase_outside f a zero x o = refl
erase_outside f a (suc n) x o =
    erase_outside (update f a 0) (suc a) n x (omega arith) ∙ update_ne f a 0 x (omega arith)

-- The list may be given in another order.
pub Freed-same :
    (xs ys : List ℕ) (d d' : Disk)
    → ((b : ℕ) → In b xs → In b ys)
    → ((b : ℕ) → In b ys → In b xs)
    → Freed xs d d'
    → Freed ys d d'
Freed-same xs ys d d' to from f = record {
  same_size = f.same_size;
  same_count = f.same_count;
  same_files = f.same_files;
  free = λ b h. f.free b (from b h);
  blank = λ b h. f.blank b (from b h);
  kept_bits = λ b h. f.kept_bits b (λ k. h (to b k));
  kept = λ b h. f.kept b (λ k. h (to b k));
}

pub erase_inside : (f : ℕ → ℕ) (a n x : ℕ) → a ≤ x → x < a + n → erase f a n x ≡ 0
unfolding erase
erase_inside f a zero x h k = absurd (omega arith)
erase_inside f a (suc n) x h k = elim (ℕ_discrete x a) [
  | yes e ↦
      erase_outside (update f a 0) (suc a) n x (inl (omega arith))
      ∙ ap (update f a 0) e
      ∙ update_self f a 0
  | no e ↦ erase_inside (update f a 0) (suc a) n x (omega arith) (omega arith)
]

pub row_before : (r s n o : ℕ) → r < s → o < n → r * n + o < s * n
row_before r s n o h k = grind arith

pub row_after : (r s n : ℕ) → r < s → r * n + n ≤ s * n
row_after r s n h = grind arith

-- The bytes of a block lie outside every other block.
pub block_apart : (c b n o : ℕ) → c ≢ b → o < n → (c * n + o < b * n) ⊎ (b * n + n ≤ c * n + o)
block_apart c b n o ne h = elim (dec_lt c b) [
  | yes l ↦ inl (row_before c b n o l h)
  | no l ↦ inr (omega (arith, row_after b c n (omega arith)))
]

-- A block that is erased is blank, and no other changes.
pub erase_block : (f : ℕ → ℕ) (n b : ℕ) → SameBlock n (erase f (b * n) n) (λ x. 0) b
erase_block f n b o h = erase_inside f (b * n) n (b * n + o) (omega arith) (omega arith)

pub erase_other : (f : ℕ → ℕ) (n b c : ℕ) → c ≢ b → SameBlock n (erase f (b * n) n) f c
erase_other f n b c ne o h = erase_outside f (b * n) n (c * n + o) (block_apart c b n o ne h)

-- The pointer of a block that exists.
pub block_of-pos : (n b : ℕ) → b < n → block_of n (pos b) ≡ some b
unfolding block_of
block_of-pos n b h = ground arith

pub free_block_lem :
    (d : Disk) (b : ℕ)
    → b < d.block_count
    → (d' : Disk) × (free_block d (pos b) ≡ some d') × Freed (b ∷ []) d d'
unfolding free_block clear_block
free_block_lem d b h = (
  record d {
    bitmap = update d.bitmap b false;
    block_file = erase d.block_file (b * d.block_size) d.block_size;
  },
  rw (block_of-pos d.block_count b h) refl,
  record {
    same_size = refl;
    same_count = refl;
    same_files = refl;
    free = λ c k. elim k [
      | inl e ↦ ap (update d.bitmap b false) e ∙ update_self d.bitmap b false
      | inr k ↦ absurd k
    ];
    blank = λ c k. elim k [
      | inl e ↦ λ o l.
          ap (λ x. erase d.block_file (b * d.block_size) d.block_size (x * d.block_size + o)) e
          ∙ erase_block d.block_file d.block_size b o l
      | inr k ↦ absurd k
    ];
    kept_bits = λ c k. update_ne d.bitmap b false c (λ e. k (inl e));
    kept = λ c k. erase_other d.block_file d.block_size b c (λ e. k (inl e));
  },
)

pub to_int-pos : (p n : ℕ) → p < n → n ≤ 2 ^ 31 → to_int p ≡ pos p
unfolding to_int
to_int-pos p n h k = rw (mod-eq_of_lt {n = p} {m = 2 ^ 32} (omega arith)) (ground arith)

pub free_blocks_lem :
    (ps : List ℕ) (d : Disk)
    → All (λ p. p < d.block_count) ps
    → d.block_count ≤ 2 ^ 31
    → (d' : Disk) × (free_blocks d ps ≡ some d') × Freed ps d d'
unfolding free_blocks
free_blocks_lem [] d v k = (d, refl, Freed-none d)
free_blocks_lem (p ∷ ps) d v k =
    let (d', e, f) = free_block_lem d p v.0 in
    let (d'', e', f') =
      free_blocks_lem ps d' (subst (λ n. All (λ q. q < n) ps) (sym f.same_count) v.1)
        (subst (λ n. n ≤ 2 ^ 31) (sym f.same_count) k) in
    (d'', rw (to_int-pos p d.block_count v.0 k, e) e', Freed-append (p ∷ []) ps d d' d'' f f')

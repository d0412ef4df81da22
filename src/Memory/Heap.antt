-- ===== src/Memory/Heap.antt =====
-- The bytes of the heap: `memcpy` out of it and into it.
use tp_so_tuki.Common.{
  ℕ, zero, suc, ◌+◌, ◌≤◌, ◌<◌, ◌≡◌, refl, ap, ap₂, ◌∙◌, ◌⊎◌, List, [], ◌∷◌, ◌++◌, length, arith,
}
use tp_so_tuki.Memory.State.{update}
use tp_so_tuki.Memory.Blocks.{update_self, update_ne}

-- `n` bytes from the address on
unfoldable pub load : (ℕ → ℕ) → ℕ → ℕ → List ℕ
load heap address zero = []
load heap address (suc n) = heap address ∷ load heap (suc address) n

unfoldable pub store : (ℕ → ℕ) → ℕ → List ℕ → ℕ → ℕ
store heap address [] = heap
store heap address (b ∷ bs) = store (update heap address b) (suc address) bs

pub length-load : (heap : ℕ → ℕ) (a n : ℕ) → length (load heap a n) ≡ n
unfolding load
length-load heap a zero = refl
length-load heap a (suc n) = ap suc (length-load heap (suc a) n)

-- Two runs of bytes, one behind the other.
pub load-add :
    (heap : ℕ → ℕ) (a n k : ℕ) → load heap a n ++ load heap (a + n) k ≡ load heap a (n + k)
unfolding load
load-add heap a zero k =
    ap (λ x. load heap x k) {x = a + zero} (omega arith) ∙ ap (load heap a) {x = k} (omega arith)
load-add heap a (suc n) k =
    ap (λ t. heap a ∷ t)
      (ap (λ x. load heap (suc a) n ++ load heap x k) {x = a + suc n} (omega arith)
        ∙ load-add heap (suc a) n k)
    ∙ ap (load heap a) {x = suc (n + k)} (omega arith)

-- A store changes its own bytes only.
pub store_outside :
    (heap : ℕ → ℕ) (a : ℕ) (bs : List ℕ) (x : ℕ)
    → (x < a) ⊎ (a + length bs ≤ x)
    → store heap a bs x ≡ heap x
unfolding store
store_outside heap a [] x o = refl
store_outside heap a (b ∷ bs) x o =
    store_outside (update heap a b) (suc a) bs x (omega arith) ∙ update_ne heap a b x (omega arith)

pub load-store_outside :
    (heap : ℕ → ℕ) (a : ℕ) (bs : List ℕ) (x n : ℕ)
    → (x + n ≤ a) ⊎ (a + length bs ≤ x)
    → load (store heap a bs) x n ≡ load heap x n
unfolding load
load-store_outside heap a bs x zero o = refl
load-store_outside heap a bs x (suc n) o =
    ap₂ ◌∷◌ (store_outside heap a bs x (omega arith))
      (load-store_outside heap a bs (suc x) n (omega arith))

-- What was stored is read back.
pub load-store : (heap : ℕ → ℕ) (a : ℕ) (bs : List ℕ) → load (store heap a bs) a (length bs) ≡ bs
unfolding load store
load-store heap a [] = refl
load-store heap a (b ∷ bs) =
    ap₂ ◌∷◌ (store_outside (update heap a b) (suc a) bs a (omega arith) ∙ update_self heap a b)
      (load-store (update heap a b) (suc a) bs)

-- The last byte of a store stands behind the others.
pub store_last :
    (heap : ℕ → ℕ) (a : ℕ) (bs : List ℕ) (b : ℕ) → store heap a (bs ++ (b ∷ [])) (a + length bs) ≡ b
unfolding store
store_last heap a [] b = ap (update heap a b) {x = a + 0} (omega arith) ∙ update_self heap a b
store_last heap a (c ∷ bs) b =
    ap (store (update heap a c) (suc a) (bs ++ (b ∷ []))) {x = a + suc (length bs)} (omega arith)
    ∙ store_last (update heap a c) (suc a) bs b

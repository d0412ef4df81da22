-- ===== src/Filesystem/FlatEcho.antt =====
-- What the byte-by-byte reference of Filesystem/Flat writes, and that it reads the same back.
use native.Mathlib.Nat.{div-add-mod', mod-lt}
use tp_so_tuki.Common.{
  ℕ, zero, suc, ◌+◌, ◌*◌, ◌/◌, ◌%◌, ◌≤◌, ◌<◌, ◌≡◌, ◌≢◌, refl, sym, ap, subst, ◌∙◌, true, false,
  List, [], ◌∷◌, ◌++◌, map, append-nil, append_assoc, length, length-append, get_elem?, Option,
  some, leb, >>=-eq-some, some-injective, ℤ, arith,
}
use tp_so_tuki.Memory.State.{update}
use tp_so_tuki.Memory.Blocks.{update_self, update_ne}
use tp_so_tuki.Filesystem.Transfer.{Transfer, shown, block_at, transfer_byte}
use tp_so_tuki.Filesystem.Flat.{in_block, byte_address, flat_transfer}

pub split_address :
    (b c o p : ℕ) {n : ℕ} → o < n → p < n → b * n + o ≡ c * n + p → (b ≡ c) × (o ≡ p)
split_address b c o p {n} h k e =
    let (q, m) = in_block n b (b * n + o) o h refl in
    let (q', m') = in_block n c (b * n + o) p k e in (sym q ∙ q', sym m ∙ m')

get_elem?-middle :
    (pre : List ℕ) (b : ℕ) (rest : List ℕ) (r : ℕ)
    → length pre ≡ r
    → get_elem? (pre ++ b ∷ rest) r ≡ some b
get_elem?-middle [] b rest zero e = refl
get_elem?-middle [] b rest (suc r) e = absurd (omega arith)
get_elem?-middle (c ∷ pre) b rest zero e = absurd (omega arith)
get_elem?-middle (c ∷ pre) b rest (suc r) e = get_elem?-middle pre b rest r (omega arith)

write_byte :
    (size : ℕ) (text : List ℕ) (t : Transfer) (a r b : ℕ)
    → get_elem? (text ++ (0 ∷ [])) r ≡ some b
    → transfer_byte false size text t a r ≡ some (record t { block_file = update t.block_file a b })
unfolding transfer_byte
write_byte size text t a r b e = rw e refl

read_byte :
    (size : ℕ) (text : List ℕ) (t : Transfer) (a r b : ℕ)
    → r ≤ size
    → t.block_file a ≡ b
    → transfer_byte true size text t a r
      ≡ some (record t { str_read = t.str_read ++ (shown b ∷ []) })
unfolding transfer_byte
read_byte size text t a r b h e = rw (short r size h, e) refl
  where
    short : (x y : ℕ) → x ≤ y → leb x y ≡ true
    short x y k = ground arith

module _ (block_size block_count : ℕ) (pi_list : List ℤ) where
  -- No block stands twice in the list.
  abbrev pub Separate : Type 0
  Separate =
      (i j b : ℕ)
      → block_at block_count pi_list i ≡ some b
      → block_at block_count pi_list j ≡ some b
      → i ≡ j

  -- There are blocks for `n` bytes of the file from byte `k` on.
  abbrev pub Room : ℕ → ℕ → Type 0
  Room k zero = Unit
  Room k (suc n) =
      (a : ℕ) × (byte_address block_size block_count pi_list k ≡ some a) × Room (suc k) n

  -- These are the bytes of the file from byte `k` on.
  abbrev pub Holds : (ℕ → ℕ) → ℕ → List ℕ → Type 0
  Holds block_file k [] = Unit
  Holds block_file k (b ∷ bs) =
      (a : ℕ) × (byte_address block_size block_count pi_list k ≡ some a)
      × (block_file a ≡ b)
      × Holds block_file (suc k) bs

  -- The addresses of bytes `k` to before `limit` are not `x`.
  abbrev pub Elsewhere : ℕ → ℕ → ℕ → Type 0
  Elsewhere k limit x =
      (j : ℕ) → k ≤ j → j < limit → byte_address block_size block_count pi_list j ≢ some x

  pub byte_address_inv :
      (k a : ℕ)
      → byte_address block_size block_count pi_list k ≡ some a
      → (b : ℕ) × (block_at block_count pi_list (k / block_size) ≡ some b)
        × (a ≡ b * block_size + k % block_size)
  unfolding byte_address
  byte_address_inv k a e =
      let (b, f, g) = >>=-eq-some (block_at block_count pi_list (k / block_size)) _ e in
      (b, f, sym (some-injective g))

  module _ (positive : 0 < block_size) (separate : Separate) where
    -- Two bytes at one address are one.
    byte_address_injective :
        (k l a : ℕ)
        → byte_address block_size block_count pi_list k ≡ some a
        → byte_address block_size block_count pi_list l ≡ some a
        → k ≡ l
    byte_address_injective k l a e f =
        let (b, eb, ea) = byte_address_inv k a e in
        let (c, fb, fa) = byte_address_inv l a f in
        let (same, offset) =
          split_address b c (k % block_size) (l % block_size) (mod-lt k positive)
            (mod-lt l positive) (sym ea ∙ fa) in
        let blocks =
          separate (k / block_size) (l / block_size) c
            (subst (λ x. block_at block_count pi_list (k / block_size) ≡ some x) same eb) fb in
        omega (
          arith,
          div-add-mod' k block_size,
          div-add-mod' l block_size,
          offset,
          ap (λ t. t * block_size) blocks,
        )

    module _ (size : ℕ) (text : List ℕ) (position : ℕ) where
      abbrev pub Written : ℕ → List ℕ → Transfer → Option Transfer → Type 0
      Written r rest t result =
          (t' : Transfer) × (result ≡ some t')
          × (t'.str_read ≡ t.str_read)
          × Holds t'.block_file (position + r) rest
          × ((x : ℕ)
              → Elsewhere (position + r) (position + r + length rest) x
              → t'.block_file x ≡ t.block_file x)

      pub flat_write :
          (rest : List ℕ) (r : ℕ) (pre : List ℕ) (t : Transfer)
          → text ≡ pre ++ rest
          → length pre ≡ r
          → Room (position + r) (length rest)
          → Written r rest t (
              flat_transfer false size text block_size block_count pi_list position
                (length rest)
                t
                r)
      unfolding flat_transfer
      flat_write [] r pre t e l room = (t, refl, refl, tt, λ x o. refl)
      flat_write (b ∷ rest) r pre t e l (a, ea, room) =
          let (t', run, same, holds, frame) =
            flat_write rest (suc r) (pre ++ (b ∷ [])) next
              (e ∙ sym (append_assoc pre (b ∷ []) rest)) (omega (arith, length-append pre (b ∷ [])))
              (subst (λ k. Room k (length rest)) {x = suc (position + r)} {y = position + suc r}
                (omega arith) room) in
          (
            t',
            rw (ea, byte) run,
            same,
            (
              a,
              ea,
              frame a later ∙ update_self t.block_file a b,
              subst (λ k. Holds t'.block_file k rest) {x = position + suc r}
                  {y = suc (position + r)} (omega arith) holds,
            ),
            (λ x o.
                frame x (λ j h k. o j (omega arith) (omega arith))
                ∙ update_ne t.block_file a b x
                    (λ s. o (position + r) (omega arith) (omega arith) (ea ∙ ap some (sym s)))),
          )
        where
          next : Transfer
          next = record t { block_file = update t.block_file a b }

          byte : transfer_byte false size text t a r ≡ some next
          byte = write_byte size text t a r b (
              ap (λ s. get_elem? s r)
                (ap (λ s. s ++ (0 ∷ [])) e ∙ append_assoc pre (b ∷ rest) (0 ∷ []))
              ∙ get_elem?-middle pre b (rest ++ (0 ∷ [])) r l)

          later : Elsewhere (position + suc r) (position + suc r + length rest) a
          later j h k f = absurd (omega (arith, byte_address_injective j (position + r) a f ea))

  -- A read appends the bytes that the file holds.
  pub flat_read :
      (size : ℕ) (text : List ℕ) (position r : ℕ) (bytes : List ℕ) (t : Transfer)
      → Holds t.block_file (position + r) bytes
      → r + length bytes ≤ size
      → flat_transfer true size text block_size block_count pi_list position (length bytes) t r
        ≡ some (record t { str_read = t.str_read ++ map shown bytes })
  unfolding flat_transfer
  flat_read size text position r [] t h l =
      ap (λ s. some (record t { str_read = s })) (sym (append-nil t.str_read))
  flat_read size text position r (b ∷ bytes) t (a, ea, eb, h) l =
      rw (ea, read_byte size text t a r b (omega arith) eb)
        (flat_read size text position (suc r) bytes
            (record t { str_read = t.str_read ++ (shown b ∷ []) })
            (subst (λ k. Holds t.block_file k bytes) {x = suc (position + r)} {y = position + suc r}
              (omega arith) h)
            (omega arith)
          ∙ ap (λ s. some (record t { str_read = s }))
              (append_assoc t.str_read (shown b ∷ []) (map shown bytes)))

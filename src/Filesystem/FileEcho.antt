-- ===== src/Filesystem/FileEcho.antt =====
-- F_WRITE and then F_READ of one place of a file, in `iterate_block_file` of
-- filesystem/src/handler_instruction_filesystem.c.
use native.Mathlib.Nat.{mod-lt}
use tp_so_tuki.Common.{
  ℕ, zero, suc, ◌+◌, ◌-◌, ◌*◌, ◌/◌, ◌%◌, ◌≤◌, ◌<◌, ◌≡◌, ◌≢◌, refl, sym, ap, ap₂, subst, ◌∙◌, true,
  false, List, [], ◌∷◌, map, length, get_elem?, some, ◌==◌, if◌then◌else◌, leb, >>=-eq-some, ℤ,
  atoi, arith,
}
use tp_so_tuki.Package.Bytes.{le_value}
use tp_so_tuki.Serializer.{Instruction}
use tp_so_tuki.OpCode.{f_read}
use tp_so_tuki.Memory.Messages.{int_arg}
use tp_so_tuki.Filesystem.Blocks.{read_pointers, get_bf_ip}
use tp_so_tuki.Filesystem.Pointers.{load-equal}
use tp_so_tuki.Cpu.Execute.{to_int}
use tp_so_tuki.Filesystem.Disk.{Fcb, Disk, block_of}
use tp_so_tuki.Filesystem.Resize.{pointers}
use tp_so_tuki.Filesystem.Transfer.{
  Transfer, shown, block_at, transfer, file_pointers, iterate_block_file,
}
use tp_so_tuki.Filesystem.Flat.{byte_address, flat_transfer, with_size, transfer-flat_transfer}
use tp_so_tuki.Filesystem.FlatEcho.{
  Written, Separate, Room, Elsewhere, byte_address_inv, split_address, flat_write, flat_read,
}

pub read_pointers-equal :
    (n : ℕ) (f g : ℕ → ℕ) (a : ℕ)
    → ((x : ℕ) → a ≤ x → x < a + n * 4 → f x ≡ g x)
    → read_pointers n f a ≡ read_pointers n g a
unfolding read_pointers
read_pointers-equal zero f g a e = refl
read_pointers-equal (suc n) f g a e =
    ap₂ (λ (number : ℕ) rest. if number == 0 then rest else (number ∷ rest))
      (ap le_value (load-equal f g a 4 (λ x h k. e x h (omega arith))))
      (read_pointers-equal n f g (a + 4) (λ x h k. e x (omega arith) (omega arith)))

-- The place that an instruction names.
pub record Names (i : Instruction) (name : List ℕ) (position size : ℕ) : Type 0 where
  pub file : get_elem? i.args 0 ≡ some name
  pub place : int_arg i 1 ≡ some position
  pub bytes : int_arg i 2 ≡ some size

-- What the request does once the loops are done, for both directions.
module _ (d : Disk) (fcb : Fcb) (pi_list : List ℤ) (i : Instruction) (name text : List ℕ)
    (position size : ℕ) (t : Transfer) (names : Names i name position size)
    (known : d.files name ≡ some fcb) (listed : file_pointers d fcb ≡ some pi_list) where
  write_done :
      (i.op_code == f_read) ≡ false
      → get_elem? i.args 7 ≡ some text
      → transfer false size text d.block_size d.block_count pi_list position
          (record { block_file = d.block_file; str_read = [] })
        ≡ some (size, t)
      → iterate_block_file d i ≡ some (text, record d { block_file = t.block_file })
  unfolding iterate_block_file
  write_done w e run = rw (names.file, names.place, names.bytes, w, e, known, listed, run) refl

  read_done :
      (i.op_code == f_read) ≡ true
      → transfer true size [] d.block_size d.block_count pi_list position
          (record { block_file = d.block_file; str_read = [] })
        ≡ some (size, t)
      → iterate_block_file d i ≡ some (t.str_read, d)
  unfolding iterate_block_file
  read_done r run =
      rw (names.file, names.place, names.bytes, r, known, listed, run, whole size) refl
    where
      whole : (n : ℕ) → leb n n ≡ true
      whole n = ground arith

module _ (d : Disk) (fcb : Fcb) (pi_list : List ℤ) where
  -- The file's control block and its pointers. Its blocks are distinct, and none is the block that
  -- holds the pointers, which are whole words of it.
  pub record IsFile (name : List ℕ) : Type 0 where
    pub known : d.files name ≡ some fcb
    pub listed : file_pointers d fcb ≡ some pi_list
    pub separate : Separate d.block_size d.block_count pi_list
    pub apart :
        (i b : ℕ)
        → block_of d.block_count (atoi fcb.puntero_indirecto) ≡ some b
        → block_at d.block_count pi_list i ≢ some b
    pub positive : 0 < d.block_size
    pub words : d.block_size % 4 ≡ 0

  abbrev pub with_bytes : (ℕ → ℕ) → Disk
  with_bytes block_file = record d { block_file = block_file }

  -- The pointers stand where no byte of the file does.
  listed_after :
      (name : List ℕ) (block_file : ℕ → ℕ)
      → IsFile name
      → ((x : ℕ)
          → ((j : ℕ) → byte_address d.block_size d.block_count pi_list j ≢ some x)
          → block_file x ≡ d.block_file x)
      → file_pointers (with_bytes block_file) fcb ≡ file_pointers d fcb
  unfolding file_pointers pointers get_bf_ip
  listed_after name block_file file frame =
      rw eb (ap (λ l. some (atoi fcb.puntero_directo ∷ map to_int l)) kept)
    where
      found :
          (ps : List ℕ) × (pointers d (atoi fcb.puntero_indirecto) ≡ some ps)
          × (some (atoi fcb.puntero_directo ∷ map to_int ps) ≡ some pi_list)
      found = >>=-eq-some (pointers d (atoi fcb.puntero_indirecto)) _ file.listed

      block :
          (b : ℕ) × (block_of d.block_count (atoi fcb.puntero_indirecto) ≡ some b)
          × (some (get_bf_ip d.block_size d.block_file b) ≡ some found.0)
      block = >>=-eq-some (block_of d.block_count (atoi fcb.puntero_indirecto)) _ found.1

      b : ℕ
      b = block.0

      eb : block_of d.block_count (atoi fcb.puntero_indirecto) ≡ some b
      eb = block.1

      outside :
          (x : ℕ)
          → b * d.block_size ≤ x
          → x < b * d.block_size + d.block_size
          → (j : ℕ) → byte_address d.block_size d.block_count pi_list j ≢ some x
      outside x h k j f =
          let (c, ec, ex) = byte_address_inv d.block_size d.block_count pi_list j x f in
          let same =
            (split_address b c (x - b * d.block_size) (j % d.block_size) {n = d.block_size}
              (omega arith) (mod-lt j file.positive) (omega (arith, ex))).0 in
          file.apart (j / d.block_size) b eb (ec ∙ ap some (sym same))

      kept : get_bf_ip d.block_size block_file b ≡ get_bf_ip d.block_size d.block_file b
      kept =
          read_pointers-equal ((d.block_size + 3) / 4) block_file d.block_file (b * d.block_size)
            (λ x h k. frame x (outside x h (omega (arith, file.words))))

  -- Let the name be that of a file whose blocks are distinct, none of them the block that holds the
  -- pointers, with block sizes above zero and of whole words, and let it have blocks for all the bytes. Let
  -- the instructions name one place of at least one byte, and the text have as many bytes as they
  -- say. Then the write does not fault, a read of that place returns the text, with a space for each
  -- NUL, and only the bytes of that place have changed.
  pub iterate_block_file-echo :
      (write read : Instruction) (name text : List ℕ) (position size : ℕ)
      → (write.op_code == f_read) ≡ false
      → Names write name position size
      → get_elem? write.args 7 ≡ some text
      → (read.op_code == f_read) ≡ true
      → Names read name position size
      → IsFile name
      → Room d.block_size d.block_count pi_list position size
      → length text ≡ size
      → 0 < size
      → (block_file : ℕ → ℕ) × (iterate_block_file d write ≡ some (text, with_bytes block_file))
        × (iterate_block_file (with_bytes block_file) read
            ≡ some (map shown text, with_bytes block_file))
        × ((x : ℕ)
            → Elsewhere d.block_size d.block_count pi_list position (position + size) x
            → block_file x ≡ d.block_file x)
  unfolding with_size
  iterate_block_file-echo write read name text position size w wn wt r rn file room l s = (
    t'.block_file,
    write_done d fcb pi_list write name text position size t' wn file.known file.listed w wt (
        transfer-flat_transfer false size text d.block_size d.block_count pi_list position start
          file.positive s
        ∙ ap (with_size size) (
            ap
              (λ n.
                flat_transfer false size text d.block_size d.block_count pi_list position n start 0)
              (sym l)
            ∙ result.1)),
    read_done (with_bytes t'.block_file) fcb pi_list read name text position size
        (record { block_file = t'.block_file; str_read = map shown text }) rn file.known
        (listed_after name t'.block_file file (λ x o. frame x (λ j h k. o j)) ∙ file.listed) r
        (transfer-flat_transfer true size [] d.block_size d.block_count pi_list position again
            file.positive s
          ∙ ap (with_size size) (
              ap
                (λ n.
                  flat_transfer true size [] d.block_size d.block_count pi_list position n again 0)
                (sym l)
              ∙ flat_read d.block_size d.block_count pi_list size [] position 0 text again result.3
                  (omega arith))),
    frame,
  )
    where
      start : Transfer
      start = record { block_file = d.block_file; str_read = [] }

      result :
          Written d.block_size d.block_count pi_list file.positive file.separate size text position
            0 text start
            (flat_transfer false size text d.block_size d.block_count pi_list position
              (length text)
              start
              0)
      result =
          flat_write d.block_size d.block_count pi_list file.positive file.separate size text
            position text 0 [] start refl refl
            (subst (Room d.block_size d.block_count pi_list (position + 0)) (sym l) (
              subst (λ k. Room d.block_size d.block_count pi_list k size) {x = position}
                {y = position + 0} (omega arith) room))

      t' : Transfer
      t' = result.0

      again : Transfer
      again = record { block_file = t'.block_file; str_read = [] }

      frame :
          (x : ℕ)
          → Elsewhere d.block_size d.block_count pi_list position (position + size) x
          → t'.block_file x ≡ d.block_file x
      frame x o = result.4 x (λ j h k. o j (omega arith) (omega arith))

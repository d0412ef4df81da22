-- ===== src/Filesystem/Exchange.antt =====
-- F_WRITE and then F_READ, as `process_instruction` of
-- filesystem/src/handler_instruction_filesystem.c exchanges the bytes with the memory module.
use tp_so_tuki.Common.{
  ℕ, ◌+◌, ◌<◌, ◌^◌, ◌≡◌, refl, ap, ap₂, ◌∙◌, true, false, List, [], ◌∷◌, ◌++◌, map, length,
  get_elem?, Option, some, zero, suc, >>=-eq-some, ◌==◌, ℤ, arith,
}
use tp_so_tuki.Package.{Package}
use tp_so_tuki.Package.RoundTrip.{IsText}
use tp_so_tuki.Serializer.{Instruction, serialize_message}
use tp_so_tuki.Serializer.Messages.{deserialize_message-serialize_message}
use tp_so_tuki.OpCode.{codes, f_read, f_write}
use tp_so_tuki.OpCode.MemoryOp.{mem_read_address, mem_write_address}
use tp_so_tuki.Memory.Messages.{int_arg}
use tp_so_tuki.Filesystem.Disk.{Fcb, Disk}
use tp_so_tuki.Filesystem.Transfer.{shown, iterate_block_file}
use tp_so_tuki.Filesystem.FlatEcho.{Room, Elsewhere}
use tp_so_tuki.Filesystem.FileEcho.{Names, IsFile, with_bytes, iterate_block_file-echo}
use tp_so_tuki.Filesystem.Dispatch.{
  stored_in_memory, process_read, write_received, process_write, process_instruction,
}

get-left :
    (xs ys : List (List ℕ)) (n : ℕ) (x : List ℕ)
    → get_elem? xs n ≡ some x
    → get_elem? (xs ++ ys) n ≡ some x
get-left [] ys n x e = absurd (ground (arith, e))
get-left (y ∷ xs) ys zero x e = e
get-left (y ∷ xs) ys (suc n) x e = get-left xs ys n x e

get-last :
    (xs : List (List ℕ)) (x : List ℕ) (n : ℕ)
    → length xs ≡ n
    → get_elem? (xs ++ (x ∷ [])) n ≡ some x
get-last [] x zero e = refl
get-last [] x (suc n) e = absurd (omega arith)
get-last (y ∷ xs) x zero e = absurd (omega arith)
get-last (y ∷ xs) x (suc n) e = get-last xs x n (omega arith)

int_arg-left :
    (i : Instruction) (ys : List (List ℕ)) (n v : ℕ)
    → int_arg i n ≡ some v
    → int_arg (record i { args = i.args ++ ys }) n ≡ some v
unfolding int_arg
int_arg-left i ys n v e =
    let (text, found, value) = >>=-eq-some (get_elem? i.args n) _ e in
    rw (get-left i.args ys n text found) value

-- A text has no NUL to show as a space.
map-shown : (text : List ℕ) → IsText text → map shown text ≡ text
unfolding shown
map-shown [] t = refl
map-shown (b ∷ text) t = ap₂ ◌∷◌ (ground (arith, t.0)) (map-shown text t.1)

-- A request of the kernel on a file: its seven arguments.
pub record Request (i : Instruction) (op_code : ℕ) (name size_text pid s_id offset : List ℕ)
    (position size : ℕ) : Type 0 where
  pub asks : i.op_code ≡ op_code
  pub names : Names i name position size
  pub size_arg : get_elem? i.args 2 ≡ some size_text
  pub pid_arg : get_elem? i.args 3 ≡ some pid
  pub segment_arg : get_elem? i.args 4 ≡ some s_id
  pub offset_arg : get_elem? i.args 5 ≡ some offset
  pub count : length i.args ≡ 7

module _ {W : Type 0} (ask : W → Instruction → Option Package × W) (string_itoa : ℤ → List ℕ)
    (d : Disk) (fcb : Fcb) (pi_list : List ℤ) (name text : List ℕ) (position size : ℕ) where
  abbrev pub read_request : List ℕ → List ℕ → List ℕ → List ℕ → Instruction
  read_request s_id offset size_text pid = record {
    op_code = mem_read_address;
    args = s_id ∷ offset ∷ size_text ∷ pid ∷ codes "FS" ∷ [];
  }

  abbrev pub write_request : List ℕ → List ℕ → List ℕ → Instruction
  write_request s_id offset pid = record {
    op_code = mem_write_address;
    args = s_id ∷ offset ∷ text ∷ pid ∷ codes "FS" ∷ [];
  }

  -- What the write request does, given what it writes.
  write_step :
      (i : Instruction) (size_text pid s_id offset : List ℕ) (w w' : W) (d' : Disk)
      → Request i f_write name size_text pid s_id offset position size
      → ask w (read_request s_id offset size_text pid) ≡ (some (serialize_message text false), w')
      → IsText text
      → length text < 2 ^ 32
      → iterate_block_file d (record i { args = i.args ++ (text ∷ []) }) ≡ some (text, d')
      → process_instruction (some ask) string_itoa d w i ≡ some (true, d', w')
  unfolding process_instruction process_write write_received
  write_step i size_text pid s_id offset w w' d' r answer t short run =
      rw
        (
          not_read,
          is_write,
          r.segment_arg,
          r.offset_arg,
          r.size_arg,
          r.pid_arg,
          answer,
          deserialize_message-serialize_message text false t short,
          run,
        )
        refl
    where
      not_read : (i.op_code == f_read) ≡ false
      not_read = ap (λ c. c == f_read) r.asks

      is_write : (i.op_code == f_write) ≡ true
      is_write = ap (λ c. c == f_write) r.asks

  read_step :
      (i : Instruction) (size_text pid s_id offset : List ℕ) (w : W) (d' : Disk)
      → Request i f_read name size_text pid s_id offset position size
      → iterate_block_file d' i ≡ some (text, d')
      → process_instruction (some ask) string_itoa d' w i
        ≡ some (
          stored_in_memory (ask w (write_request s_id offset pid)).0,
          d',
          (ask w (write_request s_id offset pid)).1,
        )
  unfolding process_instruction process_read
  read_step i size_text pid s_id offset w d' r run =
      rw (is_read, run, r.segment_arg, r.offset_arg, r.pid_arg) refl
    where
      is_read : (i.op_code == f_read) ≡ true
      is_read = ap (λ c. c == f_read) r.asks

  -- Let the name be that of a file whose blocks are distinct, none of them the block that holds the
  -- pointers, with block sizes above zero and of whole words, and let it have blocks for all the bytes, of
  -- which there is at least one and are fewer than 2 ^ 32. If the memory, whatever it is, answers
  -- F_WRITE by a text without NUL of as many bytes as it asks for, F_WRITE succeeds. An F_READ
  -- of the same place then sends exactly that text to the segment that it names, and succeeds just
  -- if the memory accepts it. Only the bytes of that place of the file have changed.
  pub process_instruction-exchange :
      (write read : Instruction)
      (write_size write_pid from_id from_offset read_size read_pid to_id to_offset : List ℕ)
      (w w' : W)
      → Request write f_write name write_size write_pid from_id from_offset position size
      → Request read f_read name read_size read_pid to_id to_offset position size
      → ask w (read_request from_id from_offset write_size write_pid)
        ≡ (some (serialize_message text false), w')
      → IsFile d fcb pi_list name
      → Room d.block_size d.block_count pi_list position size
      → IsText text
      → length text ≡ size
      → 0 < size
      → size < 2 ^ 32
      → (d' : Disk) × (process_instruction (some ask) string_itoa d w write ≡ some (true, d', w'))
        × (process_instruction (some ask) string_itoa d' w' read
            ≡ some (
              stored_in_memory (ask w' (write_request to_id to_offset read_pid)).0,
              d',
              (ask w' (write_request to_id to_offset read_pid)).1,
            ))
        × ((x : ℕ)
            → Elsewhere d.block_size d.block_count pi_list position (position + size) x
            → d'.block_file x ≡ d.block_file x)
  process_instruction-exchange write read write_size write_pid from_id from_offset read_size
        read_pid to_id to_offset w w' wr rr answer file room t l s short =
      let (block_file, written, received, frame) =
        iterate_block_file-echo d fcb pi_list (record write { args = write.args ++ (text ∷ []) })
          read name text position size (ap (λ c. c == f_read) wr.asks) longer
          (get-last write.args text 7 wr.count) (ap (λ c. c == f_read) rr.asks) rr.names file room l
          s in
      (
        with_bytes d fcb pi_list block_file,
        write_step write write_size write_pid from_id from_offset w w' _ wr answer t
            (omega (arith, l, short)) written,
        read_step read read_size read_pid to_id to_offset w' _ rr
            (received ∙ ap (λ s. some (s, with_bytes d fcb pi_list block_file)) (map-shown text t)),
        frame,
      )
    where
      longer : Names (record write { args = write.args ++ (text ∷ []) }) name position size
      longer = record {
        file = get-left write.args (text ∷ []) 0 name wr.names.file;
        place = int_arg-left write (text ∷ []) 1 position wr.names.place;
        bytes = int_arg-left write (text ∷ []) 2 size wr.names.bytes;
      }

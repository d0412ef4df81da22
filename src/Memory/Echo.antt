-- ===== src/Memory/Echo.antt =====
-- Two messages to memoria/src/handlers.c: a text that one writes, the next one reads.
use tp_so_tuki.Common.{
  ℕ, ◌+◌, ◌-◌, ◌≤◌, ◌<◌, ◌^◌, ◌≡◌, refl, sym, ap, ◌∙◌, Bool, true, false, List, [], ◌∷◌, ◌++◌,
  append_assoc, length, length-append, get_elem?, some, ltb, ℤ, pos, atoi, arith,
}
use tp_so_tuki.Package.{package_new, c_str}
use tp_so_tuki.Package.RoundTrip.{IsText, c_str-text}
use tp_so_tuki.Serializer.{Instruction, serialize_message, deserialize_message}
use tp_so_tuki.OpCode.MemoryOp.{mem_read_address, mem_write_address, ok_instruction}
use tp_so_tuki.Memory.State.{Memory}
use tp_so_tuki.Memory.Fit.{Algorithm}
use tp_so_tuki.Memory.Heap.{load, store, load-add, load-store}
use tp_so_tuki.Memory.Access.{get_segment_by_id, read_memory, write_memory}
use tp_so_tuki.Serializer.Messages.{deserialize_message-serialize_message}
use tp_so_tuki.Memory.ReadWrite.{read_memory_lem, write_memory_lem}
use tp_so_tuki.Memory.Messages.{
  natural, int_arg, handle_read, handle_write, answered, handle_modules,
}

-- The bytes behind a text and its NUL do not matter to a C string.
c_str-load :
    (heap : ℕ → ℕ) (a n : ℕ) (text : List ℕ)
    → IsText text
    → length text < n
    → c_str (load (store heap a (text ++ (0 ∷ []))) a n ++ (0 ∷ [])) ≡ text
c_str-load heap a n text t h =
    ap (λ bytes. c_str (bytes ++ (0 ∷ []))) (sym split)
    ∙ ap c_str (
        append_assoc (text ++ (0 ∷ [])) behind (0 ∷ [])
        ∙ append_assoc text (0 ∷ []) (behind ++ (0 ∷ [])))
    ∙ c_str-text text (behind ++ (0 ∷ [])) t
  where
    heap' : ℕ → ℕ
    heap' = store heap a (text ++ (0 ∷ []))

    k : ℕ
    k = length (text ++ (0 ∷ []))

    behind : List ℕ
    behind = load heap' (a + k) (n - k)

    split : (text ++ (0 ∷ [])) ++ behind ≡ load heap' a n
    split =
        ap (λ bytes. bytes ++ behind) (sym (load-store heap a (text ++ (0 ∷ []))))
        ∙ load-add heap' a k (n - k)
        ∙ ap (load heap' a) {x = k + (n - k)} (omega (arith, length-append text (0 ∷ [])))

pub int_arg-atoi :
    (i : Instruction) (n k : ℕ) (text : List ℕ)
    → get_elem? i.args n ≡ some text
    → atoi text ≡ pos k
    → int_arg i n ≡ some k
unfolding int_arg natural
int_arg-atoi i n k text e f = rw (e, f, int_arg) refl

-- A message to the memory that names segment, offset and process.
pub record Names (i : Instruction) (op s_id offset pid : ℕ) : Type 0 where
  pub asks : i.op_code ≡ op
  pub segment_read : int_arg i 0 ≡ some s_id
  pub offset_read : int_arg i 1 ≡ some offset
  pub process_read : int_arg i 3 ≡ some pid

module _ (string_itoa : ℤ → List ℕ) (list_sort : (ℕ → ℕ → Bool) → List ℕ → List ℕ)
    (algorithm : Algorithm) where
  handles_write :
      (m : Memory) (i : Instruction)
      → i.op_code ≡ mem_write_address
      → handle_modules string_itoa list_sort algorithm m i ≡ answered (handle_write m i)
  unfolding handle_modules
  handles_write m i e = rw e refl

  handles_read :
      (m : Memory) (i : Instruction)
      → i.op_code ≡ mem_read_address
      → handle_modules string_itoa list_sort algorithm m i ≡ answered (handle_read m i)
  unfolding handle_modules
  handles_read m i e = rw e refl

  -- Let a process have the segment, and let a text without NUL be shorter than the read, which ends
  -- within the segment. The message that writes the text is answered with success, and the message that
  -- reads then at the same place is answered with a package that holds the text, whatever bytes follow.
  pub handle_modules-echo :
      (m : Memory) (w r : Instruction) (s_id offset size pid p : ℕ) (text : List ℕ)
      → Names w mem_write_address s_id offset pid
      → get_elem? w.args 2 ≡ some text
      → Names r mem_read_address s_id offset pid
      → int_arg r 2 ≡ some size
      → get_segment_by_id m s_id pid ≡ some (some p)
      → IsText text
      → length text < 2 ^ 32
      → length text < size
      → offset + size ≤ (m.cells p).offset
      → (m' : Memory) × (handle_modules string_itoa list_sort algorithm m w
          ≡ some (some (package_new ok_instruction), m'))
        × (handle_modules string_itoa list_sort algorithm m' r
            ≡ some (some (serialize_message text false), m'))
        × (deserialize_message (serialize_message text false) ≡ some text)
  unfolding handle_write handle_read answered get_segment_by_id
  handle_modules-echo m w r s_id offset size pid p text wn wt rn rs found t small shorter fits = (
    m',
    handles_write m w wn.asks
        ∙ rw (wn.segment_read, wn.offset_read, wt, wn.process_read, written_text) refl,
    handles_read m' r rn.asks
        ∙ rw
            (
              rn.segment_read,
              rn.offset_read,
              rs,
              rn.process_read,
              read_text,
              c_str-load m.heap ((m.cells p).base + offset) size text t shorter,
            )
            refl,
    deserialize_message-serialize_message text false t small,
  )
    where
      m' : Memory
      m' = record m { heap = store m.heap ((m.cells p).base + offset) (text ++ (0 ∷ [])) }

      write_inside : ltb (m.cells p).offset (offset + length text) ≡ false
      write_inside = ground arith

      read_inside : ltb (m.cells p).offset (offset + size) ≡ false
      read_inside = ground arith

      written_text : write_memory m s_id offset (length text) text pid ≡ some (true, m')
      written_text =
          write_memory_lem m s_id offset (length text) pid p found text ∙ rw write_inside refl

      read_text :
          read_memory m' s_id offset size pid
          ≡ some (some (load m'.heap ((m.cells p).base + offset) size))
      read_text =
          read_memory_lem m' s_id offset size pid p found (omega arith) ∙ rw read_inside refl

-- ===== src/Cpu/Echo.antt =====
-- The CPU of cpu/src/handler_cpu.c on top of the memory module of memoria/src/handlers.c: MOV_OUT and
-- then MOV_IN.
use tp_so_tuki.Common.{
  ℕ, ◌+◌, ◌≤◌, ◌<◌, ◌^◌, ◌≡◌, refl, ◌∙◌, Bool, true, false, List, [], ◌∷◌, length, get_elem?,
  Option, none, some, ltb, ℤ, pos, atoi, arith,
}
use tp_so_tuki.Package.{Package, package_new, package_add, package_write}
use tp_so_tuki.Package.RoundTrip.{IsText}
use tp_so_tuki.Serializer.{Instruction, serialize_message, deserialize_message}
use tp_so_tuki.OpCode.{codes, mov_in, mov_out}
use tp_so_tuki.OpCode.MemoryOp.{mem_read_address, mem_write_address, ok_instruction}
use tp_so_tuki.Memory.State.{Memory}
use tp_so_tuki.Memory.Fit.{Algorithm}
use tp_so_tuki.Memory.Access.{get_segment_by_id}
use tp_so_tuki.Memory.Messages.{handle_modules}
use tp_so_tuki.Memory.Echo.{Names, int_arg-atoi, handle_modules-echo}
use tp_so_tuki.Cpu.RegisterFile.{
  Register, register_pointer, size_of_register_pointer, set_register, register_text, register_size,
}
use tp_so_tuki.Cpu.RegisterLaws.{set_register_lem}
use tp_so_tuki.Cpu.Mmu.{PhysicalAddress}
use tp_so_tuki.Cpu.Execute.{
  ExecutionContext, to_int, execute, execute_mov_in, execute_mov_out, read_answer, write_answer,
}

module _ (string_itoa : ℤ → List ℕ) (list_sort : (ℕ → ℕ → Bool) → List ℕ → List ℕ)
    (algorithm : Algorithm) where
  -- The memory module at the other end of the socket; after a fault it answers no more.
  unfoldable pub ask_memory : Memory → Instruction → Option Package × Memory
  ask_memory m i = elim (handle_modules string_itoa list_sort algorithm m i) [
    | none ↦ (none, m)
    | some r ↦ r
  ]

  ask_memory-answer :
      (m : Memory) (i : Instruction) (r : Option Package × Memory)
      → handle_modules string_itoa list_sort algorithm m i ≡ some r
      → ask_memory m i ≡ r
  unfolding ask_memory
  ask_memory-answer m i r e = rw (e, ask_memory) refl

  -- `atoi` reads what `string_itoa` prints.
  abbrev pub Printed : ℕ → Type 0
  Printed n = atoi (string_itoa (pos n)) ≡ pos n

  module _ (ec : ExecutionContext) (s_id offset size pid address : ℕ) where
    abbrev pub place : PhysicalAddress
    place = record { segment = pos s_id; offset = pos offset; address = address }

    abbrev write_message : List ℕ → Instruction
    write_message text = record {
      op_code = mem_write_address;
      args =
          string_itoa (pos s_id)
          ∷ string_itoa (pos offset)
          ∷ text
          ∷ string_itoa (to_int ec.pid)
          ∷ codes "CPU"
          ∷ string_itoa (to_int address)
          ∷ [];
    }

    abbrev read_message : Instruction
    read_message = record {
      op_code = mem_read_address;
      args =
          string_itoa (pos s_id)
          ∷ string_itoa (pos offset)
          ∷ string_itoa (pos size)
          ∷ string_itoa (to_int ec.pid)
          ∷ codes "CPU"
          ∷ string_itoa (to_int address)
          ∷ [];
    }

    module _ (id_printed : Printed s_id) (offset_printed : Printed offset)
        (size_printed : Printed size) (pid_printed : Printed pid)
        (process : to_int ec.pid ≡ pos pid) where
      process_arg : atoi (string_itoa (to_int ec.pid)) ≡ pos pid
      process_arg = rw process pid_printed

      write_Names : (text : List ℕ) → Names (write_message text) mem_write_address s_id offset pid
      write_Names text = record {
        asks = refl;
        segment_read = int_arg-atoi (write_message text) 0 s_id _ refl id_printed;
        offset_read = int_arg-atoi (write_message text) 1 offset _ refl offset_printed;
        process_read = int_arg-atoi (write_message text) 3 pid _ refl process_arg;
      }

      read_Names : Names read_message mem_read_address s_id offset pid
      read_Names = record {
        asks = refl;
        segment_read = int_arg-atoi read_message 0 s_id _ refl id_printed;
        offset_read = int_arg-atoi read_message 1 offset _ refl offset_printed;
        process_read = int_arg-atoi read_message 3 pid _ refl process_arg;
      }

      -- What the two instructions do with the answers of the memory.
      execute_out :
          (m m' : Memory) (out : Instruction) (from_name text : List ℕ) (from : Register)
          → out.op_code ≡ mov_out
          → get_elem? out.args 1 ≡ some from_name
          → register_pointer from_name ≡ some from
          → register_text ec.cpu_register from ≡ some text
          → ask_memory m (write_message text) ≡ (some (package_new ok_instruction), m')
          → execute string_itoa ask_memory out ec (some place) m ≡ some (ec, m')
      unfolding execute execute_mov_out write_answer package_new
      execute_out m m' out from_name text from eo ea ep et answer =
          rw (eo, execute, ea, ep, et, answer) refl

      execute_into :
          (m : Memory) (into : Instruction) (to_name text : List ℕ)
          → into.op_code ≡ mov_in
          → get_elem? into.args 0 ≡ some to_name
          → size_of_register_pointer to_name ≡ pos size
          → ask_memory m read_message ≡ (some (serialize_message text false), m)
          → deserialize_message (serialize_message text false) ≡ some text
          → execute string_itoa ask_memory into ec (some place) m
            ≡ some (record ec { cpu_register = set_register to_name text ec.cpu_register }, m)
      unfolding execute execute_mov_in read_answer serialize_message package_new package_write
          package_add
      execute_into m into to_name text ei eb es answer received =
          rw (ei, execute, eb, es, answer, received) refl

      -- Let the process have the segment in the memory, let the numbers of the messages be printed
      -- so that `atoi` reads them, and let a register hold a text without NUL that is shorter than
      -- another register, for whose bytes there is room in the segment. MOV_OUT of the first
      -- register and then MOV_IN of the second one at the same place do not fault and make no
      -- request, and the second register then reads as the text.
      pub mov_out-mov_in :
          (m : Memory) (out into : Instruction) (from_name to_name text : List ℕ)
          (from to : Register) (c : ℕ)
          → out.op_code ≡ mov_out
          → get_elem? out.args 1 ≡ some from_name
          → register_pointer from_name ≡ some from
          → register_text ec.cpu_register from ≡ some text
          → into.op_code ≡ mov_in
          → get_elem? into.args 0 ≡ some to_name
          → register_pointer to_name ≡ some to
          → size_of_register_pointer to_name ≡ pos size
          → get_segment_by_id m s_id pid ≡ some (some c)
          → IsText text
          → length text < size
          → size < 2 ^ 31
          → offset + size ≤ (m.cells c).offset
          → (m' : Memory) × (ec' : ExecutionContext) × (execute string_itoa ask_memory out ec
                (some place)
                m
              ≡ some (ec, m'))
            × (execute string_itoa ask_memory into ec (some place) m' ≡ some (ec', m'))
            × (ec'.kernel_request ≡ ec.kernel_request)
            × (register_text ec'.cpu_register to ≡ some text)
      unfolding register_size
      mov_out-mov_in m out into from_name to_name text from to c eo ea ep et ei eb eq es found t
            shorter small fits =
          let (m', written, read, received) =
            handle_modules-echo string_itoa list_sort algorithm m (write_message text) read_message
              s_id offset size pid c text (write_Names text) refl read_Names
              (int_arg-atoi read_message 2 size _ refl size_printed) found t (omega arith) shorter
              fits in
          (
            m',
            record ec { cpu_register = set_register to_name text ec.cpu_register },
            execute_out m m' out from_name text from eo ea ep et
                (ask_memory-answer m (write_message text) _ written),
            execute_into m' into to_name text ei eb es (ask_memory-answer m' read_message _ read)
                received,
            refl,
            stored,
          )
        where
          short : (n : ℕ) → length text < n → ltb (length text) n ≡ true
          short n h = ground arith

          width : register_size to_name ≡ size
          width = rw (es, register_size) refl

          stored : register_text (set_register to_name text ec.cpu_register) to ≡ some text
          stored =
              set_register_lem to_name text to ec.cpu_register eq t (omega (arith, width, shorter))
              ∙ rw (short (register_size to_name) (omega (arith, width, shorter))) refl

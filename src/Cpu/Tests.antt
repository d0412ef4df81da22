-- ===== src/Cpu/Tests.antt =====
-- A CPU with segments of up to 128 bytes, and a memory that answers every message with text.
use tp_so_tuki.Common.{
  Bool, ◌++◌, negsuc, digits, signed, atoi, ℕ, zero, suc, ◌+◌, ◌-◌, ◌*◌, ◌^◌, ◌≡◌, refl, inl, inr,
  List, [], ◌∷◌, Option, none, some, ℤ, pos, negsuc, arith,
}
use tp_so_tuki.Package.{Package}
use tp_so_tuki.Serializer.{Instruction, Registers}
use tp_so_tuki.OpCode.{codes, str_eq}
use tp_so_tuki.Memory.State.{Segment, Memory, table_get}
use tp_so_tuki.Memory.Fit.{first}
use tp_so_tuki.Memory.Access.{get_segment_by_id, find_segment}
use tp_so_tuki.Cpu.Echo.{ask_memory, mov_out-mov_in}
use tp_so_tuki.Cpu.RegisterFile.{
  bx, ax, register_pointer, size_of_register_pointer, set_register, flat, index, until_nul,
  register_text,
}
use tp_so_tuki.Cpu.Mmu.{list_get_by_sid, has_sid, mmu}
use tp_so_tuki.Cpu.Translation.{mmu_lem, mmu_negative}
use tp_so_tuki.Cpu.Execute.{ExecutionContext, to_int, execute, execute_set}
use tp_so_tuki.Cpu.Cycle.{run_burst}
use tp_so_tuki.Cpu.Termination.{Kept, Ended, execute-Kept, run_burst-Ended}

abbrev segment_zero : Segment
segment_zero = record { base = 1000; offset = 16; s_id = 0 }

abbrev segment_two : Segment
segment_two = record { base = 1100; offset = 64; s_id = 2 }

mmu_lem_example :
    mmu 128 (pos (2 * 128 + 8)) (pos 4) (segment_zero ∷ segment_two ∷ [])
    ≡ some (some (record { segment = pos 2; offset = pos 8; address = 108 }))
mmu_lem_example =
    mmu_lem 128 (segment_zero ∷ segment_two ∷ []) segment_two segment_zero 8 4
      ((λ i. ground arith), ((λ i. i), tt)) (inr (inl refl)) (inl refl) refl (omega arith)
      (omega arith) (omega arith)

mmu_negative_example :
    mmu 128 (negsuc 2) (pos 4) (segment_zero ∷ segment_two ∷ [])
    ≡ some (some (record { segment = pos 0; offset = negsuc 2; address = 2 ^ 64 - 3 }))
unfolding list_get_by_sid has_sid
mmu_negative_example =
    mmu_negative 128 (segment_zero ∷ segment_two ∷ []) segment_zero 2 4 refl (omega arith)
      (omega arith) (omega arith) (omega arith) (omega arith)

abbrev nuls : ℕ → List ℕ
nuls zero = []
nuls (suc n) = 0 ∷ nuls n

abbrev blank : Registers
blank = record {
  ax = nuls 4;
  bx = codes "HOLA";
  cx = nuls 4;
  dx = nuls 4;
  eax = nuls 8;
  ebx = nuls 8;
  ecx = nuls 8;
  edx = nuls 8;
  rax = nuls 16;
  rbx = nuls 16;
  rcx = nuls 16;
  rdx = nuls 16;
}

abbrev digit : ℤ → List ℕ
digit (pos n) = (48 + n) ∷ []
digit (negsuc n) = 45 ∷ (49 + n) ∷ []

abbrev silent : ℕ → Instruction → Option Package × ℕ
silent w i = (none, suc w)

abbrev program : List Instruction
program =
    record { op_code = 2; args = codes "AX" ∷ codes "HOLA" ∷ [] }
    ∷ record { op_code = 15; args = [] }
    ∷ []

abbrev context : ExecutionContext
context = record {
  pid = 5;
  program_counter = 0;
  last_burst_time = 0;
  instructions = program;
  segments_table = segment_zero ∷ segment_two ∷ [];
  cpu_register = blank;
  kernel_request = none;
}

execute-Kept_example :
    Kept context (record context { cpu_register = set_register (codes "AX") (codes "HOLA") blank })
unfolding execute execute_set
execute-Kept_example =
    execute-Kept digit silent (record { op_code = 2; args = codes "AX" ∷ codes "HOLA" ∷ [] })
      context none 0
      (record context { cpu_register = set_register (codes "AX") (codes "HOLA") blank }, 0) refl

run_burst-Ended_example : Ended program (run_burst 128 digit silent 3 context 0)
run_burst-Ended_example = run_burst-Ended 128 digit silent 3 context 0 (omega arith) (omega arith)

-- A memory in which process 5 has segment 1, of twenty bytes.
abbrev small_memory : Memory
small_memory = record {
  cells = λ p. record { base = 16; offset = 20; s_id = 1 };
  fresh = 1;
  segment_zero = 0;
  tables = (5, 0 ∷ []) ∷ [];
  hole_list = [];
  ram = 0 ∷ [];
  heap = λ a. 0;
  remaining_memory = 0;
}

abbrev keep_order : (ℕ → ℕ → Bool) → List ℕ → List ℕ
keep_order le xs = xs

abbrev greeting : ExecutionContext
greeting = record context { cpu_register = record blank { ax = codes "HI" ++ (0 ∷ 0 ∷ []) } }

abbrev mov_out_ax : Instruction
mov_out_ax = record { op_code = 4; args = codes "4" ∷ codes "AX" ∷ [] }

abbrev mov_in_bx : Instruction
mov_in_bx = record { op_code = 3; args = codes "BX" ∷ codes "4" ∷ [] }

mov_out-mov_in_example :
    (m' : Memory) × (ec' : ExecutionContext) × (execute digit
        (ask_memory digit keep_order first)
        mov_out_ax
        greeting
        (some (record { segment = pos 1; offset = pos 4; address = 0 }))
        small_memory
      ≡ some (greeting, m'))
    × (execute digit
          (ask_memory digit keep_order first)
          mov_in_bx
          greeting
          (some (record { segment = pos 1; offset = pos 4; address = 0 }))
          m'
        ≡ some (ec', m'))
    × (ec'.kernel_request ≡ none)
    × (register_text ec'.cpu_register bx ≡ some (codes "HI"))
unfolding atoi signed digits to_int register_pointer str_eq register_text flat index until_nul
    size_of_register_pointer get_segment_by_id find_segment table_get
mov_out-mov_in_example =
    mov_out-mov_in digit keep_order first greeting 1 4 4 5 0 refl refl refl refl refl small_memory
      mov_out_ax mov_in_bx (codes "AX") (codes "BX") (codes "HI") ax bx 0 refl refl refl refl refl
      refl refl refl refl ((λ e. ground (arith, e)), ((λ e. ground (arith, e)), tt)) (omega arith)
      (omega arith) (omega arith)

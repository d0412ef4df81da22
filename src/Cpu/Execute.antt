-- ===== src/Cpu/Execute.antt =====
-- `fetch`, `decode` and `execute` of cpu/src/handler_cpu.c. The logs and the delay of SET are left
-- out. `string_itoa` is the commons library's; `ask` stands for a message to the memory module and its
-- answer, over the state `W` of whatever is outside, and answers `none` if a socket fails.
use tp_so_tuki.Common.{
  ℕ, ◌-◌, ◌%◌, ◌^◌, Bool, List, [], ◌∷◌, ◌++◌, Option, none, some, length, get_elem?, leb, ltb,
  if◌then◌else◌, ◌>>=◌, ◌==◌, ◌||◌, ℤ, pos, negsuc, atoi,
}
use tp_so_tuki.Package.{Package, message_ok}
use tp_so_tuki.Serializer.{Instruction, Registers, instruction_duplicate, deserialize_message}
use tp_so_tuki.Memory.State.{Segment}
use tp_so_tuki.OpCode.{
  codes, f_read, f_write, set, mov_in, mov_out, f_truncate, f_seek, create_segment, i_o, wait,
  signal, f_open, f_close, delete_segment, exit, yield,
}
use tp_so_tuki.OpCode.MemoryOp.{mem_read_address, mem_write_address, seg_fault}
use tp_so_tuki.Cpu.RegisterFile.{
  register_pointer, size_of_register_pointer, set_register, register_text,
}
use tp_so_tuki.Cpu.Mmu.{PhysicalAddress, mmu}

-- `t_execution_context`: what a process is, on its way between kernel and CPU.
pub record ExecutionContext : Type 0 where
  pub pid : ℕ
  pub program_counter : ℕ
  pub last_burst_time : ℕ
  pub instructions : List Instruction
  pub segments_table : List Segment
  pub cpu_register : Registers
  pub kernel_request : Option Instruction

-- A bit pattern taken as an `int`.
unfoldable pub to_int : ℕ → ℤ
to_int n = let low = n % 2 ^ 32 in if ltb low (2 ^ 31) then pos low else negsuc (2 ^ 32 - low - 1)

unfoldable pub fetch : ExecutionContext → Option Instruction
fetch ec =
    if leb (length ec.instructions) ec.program_counter
    then none
    else get_elem? ec.instructions ec.program_counter

unfoldable pub request : ExecutionContext → Instruction → ExecutionContext
request ec r = record ec { kernel_request = some r }

-- The physical address that belongs to the instruction. The outer `none` is a read through NULL, of
-- an argument or of a segment, the inner one is NULL.
unfoldable pub decode : ℕ → Instruction → ExecutionContext → Option (Option PhysicalAddress)
decode max_segment_size instruction ec =
    if instruction.op_code == mov_in
    then (do
      register_name ← get_elem? instruction.args 0
      logical_address ← get_elem? instruction.args 1
      mmu max_segment_size (atoi logical_address) (size_of_register_pointer register_name)
          ec.segments_table)
    else if instruction.op_code == mov_out
    then (do
      logical_address ← get_elem? instruction.args 0
      register_name ← get_elem? instruction.args 1
      mmu max_segment_size (atoi logical_address) (size_of_register_pointer register_name)
          ec.segments_table)
    else if instruction.op_code == f_read || instruction.op_code == f_write
    then (do
      logical_address ← get_elem? instruction.args 1
      bytes_count ← get_elem? instruction.args 2
      mmu max_segment_size (atoi logical_address) (atoi bytes_count) ec.segments_table)
    else some none

-- SET: a missing value is NULL, and changes nothing.
unfoldable pub execute_set : Instruction → ExecutionContext → Option ExecutionContext
execute_set instruction ec = elim (get_elem? instruction.args 1) [
  | none ↦ some ec
  | some value ↦ (do
    register_name ← get_elem? instruction.args 0
    some (record ec { cpu_register = set_register register_name value ec.cpu_register }))
]

-- What follows the answer of the memory in MOV_IN.
unfoldable pub read_answer : List ℕ → ExecutionContext → Option Package → Option ExecutionContext
read_answer register_name ec none = some ec
read_answer register_name ec (some answer) =
    if answer.type == message_ok
    then (do
      value ← deserialize_message answer
      some (record ec { cpu_register = set_register register_name value ec.cpu_register }))
    else some ec

-- The operation codes that become a request as they are.
unfoldable pub is_request : ℕ → Bool
is_request c =
    c == i_o
    || c == f_open
    || c == f_close
    || c == f_seek
    || c == f_truncate
    || c == wait
    || c == signal
    || c == create_segment
    || c == delete_segment
    || c == exit
    || c == yield

module _ (string_itoa : ℤ → List ℕ) where
  -- `instruction_new(EXIT)` with the argument 9.
  unfoldable pub segmentation_fault : Instruction
  segmentation_fault = record { op_code = exit; args = string_itoa (pos 9) ∷ [] }

  unfoldable pub execute_file :
      Instruction → ExecutionContext → Option PhysicalAddress → ExecutionContext
  execute_file instruction ec none = ec
  execute_file instruction ec (some pa) = request ec (record (instruction_duplicate instruction) {
    args =
        instruction.args
        ++ string_itoa pa.segment ∷ string_itoa pa.offset ∷ string_itoa (to_int pa.address) ∷ [];
  })

  -- What follows the answer of the memory in MOV_OUT.
  unfoldable pub write_answer : ExecutionContext → Option Package → ExecutionContext
  write_answer ec none = ec
  write_answer ec (some answer) =
      if answer.type == seg_fault then request ec segmentation_fault else ec

  module _ {W : Type 0} (ask : W → Instruction → Option Package × W) where
    unfoldable pub execute_mov_in :
        Instruction → ExecutionContext → Option PhysicalAddress → W → Option (ExecutionContext × W)
    execute_mov_in instruction ec none w = some (request ec segmentation_fault, w)
    execute_mov_in instruction ec (some pa) w = do
      register_name ← get_elem? instruction.args 0
      let mem_op : Instruction = record {
        op_code = mem_read_address;
        args =
            string_itoa pa.segment
            ∷ string_itoa pa.offset
            ∷ string_itoa (size_of_register_pointer register_name)
            ∷ string_itoa (to_int ec.pid)
            ∷ codes "CPU"
            ∷ string_itoa (to_int pa.address)
            ∷ [];
      }
      let (answer, w') = ask w mem_op
      ec' ← read_answer register_name ec answer
      some (ec', w')

    unfoldable pub execute_mov_out :
        Instruction → ExecutionContext → Option PhysicalAddress → W → Option (ExecutionContext × W)
    execute_mov_out instruction ec none w = some (request ec segmentation_fault, w)
    execute_mov_out instruction ec (some pa) w = do
      register_name ← get_elem? instruction.args 1
      p ← register_pointer register_name
      value ← register_text ec.cpu_register p
      let mem_op : Instruction = record {
        op_code = mem_write_address;
        args =
            string_itoa pa.segment
            ∷ string_itoa pa.offset
            ∷ value
            ∷ string_itoa (to_int ec.pid)
            ∷ codes "CPU"
            ∷ string_itoa (to_int pa.address)
            ∷ [];
      }
      let (answer, w') = ask w mem_op
      some (write_answer ec answer, w')

    -- `none` where the C code reads through NULL.
    unfoldable pub execute :
        Instruction → ExecutionContext → Option PhysicalAddress → W → Option (ExecutionContext × W)
    execute instruction ec associated_pa w =
        if instruction.op_code == set
        then (execute_set instruction ec >>= λ ec'. some (ec', w))
        else if instruction.op_code == mov_in
        then execute_mov_in instruction ec associated_pa w
        else if instruction.op_code == mov_out
        then execute_mov_out instruction ec associated_pa w
        else if instruction.op_code == f_read || instruction.op_code == f_write
        then some (execute_file instruction ec associated_pa, w)
        else if is_request instruction.op_code
        then some (request ec (instruction_duplicate instruction), w)
        else some (ec, w)

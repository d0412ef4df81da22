-- ===== src/Serializer.antt =====
-- shared/src/shared_serializer.c: messages, instructions and CPU registers as packages, with the
-- instruction constructors of shared/src/shared_utils.c.
pub mod Arguments
pub mod Instructions
pub mod Messages
pub mod CpuRegisters
pub mod SegmentTables
pub mod Segments
pub mod AllSegments
pub mod Context
pub mod Fields
pub mod ContextFields
pub mod ContextEcho
mod Tests
use tp_so_tuki.Common.{
  ℕ, zero, suc, Bool, true, false, List, [], ◌∷◌, ◌++◌, Option, none, some, length, if◌then◌else◌,
  ◌>>=◌,
}
use tp_so_tuki.Package.{
  Package, message_ok, message_flaw, instructions, package_new, package_add, package_write,
  package_nest, package_decode, package_decode_isset, package_decode_string, package_decode_buffer,
}

-- `t_instruction`: the bit pattern of the operation code, and the contents of the C strings.
pub record Instruction : Type 0 where
  pub op_code : ℕ
  pub args : List (List ℕ)

unfoldable pub instruction_new : ℕ → Instruction
instruction_new op_code = record { op_code = op_code; args = [] }

-- The copy shares the strings of the source, not its list.
unfoldable pub instruction_duplicate : Instruction → Instruction
instruction_duplicate source = record { op_code = source.op_code; args = source.args }

unfoldable pub serialize_message : List ℕ → Bool → Package
serialize_message value is_flaw =
    package_write (package_new (if is_flaw then message_flaw else message_ok)) value

unfoldable pub deserialize_message : Package → Option (List ℕ)
deserialize_message p = do (message, offset) ← package_decode_string p.buffer 0; some message

-- The loop over the arguments.
unfoldable pub write_args : Package → List (List ℕ) → Package
write_args p [] = p
write_args p (arg ∷ args) = write_args (package_write p arg) args

unfoldable pub serialize_instruction : Instruction → Package
serialize_instruction i = write_args (package_new i.op_code) i.args

-- `while (package_decode_isset(...)) list_add(...)`, for `fuel` rounds at most.
unfoldable pub load_args : ℕ → Package → ℕ → List (List ℕ) → Option (List (List ℕ))
load_args zero p offset args = none
load_args (suc fuel) p offset args = elim (package_decode_isset p offset) [
  | true ↦ (do
    (arg, offset') ← package_decode_string p.buffer offset
    load_args fuel p offset' (args ++ (arg ∷ [])))
  | false ↦ some args
]

-- Each round passes a byte at least, so that the size bounds the rounds.
unfoldable pub deserialize_instruction : Package → Option Instruction
deserialize_instruction p = do
  args ← load_args (suc p.size) p 0 []
  some (record { op_code = p.type; args = args })

-- The loop over the queue.
unfoldable pub nest_instructions : Package → List Instruction → Package
nest_instructions p [] = p
nest_instructions p (i ∷ is) = nest_instructions (package_nest p (serialize_instruction i)) is

-- `EC_INSTRUCTIONS`, the first of `execution_context_index`
abbrev pub ec_instructions : ℕ
ec_instructions = 0

unfoldable pub serialize_instructions : List Instruction → Bool → Package
serialize_instructions is is_ec =
    nest_instructions (package_new (if is_ec then ec_instructions else instructions)) is

-- The queue is extended by one instruction a round.
unfoldable pub load_instructions : ℕ → Package → ℕ → List Instruction → Option (List Instruction)
load_instructions zero p offset queue = none
load_instructions (suc fuel) p offset queue = elim (package_decode_isset p offset) [
  | true ↦ (do
    (nested, offset') ← package_decode p.buffer offset
    i ← deserialize_instruction nested
    load_instructions fuel p offset' (queue ++ (i ∷ [])))
  | false ↦ some queue
]

unfoldable pub deserialize_instructions : Package → List Instruction → Option (List Instruction)
deserialize_instructions p queue = load_instructions (suc p.size) p 0 queue

-- `t_registers`: arrays of 4, 8 and 16 bytes.
pub record Registers : Type 0 where
  pub ax : List ℕ
  pub bx : List ℕ
  pub cx : List ℕ
  pub dx : List ℕ
  pub eax : List ℕ
  pub ebx : List ℕ
  pub ecx : List ℕ
  pub edx : List ℕ
  pub rax : List ℕ
  pub rbx : List ℕ
  pub rcx : List ℕ
  pub rdx : List ℕ

-- `CPU_REGISTERS`
abbrev pub cpu_registers : ℕ
cpu_registers = 4

-- A run of `package_add`.
unfoldable pub add_all : Package → List (List ℕ) → Package
add_all p [] = p
add_all p (value ∷ values) = add_all (package_add p value) values

abbrev pub register_list : Registers → List (List ℕ)
register_list r =
    r.ax ∷ r.bx ∷ r.cx ∷ r.dx ∷ r.eax ∷ r.ebx ∷ r.ecx ∷ r.edx ∷ r.rax ∷ r.rbx ∷ r.rcx ∷ r.rdx ∷ []

unfoldable pub serialize_cpu_registers : Registers → Package
serialize_cpu_registers r = add_all (package_new cpu_registers) (register_list r)

-- The arrays are allocated, and each is overwritten by the bytes that the buffer holds for it.
unfoldable pub deserialize_cpu_registers : List ℕ → Option Registers
deserialize_cpu_registers source = do
  (ax, o1) ← package_decode_buffer source 0
  (bx, o2) ← package_decode_buffer source o1
  (cx, o3) ← package_decode_buffer source o2
  (dx, o4) ← package_decode_buffer source o3
  (eax, o5) ← package_decode_buffer source o4
  (ebx, o6) ← package_decode_buffer source o5
  (ecx, o7) ← package_decode_buffer source o6
  (edx, o8) ← package_decode_buffer source o7
  (rax, o9) ← package_decode_buffer source o8
  (rbx, o10) ← package_decode_buffer source o9
  (rcx, o11) ← package_decode_buffer source o10
  (rdx, o12) ← package_decode_buffer source o11
  some (record {
    ax = ax;
    bx = bx;
    cx = cx;
    dx = dx;
    eax = eax;
    ebx = ebx;
    ecx = ecx;
    edx = edx;
    rax = rax;
    rbx = rbx;
    rcx = rcx;
    rdx = rdx;
  })

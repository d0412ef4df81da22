-- ===== src/Serializer/Tests.antt =====
-- Two instructions, the registers of a new process and a segment table on the wire.
use tp_so_tuki.Common.{
  ℕ, ◌+◌, ◌<◌, ◌^◌, length, ◌≡◌, refl, true, List, [], ◌∷◌, ◌++◌, some, ℤ, pos, negsuc, digits,
  signed, atoi, arith,
}
use tp_so_tuki.Package.{
  package_new, package_write, package_add, package_nest, package_close, package_new_dict,
  package_new_nested,
}
use tp_so_tuki.Package.Nested.{frames}
use tp_so_tuki.Package.Bytes.{le_bytes}
use tp_so_tuki.Serializer.{
  Instruction, nest_instructions, serialize_instruction, write_args, add_all,
  serialize_instructions, deserialize_instructions, Registers, serialize_cpu_registers,
}
use tp_so_tuki.Serializer.Arguments.{IsInstruction}
use tp_so_tuki.Serializer.Instructions.{deserialize_instructions-serialize_instructions}
use tp_so_tuki.Serializer.CpuRegisters.{IsRegisters}
use tp_so_tuki.Memory.State.{Segment}
use tp_so_tuki.Cpu.Execute.{ExecutionContext, to_int}
use tp_so_tuki.Serializer.Context.{serialize_execution_context, deserialize_execution_context}
use tp_so_tuki.Serializer.ContextEcho.{
  IsContext, context_fields, deserialize_execution_context-serialize_execution_context,
}
use tp_so_tuki.Serializer.SegmentTables.{
  int_bits, segment_instruction, nest_segments, serialize_segments_table, deserialize_segment_table,
}
use tp_so_tuki.Serializer.Segments.{IsSent, deserialize_segment_table-serialize_segments_table}

abbrev set_ax : Instruction
set_ax = record { op_code = 2; args = (65 ∷ 88 ∷ []) ∷ (72 ∷ 79 ∷ []) ∷ [] }

set_ax-IsInstruction : IsInstruction set_ax
unfolding le_bytes
set_ax-IsInstruction = record {
  op_fits = omega arith;
  texts = (
    ((λ e. ground (arith, e)), ((λ e. ground (arith, e)), tt)),
    (((λ e. ground (arith, e)), ((λ e. ground (arith, e)), tt)), tt),
  );
  args_fit = omega arith;
}

abbrev exit_now : Instruction
exit_now = record { op_code = 14; args = [] }

exit_now-IsInstruction : IsInstruction exit_now
exit_now-IsInstruction = record { op_fits = omega arith; texts = tt; args_fit = omega arith }

deserialize_instructions-serialize_instructions_example :
    deserialize_instructions (serialize_instructions (set_ax ∷ exit_now ∷ []) true) (exit_now ∷ [])
    ≡ some (exit_now ∷ set_ax ∷ exit_now ∷ [])
unfolding le_bytes
deserialize_instructions-serialize_instructions_example =
    deserialize_instructions-serialize_instructions (set_ax ∷ exit_now ∷ []) (exit_now ∷ []) true
      (set_ax-IsInstruction, (exit_now-IsInstruction, tt)) (omega arith)

abbrev four : List ℕ
four = 72 ∷ 79 ∷ 76 ∷ 65 ∷ []

abbrev eight : List ℕ
eight = four ++ four

abbrev registers : Registers
registers = record {
  ax = four;
  bx = four;
  cx = four;
  dx = four;
  eax = eight;
  ebx = eight;
  ecx = eight;
  edx = eight;
  rax = eight ++ eight;
  rbx = eight ++ eight;
  rcx = eight ++ eight;
  rdx = eight ++ eight;
}

registers-IsRegisters : IsRegisters registers
registers-IsRegisters = record {
  four = (omega arith, (omega arith, (omega arith, (omega arith, tt))));
  eight = (omega arith, (omega arith, (omega arith, (omega arith, tt))));
  sixteen = (omega arith, (omega arith, (omega arith, (omega arith, tt))));
}

-- A printer of numbers below ten.
abbrev digit : ℤ → List ℕ
digit (pos n) = (48 + n) ∷ []
digit (negsuc n) = 45 ∷ (49 + n) ∷ []

abbrev small_segment : Segment
small_segment = record { base = 3; offset = 5; s_id = 1 }

small_segment-IsSent : IsSent digit (λ n. 1000 + n) small_segment
unfolding int_bits atoi signed digits to_int segment_instruction le_bytes
small_segment-IsSent = record {
  base_read = refl;
  offset_read = refl;
  s_id_read = refl;
  sent = record {
    op_fits = omega arith;
    texts = (
      ((λ e. ground (arith, e)), tt),
      (((λ e. ground (arith, e)), tt), (((λ e. ground (arith, e)), tt), tt)),
    );
    args_fit = omega arith;
  };
}

deserialize_segment_table-serialize_segments_table_example :
    deserialize_segment_table
      (λ n. 1000 + n)
      (serialize_segments_table digit (small_segment ∷ []) 5)
    ≡ some ((record { base = 1000; offset = 5; s_id = 1 }, 3) ∷ [])
unfolding le_bytes segment_instruction to_int
deserialize_segment_table-serialize_segments_table_example =
    deserialize_segment_table-serialize_segments_table digit (λ n. 1000 + n) (small_segment ∷ []) 5
      (small_segment-IsSent, tt) (omega arith)

abbrev asking : ExecutionContext
asking = record {
  pid = 4;
  program_counter = 1;
  last_burst_time = 30;
  instructions = set_ax ∷ exit_now ∷ [];
  segments_table = small_segment ∷ [];
  cpu_register = registers;
  kernel_request = some exit_now;
}

asking_fits : length (frames (context_fields digit (λ n. 1000 + n) asking)) < 2 ^ 64
unfolding serialize_instructions nest_instructions serialize_instruction write_args package_new
    package_write package_add package_nest package_close package_new_dict package_new_nested
    le_bytes serialize_cpu_registers add_all serialize_segments_table nest_segments
    segment_instruction to_int
asking_fits = omega arith

asking-IsContext : IsContext digit (λ n. 1000 + n) asking
unfolding le_bytes segment_instruction to_int
asking-IsContext = record {
  instructions_valid = (set_ax-IsInstruction, (exit_now-IsInstruction, tt));
  instructions_fit = omega arith;
  counter_fits = omega arith;
  burst_fits = omega arith;
  pid_fits = omega arith;
  registers_valid = registers-IsRegisters;
  segments_valid = (small_segment-IsSent, tt);
  segments_fit = omega arith;
  request_valid = (exit_now-IsInstruction, omega arith);
  fits = asking_fits;
}

deserialize_execution_context-serialize_execution_context_example :
    deserialize_execution_context
      (λ n. 1000 + n)
      (record asking { pid = 77; instructions = [] })
      (serialize_execution_context digit asking)
    ≡ some (
        some (record asking { segments_table = record { base = 1000; offset = 5; s_id = 1 } ∷ [] }))
deserialize_execution_context-serialize_execution_context_example =
    deserialize_execution_context-serialize_execution_context digit (λ n. 1000 + n)
      (record asking { pid = 77; instructions = [] }) asking asking-IsContext

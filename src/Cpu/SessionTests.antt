-- ===== src/Cpu/SessionTests.antt =====
-- A process with two segments whose only instruction is EXIT, on its way to the CPU and back.
use tp_so_tuki.Common.{ℕ, ◌<◌, ◌^◌, ◌≡◌, refl, length, List, [], ◌∷◌, Option, none, some, arith}
use tp_so_tuki.Package.{
  Package, package_new, package_write, package_add, package_nest, package_close, package_new_dict,
  package_new_nested,
}
use tp_so_tuki.Package.Bytes.{le_bytes}
use tp_so_tuki.Package.Nested.{frames}
use tp_so_tuki.OpCode.{exit}
use tp_so_tuki.Serializer.{
  Instruction, instruction_duplicate, nest_instructions, serialize_instruction, write_args, add_all,
  serialize_instructions, serialize_cpu_registers,
}
use tp_so_tuki.Serializer.Arguments.{IsInstruction}
use tp_so_tuki.Serializer.CpuRegisters.{IsRegisters}
use tp_so_tuki.Serializer.SegmentTables.{
  segment_instruction, serialize_segments_table, nest_segments,
}
use tp_so_tuki.Cpu.SessionSegments.{
  two_digits, cpu_malloc, kernel_malloc, sent_segments, cpu_segments, kernel_zero-IsSent,
  kernel_one-IsSent, cpu_zero-IsSent, cpu_one-IsSent,
}
use tp_so_tuki.Cpu.KeptBurst.{SameProcess}
use tp_so_tuki.Serializer.Context.{serialize_execution_context, deserialize_execution_context}
use tp_so_tuki.Serializer.ContextEcho.{IsContext, context_fields}
use tp_so_tuki.Cpu.Execute.{ExecutionContext, to_int, fetch, decode, execute, is_request, request}
use tp_so_tuki.Cpu.Cycle.{done, next, round, run_burst}
use tp_so_tuki.Cpu.Session.{answered, serve}
use tp_so_tuki.Cpu.Returned.{serve-returned}

abbrev silent : ℕ → Instruction → Option Package × ℕ
silent w i = (none, w)

abbrev exit_now : Instruction
exit_now = record { op_code = exit; args = [] }

abbrev four : List ℕ
four = 0 ∷ 0 ∷ 0 ∷ 0 ∷ []

abbrev eight : List ℕ
eight = 0 ∷ 0 ∷ 0 ∷ 0 ∷ four

abbrev sixteen : List ℕ
sixteen = 0 ∷ 0 ∷ 0 ∷ 0 ∷ 0 ∷ 0 ∷ 0 ∷ 0 ∷ eight

abbrev ready : ExecutionContext
ready = record {
  pid = 4;
  program_counter = 0;
  last_burst_time = 0;
  instructions = exit_now ∷ [];
  segments_table = sent_segments;
  cpu_register = record {
    ax = four;
    bx = four;
    cx = four;
    dx = four;
    eax = eight;
    ebx = eight;
    ecx = eight;
    edx = eight;
    rax = sixteen;
    rbx = sixteen;
    rcx = sixteen;
    rdx = sixteen;
  };
  kernel_request = none;
}

abbrev ended : ExecutionContext
ended = record ready {
  program_counter = 1;
  segments_table = cpu_segments;
  kernel_request = some exit_now;
}

exit_now-IsInstruction : IsInstruction exit_now
exit_now-IsInstruction = record { op_fits = omega arith; texts = tt; args_fit = omega arith }

blank-IsRegisters : IsRegisters ready.cpu_register
blank-IsRegisters = record {
  four = (omega arith, (omega arith, (omega arith, (omega arith, tt))));
  eight = (omega arith, (omega arith, (omega arith, (omega arith, tt))));
  sixteen = (omega arith, (omega arith, (omega arith, (omega arith, tt))));
}

ready_fits : length (frames (context_fields two_digits cpu_malloc ready)) < 2 ^ 64
unfolding serialize_instructions nest_instructions serialize_instruction write_args package_new
    package_write package_add package_nest package_close package_new_dict package_new_nested
    le_bytes serialize_cpu_registers add_all serialize_segments_table nest_segments
    segment_instruction to_int
ready_fits = omega arith

ready-IsContext : IsContext two_digits cpu_malloc ready
unfolding le_bytes segment_instruction to_int
ready-IsContext = record {
  instructions_valid = (exit_now-IsInstruction, tt);
  instructions_fit = omega arith;
  counter_fits = omega arith;
  burst_fits = omega arith;
  pid_fits = omega arith;
  registers_valid = blank-IsRegisters;
  segments_valid = (kernel_zero-IsSent, (kernel_one-IsSent, tt));
  segments_fit = omega arith;
  request_valid = tt;
  fits = ready_fits;
}

ended_fits :
    length
      (frames (context_fields two_digits kernel_malloc (record ended { last_burst_time = 30 })))
    < 2 ^ 64
unfolding serialize_instructions nest_instructions serialize_instruction write_args package_new
    package_write package_add package_nest package_close package_new_dict package_new_nested
    le_bytes serialize_cpu_registers add_all serialize_segments_table nest_segments
    segment_instruction to_int
ended_fits = omega arith

ended-IsContext : IsContext two_digits kernel_malloc (record ended { last_burst_time = 30 })
unfolding le_bytes segment_instruction to_int
ended-IsContext = record {
  instructions_valid = (exit_now-IsInstruction, tt);
  instructions_fit = omega arith;
  counter_fits = omega arith;
  burst_fits = omega arith;
  pid_fits = omega arith;
  registers_valid = blank-IsRegisters;
  segments_valid = (cpu_zero-IsSent, (cpu_one-IsSent, tt));
  segments_fit = omega arith;
  request_valid = (exit_now-IsInstruction, omega arith);
  fits = ended_fits;
}

abbrev arriving : ExecutionContext
arriving = record ready { segments_table = cpu_segments }

ready_burst : run_burst 128 two_digits silent 2 arriving 5 ≡ done ended 5
unfolding run_burst round fetch decode execute next is_request request instruction_duplicate
ready_burst = refl

abbrev returned : ExecutionContext
returned = record ended { last_burst_time = 30; segments_table = sent_segments }

serve-returned_example :
    (reply : Package) × (serve 128 two_digits cpu_malloc silent 2 30 [] ended 5
        (some (serialize_execution_context two_digits ready))
      ≡ answered reply 5)
    × (deserialize_execution_context kernel_malloc ready reply ≡ some (some returned))
    × SameProcess arriving ended
serve-returned_example =
    serve-returned 128 two_digits cpu_malloc kernel_malloc silent 2 30 [] ended ready ready ended 5
      5 ready-IsContext ready_burst ended-IsContext

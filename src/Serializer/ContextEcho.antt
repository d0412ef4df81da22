-- ===== src/Serializer/ContextEcho.antt =====
-- An execution context survives the trip between the kernel and the CPU, but for the bases of its segments.
use tp_so_tuki.Common.{
  ℕ, suc, ◌+◌, ◌<◌, ◌^◌, ◌≡◌, refl, sym, ap, subst, ◌∙◌, true, List, ◌∷◌, Option, none, some, map,
  length, All, ℤ, arith,
}
use tp_so_tuki.Package.{Package, package_new, package_new_dict, execution_context}
use tp_so_tuki.Package.Bytes.{le_bytes}
use tp_so_tuki.Package.Cursor.{At-start}
use tp_so_tuki.Package.RoundTrip.{IsPackage}
use tp_so_tuki.Package.Nested.{frames, length-frames, nest_all-frames}
use tp_so_tuki.Serializer.{Instruction, serialize_instructions, serialize_cpu_registers}
use tp_so_tuki.Serializer.Arguments.{IsInstruction}
use tp_so_tuki.Serializer.Instructions.{encode_instructions, serialize_instructions-IsPackage}
use tp_so_tuki.Serializer.CpuRegisters.{IsRegisters, serialize_cpu_registers-IsPackage}
use tp_so_tuki.Serializer.SegmentTables.{serialize_segments_table}
use tp_so_tuki.Serializer.Segments.{
  IsSent, sent_table, received, serialize_segments_table-IsPackage,
}
use tp_so_tuki.Memory.State.{Segment}
use tp_so_tuki.OpCode.MemoryOp.{segments_table}
use tp_so_tuki.Cpu.Execute.{ExecutionContext}
use tp_so_tuki.Serializer.Context.{
  program_counter, last_burst_time, process_pid, serialize_execution_context,
  deserialize_execution_context,
}
use tp_so_tuki.Serializer.Fields.{
  read_fields, load_context-frames, package_new_dict-number, number_package-IsPackage,
}
use tp_so_tuki.Serializer.ContextFields.{
  request_fields, IsRequest, nest_request-fields, request_fields-IsPackage, read_field-instructions,
  read_field-program_counter, read_field-last_burst_time, read_field-pid, read_field-registers,
  read_field-segments, read_field-request,
}

module _ (string_itoa : ℤ → List ℕ) (malloc : ℕ → ℕ) where
  abbrev pub context_fields : ExecutionContext → List Package
  context_fields ec =
      serialize_instructions ec.instructions true
      ∷ package_new_dict program_counter (le_bytes 4 ec.program_counter)
      ∷ package_new_dict last_burst_time (le_bytes 8 ec.last_burst_time)
      ∷ package_new_dict process_pid (le_bytes 4 ec.pid)
      ∷ serialize_cpu_registers ec.cpu_register
      ∷ serialize_segments_table string_itoa ec.segments_table segments_table
      ∷ request_fields ec.kernel_request

  -- A context whose numbers fit their fields and whose parts can be sent, in packages whose sizes fit.
  pub record IsContext (ec : ExecutionContext) : Type 0 where
    pub instructions_valid : All IsInstruction ec.instructions
    pub instructions_fit : 12 + length (encode_instructions ec.instructions) < 2 ^ 64
    pub counter_fits : ec.program_counter < 2 ^ 32
    pub burst_fits : ec.last_burst_time < 2 ^ 64
    pub pid_fits : ec.pid < 2 ^ 32
    pub registers_valid : IsRegisters ec.cpu_register
    pub segments_valid : All (IsSent string_itoa malloc) ec.segments_table
    pub segments_fit :
        12 + length (encode_instructions (sent_table string_itoa malloc ec.segments_table)) < 2 ^ 64
    pub request_valid : IsRequest ec.kernel_request
    pub fits : length (frames (context_fields ec)) < 2 ^ 64

  number_field-IsPackage :
      (key width n : ℕ)
      → key < 2 ^ 32
      → 20 + width < 2 ^ 64
      → IsPackage (package_new_dict key (le_bytes width n))
  number_field-IsPackage key width n k h =
      subst IsPackage (sym (package_new_dict-number key width n (omega (arith, h))))
        (number_package-IsPackage key width n k h)

  context_fields-IsPackage :
      (ec : ExecutionContext) → IsContext ec → All IsPackage (context_fields ec)
  context_fields-IsPackage ec v = (
    serialize_instructions-IsPackage ec.instructions true v.instructions_valid v.instructions_fit,
    (
      number_field-IsPackage program_counter 4 ec.program_counter (omega arith) (omega arith),
      (
        number_field-IsPackage last_burst_time 8 ec.last_burst_time (omega arith) (omega arith),
        (
          number_field-IsPackage process_pid 4 ec.pid (omega arith) (omega arith),
          (
            serialize_cpu_registers-IsPackage ec.cpu_register v.registers_valid,
            (
              serialize_segments_table-IsPackage string_itoa malloc ec.segments_table segments_table
                  v.segments_valid (omega arith) v.segments_fit,
              request_fields-IsPackage ec.kernel_request v.request_valid,
            ),
          ),
        ),
      ),
    ),
  )

  context_package : ExecutionContext → Package
  context_package ec = record {
    size = length (frames (context_fields ec));
    type = execution_context;
    buffer = frames (context_fields ec);
  }

  serialize_execution_context-package :
      (ec : ExecutionContext)
      → IsContext ec
      → serialize_execution_context string_itoa ec ≡ context_package ec
  unfolding serialize_execution_context context_package package_new
  serialize_execution_context-package ec v =
      nest_request-fields _ ec.kernel_request
      ∙ nest_all-frames (package_new execution_context) (context_fields ec)
          (context_fields-IsPackage ec v) (omega (arith, v.fits))
      ∙ ground arith

  pub serialize_execution_context-type :
      (ec : ExecutionContext)
      → IsContext ec
      → (serialize_execution_context string_itoa ec).type ≡ execution_context
  unfolding context_package
  serialize_execution_context-type ec v =
      ap (λ (p : Package). p.type) (serialize_execution_context-package ec v)

  -- The context as it arrives: the bases of the segments are new allocations.
  abbrev pub arrived : ExecutionContext → ExecutionContext
  arrived ec = record ec {
    segments_table =
        map (λ (e : Segment × ℕ). e.0) (received string_itoa malloc 0 ec.segments_table);
  }

  read_request :
      (ec : ExecutionContext) (r : Option Instruction)
      → IsRequest r
      → read_fields malloc (record ec { kernel_request = none }) (request_fields r)
        ≡ some (some (record ec { kernel_request = r }))
  read_request ec none v = refl
  read_request ec (some r) v =
      rw (read_field-request malloc (record ec { kernel_request = none }) r v) refl

  read_fields-arrived :
      (unset ec : ExecutionContext)
      → IsContext ec
      → read_fields malloc (record unset { kernel_request = none }) (context_fields ec)
        ≡ some (some (arrived ec))
  read_fields-arrived unset ec v =
      rw
        (
          read_field-instructions malloc ec0 ec.instructions v.instructions_valid
              (omega (arith, v.instructions_fit)),
          read_field-program_counter malloc ec1 ec.program_counter v.counter_fits,
          read_field-last_burst_time malloc ec2 ec.last_burst_time v.burst_fits,
          read_field-pid malloc ec3 ec.pid v.pid_fits,
          read_field-registers malloc ec4 ec.cpu_register v.registers_valid,
          read_field-segments malloc ec5 string_itoa ec.segments_table v.segments_valid
              (omega (arith, v.segments_fit)),
        )
        (read_request (arrived ec) ec.kernel_request v.request_valid)
    where
      ec0 : ExecutionContext
      ec0 = record unset { kernel_request = none }

      ec1 : ExecutionContext
      ec1 = record ec0 { instructions = ec.instructions }

      ec2 : ExecutionContext
      ec2 = record ec1 { program_counter = ec.program_counter }

      ec3 : ExecutionContext
      ec3 = record ec2 { last_burst_time = ec.last_burst_time }

      ec4 : ExecutionContext
      ec4 = record ec3 { pid = ec.pid }

      ec5 : ExecutionContext
      ec5 = record ec4 { cpu_register = ec.cpu_register }

  -- An execution context that can be sent arrives as it was, with its instructions, numbers, registers and
  -- request, whatever the new struct held before. Its segments keep their order, sizes and ids, but
  -- each base is a new allocation.
  pub deserialize_execution_context-serialize_execution_context :
      (unset ec : ExecutionContext)
      → IsContext ec
      → deserialize_execution_context malloc unset (serialize_execution_context string_itoa ec)
        ≡ some (some (arrived ec))
  unfolding deserialize_execution_context context_package
  deserialize_execution_context-serialize_execution_context unset ec v =
      ap (deserialize_execution_context malloc unset) (serialize_execution_context-package ec v)
      ∙ load_context-frames malloc (suc (length (frames (context_fields ec)))) (context_package ec)
          0 (record unset { kernel_request = none }) (context_fields ec) refl v.fits
          (context_fields-IsPackage ec v) (At-start (frames (context_fields ec)))
          (omega (arith, length-frames (context_fields ec)))
      ∙ read_fields-arrived unset ec v

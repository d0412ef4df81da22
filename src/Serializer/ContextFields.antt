-- ===== src/Serializer/ContextFields.antt =====
-- What each field of an execution context does to the context that is received.
use tp_so_tuki.Common.{
  ℕ, ◌+◌, ◌<◌, ◌^◌, ◌≡◌, refl, sym, ap, subst, ◌∙◌, true, List, [], ◌∷◌, Option, none, some, map,
  length, All, ℤ, append-nil, arith,
}
use tp_so_tuki.Package.{Package, package_new, package_new_dict, package_new_nested, package_decode}
use tp_so_tuki.Package.Bytes.{le_bytes}
use tp_so_tuki.Package.Cursor.{At, At-start}
use tp_so_tuki.Package.RoundTrip.{IsPackage, frame, length-frame, package_decode-frame}
use tp_so_tuki.Package.Nested.{nest_all, package_nest-frame}
use tp_so_tuki.Serializer.{
  Instruction, Registers, serialize_instruction, deserialize_instruction, serialize_instructions,
  serialize_cpu_registers,
}
use tp_so_tuki.Serializer.Arguments.{
  IsInstruction, encode_args, instruction_package, serialize_instruction-package,
  instruction_package-IsPackage, deserialize_instruction-serialize_instruction,
}
use tp_so_tuki.Serializer.Instructions.{
  encode_instructions, serialize_instructions-type, deserialize_instructions-serialize_instructions,
}
use tp_so_tuki.Serializer.CpuRegisters.{
  IsRegisters, serialize_cpu_registers-type, deserialize_cpu_registers-serialize_cpu_registers,
}
use tp_so_tuki.Serializer.SegmentTables.{serialize_segments_table}
use tp_so_tuki.Serializer.Segments.{
  IsSent, sent_table, received, serialize_segments_table-type,
  deserialize_segment_table-serialize_segments_table,
}
use tp_so_tuki.Memory.State.{Segment}
use tp_so_tuki.OpCode.MemoryOp.{segments_table}
use tp_so_tuki.Cpu.Execute.{ExecutionContext}
use tp_so_tuki.Serializer.Context.{
  program_counter, last_burst_time, process_pid, kernel_request, nest_request, read_field,
}
use tp_so_tuki.Serializer.Fields.{
  package_new_dict-number, package_decode_buffer-number, overwrite-le_bytes,
}

-- The request of the kernel as a field.
abbrev pub request_fields : Option Instruction → List Package
request_fields none = []
request_fields (some r) = package_new_nested kernel_request (serialize_instruction r) ∷ []

pub nest_request-fields :
    (p : Package) (r : Option Instruction) → nest_request p r ≡ nest_all p (request_fields r)
unfolding nest_request
nest_request-fields p none = refl
nest_request-fields p (some r) = refl

abbrev pub IsRequest : Option Instruction → Type 0
IsRequest none = Unit {0}
IsRequest (some r) = IsInstruction r × (24 + length (encode_args r.args) < 2 ^ 64)

request_package : Instruction → Package
request_package r = record {
  size = 12 + length (encode_args r.args);
  type = kernel_request;
  buffer = frame (instruction_package r);
}

package_new_nested-request :
    (r : Instruction)
    → IsRequest (some r)
    → package_new_nested kernel_request (serialize_instruction r) ≡ request_package r
unfolding package_new_nested package_new request_package
package_new_nested-request r v = rw (serialize_instruction-package r v.0) (
    package_nest-frame (package_new kernel_request) (instruction_package r)
      (instruction_package-IsPackage r v.0)
      (omega (arith, v.1, length-frame (instruction_package r)))
    ∙ ground (arith, length-frame (instruction_package r)))

package_new_nested-IsPackage :
    (r : Instruction)
    → IsRequest (some r)
    → IsPackage (package_new_nested kernel_request (serialize_instruction r))
unfolding request_package
package_new_nested-IsPackage r v = subst IsPackage (sym (package_new_nested-request r v)) (record {
  sized = sym (length-frame (instruction_package r));
  type_fits = omega arith;
  size_fits = omega (arith, v.1);
})

pub request_fields-IsPackage :
    (r : Option Instruction) → IsRequest r → All IsPackage (request_fields r)
request_fields-IsPackage none v = tt
request_fields-IsPackage (some r) v = (package_new_nested-IsPackage r v, tt)

module _ (malloc : ℕ → ℕ) (ec : ExecutionContext) where
  pub read_field-instructions :
      (is : List Instruction)
      → All IsInstruction is
      → length (encode_instructions is) < 2 ^ 64
      → read_field malloc ec (serialize_instructions is true)
        ≡ some (some (record ec { instructions = is }))
  unfolding read_field
  read_field-instructions is v h =
      rw
        (
          deserialize_instructions-serialize_instructions is [] true v h,
          serialize_instructions-type is true v h,
        )
        refl

  pub read_field-program_counter :
      (n : ℕ)
      → n < 2 ^ 32
      → read_field malloc ec (package_new_dict program_counter (le_bytes 4 n))
        ≡ some (some (record ec { program_counter = n }))
  unfolding read_field
  read_field-program_counter n h =
      rw
        (
          package_new_dict-number program_counter 4 n (omega arith),
          package_decode_buffer-number 4 n (omega arith),
          overwrite-le_bytes 4 ec.program_counter n (omega (arith, h)),
        )
        refl

  pub read_field-last_burst_time :
      (n : ℕ)
      → n < 2 ^ 64
      → read_field malloc ec (package_new_dict last_burst_time (le_bytes 8 n))
        ≡ some (some (record ec { last_burst_time = n }))
  unfolding read_field
  read_field-last_burst_time n h =
      rw
        (
          package_new_dict-number last_burst_time 8 n (omega arith),
          package_decode_buffer-number 8 n (omega arith),
          overwrite-le_bytes 8 ec.last_burst_time n (omega (arith, h)),
        )
        refl

  pub read_field-pid :
      (n : ℕ)
      → n < 2 ^ 32
      → read_field malloc ec (package_new_dict process_pid (le_bytes 4 n))
        ≡ some (some (record ec { pid = n }))
  unfolding read_field
  read_field-pid n h =
      rw
        (
          package_new_dict-number process_pid 4 n (omega arith),
          package_decode_buffer-number 4 n (omega arith),
          overwrite-le_bytes 4 ec.pid n (omega (arith, h)),
        )
        refl

  pub read_field-registers :
      (r : Registers)
      → IsRegisters r
      → read_field malloc ec (serialize_cpu_registers r)
        ≡ some (some (record ec { cpu_register = r }))
  unfolding read_field
  read_field-registers r v =
      rw (serialize_cpu_registers-type r, deserialize_cpu_registers-serialize_cpu_registers r v)
        refl

  pub read_field-segments :
      (string_itoa : ℤ → List ℕ) (table : List Segment)
      → All (IsSent string_itoa malloc) table
      → length (encode_instructions (sent_table string_itoa malloc table)) < 2 ^ 64
      → read_field malloc ec (serialize_segments_table string_itoa table segments_table)
        ≡ some (
            some (record ec {
              segments_table = map (λ (e : Segment × ℕ). e.0) (received string_itoa malloc 0 table);
            }))
  unfolding read_field
  read_field-segments string_itoa table v h =
      rw
        (
          deserialize_segment_table-serialize_segments_table string_itoa malloc table segments_table
              v h,
          serialize_segments_table-type string_itoa malloc table segments_table v h,
        )
        refl

  pub read_field-request :
      (r : Instruction)
      → IsRequest (some r)
      → read_field malloc ec (package_new_nested kernel_request (serialize_instruction r))
        ≡ some (some (record ec { kernel_request = some r }))
  unfolding read_field request_package
  read_field-request r v = rw (package_new_nested-request r v, decoded, read) refl
    where
      bytes : List ℕ
      bytes = frame (instruction_package r)

      decoded :
          package_decode bytes 0
          ≡ some (instruction_package r, 0 + (12 + length (encode_args r.args)))
      decoded =
          package_decode-frame bytes (omega (arith, v.1, length-frame (instruction_package r))) 0
            (instruction_package r) [] (instruction_package-IsPackage r v.0)
            (subst (At bytes 0) (sym (append-nil bytes)) (At-start bytes))

      read : deserialize_instruction (instruction_package r) ≡ some r
      read =
          ap deserialize_instruction (sym (serialize_instruction-package r v.0))
          ∙ deserialize_instruction-serialize_instruction r v.0

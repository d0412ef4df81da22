-- ===== src/Serializer/Context.antt =====
-- `serialize_execution_context` and `deserialize_execution_context` of shared/src/shared_serializer.c.
-- `unset` stands for what the new struct holds before its fields are read, and `malloc` is the
-- address of the n-th allocation for the segment table.
use tp_so_tuki.Common.{
  ℕ, zero, suc, true, false, List, [], ◌++◌, Option, none, some, map, drop, length, leb, ◌==◌,
  if◌then◌else◌, ◌>>=◌, ℤ,
}
use tp_so_tuki.Package.{
  Package, package_new, package_new_dict, package_new_nested, package_nest, package_decode,
  package_decode_buffer, package_decode_isset, execution_context,
}
use tp_so_tuki.Package.Bytes.{le_bytes, le_value}
use tp_so_tuki.Serializer.{
  Instruction, serialize_instruction, deserialize_instruction, serialize_instructions,
  deserialize_instructions, serialize_cpu_registers, deserialize_cpu_registers, ec_instructions,
  cpu_registers,
}
use tp_so_tuki.Serializer.SegmentTables.{serialize_segments_table, deserialize_segment_table}
use tp_so_tuki.Memory.State.{Segment}
use tp_so_tuki.OpCode.MemoryOp.{segments_table}
use tp_so_tuki.Cpu.Execute.{ExecutionContext}

-- `execution_context_index`, but for those that other modules name.
abbrev pub program_counter : ℕ
program_counter = 1

abbrev pub last_burst_time : ℕ
last_burst_time = 2

abbrev pub process_pid : ℕ
process_pid = 3

abbrev pub kernel_request : ℕ
kernel_request = 7

-- The last step of the package: a request of the kernel, if there is one.
unfoldable pub nest_request : Package → Option Instruction → Package
nest_request p none = p
nest_request p (some r) =
    package_nest p (package_new_nested kernel_request (serialize_instruction r))

module _ (string_itoa : ℤ → List ℕ) where
  unfoldable pub serialize_execution_context : ExecutionContext → Package
  serialize_execution_context ec =
      let p0 = package_new execution_context in
      let p1 = package_nest p0 (serialize_instructions ec.instructions true) in
      let p2 = package_nest p1 (package_new_dict program_counter (le_bytes 4 ec.program_counter)) in
      let p3 = package_nest p2 (package_new_dict last_burst_time (le_bytes 8 ec.last_burst_time)) in
      let p4 = package_nest p3 (package_new_dict process_pid (le_bytes 4 ec.pid)) in
      let p5 = package_nest p4 (serialize_cpu_registers ec.cpu_register) in
      let p6 =
        package_nest p5 (serialize_segments_table string_itoa ec.segments_table segments_table) in
      nest_request p6 ec.kernel_request

-- `memcpy` over a field of `width` bytes that holds `old`: more bytes than that are written past it.
unfoldable pub overwrite : ℕ → ℕ → List ℕ → Option ℕ
overwrite width old bytes =
    if leb (length bytes) width
    then some (le_value (bytes ++ drop (length bytes) (le_bytes width old)))
    else none

module _ (malloc : ℕ → ℕ) where
  -- The switch over the type of a nested package; the inner `none` is the NULL for a type that is unknown.
  unfoldable pub read_field : ExecutionContext → Package → Option (Option ExecutionContext)
  read_field ec nested =
      if nested.type == ec_instructions
      then (do
        is ← deserialize_instructions nested []
        some (some (record ec { instructions = is })))
      else if nested.type == program_counter
      then (do
        (bytes, offset) ← package_decode_buffer nested.buffer 0
        n ← overwrite 4 ec.program_counter bytes
        some (some (record ec { program_counter = n })))
      else if nested.type == last_burst_time
      then (do
        (bytes, offset) ← package_decode_buffer nested.buffer 0
        n ← overwrite 8 ec.last_burst_time bytes
        some (some (record ec { last_burst_time = n })))
      else if nested.type == process_pid
      then (do
        (bytes, offset) ← package_decode_buffer nested.buffer 0
        n ← overwrite 4 ec.pid bytes
        some (some (record ec { pid = n })))
      else if nested.type == cpu_registers
      then (do
        r ← deserialize_cpu_registers nested.buffer
        some (some (record ec { cpu_register = r })))
      else if nested.type == segments_table
      then (do
        table ← deserialize_segment_table malloc nested
        some (some (record ec { segments_table = map (λ (e : Segment × ℕ). e.0) table })))
      else if nested.type == kernel_request
      then (do
        (request, offset) ← package_decode nested.buffer 0
        r ← deserialize_instruction request
        some (some (record ec { kernel_request = some r })))
      else some none

  unfoldable pub load_context :
      ℕ → Package → ℕ → ExecutionContext → Option (Option ExecutionContext)
  load_context zero p offset ec = none
  load_context (suc fuel) p offset ec = elim (package_decode_isset p offset) [
    | true ↦ (do
      (nested, offset') ← package_decode p.buffer offset
      read ← read_field ec nested
      elim read [ none ↦ some none | some ec' ↦ load_context fuel p offset' ec' ])
    | false ↦ some (some ec)
  ]

  -- Each round passes a byte at least, so that the size bounds the rounds.
  unfoldable pub deserialize_execution_context :
      ExecutionContext → Package → Option (Option ExecutionContext)
  deserialize_execution_context unset p =
      load_context (suc p.size) p 0 (record unset { kernel_request = none })

-- ===== src/Kernel/SegmentRequests.antt =====
-- What `main` of kernel/src/kernel.c does for CREATE_SEGMENT and DELETE_SEGMENT. `ask` stands for a message
-- to the memory module and its answer, `none` if the socket fails, and `drain` for what the other
-- threads do while the kernel waits for the file instructions to run out. The outer `none` is a read
-- through NULL. `allocate` is where the text of a message is put, `malloc` as in Serializer/AllSegments.
use tp_so_tuki.Common.{
  ℕ, List, [], ◌∷◌, ◌++◌, Option, none, some, get_elem?, ◌==◌, if◌then◌else◌, ◌>>=◌, ℤ, atoi,
}
use tp_so_tuki.Package.{Package, message_ok}
use tp_so_tuki.Serializer.{Instruction, instruction_new, deserialize_message}
use tp_so_tuki.Serializer.SegmentTables.{int_bits}
use tp_so_tuki.Serializer.AllSegments.{get_table, deserialize_all_segments_tables}
use tp_so_tuki.OpCode.MemoryOp.{
  mem_create_segment, mem_delete_segment, mem_compact_all, out_of_memory, compact_request,
}
use tp_so_tuki.Memory.State.{Segment}
use tp_so_tuki.Cpu.Execute.{to_int}
use tp_so_tuki.Kernel.State.{exit_process, Pcb, set_state}
use tp_so_tuki.Kernel.Files.{Files, with_pcbs}
use tp_so_tuki.Kernel.LongTerm.{set_segments_table}

-- The request as the memory module gets it.
unfoldable pub memory_request : (ℤ → List ℕ) → Files → ℕ → ℕ → Instruction → Instruction
memory_request string_itoa s p op request = record {
  op_code = op;
  args = request.args ++ (string_itoa (to_int (s.kernel.pcbs p).pid) ∷ []);
}

-- The loop over the active PCBs. A process without a table gets NULL for one, which C stores and reads
-- later, when it destroys, sends or searches the table; here that fault is taken at once.
unfoldable pub load_new_tables : List (ℕ × List Segment) → (ℕ → Pcb) → List ℕ → Option (ℕ → Pcb)
load_new_tables tables pcbs [] = some pcbs
load_new_tables tables pcbs (q ∷ qs) = do
  table ← get_table (pcbs q).pid tables
  load_new_tables tables (set_segments_table pcbs q table) qs

-- What the last answer of the memory does to the process. A base is the pointer to the text of the message.
unfoldable pub segment_answer :
    (List ℕ → ℕ) → Files → ℕ → Instruction → Option Package → Option Files
segment_answer allocate s p sent none = some s
segment_answer allocate s p sent (some answer) =
    if answer.type == compact_request
    then some s
    else if answer.type == out_of_memory
    then some (with_pcbs s (set_state s.kernel.pcbs p exit_process))
    else if answer.type == message_ok
    then (do
      base ← deserialize_message answer
      s_id ← get_elem? sent.args 0
      offset ← get_elem? sent.args 1
      some (
          with_pcbs s (
            set_segments_table s.kernel.pcbs p (
              (s.kernel.pcbs p).execution_context.segments_table
              ++ (record {
                base = allocate base;
                offset = int_bits (atoi offset);
                s_id = int_bits (atoi s_id);
              }
                  ∷ [])))))
    else some s

module _ (string_itoa : ℤ → List ℕ) (allocate : List ℕ → ℕ) (malloc : ℕ → ℕ → ℕ) {W : Type 0}
    (ask : W → Instruction → Option Package × W) (drain : Files → W → Files × W) where
  -- The answer to MEM_COMPACT_ALL, and the request once more.
  unfoldable pub compacted : Files → W → ℕ → Instruction → Option Package → Option (Files × W)
  compacted s w p sent none = some (s, w)
  compacted s w p sent (some compact_package) = do
    tables ← deserialize_all_segments_tables malloc compact_package
    pcbs ← load_new_tables tables s.kernel.pcbs s.kernel.active_pcbs
    let (answer, w') = ask w sent
    s' ← segment_answer allocate (with_pcbs s pcbs) p sent answer
    some (s', w')

  -- The first answer: the memory may have to be compacted first.
  unfoldable pub create_answer : Files → W → ℕ → Instruction → Option Package → Option (Files × W)
  create_answer s w p sent none = some (s, w)
  create_answer s w p sent (some answer) =
      if answer.type == compact_request
      then (let (s', w') = drain s w in
          let (compact_package, w'') = ask w' (instruction_new mem_compact_all) in
          compacted s' w'' p sent compact_package)
      else (do s' ← segment_answer allocate s p sent (some answer); some (s', w))

  -- `case CREATE_SEGMENT`
  unfoldable pub handle_create_segment : Files → W → ℕ → Instruction → Option (Files × W)
  handle_create_segment s w p request =
      let sent = memory_request string_itoa s p mem_create_segment request in
      let (answer, w') = ask w sent in create_answer s w' p sent answer

  -- `case DELETE_SEGMENT`: whatever the answer is, only the log differs.
  unfoldable pub handle_delete_segment : Files → W → ℕ → Instruction → Files × W
  handle_delete_segment s w p request =
      (s, (ask w (memory_request string_itoa s p mem_delete_segment request)).1)

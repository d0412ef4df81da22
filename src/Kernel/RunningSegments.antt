-- ===== src/Kernel/RunningSegments.antt =====
-- The segment requests of kernel/src/kernel.c and the schedulers make no process run.
use tp_so_tuki.Common.{
  ℕ, refl, List, [], ◌∷◌, Option, none, some, get_elem?, ◌==◌, Ensures, Ensures->>=, Ensures-any,
  Ensures-if, Ensures-weaken, ℤ,
}
use tp_so_tuki.Package.{Package, message_ok}
use tp_so_tuki.Serializer.{Instruction}
use tp_so_tuki.Memory.State.{Segment}
use tp_so_tuki.Kernel.State.{exit_process, Pcb, is_exec}
use tp_so_tuki.Kernel.Files.{Files, with_pcbs}
use tp_so_tuki.Kernel.LongTerm.{set_segments_table}
use tp_so_tuki.Kernel.Running.{Quiet, Quiet-trans, set_state-Quiet, set_segments_table-Quiet}
use tp_so_tuki.Serializer.AllSegments.{get_table, deserialize_all_segments_tables}
use tp_so_tuki.Serializer.{deserialize_message}
use tp_so_tuki.OpCode.MemoryOp.{out_of_memory, compact_request}
use tp_so_tuki.Kernel.RunningFiles.{QuietFiles}
use tp_so_tuki.Kernel.SegmentRequests.{
  load_new_tables, segment_answer, compacted, create_answer, handle_create_segment,
}

load_new_tables-Quiet :
    (tables : List (ℕ × List Segment)) (pcbs : ℕ → Pcb) (qs : List ℕ)
    → Ensures (Quiet pcbs) (load_new_tables tables pcbs qs)
unfolding load_new_tables
load_new_tables-Quiet tables pcbs [] = λ q h. h
load_new_tables-Quiet tables pcbs (q ∷ qs) =
    Ensures-any (Quiet pcbs) (get_table (pcbs q).pid tables) _ (λ table.
      Ensures-weaken (Quiet (set_segments_table pcbs q table)) (Quiet pcbs)
        (load_new_tables tables (set_segments_table pcbs q table) qs)
        (λ after h.
          Quiet-trans pcbs (set_segments_table pcbs q table) after
            (set_segments_table-Quiet pcbs q table) h)
        (load_new_tables-Quiet tables (set_segments_table pcbs q table) qs))

segment_answer-Quiet :
    (allocate : List ℕ → ℕ) (s : Files) (p : ℕ) (sent : Instruction) (answer : Option Package)
    → Ensures (λ s'. Quiet s.kernel.pcbs s'.kernel.pcbs) (segment_answer allocate s p sent answer)
unfolding segment_answer is_exec
segment_answer-Quiet allocate s p sent none = λ q h. h
segment_answer-Quiet allocate s p sent (some answer) =
    let Q = λ (s' : Files). Quiet s.kernel.pcbs s'.kernel.pcbs in
    Ensures-if Q (answer.type == compact_request) _ _ (λ q h. h)
      (Ensures-if Q (answer.type == out_of_memory) _ _
        (set_state-Quiet s.kernel.pcbs p exit_process refl)
        (Ensures-if Q (answer.type == message_ok) _ _
          (Ensures-any Q (deserialize_message answer) _ (λ base.
            Ensures-any Q (get_elem? sent.args 0) _ (λ s_id.
              Ensures-any Q (get_elem? sent.args 1) _
                (λ offset. set_segments_table-Quiet s.kernel.pcbs p _))))
          (λ q h. h)))

module _ (string_itoa : ℤ → List ℕ) (allocate : List ℕ → ℕ) (malloc : ℕ → ℕ → ℕ) {W : Type 0}
    (ask : W → Instruction → Option Package × W) (drain : Files → W → Files × W)
    (drain-Quiet : (s : Files) (w : W) → QuietFiles s (drain s w)) where
  compacted-Quiet :
      (s : Files) (w : W) (p : ℕ) (sent : Instruction) (answer : Option Package)
      → Ensures (QuietFiles s) (compacted string_itoa allocate malloc ask drain s w p sent answer)
  unfolding compacted
  compacted-Quiet s w p sent none = λ q h. h
  compacted-Quiet s w p sent (some compact_package) =
      Ensures-any (QuietFiles s) (deserialize_all_segments_tables malloc compact_package) _
        (λ tables.
          Ensures->>= (Quiet s.kernel.pcbs) (QuietFiles s)
            (load_new_tables tables s.kernel.pcbs s.kernel.active_pcbs) _
            (load_new_tables-Quiet tables s.kernel.pcbs s.kernel.active_pcbs)
            (λ pcbs h.
              Ensures->>= (λ (s' : Files). Quiet pcbs s'.kernel.pcbs) (QuietFiles s)
                (segment_answer allocate (with_pcbs s pcbs) p sent (ask w sent).0) _
                (segment_answer-Quiet allocate (with_pcbs s pcbs) p sent (ask w sent).0)
                (λ s' h'. Quiet-trans s.kernel.pcbs pcbs s'.kernel.pcbs h h')))

  create_answer-Quiet :
      (s : Files) (w : W) (p : ℕ) (sent : Instruction) (answer : Option Package)
      → Ensures
          (QuietFiles s)
          (create_answer string_itoa allocate malloc ask drain s w p sent answer)
  unfolding create_answer
  create_answer-Quiet s w p sent none = λ q h. h
  create_answer-Quiet s w p sent (some answer) =
      Ensures-if (QuietFiles s) (answer.type == compact_request) _ _
        (Ensures-weaken (QuietFiles (drain s w).0) (QuietFiles s)
          (compacted string_itoa allocate malloc ask drain (drain s w).0 _ p sent _)
          (λ r h.
            Quiet-trans s.kernel.pcbs (drain s w).0.kernel.pcbs r.0.kernel.pcbs (drain-Quiet s w) h)
          (compacted-Quiet (drain s w).0 _ p sent _))
        (Ensures->>= (λ (s' : Files). Quiet s.kernel.pcbs s'.kernel.pcbs) (QuietFiles s)
          (segment_answer allocate s p sent (some answer)) _
          (segment_answer-Quiet allocate s p sent (some answer)) (λ s' h. h))

  pub handle_create_segment-Quiet :
      (s : Files) (w : W) (p : ℕ) (request : Instruction)
      → Ensures
          (QuietFiles s)
          (handle_create_segment string_itoa allocate malloc ask drain s w p request)
  unfolding handle_create_segment
  handle_create_segment-Quiet s w p request = create_answer-Quiet s _ p _ _

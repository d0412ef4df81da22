-- ===== src/Kernel/OneRunning.antt =====
-- At most one process runs: the loop of `main` of kernel/src/kernel.c keeps that no process runs between
-- two rounds.
use tp_so_tuki.Common.{
  ℕ, ◌≡◌, refl, Bool, true, false, List, Option, none, some, get_elem?, ◌==◌, ◌||◌, Ensures,
  Ensures->>=, Ensures-any, Ensures-if, Bool-cases, ℤ, inl, inr, subst, sym, ==_iff,
}
use tp_so_tuki.Package.{Package}
use tp_so_tuki.Serializer.{Instruction}
use tp_so_tuki.OpCode.{
  f_read, f_write, f_truncate, f_seek, create_segment, i_o, wait, signal, f_open, f_close,
  delete_segment, exit, yield,
}
use tp_so_tuki.Cpu.Execute.{ExecutionContext}
use tp_so_tuki.Kernel.State.{exec, block, exit_process, Pcb, Kernel, set_state, is_exit, is_exec}
use tp_so_tuki.Kernel.Resources.{handle_signal, handle_exit, handle_i_o, requeue}
use tp_so_tuki.Kernel.Schedule.{short_term_scheduler}
use tp_so_tuki.Kernel.LongTerm.{long_term_schedule}
use tp_so_tuki.Kernel.Files.{
  Files, with_pcbs, handle_close, handle_seek, handle_truncate, handle_transfer,
}
use tp_so_tuki.Kernel.SegmentRequests.{handle_delete_segment}
use tp_so_tuki.Kernel.Round.{
  with_kernel, set_context, clear_request, handle_request, handle_returned, finish_round, returned,
  scheduled, kernel_round,
}
use tp_so_tuki.Kernel.Running.{
  Quiet, set_state-Quiet, set_context-Quiet, handle_yield-Quiet, handle_wait-Quiet,
  handle_signal-Quiet,
}
use tp_so_tuki.Kernel.RunningFiles.{
  QuietFiles, handle_close-Quiet, handle_seek-Quiet, handle_transfer-Quiet, handle_open-Quiet,
}
use tp_so_tuki.Kernel.RunningSegments.{handle_create_segment-Quiet}
use tp_so_tuki.Kernel.RunningSchedule.{
  QuietKernel, long_term_schedule-Quiet, short_term_scheduler-Quiet,
}

-- No process runs, and no process but `p` does.
unfoldable pub Idle : (ℕ → Pcb) → Type 0
Idle pcbs = (q : ℕ) → is_exec (pcbs q).state ≡ false

unfoldable pub OnlyRuns : ℕ → (ℕ → Pcb) → Type 0
OnlyRuns p pcbs = (q : ℕ) → (q == p) ≡ false → is_exec (pcbs q).state ≡ false

-- What holds after a round: if the loop goes on, no process runs, and if the CPU is gone, at most one.
unfoldable pub AtMostOneRuns : {W : Type 0} → Bool × Files × W → Type 0
AtMostOneRuns (true, s, w) = Idle s.kernel.pcbs
AtMostOneRuns (false, s, w) = (p : ℕ) × OnlyRuns p s.kernel.pcbs

OnlyRuns-Quiet : (p : ℕ) (a b : ℕ → Pcb) → OnlyRuns p a → Quiet a b → OnlyRuns p b
unfolding OnlyRuns
OnlyRuns-Quiet p a b h e q d = e q (h q d)

set_state-OnlyRuns : (pcbs : ℕ → Pcb) (p : ℕ) → Idle pcbs → OnlyRuns p (set_state pcbs p exec)
unfolding Idle OnlyRuns set_state
set_state-OnlyRuns pcbs p h q d = rw d (h q)

requeue-Idle : (k : Kernel) (p : ℕ) → OnlyRuns p k.pcbs → Idle (requeue k p).pcbs
unfolding Idle OnlyRuns requeue set_state is_exec
requeue-Idle k p h q = elim (Bool-cases (is_exec (k.pcbs p).state)) [
  | inl e ↦ rw e (elim (Bool-cases (q == p)) [ inl b ↦ rw b refl | inr b ↦ rw b (h q b) ])
  | inr e ↦ rw e (elim (Bool-cases (q == p)) [
    | inl b ↦ subst (λ r. is_exec (k.pcbs r).state ≡ false) (sym ((==_iff q p).0 b)) e
    | inr b ↦ h q b
  ])
]

module _ (string_itoa : ℤ → List ℕ) (allocate : List ℕ → ℕ) (malloc : ℕ → ℕ)
    (table_malloc : ℕ → ℕ → ℕ) (first_estimate : ℕ → ℤ) (next_estimate : ℤ → ℕ → ℤ)
    (current_time : ℤ) (response_ratio : ℤ → Pcb → ℕ) {W : Type 0}
    (ask_memory ask_files : W → Instruction → Option Package × W) (tell : W → ℕ → W)
    (cpu : W → ExecutionContext → Option ExecutionContext × W) (drain : Files → W → Files × W)
    (drain-Quiet : (s : Files) (w : W) → QuietFiles s (drain s w)) where
  handle_request-Quiet :
      (s : Files) (w : W) (p : ℕ) (r : Instruction)
      → Ensures (QuietFiles {W = W} s) (
          handle_request string_itoa allocate malloc table_malloc first_estimate next_estimate
            current_time response_ratio ask_memory ask_files tell cpu drain s w p r)
  unfolding handle_request handle_exit handle_i_o is_exec handle_truncate handle_delete_segment
  handle_request-Quiet s w p r =
      let Q = λ (t : Files × W). Quiet s.kernel.pcbs t.0.kernel.pcbs in
      Ensures-if Q (r.op_code == i_o) _ _
        (Ensures-any Q (get_elem? r.args 0) _ (λ time. set_state-Quiet s.kernel.pcbs p block refl))
        (Ensures-if Q (r.op_code == f_open) _ _ (handle_open-Quiet ask_files s w p r) (
          Ensures-if Q (r.op_code == f_close) _ _
            (Ensures->>= (λ (s' : Files). Quiet s.kernel.pcbs s'.kernel.pcbs) Q (handle_close s p r)
              _ (handle_close-Quiet s p r) (λ s' h. h))
            (Ensures-if Q (r.op_code == f_seek) _ _
              (Ensures->>= (λ (s' : Files). Quiet s.kernel.pcbs s'.kernel.pcbs) Q
                (handle_seek s p r) _ (handle_seek-Quiet s p r) (λ s' h. h))
              (Ensures-if Q (r.op_code == f_truncate) _ _ (λ q h. h)
                (Ensures-if Q (r.op_code == f_read || r.op_code == f_write) _ _
                  (Ensures->>= (λ (s' : Files). Quiet s.kernel.pcbs s'.kernel.pcbs) Q
                    (handle_transfer string_itoa s p r) _ (handle_transfer-Quiet string_itoa s p r)
                    (λ s' h. h))
                  (Ensures-if Q (r.op_code == create_segment) _ _
                    (handle_create_segment-Quiet string_itoa allocate table_malloc ask_memory drain
                      drain-Quiet s w p r)
                    (Ensures-if Q (r.op_code == delete_segment) _ _ (λ q h. h)
                      (Ensures-if Q (r.op_code == yield) _ _
                        (handle_yield-Quiet first_estimate next_estimate s.kernel p)
                        (Ensures-if Q (r.op_code == wait) _ _
                          (Ensures-any Q (get_elem? r.args 0) _
                            (λ name. handle_wait-Quiet s.kernel p name))
                          (Ensures-if Q (r.op_code == signal) _ _
                            (Ensures-any Q (get_elem? r.args 0) _ (λ name.
                              Ensures->>= (λ (k : Kernel). Quiet s.kernel.pcbs k.pcbs) Q
                                (handle_signal s.kernel p name) _
                                (handle_signal-Quiet s.kernel p name) (λ k h. h)))
                            (Ensures-if Q (r.op_code == exit) _ _
                              (set_state-Quiet s.kernel.pcbs p exit_process refl)
                              (λ q h. h))))))))))))

  handle_returned-Quiet :
      (s : Files) (w : W) (p : ℕ) (r : Option Instruction)
      → Ensures (QuietFiles {W = W} s) (
          handle_returned string_itoa allocate malloc table_malloc first_estimate next_estimate
            current_time response_ratio ask_memory ask_files tell cpu drain s w p r)
  unfolding handle_returned
  handle_returned-Quiet s w p none = λ q h. h
  handle_returned-Quiet s w p (some r) = handle_request-Quiet s w p r

  clear_request-OnlyRuns :
      (pcbs : ℕ → Pcb) (p : ℕ) → OnlyRuns p pcbs → OnlyRuns p (clear_request pcbs p)
  unfolding clear_request
  clear_request-OnlyRuns pcbs p h =
      OnlyRuns-Quiet p pcbs (clear_request pcbs p) h (set_context-Quiet pcbs p _)

  finish_round-Idle :
      (s : Files) (w : W) (p : ℕ)
      → OnlyRuns p s.kernel.pcbs
      → Ensures
          (λ (r : Files × W). Idle r.0.kernel.pcbs)
          (finish_round string_itoa allocate malloc table_malloc first_estimate next_estimate
            current_time response_ratio ask_memory ask_files tell cpu drain s w p)
  unfolding finish_round Idle
  finish_round-Idle s w p h =
      let k = record s.kernel { pcbs = clear_request s.kernel.pcbs p } in
      let idle = requeue-Idle k p (clear_request-OnlyRuns s.kernel.pcbs p h) in
      Ensures-if (λ (r : Files × W). Idle r.0.kernel.pcbs) (is_exit ((requeue k p).pcbs p).state) _
        _
        (Ensures->>= (QuietKernel (requeue k p)) (λ (r : Files × W). Idle r.0.kernel.pcbs)
          (long_term_schedule string_itoa malloc ask_memory tell (requeue k p) w) _
          (long_term_schedule-Quiet string_itoa malloc ask_memory tell (requeue k p) w)
          (λ r e q. e q (idle q)))
        idle

  returned-AtMostOneRuns :
      (s : Files) (w : W) (p : ℕ) (answer : Option ExecutionContext)
      → OnlyRuns p s.kernel.pcbs
      → Ensures (AtMostOneRuns {W = W}) (
          returned string_itoa allocate malloc table_malloc first_estimate next_estimate
            current_time response_ratio ask_memory ask_files tell cpu drain s w p answer)
  unfolding returned AtMostOneRuns
  returned-AtMostOneRuns s w p none h = (p, h)
  returned-AtMostOneRuns s w p (some ec) h =
      let s0 = with_pcbs s (set_context s.kernel.pcbs p ec) in
      Ensures->>= (QuietFiles s0) (AtMostOneRuns {W = W}) _ _
        (handle_returned-Quiet s0 w p ec.kernel_request)
        (λ r e.
          Ensures->>= (λ (t : Files × W). Idle t.0.kernel.pcbs) (AtMostOneRuns {W = W}) _ _
            (finish_round-Idle r.0 r.1 p (
              OnlyRuns-Quiet p s0.kernel.pcbs r.0.kernel.pcbs
                (OnlyRuns-Quiet p s.kernel.pcbs s0.kernel.pcbs h
                  (set_context-Quiet s.kernel.pcbs p ec))
                e))
            (λ t e'. e'))

  scheduled-AtMostOneRuns :
      (s : Files) (w : W) (next : Kernel × Option ℕ)
      → Idle next.0.pcbs
      → Ensures (AtMostOneRuns {W = W}) (
          scheduled string_itoa allocate malloc table_malloc first_estimate next_estimate
            current_time response_ratio ask_memory ask_files tell cpu drain s w next)
  unfolding scheduled AtMostOneRuns
  scheduled-AtMostOneRuns s w (k, none) h = h
  scheduled-AtMostOneRuns s w (k, some p) h =
      returned-AtMostOneRuns (with_kernel s (record k { pcbs = set_state k.pcbs p exec })) _ p _
        (set_state-OnlyRuns k.pcbs p h)

  -- Let no process run before a round of the loop of `main`, and let `drain` make none run. Whatever the
  -- memory, the file system and the CPU answer, if the round neither aborts nor reads through NULL,
  -- none runs after it when the loop goes on, and at most one does when the loop ends since the CPU
  -- cannot be reached.
  pub kernel_round-AtMostOneRuns :
      (s : Files) (w : W)
      → Idle s.kernel.pcbs
      → Ensures (AtMostOneRuns {W = W}) (
          kernel_round string_itoa allocate malloc table_malloc first_estimate next_estimate
            current_time response_ratio ask_memory ask_files tell cpu drain s w)
  unfolding kernel_round Idle
  kernel_round-AtMostOneRuns s w h =
      Ensures->>= (QuietKernel s.kernel) (AtMostOneRuns {W = W})
        (short_term_scheduler current_time response_ratio s.kernel) _
        (short_term_scheduler-Quiet current_time response_ratio s.kernel)
        (λ next e. scheduled-AtMostOneRuns s w next (λ q. e q (h q)))

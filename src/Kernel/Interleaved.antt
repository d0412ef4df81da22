-- ===== src/Kernel/Interleaved.antt =====
-- The threads of the kernel as steps that follow each other in any order: a round of the loop of `main`
-- (kernel/src/kernel.c), and the ends of `handle_pcb_io`, `handle_fs` and `handle_new_process`
-- (kernel/src/handler_pcb.c). Each handler is one step, as if it were not interrupted.
use tp_so_tuki.Common.{
  ℕ, ◌≡◌, refl, true, List, [], ◌∷◌, Option, none, some, ◌==◌, ◌||◌, ℤ, inl, inr, subst, Ensures,
  Ensures->>=, Ensures-any, Ensures-if, Bool-cases,
}
use tp_so_tuki.Package.{Package, message_ok}
use tp_so_tuki.Serializer.{Instruction, deserialize_instructions}
use tp_so_tuki.OpCode.{f_read, f_write}
use tp_so_tuki.Memory.State.{update}
use tp_so_tuki.Cpu.Execute.{ExecutionContext}
use tp_so_tuki.Kernel.State.{ready, Pcb, Kernel, is_exec, pcb_new}
use tp_so_tuki.Kernel.Resources.{handle_pcb_io}
use tp_so_tuki.Kernel.LongTerm.{long_term_schedule}
use tp_so_tuki.Kernel.Files.{Files, FileInstruction, transfer_answer, fs_round, handle_fs, strings}
use tp_so_tuki.Kernel.Round.{with_kernel, kernel_round}
use tp_so_tuki.Kernel.NewProcess.{
  Sends, accepted, enqueue_new, receive_instructions, handle_new_process,
}
use tp_so_tuki.Kernel.Running.{Quiet, Quiet-trans, set_state-Quiet}
use tp_so_tuki.Kernel.RunningFiles.{QuietFiles}
use tp_so_tuki.Kernel.RunningSchedule.{QuietKernel, long_term_schedule-Quiet}
use tp_so_tuki.Kernel.OneRunning.{Idle, AtMostOneRuns, kernel_round-AtMostOneRuns}

transfer_answer-Quiet :
    (s : Files) (p : ℕ) (answer : Option Package)
    → Quiet s.kernel.pcbs (transfer_answer s p answer).kernel.pcbs
unfolding transfer_answer is_exec
transfer_answer-Quiet s p none = λ q h. h
transfer_answer-Quiet s p (some answer) = elim (Bool-cases (answer.type == message_ok)) [
  | inl e ↦ rw e (set_state-Quiet s.kernel.pcbs p ready refl)
  | inr e ↦ rw e (λ q h. h)
]

enqueue_new-Quiet :
    (k : Kernel) (place unset pid : ℕ) (now burst : ℤ) (is : List Instruction)
    → Quiet k.pcbs (enqueue_new k place (pcb_new unset now pid burst) is).pcbs
unfolding enqueue_new pcb_new is_exec update
enqueue_new-Quiet k place unset pid now burst is q h = elim (Bool-cases (q == place)) [
  | inl b ↦ rw b refl
  | inr b ↦ rw b h
]

module _ {W : Type 0} (ask : W → Instruction → Option Package × W) where
  fs_round-Quiet :
      (s : Files) (w : W) (fi : FileInstruction) → Ensures (QuietFiles s) (fs_round ask s w fi)
  unfolding fs_round
  fs_round-Quiet s w fi =
      Ensures-if (QuietFiles s) (fi.op_code == f_read || fi.op_code == f_write) _ _
        (Ensures-any (QuietFiles s) (strings fi.args) _ (λ args. transfer_answer-Quiet s fi.pcb _))
        (λ q h. h)

  handle_fs_parts-Quiet :
      (k : Kernel) (g : List (List ℕ × List ℕ)) (fis : List FileInstruction) (w : W)
      → Ensures
          (λ (r : Files × W). Quiet k.pcbs r.0.kernel.pcbs)
          (handle_fs ask (record { kernel = k; global_files = g; file_instructions = fis }) w)
  unfolding handle_fs
  handle_fs_parts-Quiet k g [] w = λ q h. h
  handle_fs_parts-Quiet k g (fi ∷ rest) w =
      fs_round-Quiet (record { kernel = k; global_files = g; file_instructions = rest }) w fi

  handle_fs-Quiet : (s : Files) (w : W) → Ensures (QuietFiles s) (handle_fs ask s w)
  handle_fs-Quiet s w = handle_fs_parts-Quiet s.kernel s.global_files s.file_instructions w

module _ {W : Type 0} (long_term : Kernel → W → Option (Kernel × W))
    (long_term-Quiet : (k : Kernel) (w : W) → Ensures (QuietKernel k) (long_term k w))
    (sends : Sends) (welcome invalid : List ℕ) (k : Kernel) (w : W) (place unset pid : ℕ)
    (now burst : ℤ) where
  abbrev QuietReplies : List Package × Kernel × W → Type 0
  QuietReplies r = Quiet k.pcbs r.1.pcbs

  receive_instructions-Quiet :
      (received : Option Package)
      → Ensures QuietReplies (
          receive_instructions long_term sends welcome invalid k w place
            (pcb_new unset now pid burst)
            received)
  unfolding receive_instructions
  receive_instructions-Quiet none = λ q h. h
  receive_instructions-Quiet (some p) =
      Ensures-if QuietReplies (accepted sends p) _ _
        (Ensures-any QuietReplies (deserialize_instructions p _) _ (λ is.
          let k1 = enqueue_new k place (pcb_new unset now pid burst) is in
          Ensures->>= (QuietKernel k1) QuietReplies (long_term k1 w) _ (long_term-Quiet k1 w)
            (λ r e.
              Quiet-trans k.pcbs k1.pcbs r.0.pcbs (enqueue_new-Quiet k place unset pid now burst is)
                e)))
        (λ q h. h)

  handle_new_process-Quiet :
      (received : Option Package)
      → Ensures QuietReplies (
          handle_new_process long_term sends welcome invalid k w place
            (pcb_new unset now pid burst)
            received)
  unfolding handle_new_process
  handle_new_process-Quiet received =
      Ensures-if QuietReplies sends.welcome _ _ (receive_instructions-Quiet received) (λ q h. h)

Quiet-result : {A : Type 0} (P : A → Type 0) (m : Option A) (a : A) → Ensures P m → m ≡ some a → P a
Quiet-result P m a h e = subst (Ensures P) e h

module _ (string_itoa : ℤ → List ℕ) (allocate : List ℕ → ℕ) (malloc : ℕ → ℕ)
    (table_malloc : ℕ → ℕ → ℕ) (first_estimate : ℕ → ℤ) (next_estimate : ℤ → ℕ → ℤ)
    (response_ratio : ℤ → Pcb → ℕ) {W : Type 0}
    (ask_memory ask_files : W → Instruction → Option Package × W) (tell : W → ℕ → W)
    (cpu : W → ExecutionContext → Option ExecutionContext × W) (drain : Files → W → Files × W) where
  -- One handler of one thread, and the world outside may have changed since the last.
  pub data Step : Files → Files → Type 0 where
    round :
        (now : ℤ) (s s' : Files) (w w' : W)
        → (kernel_round string_itoa allocate malloc table_malloc first_estimate next_estimate now
              response_ratio ask_memory ask_files tell cpu drain s w
            ≡ some (true, s', w'))
        → Step s s'
    io_done : (s : Files) (p : ℕ) → Step s (with_kernel s (handle_pcb_io s.kernel p))
    file_done : (s s' : Files) (w w' : W) → (handle_fs ask_files s w ≡ some (s', w')) → Step s s'
    console :
        (sends : Sends) (welcome invalid : List ℕ) (s : Files) (k : Kernel) (w w' : W)
        (place unset pid : ℕ) (now burst : ℤ) (received : Option Package) (sent : List Package)
        → (handle_new_process
              (long_term_schedule string_itoa malloc ask_memory tell)
              sends
              welcome
              invalid
              s.kernel
              w
              place
              (pcb_new unset now pid burst)
              received
            ≡ some (sent, k, w'))
        → Step s (with_kernel s k)

  pub data Steps : Files → Files → Type 0 where
    done : (s : Files) → Steps s s
    then_step : (s t u : Files) → Steps s t → Step t u → Steps s u

  module _ (drain-Quiet : (s : Files) (w : W) → QuietFiles s (drain s w)) where
    Step-Idle : (s s' : Files) → Step s s' → Idle s.kernel.pcbs → Idle s'.kernel.pcbs
    unfolding Idle AtMostOneRuns handle_pcb_io is_exec
    Step-Idle s s' (round now _ _ w w' e) h =
        Quiet-result (AtMostOneRuns {W = W}) _ (true, s', w')
          (kernel_round-AtMostOneRuns string_itoa allocate malloc table_malloc first_estimate
            next_estimate now response_ratio ask_memory ask_files tell cpu drain drain-Quiet s w h)
          e
    Step-Idle s _ (io_done _ p) h = λ q. set_state-Quiet s.kernel.pcbs p ready refl q (h q)
    Step-Idle s s' (file_done _ _ w w' e) h =
        λ q. Quiet-result (QuietFiles s) _ (s', w') (handle_fs-Quiet ask_files s w) e q (h q)
    Step-Idle s _ (console sends welcome invalid _ k w w' place unset pid now burst received sent e)
          h =
        λ q.
          Quiet-result (λ (r : List Package × Kernel × W). Quiet s.kernel.pcbs r.1.pcbs) _
            (sent, k, w')
            (handle_new_process-Quiet (long_term_schedule string_itoa malloc ask_memory tell)
              (long_term_schedule-Quiet string_itoa malloc ask_memory tell) sends welcome invalid
              s.kernel w place unset pid now burst received)
            e q (h q)

    -- Let no process run at the start, and let `drain` make none run. After any sequence of handlers of
    -- the threads that return, in any order, and whatever the memory, the file system, the consoles and
    -- the CPU answer, no process runs.
    pub Steps-Idle : (s s' : Files) → Idle s.kernel.pcbs → Steps s s' → Idle s'.kernel.pcbs
    Steps-Idle s _ h (done _) = h
    Steps-Idle s u h (then_step _ t _ before step) = Step-Idle t u step (Steps-Idle s t h before)

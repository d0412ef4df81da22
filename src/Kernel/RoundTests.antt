-- ===== src/Kernel/RoundTests.antt =====
-- A process that yields, over a CPU that returns its context with the request, and a console that sends one
-- instruction.
use tp_so_tuki.Common.{
  ◌>>=◌, ◌⊎◌, ℕ, suc, ◌≡◌, refl, true, false, List, [], ◌∷◌, Option, none, some, ℤ, pos, Ensures,
  arith,
}
use tp_so_tuki.Package.{Package}
use tp_so_tuki.Package.Bytes.{le_bytes}
use tp_so_tuki.Serializer.{Instruction, serialize_message, serialize_instructions}
use tp_so_tuki.Serializer.Arguments.{IsInstruction}
use tp_so_tuki.OpCode.{codes, exit, yield}
use tp_so_tuki.Cpu.Execute.{ExecutionContext}
use tp_so_tuki.Kernel.State.{
  exec, ready, Pcb, Kernel, pcb_new, set_state, is_exec, is_exit, pcb_is_ready, is_ready,
}
use tp_so_tuki.Kernel.Resources.{handle_pcb_io, requeue}
use tp_so_tuki.Kernel.Schedule.{short_term_scheduler, pick_with_fifo, remove_ready}
use tp_so_tuki.Kernel.Files.{Files}
use tp_so_tuki.Kernel.Round.{
  with_kernel, set_context, clear_request, handle_yield, handle_request, handle_returned,
  finish_round, returned, scheduled, kernel_round,
}
use tp_so_tuki.Kernel.NewProcess.{Sends, handle_new_process}
use tp_so_tuki.Kernel.OneRunning.{Idle, AtMostOneRuns, kernel_round-AtMostOneRuns}
use tp_so_tuki.Kernel.Interleaved.{Steps, round, io_done, done, then_step, Steps-Idle}
use tp_so_tuki.Kernel.Consoles.{Born, handle_new_process-serialize_instructions}

abbrev pcbs : ℕ → Pcb
pcbs p = record (pcb_new 0 (pos 0) p (pos 10)) { state = ready }

abbrev files : Files
files = record {
  kernel = record {
    pcbs = pcbs;
    new_pcbs = [];
    active_pcbs = 0 ∷ [];
    resources = [];
    algorithm_is_hrrn = false;
    max_multiprogramming = 4;
    prioritized_pcb = none;
  };
  global_files = [];
  file_instructions = [];
}

abbrev give_up : ExecutionContext → ExecutionContext
give_up ec = record ec { kernel_request = some (record { op_code = yield; args = [] }) }

abbrev cpu : ℕ → ExecutionContext → Option ExecutionContext × ℕ
cpu w ec = (some (give_up ec), suc w)

abbrev silent : ℕ → Instruction → Option Package × ℕ
silent w i = (none, w)

abbrev tell : ℕ → ℕ → ℕ
tell w pid = w

abbrev drain : Files → ℕ → Files × ℕ
drain s w = (s, w)

abbrev no_text : ℤ → List ℕ
no_text n = []

abbrev allocate : List ℕ → ℕ
allocate text = 0

abbrev malloc : ℕ → ℕ
malloc n = n

abbrev table_malloc : ℕ → ℕ → ℕ
table_malloc n m = n

abbrev first_estimate : ℕ → ℤ
first_estimate burst = pos burst

abbrev next_estimate : ℤ → ℕ → ℤ
next_estimate last burst = last

abbrev ratio : ℤ → Pcb → ℕ
ratio now pcb = suc pcb.pid

files-Idle : Idle files.kernel.pcbs
unfolding Idle is_exec pcb_new
files-Idle q = refl

kernel_round-AtMostOneRuns_example : Ensures AtMostOneRuns (
    kernel_round no_text allocate malloc table_malloc first_estimate next_estimate
      (pos 9)
      ratio
      silent
      silent
      tell
      cpu
      drain
      files
      0)
kernel_round-AtMostOneRuns_example =
    kernel_round-AtMostOneRuns no_text allocate malloc table_malloc first_estimate next_estimate
      (pos 9) ratio silent silent tell cpu drain (λ s w q h. h) files 0 files-Idle

abbrev returned_pcbs : ℕ → Pcb
returned_pcbs = set_context (set_state pcbs 0 exec) 0 (give_up (pcbs 0).execution_context)

abbrev yielded : Files
yielded =
    with_kernel files
      (requeue (record files.kernel { active_pcbs = []; pcbs = clear_request returned_pcbs 0 }) 0)

-- The process yields, and then another's wait for its input or output ends.
two-Steps :
    Steps no_text allocate malloc table_malloc first_estimate next_estimate ratio silent silent tell
      cpu drain files
      (with_kernel yielded (handle_pcb_io yielded.kernel 1))
unfolding kernel_round short_term_scheduler pick_with_fifo scheduled returned handle_returned
    handle_request handle_yield finish_round requeue clear_request set_context set_state
    pcb_is_ready is_ready is_exit is_exec pcb_new remove_ready
two-Steps =
    then_step files yielded _
      (then_step files files yielded (done files) (round (pos 9) files yielded 0 1 refl))
      (io_done yielded 1)

Steps-Idle_example : Idle (handle_pcb_io yielded.kernel 1).pcbs
Steps-Idle_example =
    Steps-Idle no_text allocate malloc table_malloc first_estimate next_estimate ratio silent silent
      tell cpu drain (λ s w q h. h) files (with_kernel yielded (handle_pcb_io yielded.kernel 1))
      files-Idle two-Steps

abbrev exit_now : Instruction
exit_now = record { op_code = exit; args = [] }

exit_now-IsInstruction : IsInstruction exit_now
exit_now-IsInstruction = record { op_fits = omega arith; texts = tt; args_fit = omega arith }

abbrev keep : Kernel → ℕ → Option (Kernel × ℕ)
keep k w = some (k, suc w)

abbrev all_sent : Sends
all_sent = record { welcome = true; invalid = true; received = true }

handle_new_process-serialize_instructions_example :
    (result : Option (List Package × Kernel × ℕ)) × (handle_new_process keep all_sent
        (codes "hola")
        []
        files.kernel
        0
        7
        (pcb_new 0 (pos 0) 5 (pos 10))
        (some (serialize_instructions (exit_now ∷ []) false))
      ≡ result)
    × (((all_sent.welcome ≡ true)
          × (all_sent.received ≡ true)
          × ((k' : Kernel) × Born files.kernel 7 5 (exit_now ∷ []) k'
              × (result ≡ (
                  keep k' 0 >>= λ r. some (
                    serialize_message (codes "hola") true
                        ∷ serialize_message (codes "Instrucciones recibidas") false
                        ∷ [],
                    r.0,
                    r.1,
                  )))))
        ⊎ (((all_sent.welcome ≡ true)
              × (all_sent.received ≡ false)
              × (result
                  ≡ some (
                    serialize_message (codes "hola") true
                        ∷ serialize_message (codes "Instrucciones recibidas") false
                        ∷ [],
                    files.kernel,
                    0,
                  )))
            ⊎ ((all_sent.welcome ≡ false)
                × (result ≡ some (serialize_message (codes "hola") true ∷ [], files.kernel, 0)))))
unfolding le_bytes
handle_new_process-serialize_instructions_example =
    handle_new_process-serialize_instructions keep all_sent (codes "hola") [] files.kernel 0 7 0 5
      (pos 0) (pos 10) (exit_now ∷ []) (exit_now-IsInstruction, tt) (omega arith)

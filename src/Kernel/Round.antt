-- ===== src/Kernel/Round.antt =====
-- The loop of `main` of kernel/src/kernel.c, round by round: a PCB is scheduled, its context goes to the CPU
-- and comes back with a request, the request is handled, and the PCB goes back to the queue. `ask_memory`
-- and `ask_files` stand for a message to the memory module and to the file system and the answer, `cpu`
-- for a burst of the CPU, `none` if a socket fails, all over the state `W` of whatever is outside. The
-- outer `none` is a read through NULL or an `abort`.
use tp_so_tuki.Common.{
  ℕ, true, false, Bool, List, Option, none, some, get_elem?, ◌==◌, ◌||◌, if◌then◌else◌, ◌>>=◌, ℤ,
}
use tp_so_tuki.Package.{Package}
use tp_so_tuki.Serializer.{Instruction}
use tp_so_tuki.OpCode.{
  f_read, f_write, f_truncate, f_seek, create_segment, i_o, wait, signal, f_open, f_close,
  delete_segment, exit, yield,
}
use tp_so_tuki.Cpu.Execute.{ExecutionContext}
use tp_so_tuki.Kernel.State.{exec, Pcb, Kernel, set_state, is_exit}
use tp_so_tuki.Kernel.Resources.{handle_wait, handle_signal, handle_exit, handle_i_o, requeue}
use tp_so_tuki.Kernel.Schedule.{short_term_scheduler}
use tp_so_tuki.Kernel.LongTerm.{long_term_schedule}
use tp_so_tuki.Kernel.Files.{
  Files, with_pcbs, handle_open, handle_close, handle_seek, handle_truncate, handle_transfer,
}
use tp_so_tuki.Kernel.SegmentRequests.{handle_create_segment, handle_delete_segment}

abbrev pub with_kernel : Files → Kernel → Files
with_kernel s k = record s { kernel = k }

-- `pcb->execution_context = ...`
unfoldable pub set_context : (ℕ → Pcb) → ℕ → ExecutionContext → ℕ → Pcb
set_context pcbs p ec q = if q == p then record (pcbs q) { execution_context = ec } else pcbs q

unfoldable pub set_estimate : (ℕ → Pcb) → ℕ → ℤ → ℕ → Pcb
set_estimate pcbs p estimate q =
    if q == p then record (pcbs q) { aprox_burst_time = estimate } else pcbs q

-- `kernel_request = NULL`
unfoldable pub clear_request : (ℕ → Pcb) → ℕ → ℕ → Pcb
clear_request pcbs p =
    set_context pcbs p (record (pcbs p).execution_context { kernel_request = none })

-- `case YIELD`: the two estimates are the `float` expressions of the code, cut to an `int`, over the last
-- burst and, for the second, the last estimate.
unfoldable pub handle_yield : (ℕ → ℤ) → (ℤ → ℕ → ℤ) → Kernel → ℕ → Kernel
handle_yield first_estimate next_estimate k p =
    let burst = (k.pcbs p).execution_context.last_burst_time in
    if k.algorithm_is_hrrn
    then record k {
      pcbs = set_estimate k.pcbs p (
          if (k.pcbs p).last_burst_time == 0
          then first_estimate burst
          else next_estimate (k.pcbs p).aprox_burst_time burst);
    }
    else k

module _ (string_itoa : ℤ → List ℕ) (allocate : List ℕ → ℕ) (malloc : ℕ → ℕ)
    (table_malloc : ℕ → ℕ → ℕ) (first_estimate : ℕ → ℤ) (next_estimate : ℤ → ℕ → ℤ)
    (current_time : ℤ) (response_ratio : ℤ → Pcb → ℕ) {W : Type 0}
    (ask_memory ask_files : W → Instruction → Option Package × W) (tell : W → ℕ → W)
    (cpu : W → ExecutionContext → Option ExecutionContext × W) (drain : Files → W → Files × W) where
  -- The switch over the request of process `p`.
  unfoldable pub handle_request : Files → W → ℕ → Instruction → Option (Files × W)
  handle_request s w p r =
      if r.op_code == i_o
      then (do time ← get_elem? r.args 0; some (with_kernel s (handle_i_o s.kernel p), w))
      else if r.op_code == f_open
      then handle_open ask_files s w p r
      else if r.op_code == f_close
      then (do s' ← handle_close s p r; some (s', w))
      else if r.op_code == f_seek
      then (do s' ← handle_seek s p r; some (s', w))
      else if r.op_code == f_truncate
      then some (handle_truncate ask_files s w r)
      else if r.op_code == f_read || r.op_code == f_write
      then (do s' ← handle_transfer string_itoa s p r; some (s', w))
      else if r.op_code == create_segment
      then handle_create_segment string_itoa allocate table_malloc ask_memory drain s w p r
      else if r.op_code == delete_segment
      then some (handle_delete_segment string_itoa allocate table_malloc ask_memory drain s w p r)
      else if r.op_code == yield
      then some (with_kernel s (handle_yield first_estimate next_estimate s.kernel p), w)
      else if r.op_code == wait
      then (do name ← get_elem? r.args 0; some (with_kernel s (handle_wait s.kernel p name), w))
      else if r.op_code == signal
      then (do
        name ← get_elem? r.args 0
        k ← handle_signal s.kernel p name
        some (with_kernel s k, w))
      else if r.op_code == exit
      then some (with_kernel s (handle_exit s.kernel p), w)
      else some (s, w)

  unfoldable pub handle_returned : Files → W → ℕ → Option Instruction → Option (Files × W)
  handle_returned s w p none = some (s, w)
  handle_returned s w p (some r) = handle_request s w p r

  -- The end of the round; a process that ends lets the long-term scheduler run.
  unfoldable pub finish_round : Files → W → ℕ → Option (Files × W)
  finish_round s w p =
      let k = requeue (record s.kernel { pcbs = clear_request s.kernel.pcbs p }) p in
      if is_exit (k.pcbs p).state
      then (do
        (k', w') ← long_term_schedule string_itoa malloc ask_memory tell k w
        some (with_kernel s k', w'))
      else some (with_kernel s k, w)

  -- What follows the burst: the loop ends, with `false`, if the CPU cannot be reached.
  unfoldable pub returned : Files → W → ℕ → Option ExecutionContext → Option (Bool × Files × W)
  returned s w p none = some (false, s, w)
  returned s w p (some ec) = do
    (s', w') ← handle_returned (with_pcbs s (set_context s.kernel.pcbs p ec)) w p ec.kernel_request
    (s'', w'') ← finish_round s' w' p
    some (true, s'', w'')

  -- Without a PCB to run, the loop goes on after a sleep.
  unfoldable pub scheduled : Files → W → Kernel × Option ℕ → Option (Bool × Files × W)
  scheduled s w (k, none) = some (true, with_kernel s k, w)
  scheduled s w (k, some p) =
      let (answer, w') = cpu w (k.pcbs p).execution_context in
      returned (with_kernel s (record k { pcbs = set_state k.pcbs p exec })) w' p answer

  unfoldable pub kernel_round : Files → W → Option (Bool × Files × W)
  kernel_round s w = do
    next ← short_term_scheduler current_time response_ratio s.kernel
    scheduled s w next

-- ===== src/Cpu/Cycle.antt =====
-- The loop of `main` in cpu/src/cpu.c, between the arrival of a context and its way back.
use tp_so_tuki.Common.{ℕ, zero, suc, ◌+◌, ◌%◌, ◌^◌, List, Option, none, some, ◌>>=◌, ℤ}
use tp_so_tuki.Serializer.{Instruction, instruction_new}
use tp_so_tuki.OpCode.{exit}
use tp_so_tuki.Package.{Package}
use tp_so_tuki.Cpu.Execute.{ExecutionContext, fetch, decode, execute}

-- A burst ends with a request to the kernel, or the CPU faults, or the rounds do not suffice.
pub data Burst (W : Type 0) : Type 0 where
  done : ExecutionContext → W → Burst W
  fault : Burst W
  out_of_rounds : Burst W

unfoldable pub next : ExecutionContext → ExecutionContext
next ec = record ec { program_counter = (ec.program_counter + 1) % 2 ^ 32 }

module _ (max_segment_size : ℕ) (string_itoa : ℤ → List ℕ) {W : Type 0}
    (ask : W → Instruction → Option Package × W) where
  -- One instruction, when there is one.
  unfoldable pub round : Instruction → ExecutionContext → W → Option (ExecutionContext × W)
  round instruction ec w = do
    pa ← decode max_segment_size instruction ec
    (ec', w') ← execute string_itoa ask instruction ec pa w
    some (next ec', w')

  -- `while (context->kernel_request == NULL)`
  unfoldable pub run_burst : ℕ → ExecutionContext → W → Burst W
  run_burst zero ec w = out_of_rounds
  run_burst (suc fuel) ec w = elim ec.kernel_request [
    | some r ↦ done ec w
    | none ↦ elim (fetch ec) [
      | none ↦ done (record ec { kernel_request = some (instruction_new exit) }) w
      | some instruction ↦ elim (round instruction ec w) [
        | none ↦ fault
        | some next_state ↦ run_burst fuel next_state.0 next_state.1
      ]
    ]
  ]

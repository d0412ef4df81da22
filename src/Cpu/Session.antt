-- ===== src/Cpu/Session.antt =====
-- A round of the loop of `main` in cpu/src/cpu.c over the socket of the kernel: a package comes in, and one
-- goes out. `elapsed` is what the clock of the burst shows, `invalid` the text for a package of another type,
-- and `unset` what the struct holds that `deserialize_execution_context` allocates.
use tp_so_tuki.Common.{ℕ, true, List, Option, none, some, ◌==◌, if◌then◌else◌, ℤ}
use tp_so_tuki.Package.{Package, execution_context}
use tp_so_tuki.Serializer.{Instruction, serialize_message}
use tp_so_tuki.Serializer.Context.{serialize_execution_context, deserialize_execution_context}
use tp_so_tuki.Cpu.Execute.{ExecutionContext}
use tp_so_tuki.Cpu.Cycle.{Burst, done, fault, out_of_rounds, run_burst}

-- What the kernel sees of a round.
pub data Reply (W : Type 0) : Type 0 where
  answered : Package → W → Reply W
  refused : Package → W → Reply W
  hung_up : W → Reply W
  crashed : Reply W
  unfinished : Reply W

-- The clock is read after the burst, and the context goes back.
unfoldable pub send_back : {W : Type 0} → (ℤ → List ℕ) → ℕ → Burst W → Reply W
send_back string_itoa elapsed (done ec w) =
    answered (serialize_execution_context string_itoa (record ec { last_burst_time = elapsed })) w
send_back string_itoa elapsed fault = crashed
send_back string_itoa elapsed out_of_rounds = unfinished

module _ (max_segment_size : ℕ) (string_itoa : ℤ → List ℕ) (malloc : ℕ → ℕ) {W : Type 0}
    (ask : W → Instruction → Option Package × W) where
  -- The burst of a context that has arrived; the outer `none` is a fault, the inner one a NULL that is read.
  unfoldable pub run_context : ℕ → ℕ → W → Option (Option ExecutionContext) → Reply W
  run_context fuel elapsed w none = crashed
  run_context fuel elapsed w (some none) = crashed
  run_context fuel elapsed w (some (some ec)) =
      send_back string_itoa elapsed
        (run_burst max_segment_size string_itoa ask fuel (record ec { kernel_request = none }) w)

  unfoldable pub serve : ℕ → ℕ → List ℕ → ExecutionContext → W → Option Package → Reply W
  serve fuel elapsed invalid unset w none = hung_up w
  serve fuel elapsed invalid unset w (some p) =
      if p.type == execution_context
      then run_context fuel elapsed w (deserialize_execution_context malloc unset p)
      else refused (serialize_message invalid true) w

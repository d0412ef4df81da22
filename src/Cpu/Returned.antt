-- ===== src/Cpu/Returned.antt =====
-- A burst of the CPU as the kernel sees it, over the wire both ways.
use tp_so_tuki.Common.{ℕ, ◌≡◌, refl, ap, subst, true, List, Option, none, some, ◌==◌, ℤ}
use tp_so_tuki.Package.{Package, execution_context}
use tp_so_tuki.Serializer.{Instruction}
use tp_so_tuki.Serializer.Context.{serialize_execution_context, deserialize_execution_context}
use tp_so_tuki.Serializer.ContextEcho.{
  IsContext, arrived, serialize_execution_context-type,
  deserialize_execution_context-serialize_execution_context,
}
use tp_so_tuki.Cpu.Execute.{ExecutionContext}
use tp_so_tuki.Cpu.Cycle.{done, run_burst}
use tp_so_tuki.Cpu.KeptBurst.{SameProcess, BurstKeeps, run_burst-BurstKeeps}
use tp_so_tuki.Cpu.Session.{answered, send_back, run_context, serve}

module _ (max_segment_size : ℕ) (string_itoa : ℤ → List ℕ) (cpu_malloc kernel_malloc : ℕ → ℕ)
    {W : Type 0} (ask : W → Instruction → Option Package × W) where
  -- The kernel sends a context that can be sent, and the burst that starts from it as it arrives, without
  -- its request, ends with a context that can be sent, too. Then the CPU answers with one package, in
  -- which the kernel finds exactly the context at the end of the burst, with the time that it took, but
  -- for the bases of its segments, which are new allocations. The process id and the instructions are
  -- those that the kernel sent, and the segments that the CPU sends back are those that reached it.
  pub serve-returned :
      (fuel elapsed : ℕ) (invalid : List ℕ) (unset unset' ec ec' : ExecutionContext) (w w' : W)
      → IsContext string_itoa cpu_malloc ec
      → run_burst max_segment_size string_itoa ask fuel
          (record (arrived string_itoa cpu_malloc ec) { kernel_request = none })
          w
        ≡ done ec' w'
      → IsContext string_itoa kernel_malloc (record ec' { last_burst_time = elapsed })
      → (reply : Package) × (serve max_segment_size string_itoa cpu_malloc ask fuel elapsed invalid
            unset w
            (some (serialize_execution_context string_itoa ec))
          ≡ answered reply w')
        × (deserialize_execution_context kernel_malloc unset' reply
            ≡ some (
                some
                  (arrived string_itoa kernel_malloc (record ec' { last_burst_time = elapsed }))))
        × SameProcess (arrived string_itoa cpu_malloc ec) ec'
  unfolding serve run_context send_back
  serve-returned fuel elapsed invalid unset unset' ec ec' w w' v b v' = (
    serialize_execution_context string_itoa (record ec' { last_burst_time = elapsed }),
    rw
        (
          sent,
          deserialize_execution_context-serialize_execution_context string_itoa cpu_malloc unset ec
              v,
          b,
        )
        refl,
    deserialize_execution_context-serialize_execution_context string_itoa kernel_malloc unset'
        (record ec' { last_burst_time = elapsed }) v',
    subst (BurstKeeps (arrived string_itoa cpu_malloc ec)) b (
        run_burst-BurstKeeps max_segment_size string_itoa ask fuel
          (record (arrived string_itoa cpu_malloc ec) { kernel_request = none }) w),
  )
    where
      sent : ((serialize_execution_context string_itoa ec).type == execution_context) ≡ true
      sent =
          ap (λ t. t == execution_context)
            (serialize_execution_context-type string_itoa cpu_malloc ec v)

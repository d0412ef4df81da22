-- ===== src/Kernel/Consoles.antt =====
-- What a console sends (consola/src/consola.c, `serialize_instructions`) is what `handle_new_process` of
-- kernel/src/handler_pcb.c enqueues.
use tp_so_tuki.Common.{
  ℕ, ◌≡◌, ◌≢◌, refl, ap, ◌⊎◌, inl, inr, ◌<◌, ◌^◌, All, length, true, false, List, [], ◌∷◌, ◌++◌,
  Option, none, some, ◌==◌, ◌>>=◌, Bool-cases, ℤ,
}
use tp_so_tuki.Package.{Package, instructions}
use tp_so_tuki.Serializer.{Instruction, serialize_message, serialize_instructions}
use tp_so_tuki.OpCode.{codes}
use tp_so_tuki.Kernel.State.{new, Pcb, Kernel, pcb_new, execution_context_new}
use tp_so_tuki.Memory.Blocks.{update_self, update_ne}
use tp_so_tuki.Kernel.NewProcess.{
  Sends, accepted, replies, enqueue_new, receive_instructions, handle_new_process,
}
use tp_so_tuki.Serializer.Arguments.{IsInstruction}
use tp_so_tuki.Serializer.Instructions.{
  encode_instructions, serialize_instructions-type, deserialize_instructions-serialize_instructions,
}

-- The kernel with one new process more, which is to run the instructions from the first one on.
pub record Born (k : Kernel) (place pid : ℕ) (is : List Instruction) (k' : Kernel) : Type 0 where
  pub queued : k'.new_pcbs ≡ k.new_pcbs ++ (place ∷ [])
  pub state : (k'.pcbs place).state ≡ new
  pub pid_set : ((k'.pcbs place).pid ≡ pid) × ((k'.pcbs place).execution_context.pid ≡ pid)
  pub program : (k'.pcbs place).execution_context.instructions ≡ is
  pub counter : (k'.pcbs place).execution_context.program_counter ≡ 0
  pub segments : (k'.pcbs place).execution_context.segments_table ≡ []
  pub request : (k'.pcbs place).execution_context.kernel_request ≡ none
  pub others : (q : ℕ) → q ≢ place → k'.pcbs q ≡ k.pcbs q
  pub active : k'.active_pcbs ≡ k.active_pcbs
  pub resources : k'.resources ≡ k.resources
  pub prioritized : k'.prioritized_pcb ≡ k.prioritized_pcb
  pub algorithm : k'.algorithm_is_hrrn ≡ k.algorithm_is_hrrn
  pub limit : k'.max_multiprogramming ≡ k.max_multiprogramming

enqueue_new-Born :
    (k : Kernel) (place unset pid : ℕ) (now burst : ℤ) (is : List Instruction)
    → Born k place pid is (enqueue_new k place (pcb_new unset now pid burst) is)
unfolding enqueue_new pcb_new execution_context_new
enqueue_new-Born k place unset pid now burst is = record {
  queued = refl;
  state = ap (λ (p : Pcb). p.state) (update_self k.pcbs place _);
  pid_set = (
    ap (λ (p : Pcb). p.pid) (update_self k.pcbs place _),
    ap (λ (p : Pcb). p.execution_context.pid) (update_self k.pcbs place _),
  );
  program = ap (λ (p : Pcb). p.execution_context.instructions) (update_self k.pcbs place _);
  counter = ap (λ (p : Pcb). p.execution_context.program_counter) (update_self k.pcbs place _);
  segments = ap (λ (p : Pcb). p.execution_context.segments_table) (update_self k.pcbs place _);
  request = ap (λ (p : Pcb). p.execution_context.kernel_request) (update_self k.pcbs place _);
  others = λ q n. update_ne k.pcbs place _ q n;
  active = refl;
  resources = refl;
  prioritized = refl;
  algorithm = refl;
  limit = refl;
}

-- Let a console send instructions that fit their package and its size field. If the welcome of the kernel
-- and its message that they were received can be sent, those two are its messages, and the long-term
-- scheduler runs on a kernel whose new processes end with the new one: in state NEW, with exactly these
-- instructions, and about to run the first. Nothing else of the kernel has changed, and only the
-- scheduler can fault. If one of the two cannot be sent, it is the last message, and the kernel stays as
-- it was.
pub handle_new_process-serialize_instructions :
    {W : Type 0} (long_term : Kernel → W → Option (Kernel × W)) (sends : Sends)
    (greeting invalid : List ℕ) (k : Kernel) (w : W) (place unset pid : ℕ) (now burst : ℤ)
    (is : List Instruction)
    → All IsInstruction is
    → length (encode_instructions is) < 2 ^ 64
    → (result : Option (List Package × Kernel × W)) × (handle_new_process long_term sends greeting
          invalid k w place
          (pcb_new unset now pid burst)
          (some (serialize_instructions is false))
        ≡ result)
      × (((sends.welcome ≡ true)
            × (sends.received ≡ true)
            × ((k' : Kernel) × Born k place pid is k'
                × (result ≡ (
                    long_term k' w >>= λ r. some (
                      serialize_message greeting true
                          ∷ serialize_message (codes "Instrucciones recibidas") false
                          ∷ [],
                      r.0,
                      r.1,
                    )))))
          ⊎ (((sends.welcome ≡ true)
                × (sends.received ≡ false)
                × (result
                    ≡ some (
                      serialize_message greeting true
                          ∷ serialize_message (codes "Instrucciones recibidas") false
                          ∷ [],
                      k,
                      w,
                    )))
              ⊎ ((sends.welcome ≡ false)
                  × (result ≡ some (serialize_message greeting true ∷ [], k, w)))))
unfolding handle_new_process receive_instructions accepted replies pcb_new execution_context_new
handle_new_process-serialize_instructions long_term sends greeting invalid k w place unset pid now
      burst is v h =
    (
      _,
      refl,
      elim (Bool-cases sends.welcome) [
        | inr e ↦ inr (inr (e, rw e refl))
        | inl e ↦ elim (Bool-cases sends.received) [
          | inr e' ↦ inr (inl (e, e', rw (e, sent, e') refl))
          | inl e' ↦ inl (
            e,
            e',
            (
              enqueue_new k place (pcb_new unset now pid burst) is,
              enqueue_new-Born k place unset pid now burst is,
              rw (e, sent, e', deserialize_instructions-serialize_instructions is [] false v h)
                  refl,
            ),
          )
        ]
      ],
    )
  where
    sent : ((serialize_instructions is false).type == instructions) ≡ true
    sent = ap (λ t. t == instructions) (serialize_instructions-type is false v h)

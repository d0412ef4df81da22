-- ===== src/Kernel/NewProcess.antt =====
-- `handle_new_process` of kernel/src/handler_pcb.c: a console sends its instructions. `receive` is what comes
-- from the console, `none` if it disconnects, and `sends` tells for each of the three messages to it
-- whether it could be sent; `welcome` and `invalid` are the texts that `string_from_format` makes. The
-- PCB `pcb_new` that was made stands at a free place of the store. `long_term` is the long-term scheduler.
use tp_so_tuki.Common.{
  ℕ, true, false, Bool, List, [], ◌∷◌, ◌++◌, Option, none, some, ◌==◌, if◌then◌else◌, ◌>>=◌, ◌&&◌,
  ◌||◌,
}
use tp_so_tuki.Package.{Package, instructions}
use tp_so_tuki.Serializer.{Instruction, serialize_message, deserialize_instructions}
use tp_so_tuki.OpCode.{codes}
use tp_so_tuki.Memory.State.{update}
use tp_so_tuki.Kernel.State.{Pcb, Kernel}

-- Whether each of the three messages to a console can be sent.
pub record Sends : Type 0 where
  pub welcome : Bool
  pub invalid : Bool
  pub received : Bool

-- A package of another type is answered by a flaw, and read as instructions all the same.
unfoldable pub accepted : Sends → Package → Bool
accepted sends p = (p.type == instructions || sends.invalid) && sends.received

-- The messages to the console, in order, up to the one that could not be sent.
unfoldable pub replies : Sends → List ℕ → List ℕ → Package → List Package
replies sends welcome invalid p =
    serialize_message welcome true
    ∷ (if p.type == instructions
        then serialize_message (codes "Instrucciones recibidas") false ∷ []
        else serialize_message invalid true
          ∷ (if sends.invalid
              then serialize_message (codes "Instrucciones recibidas") false ∷ []
              else []))

-- The PCB joins the new ones.
unfoldable pub enqueue_new : Kernel → ℕ → Pcb → List Instruction → Kernel
enqueue_new k place pcb is = record k {
  pcbs =
      update k.pcbs place
        (record pcb { execution_context = record pcb.execution_context { instructions = is } });
  new_pcbs = k.new_pcbs ++ (place ∷ []);
}

module _ {W : Type 0} (long_term : Kernel → W → Option (Kernel × W)) where
  -- What follows the package of the console: the messages, and the kernel. `none` is a fault.
  unfoldable pub receive_instructions :
      Sends
      → List ℕ
      → List ℕ
      → Kernel
      → W
      → ℕ
      → Pcb
      → Option Package
      → Option (List Package × Kernel × W)
  receive_instructions sends welcome invalid k w place pcb none =
      some (serialize_message welcome true ∷ [], k, w)
  receive_instructions sends welcome invalid k w place pcb (some p) =
      if accepted sends p
      then (do
        is ← deserialize_instructions p pcb.execution_context.instructions
        (k', w') ← long_term (enqueue_new k place pcb is) w
        some (replies sends welcome invalid p, k', w'))
      else some (replies sends welcome invalid p, k, w)

  unfoldable pub handle_new_process :
      Sends
      → List ℕ
      → List ℕ
      → Kernel
      → W
      → ℕ
      → Pcb
      → Option Package
      → Option (List Package × Kernel × W)
  handle_new_process sends welcome invalid k w place pcb received =
      if sends.welcome
      then receive_instructions sends welcome invalid k w place pcb received
      else some (serialize_message welcome true ∷ [], k, w)

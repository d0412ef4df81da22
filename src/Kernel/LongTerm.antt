-- ===== src/Kernel/LongTerm.antt =====
-- `long_term_schedule` of kernel/src/scheduler.c. `string_itoa` is the commons library's; `ask` stands
-- for a message to the memory module and its answer, and `tell` for the closing message to a console,
-- over the state `W` of whatever is outside. The logs and the mutex are left out; a PCB that is
-- destroyed keeps its place in the store, and nothing points to it from a queue it was taken from.
use tp_so_tuki.Common.{
  ℕ, Bool, true, false, List, [], ◌∷◌, ◌++◌, map, length, Option, none, some, ltb, ◌==◌,
  if◌then◌else◌, ◌>>=◌, ℤ,
}
use tp_so_tuki.Package.{Package}
use tp_so_tuki.Serializer.{Instruction}
use tp_so_tuki.Serializer.SegmentTables.{deserialize_segment_table}
use tp_so_tuki.Memory.State.{Segment}
use tp_so_tuki.OpCode.MemoryOp.{mem_init_process, mem_end_process, ok_instruction, segments_table}
use tp_so_tuki.Cpu.Execute.{to_int}
use tp_so_tuki.Kernel.State.{ready, Pcb, Resource, Kernel, set_state, is_exit}
use tp_so_tuki.Kernel.Resources.{resource_signal}

-- The loop over `resource_list`: `j` rises after a removal too, so that the next pointer is passed over.
unfoldable pub remove_waiting : ℕ → List ℕ → List ℕ
remove_waiting p [] = []
remove_waiting p (q ∷ []) = if q == p then [] else (q ∷ [])
remove_waiting p (q ∷ x ∷ xs) =
    let passed = remove_waiting p xs in
    let next = remove_waiting p (x ∷ xs) in if q == p then x ∷ passed else (q ∷ next)

unfoldable pub is_assigned : ℕ → Option ℕ → Bool
is_assigned p none = false
is_assigned p (some q) = q == p

-- The loop over the resources.
unfoldable pub free_resources :
    (ℕ → Pcb) → ℕ → List (List ℕ × Resource) → Option ((ℕ → Pcb) × List (List ℕ × Resource))
free_resources pcbs p [] = some (pcbs, [])
free_resources pcbs p ((name, r) ∷ rest) = do
  (pcbs', r') ← (if is_assigned p r.assigned_to then resource_signal pcbs r else some (pcbs, r))
  (pcbs'', rest') ← free_resources pcbs' p rest
  some (
    pcbs'',
    (name, record r' { enqueued_processes = remove_waiting p r'.enqueued_processes }) ∷ rest',
  )

unfoldable pub process_message : (ℤ → List ℕ) → ℕ → ℕ → Instruction
process_message string_itoa op pid = record { op_code = op; args = string_itoa (to_int pid) ∷ [] }

unfoldable pub set_segments_table : (ℕ → Pcb) → ℕ → List Segment → ℕ → Pcb
set_segments_table pcbs p table q =
    if q == p
    then record (pcbs q) {
      execution_context = record (pcbs q).execution_context { segments_table = table };
    }
    else pcbs q

module _ (string_itoa : ℤ → List ℕ) (malloc : ℕ → ℕ) {W : Type 0}
    (ask : W → Instruction → Option Package × W) (tell : W → ℕ → W) where
  -- A finished process: its console, its resources, its segments. `none` is `abort`.
  unfoldable pub end_process : Kernel → W → ℕ → Option (Kernel × W)
  end_process k w p = do
    (pcbs, resources) ← free_resources k.pcbs p k.resources
    let (answer, w') =
        ask (tell w (k.pcbs p).pid) (process_message string_itoa mem_end_process (k.pcbs p).pid)
    reply ← answer
    (if reply.type == ok_instruction
        then (do
          table ← deserialize_segment_table malloc reply
          some (record k { pcbs = pcbs; resources = resources }, w'))
        else none)

  -- The loop over the active PCBs that `actives` lists, and those that are left of them: `i` rises after
  -- a removal too, so that the next PCB is passed over.
  unfoldable pub remove_finished : Kernel → W → List ℕ → Option (Kernel × W × List ℕ)
  remove_finished k w [] = some (k, w, [])
  remove_finished k w (p ∷ []) = elim (is_exit (k.pcbs p).state) [
    | true ↦ (end_process k w p >>= λ s. some (s.0, s.1, []))
    | false ↦ some (k, w, p ∷ [])
  ]
  remove_finished k w (p ∷ q ∷ rest) = elim (is_exit (k.pcbs p).state) [
    | true ↦ (do
      (k', w') ← end_process k w p
      (k'', w'', rest') ← remove_finished k' w' rest
      some (k'', w'', q ∷ rest'))
    | false ↦ (do (k', w', rest') ← remove_finished k w (q ∷ rest); some (k', w', p ∷ rest'))
  ]

  -- A new process is admitted under the degree of multiprogramming.
  unfoldable pub admit : Kernel → W → Option (Kernel × W)
  admit k w = elim k.new_pcbs [
    | [] ↦ some (k, w)
    | p ∷ waiting ↦
        if ltb (length k.active_pcbs) k.max_multiprogramming
        then (let (answer, w') =
              ask w (process_message string_itoa mem_init_process (k.pcbs p).pid) in
            answer >>= λ reply.
            (if reply.type == segments_table
              then (do
                table ← deserialize_segment_table malloc reply
                some (
                  record k {
                    pcbs =
                        set_segments_table (set_state k.pcbs p ready) p
                          (map (λ (e : Segment × ℕ). e.0) table);
                    new_pcbs = waiting;
                    active_pcbs = k.active_pcbs ++ (p ∷ []);
                  },
                  w',
                ))
              else none))
        else some (k, w)
  ]

  unfoldable pub long_term_schedule : Kernel → W → Option (Kernel × W)
  long_term_schedule k w = do
    (k', w', active) ← remove_finished k w k.active_pcbs
    admit (record k' { active_pcbs = active }) w'

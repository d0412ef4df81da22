-- ===== src/Kernel/Running.antt =====
-- No handler of kernel/src/kernel.c, and neither scheduler of kernel/src/scheduler.c, makes a process run.
use tp_so_tuki.Common.{
  ℕ, ◌≡◌, refl, ap, ◌∙◌, inl, inr, Bool, true, false, List, [], ◌∷◌, Option, none, some, ◌==◌,
  Ensures, Ensures->>=, Ensures-weaken, Bool-cases, Option-cases, ℤ, arith,
}
use tp_so_tuki.Memory.State.{Segment}
use tp_so_tuki.Cpu.Execute.{ExecutionContext}
use tp_so_tuki.Kernel.State.{
  ProcessState, ready, block, exit_process, Pcb, Resource, Kernel, dictionary_get, set_state,
  is_exec,
}
use tp_so_tuki.Kernel.Resources.{
  resource_get, resource_signal, resource_wait, grant, wait_found, handle_wait, signal_found,
  handle_signal,
}
use tp_so_tuki.Kernel.Files.{set_local_files}
use tp_so_tuki.Kernel.FileLock.{state-set_local_files}
use tp_so_tuki.Kernel.LongTerm.{set_segments_table}
use tp_so_tuki.Kernel.Round.{set_context, set_estimate, handle_yield}

-- A process that does not run before does not run after.
abbrev pub Quiet : (ℕ → Pcb) → (ℕ → Pcb) → Type 0
Quiet pcbs pcbs' = (q : ℕ) → is_exec (pcbs q).state ≡ false → is_exec (pcbs' q).state ≡ false

pub Quiet-trans : (a b c : ℕ → Pcb) → Quiet a b → Quiet b c → Quiet a c
Quiet-trans a b c f g q h = g q (f q h)

pub Quiet-same : (a b : ℕ → Pcb) → ((q : ℕ) → (b q).state ≡ (a q).state) → Quiet a b
Quiet-same a b e q h = ap is_exec (e q) ∙ h

pub set_state-Quiet :
    (pcbs : ℕ → Pcb) (p : ℕ) (state : ProcessState)
    → is_exec state ≡ false
    → Quiet pcbs (set_state pcbs p state)
unfolding set_state
set_state-Quiet pcbs p state e q h = elim (Bool-cases (q == p)) [ inl b ↦ rw b e | inr b ↦ rw b h ]

pub set_local_files-Quiet :
    (pcbs : ℕ → Pcb) (p : ℕ) (files : List (List ℕ × Option (List ℕ)))
    → Quiet pcbs (set_local_files pcbs p files)
set_local_files-Quiet pcbs p files =
    Quiet-same pcbs (set_local_files pcbs p files) (state-set_local_files pcbs p files)

pub set_segments_table-Quiet :
    (pcbs : ℕ → Pcb) (p : ℕ) (table : List Segment) → Quiet pcbs (set_segments_table pcbs p table)
unfolding set_segments_table
set_segments_table-Quiet pcbs p table =
    Quiet-same pcbs (set_segments_table pcbs p table) (λ q. ground arith)

pub set_context-Quiet :
    (pcbs : ℕ → Pcb) (p : ℕ) (ec : ExecutionContext) → Quiet pcbs (set_context pcbs p ec)
unfolding set_context
set_context-Quiet pcbs p ec = Quiet-same pcbs (set_context pcbs p ec) (λ q. ground arith)

pub handle_yield-Quiet :
    (first : ℕ → ℤ) (next : ℤ → ℕ → ℤ) (k : Kernel) (p : ℕ)
    → Quiet k.pcbs (handle_yield first next k p).pcbs
unfolding handle_yield set_estimate
handle_yield-Quiet first next k p =
    Quiet-same k.pcbs (handle_yield first next k p).pcbs (λ q. ground arith)

signal_parts-Quiet :
    (pcbs : ℕ → Pcb) (a : ℕ) (t : Option ℕ) (qs : List ℕ)
    → Ensures
        (λ (s : (ℕ → Pcb) × Resource). Quiet pcbs s.0)
        (resource_signal pcbs
          (record { available_instances = a; assigned_to = t; enqueued_processes = qs }))
unfolding resource_signal is_exec
signal_parts-Quiet pcbs a t (q ∷ rest) = set_state-Quiet pcbs q ready refl
signal_parts-Quiet pcbs a none [] = tt
signal_parts-Quiet pcbs a (some h) [] = λ q e. e

pub resource_signal-Quiet :
    (pcbs : ℕ → Pcb) (r : Resource)
    → Ensures (λ (s : (ℕ → Pcb) × Resource). Quiet pcbs s.0) (resource_signal pcbs r)
resource_signal-Quiet pcbs r =
    signal_parts-Quiet pcbs r.available_instances r.assigned_to r.enqueued_processes

resource_get-Quiet :
    (k : Kernel) (p : ℕ) (name : List ℕ) → Quiet k.pcbs (resource_get k p name).0.pcbs
unfolding resource_get is_exec
resource_get-Quiet k p name = elim (Option-cases (dictionary_get name k.resources)) [
  | inl e ↦ rw (e, resource_get) (set_state-Quiet k.pcbs p exit_process refl)
  | inr s ↦ rw (s.1, resource_get) (λ q h. h)
]

grant-Quiet :
    (k : Kernel) (p : ℕ) (name : List ℕ) (goes : Bool) (r : Resource)
    → Quiet k.pcbs (grant k p name goes r).pcbs
unfolding grant is_exec
grant-Quiet k p name true r = λ q h. h
grant-Quiet k p name false r = set_state-Quiet k.pcbs p block refl

wait_found-Quiet :
    (p : ℕ) (name : List ℕ) (found : Kernel × Option Resource)
    → Quiet found.0.pcbs (wait_found p name found).pcbs
unfolding wait_found
wait_found-Quiet p name (k, none) = λ q h. h
wait_found-Quiet p name (k, some r) =
    grant-Quiet k p name (resource_wait p r).0 (resource_wait p r).1

pub handle_wait-Quiet :
    (k : Kernel) (p : ℕ) (name : List ℕ) → Quiet k.pcbs (handle_wait k p name).pcbs
unfolding handle_wait
handle_wait-Quiet k p name =
    Quiet-trans k.pcbs (resource_get k p name).0.pcbs (handle_wait k p name).pcbs
      (resource_get-Quiet k p name) (wait_found-Quiet p name (resource_get k p name))

signal_found-Quiet :
    (p : ℕ) (name : List ℕ) (found : Kernel × Option Resource)
    → Ensures (λ k. Quiet found.0.pcbs k.pcbs) (signal_found p name found)
unfolding signal_found
signal_found-Quiet p name (k, none) = λ q h. h
signal_found-Quiet p name (k, some r) =
    Ensures->>= (λ (s : (ℕ → Pcb) × Resource). Quiet k.pcbs s.0) (λ k'. Quiet k.pcbs k'.pcbs)
      (resource_signal k.pcbs r) _ (resource_signal-Quiet k.pcbs r) (λ s h. h)

pub handle_signal-Quiet :
    (k : Kernel) (p : ℕ) (name : List ℕ)
    → Ensures (λ k'. Quiet k.pcbs k'.pcbs) (handle_signal k p name)
unfolding handle_signal
handle_signal-Quiet k p name =
    Ensures-weaken (λ k'. Quiet (resource_get k p name).0.pcbs k'.pcbs) (λ k'. Quiet k.pcbs k'.pcbs)
      (signal_found p name (resource_get k p name))
      (λ k' h.
        Quiet-trans k.pcbs (resource_get k p name).0.pcbs k'.pcbs (resource_get-Quiet k p name) h)
      (signal_found-Quiet p name (resource_get k p name))

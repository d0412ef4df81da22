-- ===== src/Kernel/Resources.antt =====
-- `resource_get` and `resource_signal` of kernel/src/kernel_utils.c, and what `main` of
-- kernel/src/kernel.c does for WAIT, SIGNAL, EXIT and I_O, and after every request. The logs
-- are left out, where they read no pointer.
use tp_so_tuki.Common.{
  ℕ, ◌+◌, ◌-◌, Bool, true, false, List, [], ◌∷◌, ◌++◌, Option, none, some, ltb, if◌then◌else◌,
  ◌>>=◌,
}
use tp_so_tuki.Kernel.State.{
  ready, block, exit_process, Pcb, Resource, Kernel, dictionary_get, dictionary_update, set_state,
  is_exec,
}

-- NULL is the answer for a resource that the configuration does not name; the process then ends.
unfoldable pub resource_get : Kernel → ℕ → List ℕ → Kernel × Option Resource
resource_get k p name = elim (dictionary_get name k.resources) [
  | none ↦ (record k { pcbs = set_state k.pcbs p exit_process }, none)
  | some r ↦ (k, some r)
]

-- The log line of an increment reads the process id through `assigned_to`: `none` where that is NULL.
unfoldable pub resource_signal : (ℕ → Pcb) → Resource → Option ((ℕ → Pcb) × Resource)
resource_signal pcbs r = elim r.enqueued_processes [
  | q ∷ rest ↦ some (
    set_state pcbs q ready,
    record {
      available_instances = r.available_instances;
      assigned_to = some q;
      enqueued_processes = rest;
    },
  )
  | [] ↦ elim r.assigned_to [
    | none ↦ none
    | some holder ↦ some (
      pcbs,
      record {
        available_instances = r.available_instances + 1;
        assigned_to = none;
        enqueued_processes = [];
      },
    )
  ]
]

-- What WAIT does with the resource it found: whether the process goes on, and the resource.
unfoldable pub resource_wait : ℕ → Resource → Bool × Resource
resource_wait p r = elim (ltb 0 r.available_instances) [
  | true ↦ (
    true,
    record {
      available_instances = r.available_instances - 1;
      assigned_to = some p;
      enqueued_processes = r.enqueued_processes;
    },
  )
  | false ↦ (false, record r { enqueued_processes = r.enqueued_processes ++ (p ∷ []) })
]

-- The branches of `case WAIT`, once the resource is looked up.
unfoldable pub grant : Kernel → ℕ → List ℕ → Bool → Resource → Kernel
grant k p name true r = record k {
  resources = dictionary_update name r k.resources;
  prioritized_pcb = some p;
}
grant k p name false r = record k {
  resources = dictionary_update name r k.resources;
  pcbs = set_state k.pcbs p block;
}

unfoldable pub wait_found : ℕ → List ℕ → Kernel × Option Resource → Kernel
wait_found p name (k, none) = k
wait_found p name (k, some r) = grant k p name (resource_wait p r).0 (resource_wait p r).1

-- `case WAIT`; the name is the argument `list_get(kernel_request->args, 0)`.
unfoldable pub handle_wait : Kernel → ℕ → List ℕ → Kernel
handle_wait k p name = wait_found p name (resource_get k p name)

unfoldable pub signal_found : ℕ → List ℕ → Kernel × Option Resource → Option Kernel
signal_found p name (k, none) = some k
signal_found p name (k, some r) = do
  (pcbs, r') ← resource_signal k.pcbs r
  some (record k {
    pcbs = pcbs;
    resources = dictionary_update name r' k.resources;
    prioritized_pcb = some p;
  })

-- `case SIGNAL`
unfoldable pub handle_signal : Kernel → ℕ → List ℕ → Option Kernel
handle_signal k p name = signal_found p name (resource_get k p name)

-- `case EXIT`
unfoldable pub handle_exit : Kernel → ℕ → Kernel
handle_exit k p = record k { pcbs = set_state k.pcbs p exit_process }

-- `case I_O` as far as the kernel goes: the process waits for `handle_pcb_io`.
unfoldable pub handle_i_o : Kernel → ℕ → Kernel
handle_i_o k p = record k { pcbs = set_state k.pcbs p block }

-- `handle_pcb_io`, after its sleep.
unfoldable pub handle_pcb_io : Kernel → ℕ → Kernel
handle_pcb_io k p = record k { pcbs = set_state k.pcbs p ready }

-- The end of a round: the PCB goes back to the queue, and one that was running is ready again.
unfoldable pub requeue : Kernel → ℕ → Kernel
requeue k p = record k {
  active_pcbs = k.active_pcbs ++ (p ∷ []);
  pcbs = if is_exec (k.pcbs p).state then set_state k.pcbs p ready else k.pcbs;
}

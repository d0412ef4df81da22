-- ===== src/Kernel/State.antt =====
-- `t_pcb`, `t_resource` and `t_global_config_kernel` of kernel/include/kernel_utils.h. A PCB is a
-- pointer into the store `pcbs`, so that the queues and the resources may share it. The socket, log and
-- mutex fields are left out; the instances of a resource are those of a configuration file, not negative.
use tp_so_tuki.Common.{
  ℕ, zero, suc, Bool, true, false, List, [], ◌∷◌, Option, none, some, ℤ, ◌==◌, if◌then◌else◌,
}
use tp_so_tuki.Cpu.Execute.{ExecutionContext}
use tp_so_tuki.OpCode.{str_eq}

-- `process_state`
pub data ProcessState : Type 0 where
  new ready exec block exit_process : ProcessState

-- A position in `local_files` is a string, or the NULL of a file that was never sought in.
pub record Pcb : Type 0 where
  pub pid : ℕ
  pub state : ProcessState
  pub aprox_burst_time : ℤ
  pub last_burst_time : ℕ
  pub last_ready_time : ℤ
  pub local_files : List (List ℕ × Option (List ℕ))
  pub execution_context : ExecutionContext

pub record Resource : Type 0 where
  pub available_instances : ℕ
  pub assigned_to : Option ℕ
  pub enqueued_processes : List ℕ

pub record Kernel : Type 0 where
  pub pcbs : ℕ → Pcb
  pub new_pcbs : List ℕ
  pub active_pcbs : List ℕ
  pub resources : List (List ℕ × Resource)
  pub algorithm_is_hrrn : Bool
  pub max_multiprogramming : ℕ
  pub prioritized_pcb : Option ℕ

-- `dictionary_get`, whose NULL is that of `dictionary_has_key`, and the new state of a value that is
-- there.
unfoldable pub dictionary_get {ℓ} : {A : Type ℓ} → List ℕ → List (List ℕ × A) → Option A
dictionary_get key [] = none
dictionary_get key ((k, v) ∷ rest) = if str_eq k key then some v else dictionary_get key rest

unfoldable pub dictionary_update {ℓ} :
    {A : Type ℓ} → List ℕ → A → List (List ℕ × A) → List (List ℕ × A)
dictionary_update key value [] = []
dictionary_update key value ((k, v) ∷ rest) =
    if str_eq k key then (k, value) ∷ rest else ((k, v) ∷ dictionary_update key value rest)

-- `dictionary_has_key`
unfoldable pub has_key {ℓ} : {A : Type ℓ} → List ℕ → List (List ℕ × A) → Bool
has_key key [] = false
has_key key ((k, v) ∷ rest) = if str_eq k key then true else has_key key rest

-- `dictionary_put`: the value of a key that is there is replaced.
unfoldable pub dictionary_put {ℓ} :
    {A : Type ℓ} → List ℕ → A → List (List ℕ × A) → List (List ℕ × A)
dictionary_put key value [] = (key, value) ∷ []
dictionary_put key value ((k, v) ∷ rest) =
    if str_eq k key then (k, value) ∷ rest else ((k, v) ∷ dictionary_put key value rest)

unfoldable pub dictionary_remove {ℓ} : {A : Type ℓ} → List ℕ → List (List ℕ × A) → List (List ℕ × A)
dictionary_remove key [] = []
dictionary_remove key ((k, v) ∷ rest) =
    let others = dictionary_remove key rest in if str_eq k key then others else ((k, v) ∷ others)

-- An assignment through a pointer to a PCB.
unfoldable pub set_state : (ℕ → Pcb) → ℕ → ProcessState → ℕ → Pcb
set_state pcbs p state q = if q == p then record (pcbs q) { state = state } else pcbs q

-- `pcb_is_ready`, and the tests against the other states.
unfoldable pub is_ready : ProcessState → Bool
is_ready ready = true
is_ready new = false
is_ready exec = false
is_ready block = false
is_ready exit_process = false

unfoldable pub is_exec : ProcessState → Bool
is_exec exec = true
is_exec new = false
is_exec ready = false
is_exec block = false
is_exec exit_process = false

unfoldable pub is_exit : ProcessState → Bool
is_exit exit_process = true
is_exit new = false
is_exit ready = false
is_exit exec = false
is_exit block = false

unfoldable pub pcb_is_ready : Pcb → Bool
pcb_is_ready pcb = is_ready pcb.state

-- `execution_context_new` and `pcb_new`; `now` is `time(NULL)`, and `unset` what the field holds that
-- `execution_context_new` does not set.
unfoldable pub zeros : ℕ → List ℕ
zeros zero = []
zeros (suc n) = 0 ∷ zeros n

unfoldable pub execution_context_new : ℕ → ℕ → ExecutionContext
execution_context_new unset pid = record {
  pid = pid;
  last_burst_time = unset;
  program_counter = 0;
  instructions = [];
  segments_table = [];
  cpu_register = record {
    ax = zeros 4;
    bx = zeros 4;
    cx = zeros 4;
    dx = zeros 4;
    eax = zeros 8;
    ebx = zeros 8;
    ecx = zeros 8;
    edx = zeros 8;
    rax = zeros 16;
    rbx = zeros 16;
    rcx = zeros 16;
    rdx = zeros 16;
  };
  kernel_request = none;
}

unfoldable pub pcb_new : ℕ → ℤ → ℕ → ℤ → Pcb
pcb_new unset now pid burst_time = record {
  pid = pid;
  state = new;
  aprox_burst_time = burst_time;
  last_burst_time = 0;
  last_ready_time = now;
  local_files = [];
  execution_context = execution_context_new unset pid;
}

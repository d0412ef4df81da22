-- ===== src/Kernel/Tests.antt =====
-- Three processes, of which the second is blocked, and a resource with two instances.
use tp_so_tuki.Common.{
  In, ℕ, zero, suc, ◌+◌, ◌<◌, ◌≡◌, refl, ◌⊎◌, inl, inr, true, false, List, [], ◌∷◌, Option, none,
  some, ◌>>=◌, ℤ, pos, arith,
}
use tp_so_tuki.Package.{Package}
use tp_so_tuki.Serializer.{Instruction}
use tp_so_tuki.OpCode.{str_eq}
use tp_so_tuki.Kernel.Requests.{AllValid, OthersKept, handle_wait_lem, handle_signal_lem}
use tp_so_tuki.Kernel.Resources.{handle_wait, handle_signal}
use tp_so_tuki.Kernel.ShortTerm.{Scheduled, short_term_scheduler-Scheduled}
use tp_so_tuki.Kernel.Schedule.{short_term_scheduler}
use tp_so_tuki.Kernel.State.{
  dictionary_get, ProcessState, ready, block, Pcb, Resource, Kernel, pcb_new, set_state,
  pcb_is_ready, is_ready, is_exit,
}
use tp_so_tuki.Kernel.Resources.{resource_wait, resource_signal}
use tp_so_tuki.Kernel.Semaphore.{
  IsResource, value, Signalled, resource_wait_lem, resource_signal_lem, resource_signal_twice,
}
use tp_so_tuki.Kernel.Schedule.{pick_with_hrrn}
use tp_so_tuki.Kernel.Hrrn.{Highest, pick_with_hrrn-Highest}
use tp_so_tuki.Kernel.Forgotten.{Forgets, pick_with_hrrn_lost}
use tp_so_tuki.Kernel.LongTerm.{remove_finished, admit, set_segments_table, long_term_schedule}
use tp_so_tuki.Serializer.SegmentTables.{load_segments, deserialize_segment_table}
use tp_so_tuki.Package.{package_decode_isset}
use tp_so_tuki.Kernel.Admission.{Admitted, long_term_schedule-Admitted}

abbrev process : ℕ → ProcessState → Pcb
process pid state = record (pcb_new 0 (pos 0) pid (pos 10)) { state = state }

abbrev pcbs : ℕ → Pcb
pcbs zero = process 4 ready
pcbs (suc zero) = process 5 block
pcbs (suc (suc p)) = process (6 + p) ready

-- The ratio grows with the process id.
abbrev ratio : ℤ → Pcb → ℕ
ratio now pcb = suc pcb.pid

abbrev printer : Resource
printer = record { available_instances = 2; assigned_to = none; enqueued_processes = [] }

resource_wait_lem_example :
    IsResource (resource_wait 0 printer).1
    × (value (resource_wait 0 printer).1 ≡ pos 1)
    × ((((resource_wait 0 printer).0 ≡ true)
          × (0 < 2)
          × ((resource_wait 0 printer).1.assigned_to ≡ some 0)
          × ((resource_wait 0 printer).1.enqueued_processes ≡ []))
        ⊎ (((resource_wait 0 printer).0 ≡ false)
            × (printer.available_instances ≡ 0)
            × ((resource_wait 0 printer).1.assigned_to ≡ none)
            × ((resource_wait 0 printer).1.enqueued_processes ≡ 0 ∷ [])))
resource_wait_lem_example = resource_wait_lem 0 printer (inl refl)

abbrev busy : Resource
busy = record { available_instances = 0; assigned_to = some 0; enqueued_processes = 1 ∷ 2 ∷ [] }

resource_signal_lem_example :
    (s : (ℕ → Pcb) × Resource) × (resource_signal pcbs busy ≡ some s) × Signalled pcbs busy s
resource_signal_lem_example =
    resource_signal_lem pcbs busy (inr refl) (inl (λ e. ground (arith, e)))

resource_signal_twice_example :
    (resource_signal pcbs (resource_wait 2 (resource_wait 0 printer).1).1 >>= λ s.
    resource_signal s.0 s.1)
    ≡ none
resource_signal_twice_example = resource_signal_twice pcbs 0 2 printer (omega arith) refl

pick_with_hrrn-Highest_example :
    Highest (pos 9) ratio pcbs (0 ∷ 3 ∷ 2 ∷ []) (pick_with_hrrn (pos 9) ratio pcbs (0 ∷ 3 ∷ 2 ∷ []))
unfolding pcb_is_ready is_ready pcb_new
pick_with_hrrn-Highest_example =
    pick_with_hrrn-Highest (pos 9) ratio pcbs 0 (3 ∷ 2 ∷ []) (refl, (refl, (refl, tt)))
      (omega arith)

pick_with_hrrn_lost_example :
    Forgets (pos 9) ratio pcbs 1 (pick_with_hrrn (pos 9) ratio pcbs (1 ∷ 2 ∷ 0 ∷ []))
unfolding pcb_is_ready is_ready pcb_new
pick_with_hrrn_lost_example =
    pick_with_hrrn_lost (pos 9) ratio pcbs 1 2 (0 ∷ []) refl (omega arith) (omega arith) refl

-- A memory that answers every message with an empty segment table.
abbrev answer : ℕ → Instruction → Option Package × ℕ
answer w i = (some (record { size = 0; type = 5; buffer = [] }), suc w)

abbrev ignore : ℕ → ℕ → ℕ
ignore w pid = w

abbrev no_text : ℤ → List ℕ
no_text n = []

abbrev malloc : ℕ → ℕ
malloc n = n

abbrev one_new : Kernel
one_new = record {
  pcbs = pcbs;
  new_pcbs = 2 ∷ 3 ∷ [];
  active_pcbs = 1 ∷ [];
  resources = [];
  algorithm_is_hrrn = false;
  max_multiprogramming = 2;
  prioritized_pcb = none;
}

abbrev one_admitted : Kernel
one_admitted = record one_new {
  pcbs = set_segments_table (set_state pcbs 2 ready) 2 [];
  new_pcbs = 3 ∷ [];
  active_pcbs = 1 ∷ 2 ∷ [];
}

long_term_schedule-Admitted_example : Admitted one_new one_admitted
unfolding long_term_schedule remove_finished admit is_exit deserialize_segment_table load_segments
    package_decode_isset pcb_new
long_term_schedule-Admitted_example =
    long_term_schedule-Admitted no_text malloc answer ignore one_new 0 one_admitted 1 refl

abbrev with_printer : Kernel
with_printer = record one_new { resources = ((80 ∷ []), printer) ∷ ((81 ∷ []), busy) ∷ [] }

with_printer-AllValid : AllValid with_printer
with_printer-AllValid = (inl refl, (inr refl, tt))

handle_wait_lem_example :
    AllValid (handle_wait with_printer 0 (80 ∷ []))
    × (dictionary_get (80 ∷ []) (handle_wait with_printer 0 (80 ∷ [])).resources
        ≡ some (resource_wait 0 printer).1)
    × OthersKept (80 ∷ []) with_printer (handle_wait with_printer 0 (80 ∷ []))
    × ((((resource_wait 0 printer).0 ≡ true)
          × ((handle_wait with_printer 0 (80 ∷ [])).prioritized_pcb ≡ some 0))
        ⊎ (((resource_wait 0 printer).0 ≡ false)
            × (((handle_wait with_printer 0 (80 ∷ [])).pcbs 0).state ≡ block)))
unfolding dictionary_get str_eq
handle_wait_lem_example =
    handle_wait_lem with_printer 0 (80 ∷ []) printer with_printer-AllValid refl

handle_signal_lem_example :
    (k' : Kernel) × (r' : Resource) × (handle_signal with_printer 0 (81 ∷ []) ≡ some k')
    × AllValid k'
    × (dictionary_get (81 ∷ []) k'.resources ≡ some r')
    × Signalled pcbs busy (k'.pcbs, r')
    × OthersKept (81 ∷ []) with_printer k'
    × (k'.prioritized_pcb ≡ some 0)
unfolding dictionary_get str_eq
handle_signal_lem_example =
    handle_signal_lem with_printer 0 (81 ∷ []) busy with_printer-AllValid refl
      (inl (λ e. ground (arith, e)))

abbrev prioritized : Kernel
prioritized = record one_new { active_pcbs = 1 ∷ 2 ∷ 0 ∷ []; prioritized_pcb = some 0 }

prioritized_active : (p : ℕ) → prioritized.prioritized_pcb ≡ some p → In p prioritized.active_pcbs
prioritized_active p e = ground (arith, e)

short_term_scheduler-Scheduled_example :
    (k' : Kernel) × (next : Option ℕ) × (short_term_scheduler (pos 9) ratio prioritized
      ≡ some (k', next))
    × (k'.prioritized_pcb ≡ none)
    × Scheduled prioritized next k'
short_term_scheduler-Scheduled_example =
    short_term_scheduler-Scheduled (pos 9) ratio prioritized refl prioritized_active

-- ===== src/Kernel/RunningSchedule.antt =====
-- The schedulers of kernel/src/scheduler.c make no process run.
use tp_so_tuki.Common.{
  ℕ, refl, inl, inr, Bool, List, [], ◌∷◌, Option, none, some, ltb, length, ◌==◌, if◌then◌else◌,
  Ensures, Ensures->>=, Ensures-any, Ensures-if, Ensures-weaken, Bool-cases, Option-cases, ℤ, arith,
}
use tp_so_tuki.Package.{Package}
use tp_so_tuki.Serializer.{Instruction}
use tp_so_tuki.Kernel.State.{
  ready, Pcb, Resource, Kernel, set_state, is_exec, is_exit, pcb_is_ready,
}
use tp_so_tuki.Kernel.Resources.{resource_signal}
use tp_so_tuki.Kernel.LongTerm.{
  free_resources, end_process, remove_finished, admit, long_term_schedule,
}
use tp_so_tuki.Kernel.Running.{
  Quiet, Quiet-trans, Quiet-same, set_state-Quiet, set_segments_table-Quiet, resource_signal-Quiet,
}
use tp_so_tuki.Serializer.SegmentTables.{deserialize_segment_table}
use tp_so_tuki.OpCode.MemoryOp.{ok_instruction, segments_table, mem_init_process, mem_end_process}
use tp_so_tuki.Kernel.LongTerm.{is_assigned, process_message}
use tp_so_tuki.Kernel.Schedule.{
  set_last_ready_time, hrrn_finish, pick_with_hrrn, short_term_scheduler, Search,
}

free_resources-Quiet :
    (pcbs : ℕ → Pcb) (p : ℕ) (rs : List (List ℕ × Resource))
    → Ensures
        (λ (s : (ℕ → Pcb) × List (List ℕ × Resource)). Quiet pcbs s.0)
        (free_resources pcbs p rs)
unfolding free_resources
free_resources-Quiet pcbs p [] = λ q h. h
free_resources-Quiet pcbs p ((name, r) ∷ rest) =
    Ensures->>= (λ (s : (ℕ → Pcb) × Resource). Quiet pcbs s.0)
      (λ (s : (ℕ → Pcb) × List (List ℕ × Resource)). Quiet pcbs s.0)
      (if is_assigned p r.assigned_to then resource_signal pcbs r else some (pcbs, r)) _
      (Ensures-if (λ (s : (ℕ → Pcb) × Resource). Quiet pcbs s.0) (is_assigned p r.assigned_to)
        (resource_signal pcbs r) (some (pcbs, r)) (resource_signal-Quiet pcbs r) (λ q h. h))
      (λ s h.
        Ensures->>= (λ (s' : (ℕ → Pcb) × List (List ℕ × Resource)). Quiet s.0 s'.0)
          (λ (s' : (ℕ → Pcb) × List (List ℕ × Resource)). Quiet pcbs s'.0)
          (free_resources s.0 p rest) _ (free_resources-Quiet s.0 p rest)
          (λ s' h'. Quiet-trans pcbs s.0 s'.0 h h'))

-- A kernel in which no other process runs, with the rest of a result.
abbrev pub QuietKernel : {A : Type 0} → Kernel → Kernel × A → Type 0
QuietKernel k s = Quiet k.pcbs s.0.pcbs

module _ (string_itoa : ℤ → List ℕ) (malloc : ℕ → ℕ) {W : Type 0}
    (ask : W → Instruction → Option Package × W) (tell : W → ℕ → W) where
  end_process-Quiet :
      (k : Kernel) (w : W) (p : ℕ)
      → Ensures (QuietKernel {A = W} k) (end_process string_itoa malloc ask tell k w p)
  unfolding end_process
  end_process-Quiet k w p =
      Ensures->>= (λ (s : (ℕ → Pcb) × List (List ℕ × Resource)). Quiet k.pcbs s.0)
        (QuietKernel {A = W} k) (free_resources k.pcbs p k.resources) _
        (free_resources-Quiet k.pcbs p k.resources)
        (λ s h.
          Ensures-any (QuietKernel {A = W} k)
            (ask (tell w (k.pcbs p).pid)
              (process_message string_itoa mem_end_process (k.pcbs p).pid)).0
            _
            (λ reply.
              Ensures-if (QuietKernel {A = W} k) (reply.type == ok_instruction) _ none
                (Ensures-any (QuietKernel {A = W} k) (deserialize_segment_table malloc reply) _
                  (λ table. h))
                tt))

  remove_finished-Quiet :
      (ps : List ℕ) (k : Kernel) (w : W)
      → Ensures
          (λ (s : Kernel × W × List ℕ). Quiet k.pcbs s.0.pcbs)
          (remove_finished string_itoa malloc ask tell k w ps)
  unfolding remove_finished
  remove_finished-Quiet [] k w = λ q h. h
  remove_finished-Quiet (p ∷ []) k w = elim (Bool-cases (is_exit (k.pcbs p).state)) [
    | inr b ↦ rw (b, remove_finished) (λ q h. h)
    | inl b ↦
        rw (b, remove_finished)
          (Ensures->>= (QuietKernel k) (λ (s : Kernel × W × List ℕ). Quiet k.pcbs s.0.pcbs)
            (end_process string_itoa malloc ask tell k w p) _ (end_process-Quiet k w p) (λ s h. h))
  ]
  remove_finished-Quiet (p ∷ q ∷ rest) k w = elim (Bool-cases (is_exit (k.pcbs p).state)) [
    | inr b ↦
        rw (b, remove_finished)
          (Ensures->>= (λ (s : Kernel × W × List ℕ). Quiet k.pcbs s.0.pcbs)
            (λ (s : Kernel × W × List ℕ). Quiet k.pcbs s.0.pcbs)
            (remove_finished string_itoa malloc ask tell k w (q ∷ rest)) _
            (remove_finished-Quiet (q ∷ rest) k w) (λ s h. h))
    | inl b ↦
        rw (b, remove_finished)
          (Ensures->>= (QuietKernel k) (λ (s : Kernel × W × List ℕ). Quiet k.pcbs s.0.pcbs)
            (end_process string_itoa malloc ask tell k w p) _ (end_process-Quiet k w p)
            (λ s h.
              Ensures->>= (λ (s' : Kernel × W × List ℕ). Quiet s.0.pcbs s'.0.pcbs)
                (λ (s' : Kernel × W × List ℕ). Quiet k.pcbs s'.0.pcbs)
                (remove_finished string_itoa malloc ask tell s.0 s.1 rest) _
                (remove_finished-Quiet rest s.0 s.1)
                (λ s' h'. Quiet-trans k.pcbs s.0.pcbs s'.0.pcbs h h')))
  ]

  admit_parts-Quiet :
      (pcbs : ℕ → Pcb) (ns ps : List ℕ) (rs : List (List ℕ × Resource)) (h : Bool) (m : ℕ)
      (o : Option ℕ) (w : W)
      → Ensures
          (λ (s : Kernel × W). Quiet pcbs s.0.pcbs)
          (admit string_itoa malloc ask tell
            (record {
              pcbs = pcbs;
              new_pcbs = ns;
              active_pcbs = ps;
              resources = rs;
              algorithm_is_hrrn = h;
              max_multiprogramming = m;
              prioritized_pcb = o;
            })
            w)
  unfolding admit is_exec
  admit_parts-Quiet pcbs [] ps rs h m o w = λ q e. e
  admit_parts-Quiet pcbs (p ∷ others) ps rs h m o w =
      let Q = λ (s : Kernel × W). Quiet pcbs s.0.pcbs in
      Ensures-if Q (ltb (length ps) m) _ _
        (Ensures-any Q (ask w (process_message string_itoa mem_init_process (pcbs p).pid)).0 _
          (λ reply.
            Ensures-if Q (reply.type == segments_table) _ none
              (Ensures-any Q (deserialize_segment_table malloc reply) _ (λ table q e.
                set_segments_table-Quiet (set_state pcbs p ready) p _ q
                  (set_state-Quiet pcbs p ready refl q e)))
              tt))
        (λ q e. e)

  admit-Quiet :
      (k : Kernel) (w : W) → Ensures (QuietKernel {A = W} k) (admit string_itoa malloc ask tell k w)
  admit-Quiet k w =
      admit_parts-Quiet k.pcbs k.new_pcbs k.active_pcbs k.resources k.algorithm_is_hrrn
        k.max_multiprogramming k.prioritized_pcb w

  pub long_term_schedule-Quiet :
      (k : Kernel) (w : W)
      → Ensures (QuietKernel k) (long_term_schedule string_itoa malloc ask tell k w)
  unfolding long_term_schedule
  long_term_schedule-Quiet k w =
      Ensures->>= (λ (s : Kernel × W × List ℕ). Quiet k.pcbs s.0.pcbs) (QuietKernel k)
        (remove_finished string_itoa malloc ask tell k w k.active_pcbs) _
        (remove_finished-Quiet k.active_pcbs k w)
        (λ s h.
          Ensures-weaken (QuietKernel (record s.0 { active_pcbs = s.2 })) (QuietKernel k)
            (admit string_itoa malloc ask tell (record s.0 { active_pcbs = s.2 }) s.1)
            (λ s' h'. Quiet-trans k.pcbs s.0.pcbs s'.0.pcbs h h')
            (admit-Quiet (record s.0 { active_pcbs = s.2 }) s.1))

module _ (current_time : ℤ) (response_ratio : ℤ → Pcb → ℕ) where
  hrrn_finish-Quiet :
      (pcbs : ℕ → Pcb) (s : Search)
      → Ensures
          (λ (r : (ℕ → Pcb) × Option ℕ × List ℕ). Quiet pcbs r.0)
          (hrrn_finish current_time response_ratio pcbs s)
  unfolding hrrn_finish set_last_ready_time
  hrrn_finish-Quiet pcbs s = elim (Option-cases s.next_pcb) [
    | inl e ↦ rw (e, hrrn_finish) tt
    | inr n ↦
        rw (n.1, hrrn_finish)
          (Quiet-same pcbs (set_last_ready_time current_time response_ratio pcbs n.0)
            (λ q. ground arith))
  ]

  pick_with_hrrn-Quiet :
      (pcbs : ℕ → Pcb) (ps : List ℕ)
      → Ensures
          (λ (r : (ℕ → Pcb) × Option ℕ × List ℕ). Quiet pcbs r.0)
          (pick_with_hrrn current_time response_ratio pcbs ps)
  unfolding pick_with_hrrn
  pick_with_hrrn-Quiet pcbs [] = λ q h. h
  pick_with_hrrn-Quiet pcbs (p ∷ []) = elim (Bool-cases (pcb_is_ready (pcbs p))) [
    | inl b ↦ rw (b, pick_with_hrrn) (λ q h. h)
    | inr b ↦ rw (b, pick_with_hrrn) (λ q h. h)
  ]
  pick_with_hrrn-Quiet pcbs (p ∷ q ∷ rest) = hrrn_finish-Quiet pcbs _

  pub short_term_scheduler-Quiet :
      (k : Kernel) → Ensures (QuietKernel k) (short_term_scheduler current_time response_ratio k)
  unfolding short_term_scheduler
  short_term_scheduler-Quiet k = elim (Option-cases k.prioritized_pcb) [
    | inr s ↦ rw (s.1, short_term_scheduler) (λ q h. h)
    | inl e ↦ elim (Bool-cases k.algorithm_is_hrrn) [
      | inr b ↦ rw (e, b, short_term_scheduler) (λ q h. h)
      | inl b ↦
          rw (e, b, short_term_scheduler)
            (Ensures->>= (λ (s : (ℕ → Pcb) × Option ℕ × List ℕ). Quiet k.pcbs s.0) (QuietKernel k)
              (pick_with_hrrn current_time response_ratio k.pcbs k.active_pcbs) _
              (pick_with_hrrn-Quiet k.pcbs k.active_pcbs) (λ s h. h))
    ]
  ]

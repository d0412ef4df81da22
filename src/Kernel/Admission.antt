-- ===== src/Kernel/Admission.antt =====
-- The degree of multiprogramming and the order of admission under `long_term_schedule` of
-- kernel/src/scheduler.c.
use tp_so_tuki.Common.{
  ℕ, ◌≤◌, ◌≡◌, refl, sym, subst, ◌∙◌, ◌⊎◌, inl, inr, List, [], ◌∷◌, ◌++◌, map, length,
  length-append, Option, none, some, ltb, ltb→lt, ◌==◌, Bool-cases, Option-cases, ℤ, arith,
}
use tp_so_tuki.Package.{Package}
use tp_so_tuki.Serializer.{Instruction}
use tp_so_tuki.Serializer.SegmentTables.{deserialize_segment_table}
use tp_so_tuki.Memory.State.{Segment}
use tp_so_tuki.Kernel.State.{ready, Pcb, Kernel, set_state, is_exit}
use tp_so_tuki.OpCode.MemoryOp.{mem_init_process, mem_end_process, ok_instruction, segments_table}
use tp_so_tuki.Kernel.Semaphore.{set_state_self}
use tp_so_tuki.Kernel.LongTerm.{
  free_resources, process_message, end_process, remove_finished, set_segments_table, admit,
  long_term_schedule,
}

-- The parts of the kernel that the end of a process leaves alone.
abbrev Same : {W : Type 0} → Kernel → Option (Kernel × W) → Type 0
Same k none = Unit {0}
Same k (some s) = (s.0.new_pcbs ≡ k.new_pcbs) × (s.0.max_multiprogramming ≡ k.max_multiprogramming)

-- A sweep of a list also leaves no longer list.
abbrev Swept : {W : Type 0} → Kernel → List ℕ → Option (Kernel × W × List ℕ) → Type 0
Swept k ps none = Unit {0}
Swept k ps (some s) =
    (s.0.new_pcbs ≡ k.new_pcbs)
    × (s.0.max_multiprogramming ≡ k.max_multiprogramming)
    × (length s.2 ≤ length ps)

-- What a schedule may change: it admits nobody, or the first that is new, under the degree of
-- multiprogramming.
abbrev pub Admitted : Kernel → Kernel → Type 0
Admitted k k' =
    ((k'.new_pcbs ≡ k.new_pcbs) × (length k'.active_pcbs ≤ length k.active_pcbs))
    ⊎ ((p : ℕ) × (k.new_pcbs ≡ p ∷ k'.new_pcbs)
        × ((k'.pcbs p).state ≡ ready)
        × (length k'.active_pcbs ≤ k.max_multiprogramming)
        × (xs : List ℕ) × (k'.active_pcbs ≡ xs ++ (p ∷ [])))

abbrev Admits : {W : Type 0} → Kernel → Option (Kernel × W) → Type 0
Admits k none = Unit {0}
Admits k (some s) = Admitted k s.0

set_segments_table-state :
    (pcbs : ℕ → Pcb) (p : ℕ) (table : List Segment) (q : ℕ)
    → (set_segments_table pcbs p table q).state ≡ (pcbs q).state
unfolding set_segments_table
set_segments_table-state pcbs p table q = elim (Bool-cases (q == p)) [
  | inl b ↦ rw (b, set_segments_table) refl
  | inr b ↦ rw (b, set_segments_table) refl
]

module _ (string_itoa : ℤ → List ℕ) (malloc : ℕ → ℕ) {W : Type 0}
    (ask : W → Instruction → Option Package × W) (tell : W → ℕ → W) where
  end_process-Same :
      (k : Kernel) (w : W) (p : ℕ) → Same k (end_process string_itoa malloc ask tell k w p)
  unfolding end_process
  end_process-Same k w p = elim (Option-cases (free_resources k.pcbs p k.resources)) [
    | inl e ↦ rw (e, end_process) tt
    | inr (freed, e) ↦
        elim (Option-cases
          (ask (tell w (k.pcbs p).pid)
            (process_message string_itoa mem_end_process (k.pcbs p).pid)).0) [
              | inl e' ↦ rw (e, e', end_process) tt
              | inr (reply, e') ↦ elim (Bool-cases (reply.type == ok_instruction)) [
                | inr b ↦ rw (e, e', b, end_process) tt
                | inl b ↦ elim (Option-cases (deserialize_segment_table malloc reply)) [
                  | inl e'' ↦ rw (e, e', b, e'', end_process) tt
                  | inr (table, e'') ↦ rw (e, e', b, e'', end_process) (refl, refl)
                ]
              ]
            ]
  ]

  remove_finished-Swept :
      (ps : List ℕ) (k : Kernel) (w : W)
      → Swept k ps (remove_finished string_itoa malloc ask tell k w ps)
  unfolding remove_finished
  remove_finished-Swept [] k w = (refl, refl, omega arith)
  remove_finished-Swept (p ∷ []) k w = elim (Bool-cases (is_exit (k.pcbs p).state)) [
    | inr b ↦ rw (b, remove_finished) (refl, refl, omega arith)
    | inl b ↦ elim (Option-cases (end_process string_itoa malloc ask tell k w p)) [
      | inl e ↦ rw (b, e, remove_finished) tt
      | inr (s, e) ↦
          (let same = subst (Same k) e (end_process-Same k w p) in
            rw (b, e, remove_finished) (same.0, same.1, omega arith))
    ]
  ]
  remove_finished-Swept (p ∷ q ∷ rest) k w = elim (Bool-cases (is_exit (k.pcbs p).state)) [
    | inr b ↦ elim (Option-cases (remove_finished string_itoa malloc ask tell k w (q ∷ rest))) [
      | inl e ↦ rw (b, e, remove_finished) tt
      | inr (s, e) ↦
          (let swept = subst (Swept k (q ∷ rest)) e (remove_finished-Swept (q ∷ rest) k w) in
            rw (b, e, remove_finished) (swept.0, swept.1, omega (arith, swept.2)))
    ]
    | inl b ↦ elim (Option-cases (end_process string_itoa malloc ask tell k w p)) [
      | inl e ↦ rw (b, e, remove_finished) tt
      | inr (s, e) ↦
          elim (Option-cases (remove_finished string_itoa malloc ask tell s.0 s.1 rest)) [
            | inl e' ↦ rw (b, e, e', remove_finished) tt
            | inr (s', e') ↦
                (let same = subst (Same k) e (end_process-Same k w p) in
                  let swept = subst (Swept s.0 rest) e' (remove_finished-Swept rest s.0 s.1) in
                  rw (b, e, e', remove_finished)
                    (swept.0 ∙ same.0, swept.1 ∙ same.1, omega (arith, swept.2)))
          ]
    ]
  ]

  admit-Admits : (k : Kernel) (w : W) → Admits k (admit string_itoa malloc ask tell k w)
  unfolding admit
  admit-Admits k w = elim (List-cases k.new_pcbs) [
    | inl n ↦ rw (n, admit) (inl (n, omega arith))
    | inr (p, waiting, n) ↦ elim (Bool-cases (ltb (length k.active_pcbs) k.max_multiprogramming)) [
      | inr b ↦ rw (n, b, admit) (inl (n, omega arith))
      | inl b ↦
          elim (Option-cases
            (ask w (process_message string_itoa mem_init_process (k.pcbs p).pid)).0) [
              | inl e ↦ rw (n, b, e, admit) tt
              | inr (reply, e) ↦ elim (Bool-cases (reply.type == segments_table)) [
                | inr t ↦ rw (n, b, e, t, admit) tt
                | inl t ↦ elim (Option-cases (deserialize_segment_table malloc reply)) [
                  | inl e' ↦ rw (n, b, e, t, e', admit) tt
                  | inr (table, e') ↦
                      rw (n, b, e, t, e', admit)
                        (inr (
                          p,
                          refl,
                          set_segments_table-state (set_state k.pcbs p ready) p
                                (map (λ (e : Segment × ℕ). e.0) table) p
                              ∙ set_state_self k.pcbs p ready,
                          omega (
                            arith,
                            length-append k.active_pcbs (p ∷ []),
                            ltb→lt (length k.active_pcbs) k.max_multiprogramming b,
                          ),
                          k.active_pcbs,
                          refl,
                        ))
                ]
              ]
            ]
    ]
  ]
    where
      List-cases : (ps : List ℕ) → (ps ≡ []) ⊎ ((p : ℕ) × (qs : List ℕ) × (ps ≡ p ∷ qs))
      List-cases [] = inl refl
      List-cases (p ∷ qs) = inr (p, qs, refl)

  Admits-Swept :
      (k k1 : Kernel) (active : List ℕ) (o : Option (Kernel × W))
      → k1.new_pcbs ≡ k.new_pcbs
      → k1.max_multiprogramming ≡ k.max_multiprogramming
      → length active ≤ length k.active_pcbs
      → Admits (record k1 { active_pcbs = active }) o
      → Admits k o
  Admits-Swept k k1 active none e f h a = tt
  Admits-Swept k k1 active (some s) e f h (inl a) = inl (a.0 ∙ e, omega (arith, h, a.1))
  Admits-Swept k k1 active (some s) e f h (inr a) =
      inr (a.0, sym e ∙ a.1, a.2, omega (arith, f, a.3), a.4, a.5)

  schedule-Admits :
      (k : Kernel) (w : W) → Admits k (long_term_schedule string_itoa malloc ask tell k w)
  unfolding long_term_schedule
  schedule-Admits k w =
      elim (Option-cases (remove_finished string_itoa malloc ask tell k w k.active_pcbs)) [
        | inl e ↦ rw (e, long_term_schedule) tt
        | inr (s, e) ↦
            (let swept =
                subst (Swept k k.active_pcbs) e (remove_finished-Swept k.active_pcbs k w) in
              rw (e, long_term_schedule)
                (Admits-Swept k s.0 s.2 _ swept.0 swept.1 swept.2
                  (admit-Admits (record s.0 { active_pcbs = s.2 }) s.1)))
      ]

  -- A round of the long-term scheduler that does not abort either admits nobody, and the queue of new
  -- processes stays while the active ones become no more, or it admits the first of the queue. That one
  -- then is ready and the last of the active ones, which do not exceed the degree of multiprogramming.
  pub long_term_schedule-Admitted :
      (k : Kernel) (w : W) (k' : Kernel) (w' : W)
      → long_term_schedule string_itoa malloc ask tell k w ≡ some (k', w')
      → Admitted k k'
  long_term_schedule-Admitted k w k' w' h = subst (Admits k) h (schedule-Admits k w)

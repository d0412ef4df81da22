-- ===== src/Kernel/ShortTerm.antt =====
-- `short_term_scheduler` of kernel/src/scheduler.c under FIFO, and the PCB on its way back to the queue.
use tp_so_tuki.Common.{
  ℕ, ◌+◌, ◌≡◌, refl, ap, ◌⊎◌, inl, inr, true, false, List, [], ◌∷◌, In, Option, none, some, ◌==◌,
  ==_iff, if◌then◌else◌, Bool-cases, Option-cases, All, ℤ, arith,
}
use tp_so_tuki.Kernel.State.{Pcb, Kernel, pcb_is_ready}
use tp_so_tuki.Kernel.Resources.{requeue}
use tp_so_tuki.Kernel.Schedule.{remove_element, pick_with_fifo, short_term_scheduler}
use tp_so_tuki.Kernel.Fifo.{Waits, Picked, pick_with_fifo-Picked}
use tp_so_tuki.Kernel.Hrrn.{count, count-append}

count-remove_element :
    (p : ℕ) (qs : List ℕ) → In p qs → (x : ℕ) → count x (p ∷ remove_element p qs) ≡ count x qs
unfolding remove_element
count-remove_element p [] i x = absurd i
count-remove_element p (q ∷ qs) i x = elim (Bool-cases (p == q)) [
  | inl b ↦
      rw (b, remove_element) (ap (λ r. (if x == r then 1 else 0) + count x qs) ((==_iff p q).0 b))
  | inr b ↦ elim i [
    | inl e ↦ absurd (ground (arith, e, b))
    | inr j ↦ rw (b, remove_element) (omega (arith, count-remove_element p qs j x))
  ]
]

-- What a round picks, and how the queue of active PCBs looks behind it. A PCB that is picked is the
-- prioritized one or a ready one, and once it is back in the queue, that holds each PCB as often as before.
abbrev pub Scheduled : Kernel → Option ℕ → Kernel → Type 0
Scheduled k none k' =
    (k.prioritized_pcb ≡ none) × (k'.active_pcbs ≡ k.active_pcbs) × All (Waits k.pcbs) k.active_pcbs
Scheduled k (some p) k' =
    ((k.prioritized_pcb ≡ some p) ⊎ ((k.prioritized_pcb ≡ none) × (pcb_is_ready (k.pcbs p) ≡ true)))
    × ((x : ℕ) → count x (requeue k' p).active_pcbs ≡ count x k.active_pcbs)

Picked-Scheduled :
    (k k' : Kernel) (found : Option ℕ)
    → k.prioritized_pcb ≡ none
    → Picked k.pcbs k.active_pcbs found k'.active_pcbs
    → Scheduled k found k'
unfolding requeue
Picked-Scheduled k k' none e i = (e, i.0, i.1)
Picked-Scheduled k k' (some p) e i = (
  inr (e, i.4),
  λ x. omega (
    arith,
    count-append x k'.active_pcbs (p ∷ []),
    ap (count x) i.2,
    ap (count x) i.3,
    count-append x i.0 i.1,
    count-append x i.0 (p ∷ i.1),
  ),
)

module _ (current_time : ℤ) (response_ratio : ℤ → Pcb → ℕ) where
  -- Under FIFO, if the prioritized PCB is active, the short-term scheduler does not fault and leaves no PCB
  -- prioritized. It picks the prioritized PCB if there is one, else one that is ready, else none, and then
  -- none is ready. A PCB that it picks and that comes back is in the queue as often as before, as are all
  -- others.
  pub short_term_scheduler-Scheduled :
      (k : Kernel)
      → k.algorithm_is_hrrn ≡ false
      → ((p : ℕ) → k.prioritized_pcb ≡ some p → In p k.active_pcbs)
      → (k' : Kernel) × (next : Option ℕ) × (short_term_scheduler current_time response_ratio k
          ≡ some (k', next))
        × (k'.prioritized_pcb ≡ none)
        × Scheduled k next k'
  unfolding short_term_scheduler requeue
  short_term_scheduler-Scheduled k fifo active = elim (Option-cases k.prioritized_pcb) [
    | inl e ↦ (
      record k { active_pcbs = (pick_with_fifo k.pcbs k.active_pcbs).1 },
      (pick_with_fifo k.pcbs k.active_pcbs).0,
      rw (e, fifo, short_term_scheduler)
          (ap
            (λ o. some (
              record k {
                active_pcbs = (pick_with_fifo k.pcbs k.active_pcbs).1;
                algorithm_is_hrrn = false;
                prioritized_pcb = o;
              },
              (pick_with_fifo k.pcbs k.active_pcbs).0,
            ))
            e),
      e,
      Picked-Scheduled k _ _ e (pick_with_fifo-Picked k.pcbs k.active_pcbs),
    )
    | inr (p, e) ↦ (
      record k { prioritized_pcb = none; active_pcbs = remove_element p k.active_pcbs },
      some p,
      rw (e, short_term_scheduler) refl,
      refl,
      (
        inl e,
        λ x. omega (
          arith,
          count-append x (remove_element p k.active_pcbs) (p ∷ []),
          count-remove_element p k.active_pcbs (active p e) x,
        ),
      ),
    )
  ]

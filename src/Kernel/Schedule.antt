-- ===== src/Kernel/Schedule.antt =====
-- The schedulers: kernel/src/algorithms_kernel.c, and `long_term_schedule` and `short_term_scheduler` of
-- kernel/src/scheduler.c. The logs, the sleep and the mutex are left out.
use tp_so_tuki.Common.{
  ℕ, List, [], ◌∷◌, ◌++◌, Option, none, some, ltb, ◌==◌, if◌then◌else◌, ◌>>=◌, ℤ,
}
use tp_so_tuki.Kernel.State.{Pcb, Kernel, pcb_is_ready}

-- `list_remove_by_condition(active_pcbs->elements, pcb_is_ready)`: the first that is ready, and the rest.
unfoldable pub remove_ready : (ℕ → Pcb) → List ℕ → Option ℕ × List ℕ
remove_ready pcbs [] = (none, [])
remove_ready pcbs (p ∷ ps) =
    let (found, rest) = remove_ready pcbs ps in
    if pcb_is_ready (pcbs p) then (some p, ps) else (found, p ∷ rest)

unfoldable pub pick_with_fifo : (ℕ → Pcb) → List ℕ → Option ℕ × List ℕ
pick_with_fifo pcbs [] = (none, [])
pick_with_fifo pcbs (p ∷ ps) = remove_ready pcbs (p ∷ ps)

-- The first occurrence of a pointer leaves the list.
unfoldable pub remove_element : ℕ → List ℕ → List ℕ
remove_element p [] = []
remove_element p (q ∷ qs) = if p == q then qs else (q ∷ remove_element p qs)

-- The variables of the loop of `pick_with_hrrn`.
pub record Search : Type 0 where
  pub highest_response_ratio : ℕ
  pub next_pcb : Option ℕ
  pub queue_temporal : List ℕ
  pub queue_fifo : List ℕ

-- `next_pcb != NULL && pcb_is_ready(next_pcb)`, and the push under it.
unfoldable pub push_ready : (ℕ → Pcb) → Option ℕ → List ℕ → List ℕ
push_ready pcbs none qs = qs
push_ready pcbs (some q) qs = if pcb_is_ready (pcbs q) then qs ++ (q ∷ []) else qs

module _ (current_time : ℤ) (response_ratio : ℤ → Pcb → ℕ) where
  -- `response_ratio` is the quotient of the two `float` values of a PCB, as the bit pattern of a `float`
  -- that is not negative: those patterns are ordered as the values are, and zero is that of 0.0. The
  -- estimates and waiting times are taken to make it so: an estimate of zero or less, which gives a
  -- negative value, an infinity or NaN, is not modelled.
  unfoldable pub hrrn_step : (ℕ → Pcb) → Search → ℕ → Search
  hrrn_step pcbs s p =
      let ratio = response_ratio current_time (pcbs p) in
      if ltb s.highest_response_ratio ratio
      then record {
        highest_response_ratio = ratio;
        next_pcb = some p;
        queue_temporal = push_ready pcbs s.next_pcb s.queue_temporal;
        queue_fifo = s.queue_fifo;
      }
      else (if ratio == s.highest_response_ratio
          then record s { queue_fifo = s.queue_fifo ++ (p ∷ []) }
          else record s { queue_temporal = s.queue_temporal ++ (p ∷ []) })

  unfoldable pub hrrn_loop : (ℕ → Pcb) → Search → List ℕ → Search
  hrrn_loop pcbs s [] = s
  hrrn_loop pcbs s (p ∷ ps) = hrrn_loop pcbs (hrrn_step pcbs s p) ps

  unfoldable pub set_last_ready_time : (ℕ → Pcb) → ℕ → ℕ → Pcb
  set_last_ready_time pcbs p q =
      if q == p then record (pcbs q) { last_ready_time = current_time } else pcbs q

  -- What follows the loops: `none` where no ratio was above 0.0 and `next_pcb` is read through NULL.
  unfoldable pub hrrn_finish : (ℕ → Pcb) → Search → Option ((ℕ → Pcb) × Option ℕ × List ℕ)
  hrrn_finish pcbs s = elim s.next_pcb [
    | none ↦ none
    | some p ↦ some (
      set_last_ready_time pcbs p,
      (if pcb_is_ready (pcbs p) then some p else none),
      s.queue_temporal ++ s.queue_fifo,
    )
  ]

  unfoldable pub pick_with_hrrn : (ℕ → Pcb) → List ℕ → Option ((ℕ → Pcb) × Option ℕ × List ℕ)
  pick_with_hrrn pcbs [] = some (pcbs, none, [])
  pick_with_hrrn pcbs (p ∷ []) =
      some (if pcb_is_ready (pcbs p) then (pcbs, some p, []) else (pcbs, none, p ∷ []))
  pick_with_hrrn pcbs (p ∷ q ∷ rest) = hrrn_finish pcbs (
      hrrn_loop pcbs
        (record {
          highest_response_ratio = 0;
          next_pcb = none;
          queue_temporal = [];
          queue_fifo = [];
        })
        (p ∷ q ∷ rest))

  -- The pointer it returns, and what is left.
  unfoldable pub short_term_scheduler : Kernel → Option (Kernel × Option ℕ)
  short_term_scheduler k = elim k.prioritized_pcb [
    | some p ↦
        some (
          record k { prioritized_pcb = none; active_pcbs = remove_element p k.active_pcbs },
          some p,
        )
    | none ↦
        if k.algorithm_is_hrrn
        then (do
          (pcbs, next, active) ← pick_with_hrrn k.pcbs k.active_pcbs
          some (record k { pcbs = pcbs; active_pcbs = active }, next))
        else (let (next, active) = pick_with_fifo k.pcbs k.active_pcbs in
            some (record k { active_pcbs = active }, next))
  ]

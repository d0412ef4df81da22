-- ===== src/Kernel/Fifo.antt =====
-- What `pick_with_fifo` of kernel/src/algorithms_kernel.c picks.
use tp_so_tuki.Common.{
  ℕ, ◌≡◌, refl, ap, inl, inr, true, false, List, [], ◌∷◌, ◌++◌, Option, none, some, Bool-cases, All,
}
use tp_so_tuki.Kernel.State.{Pcb, pcb_is_ready}
use tp_so_tuki.Kernel.Schedule.{remove_ready, pick_with_fifo}

module _ (pcbs : ℕ → Pcb) where
  abbrev pub Waits : ℕ → Type 0
  Waits p = pcb_is_ready (pcbs p) ≡ false

  -- The first ready PCB of a queue and the queue without it, or none and the queue as it was.
  abbrev pub Picked : List ℕ → Option ℕ → List ℕ → Type 0
  Picked active none rest = (rest ≡ active) × All Waits active
  Picked active (some p) rest =
      (xs : List ℕ) × (ys : List ℕ) × (active ≡ xs ++ p ∷ ys)
      × (rest ≡ xs ++ ys)
      × (pcb_is_ready (pcbs p) ≡ true)
      × All Waits xs

  Picked-cons :
      (p : ℕ) (active : List ℕ) (found : Option ℕ) (rest : List ℕ)
      → Waits p
      → Picked active found rest
      → Picked (p ∷ active) found (p ∷ rest)
  Picked-cons p active none rest w i = (ap (λ t. p ∷ t) i.0, (w, i.1))
  Picked-cons p active (some q) rest w i =
      (p ∷ i.0, i.1, ap (λ t. p ∷ t) i.2, ap (λ t. p ∷ t) i.3, i.4, (w, i.5))

  remove_ready-Picked :
      (active : List ℕ) → Picked active (remove_ready pcbs active).0 (remove_ready pcbs active).1
  unfolding remove_ready
  remove_ready-Picked [] = (refl, tt)
  remove_ready-Picked (p ∷ ps) = elim (Bool-cases (pcb_is_ready (pcbs p))) [
    | inl e ↦ rw e ([], ps, refl, refl, e, tt)
    | inr e ↦ rw e (
        Picked-cons p ps (remove_ready pcbs ps).0 (remove_ready pcbs ps).1 e
          (remove_ready-Picked ps))
  ]

  -- The FIFO scheduler picks the first PCB that is ready, past PCBs that all are not, and takes that one
  -- out of the queue, whose order stays; if none is ready it picks none and the queue stays as it was.
  pub pick_with_fifo-Picked :
      (active : List ℕ)
      → Picked active (pick_with_fifo pcbs active).0 (pick_with_fifo pcbs active).1
  unfolding pick_with_fifo
  pick_with_fifo-Picked [] = (refl, tt)
  pick_with_fifo-Picked (p ∷ ps) = remove_ready-Picked (p ∷ ps)

-- ===== src/Kernel/Semaphore.antt =====
-- The resources of kernel/src/kernel_utils.c as counting semaphores: WAIT takes one from the value of a
-- resource, SIGNAL adds one, and processes wait in the order in which they came.
use tp_so_tuki.Common.{
  ℕ, zero, suc, ◌+◌, ◌-◌, ◌≤◌, ◌<◌, ◌≡◌, ◌≢◌, refl, ap, ◌⊎◌, inl, inr, true, false, List, [], ◌∷◌,
  ◌++◌, length, length-append, Option, none, some, ltb, ◌>>=◌, ◌==◌, Bool-cases, ℤ, pos, negsuc,
  arith,
}
use tp_so_tuki.Kernel.State.{ProcessState, ready, Pcb, Resource, set_state}
use tp_so_tuki.Kernel.Resources.{resource_wait, resource_signal}

-- A process only waits while there is no instance.
abbrev pub IsResource : Resource → Type 0
IsResource r = (r.enqueued_processes ≡ []) ⊎ (r.available_instances ≡ 0)

-- The value of the semaphore: the instances, or minus the number of those that wait.
abbrev pub queue_value : ℕ → List ℕ → ℤ
queue_value available [] = pos available
queue_value available (q ∷ qs) = negsuc (length qs)

abbrev pub value : Resource → ℤ
value r = queue_value r.available_instances r.enqueued_processes

abbrev pub pred : ℤ → ℤ
pred (pos zero) = negsuc 0
pred (pos (suc n)) = pos n
pred (negsuc n) = negsuc (suc n)

abbrev pub succ : ℤ → ℤ
succ (pos n) = pos (suc n)
succ (negsuc zero) = pos 0
succ (negsuc (suc n)) = negsuc n

-- A process that waits on an empty queue, and one behind others.
value-append :
    (a : ℕ) (p : ℕ) (qs : List ℕ)
    → (qs ≡ []) ⊎ (a ≡ 0)
    → a ≡ 0
    → queue_value a (qs ++ (p ∷ [])) ≡ pred (queue_value a qs)
value-append a p [] i e = rw e refl
value-append a p (q ∷ qs) i e =
    ap (λ n. negsuc n) {x = length (qs ++ (p ∷ []))} (omega (arith, length-append qs (p ∷ [])))

value-take :
    (a : ℕ) (qs : List ℕ)
    → (qs ≡ []) ⊎ (a ≡ 0)
    → 0 < a
    → queue_value (a - 1) qs ≡ pred (queue_value a qs)
value-take zero qs i h = absurd (omega arith)
value-take (suc a) [] i h = ap (λ n. pos n) {x = suc a - 1} (omega arith)
value-take (suc a) (q ∷ qs) i h = elim i [
  | inl e ↦ absurd (ground (arith, e))
  | inr e ↦ absurd (omega arith)
]

-- WAIT keeps the invariant and lowers the value by one. It lets the process go on just when the value
-- was positive; if not, the process is the last that waits, and nothing else changes.
pub resource_wait_lem :
    (p : ℕ) (r : Resource)
    → IsResource r
    → IsResource (resource_wait p r).1
      × (value (resource_wait p r).1 ≡ pred (value r))
      × ((((resource_wait p r).0 ≡ true)
            × (0 < r.available_instances)
            × ((resource_wait p r).1.assigned_to ≡ some p)
            × ((resource_wait p r).1.enqueued_processes ≡ r.enqueued_processes))
          ⊎ (((resource_wait p r).0 ≡ false)
              × (r.available_instances ≡ 0)
              × ((resource_wait p r).1.assigned_to ≡ r.assigned_to)
              × ((resource_wait p r).1.enqueued_processes ≡ r.enqueued_processes ++ (p ∷ []))))
unfolding resource_wait
resource_wait_lem p r i = elim (Bool-cases (ltb 0 r.available_instances)) [
  | inl e ↦
      rw (e, resource_wait)
        (
          elim i [ inl q ↦ inl q | inr z ↦ absurd (ground arith) ],
          value-take r.available_instances r.enqueued_processes i (ground arith),
          inl (refl, ground arith, refl, refl),
        )
  | inr e ↦
      (let z : r.available_instances ≡ 0 = ground arith in
        rw (e, resource_wait)
          (
            inr z,
            value-append r.available_instances p r.enqueued_processes i z,
            inr (refl, z, refl, refl),
          ))
]

-- What a signal does to a resource that is held or waited for.
abbrev pub Signalled : (ℕ → Pcb) → Resource → (ℕ → Pcb) × Resource → Type 0
Signalled pcbs r s =
    IsResource s.1
    × (value s.1 ≡ succ (value r))
    × (((r.enqueued_processes ≡ []) × ((q : ℕ) → s.0 q ≡ pcbs q) × (s.1.assigned_to ≡ none))
        ⊎ ((q : ℕ) × (rest : List ℕ) × (r.enqueued_processes ≡ q ∷ rest)
            × (s.1.enqueued_processes ≡ rest)
            × (s.1.assigned_to ≡ some q)
            × ((s.0 q).state ≡ ready)))

pub set_state_self : (pcbs : ℕ → Pcb) (p : ℕ) (s : ProcessState) → (set_state pcbs p s p).state ≡ s
unfolding set_state
set_state_self pcbs p s = rw (self_test, set_state) refl
  where
    self_test : (p == p) ≡ true
    self_test = ground arith

abbrev parts : ℕ → Option ℕ → List ℕ → Resource
parts a t qs = record { available_instances = a; assigned_to = t; enqueued_processes = qs }

signal_parts :
    (pcbs : ℕ → Pcb) (a : ℕ) (t : Option ℕ) (qs : List ℕ)
    → IsResource (parts a t qs)
    → (t ≢ none) ⊎ (qs ≢ [])
    → (s : (ℕ → Pcb) × Resource) × (resource_signal pcbs (parts a t qs) ≡ some s)
      × Signalled pcbs (parts a t qs) s
unfolding resource_signal
signal_parts pcbs a none [] i h = absurd (elim h [ inl n ↦ n refl | inr n ↦ n refl ])
signal_parts pcbs a (some p) [] i h = (
  (pcbs, parts (a + 1) none []),
  refl,
  (inl refl, ap (λ n. pos n) {x = a + 1} (omega arith), inl (refl, (λ q. refl), refl)),
)
signal_parts pcbs a t (q ∷ qs) i h = (
  (set_state pcbs q ready, parts a (some q) qs),
  refl,
  (inr none_left, raised qs, inr (q, qs, refl, refl, refl, set_state_self pcbs q ready)),
)
  where
    none_left : a ≡ 0
    none_left = elim i [ inl e ↦ absurd (ground (arith, e)) | inr e ↦ e ]

    raised : (rest : List ℕ) → queue_value a rest ≡ succ (negsuc (length rest))
    raised [] = ap (λ n. pos n) none_left
    raised (x ∷ xs) = refl

-- SIGNAL on a resource that is assigned or waited for does not fault. It keeps the invariant and raises
-- the value by one. If nobody waits the resource is no longer assigned, and no PCB changes; if not, the
-- first that waits leaves the queue, is ready and has the resource.
pub resource_signal_lem :
    (pcbs : ℕ → Pcb) (r : Resource)
    → IsResource r
    → (r.assigned_to ≢ none) ⊎ (r.enqueued_processes ≢ [])
    → (s : (ℕ → Pcb) × Resource) × (resource_signal pcbs r ≡ some s) × Signalled pcbs r s
resource_signal_lem pcbs r i h =
    signal_parts pcbs r.available_instances r.assigned_to r.enqueued_processes i h

resource_wait-take :
    (p : ℕ) (r : Resource)
    → 0 < r.available_instances
    → (resource_wait p r).1 ≡ parts (r.available_instances - 1) (some p) r.enqueued_processes
unfolding resource_wait
resource_wait-take p r h = rw (positive, resource_wait) refl
  where
    positive : ltb 0 r.available_instances ≡ true
    positive = ground arith

-- A resource with two instances or more, for which nobody waits: after two processes have waited for it
-- and one of them has signalled it, the signal of the other one reads through NULL.
pub resource_signal_twice :
    (pcbs : ℕ → Pcb) (a b : ℕ) (r : Resource)
    → 2 ≤ r.available_instances
    → r.enqueued_processes ≡ []
    → (resource_signal pcbs (resource_wait b (resource_wait a r).1).1 >>= λ s.
        resource_signal s.0 s.1)
      ≡ none
unfolding resource_signal
resource_signal_twice pcbs a b r h e =
    rw
      (
        resource_wait-take a r (omega arith),
        resource_wait-take b (parts (r.available_instances - 1) (some a) r.enqueued_processes)
            (omega arith),
        e,
      )
      refl

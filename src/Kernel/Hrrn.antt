-- ===== src/Kernel/Hrrn.antt =====
-- What `pick_with_hrrn` of kernel/src/algorithms_kernel.c picks.
use tp_so_tuki.Common.{
  ℕ, ◌+◌, ◌≤◌, ◌<◌, ◌≡◌, refl, ap, ◌∙◌, ◌⊎◌, inl, inr, true, List, [], ◌∷◌, ◌++◌, Option, none,
  some, ltb, ◌==◌, if◌then◌else◌, Bool-cases, All, ℤ, arith,
}
use tp_so_tuki.Kernel.State.{Pcb, pcb_is_ready}
use tp_so_tuki.Kernel.Schedule.{
  Search, push_ready, hrrn_step, hrrn_loop, hrrn_finish, set_last_ready_time, pick_with_hrrn,
}

-- How often a pointer stands in a list.
abbrev pub count : ℕ → List ℕ → ℕ
count x [] = 0
count x (y ∷ ys) = (if x == y then 1 else 0) + count x ys

pub count-append : (x : ℕ) (xs ys : List ℕ) → count x (xs ++ ys) ≡ count x xs + count x ys
count-append x [] ys = omega arith
count-append x (y ∷ xs) ys = omega (arith, count-append x xs ys)

module _ (current_time : ℤ) (response_ratio : ℤ → Pcb → ℕ) (pcbs : ℕ → Pcb) where
  abbrev pub ratio : ℕ → ℕ
  ratio p = response_ratio current_time (pcbs p)

  abbrev pub Ready : ℕ → Type 0
  Ready p = pcb_is_ready (pcbs p) ≡ true

  abbrev pub state : ℕ → List ℕ → List ℕ → Search
  state q t f = record {
    highest_response_ratio = ratio q;
    next_pcb = some q;
    queue_temporal = t;
    queue_fifo = f;
  }

  -- The candidate is `q`, and `t` and `f` are the two queues.
  abbrev pub kept : ℕ → ℕ → List ℕ → List ℕ → ℕ
  kept x q t f = (if x == q then 1 else 0) + count x t + count x f

  abbrev Stepped : Search → ℕ → List ℕ → List ℕ → ℕ → Type 0
  Stepped s q t f p =
      (q' : ℕ) × (t' : List ℕ) × (f' : List ℕ) × (s ≡ state q' t' f')
      × Ready q'
      × (ratio q ≤ ratio q')
      × (ratio p ≤ ratio q')
      × ((q' ≡ q) ⊎ (q' ≡ p))
      × ((x : ℕ) → kept x q' t' f' ≡ kept x q t f + (if x == p then 1 else 0))

  hrrn_step-Stepped :
      (q p : ℕ) (t f : List ℕ)
      → Ready q
      → Ready p
      → Stepped (hrrn_step current_time response_ratio pcbs (state q t f) p) q t f p
  unfolding hrrn_step push_ready
  hrrn_step-Stepped q p t f rq rp = elim (Bool-cases (ltb (ratio q) (ratio p))) [
    | inl e ↦
        rw (e, rq, hrrn_step)
          (
            p,
            t ++ (q ∷ []),
            f,
            refl,
            rp,
            ground arith,
            ground arith,
            inr refl,
            λ x. omega (arith, count-append x t (q ∷ [])),
          )
    | inr e ↦ elim (Bool-cases (ratio p == ratio q)) [
      | inl e' ↦
          rw (e, e', hrrn_step)
            (
              q,
              t,
              f ++ (p ∷ []),
              refl,
              rq,
              ground arith,
              ground arith,
              inl refl,
              λ x. omega (arith, count-append x f (p ∷ [])),
            )
      | inr e' ↦
          rw (e, e', hrrn_step)
            (
              q,
              t ++ (p ∷ []),
              f,
              refl,
              rq,
              ground arith,
              ground arith,
              inl refl,
              λ x. omega (arith, count-append x t (p ∷ [])),
            )
    ]
  ]

  abbrev Looped : Search → ℕ → List ℕ → List ℕ → List ℕ → Type 0
  Looped s q t f ps =
      (q' : ℕ) × (t' : List ℕ) × (f' : List ℕ) × (s ≡ state q' t' f')
      × Ready q'
      × (ratio q ≤ ratio q')
      × All (λ p. ratio p ≤ ratio q') ps
      × ((x : ℕ) → kept x q' t' f' ≡ kept x q t f + count x ps)

  hrrn_loop-Looped :
      (ps : List ℕ) (q : ℕ) (t f : List ℕ)
      → Ready q
      → All Ready ps
      → Looped (hrrn_loop current_time response_ratio pcbs (state q t f) ps) q t f ps
  unfolding hrrn_loop
  hrrn_loop-Looped [] q t f rq r = (q, t, f, refl, rq, omega arith, tt, λ x. omega arith)
  hrrn_loop-Looped (p ∷ ps) q t f rq r =
      let (q1, t1, f1, e1, r1, above, over, origin, kept1) = hrrn_step-Stepped q p t f rq r.0 in
      let (q2, t2, f2, e2, r2, above2, over2, kept2) = hrrn_loop-Looped ps q1 t1 f1 r1 r.1 in
      (
        q2,
        t2,
        f2,
        ap (λ s. hrrn_loop current_time response_ratio pcbs s ps) e1 ∙ e2,
        r2,
        omega (arith, above, above2),
        (omega (arith, over, above2), over2),
        λ x. omega (arith, kept1 x, kept2 x),
      )

  -- The result of a pick: the stamped store, the pick, and the queue that is left.
  abbrev pub Highest : List ℕ → Option ((ℕ → Pcb) × Option ℕ × List ℕ) → Type 0
  Highest active result =
      (q : ℕ) × (rest : List ℕ) × (store : ℕ → Pcb) × (result ≡ some (store, some q, rest))
      × All (λ p. ratio p ≤ ratio q) active
      × ((x : ℕ) → count x (q ∷ rest) ≡ count x active)

  pub first_step :
      (p : ℕ)
      → 0 < ratio p
      → hrrn_step current_time response_ratio pcbs
          (record {
            highest_response_ratio = 0;
            next_pcb = none;
            queue_temporal = [];
            queue_fifo = [];
          })
          p
        ≡ state p [] []
  unfolding hrrn_step push_ready
  first_step p h = rw (positive, hrrn_step) refl
    where
      positive : ltb 0 (ratio p) ≡ true
      positive = ground arith

  finish :
      (q : ℕ) (t f : List ℕ)
      → Ready q
      → hrrn_finish current_time response_ratio pcbs (state q t f)
        ≡ some (set_last_ready_time current_time response_ratio pcbs q, some q, t ++ f)
  unfolding hrrn_finish
  finish q t f r = rw (r, hrrn_finish) refl

  -- In a queue that is not empty, let all PCBs be ready and the response ratio of the first be above
  -- zero. HRRN does not fault, picks one whose ratio is the highest, and the pick and the new queue
  -- together hold each PCB as often as the queue did.
  pub pick_with_hrrn-Highest :
      (p : ℕ) (ps : List ℕ)
      → All Ready (p ∷ ps)
      → 0 < ratio p
      → Highest (p ∷ ps) (pick_with_hrrn current_time response_ratio pcbs (p ∷ ps))
  unfolding pick_with_hrrn hrrn_loop
  pick_with_hrrn-Highest p [] r h =
      rw (r.0, pick_with_hrrn) (p, [], pcbs, refl, (omega arith, tt), λ x. refl)
  pick_with_hrrn-Highest p (p' ∷ ps) r h =
      let (q, t, f, e, rq, above, over, kept1) = hrrn_loop-Looped (p' ∷ ps) p [] [] r.0 r.1 in
      (
        q,
        t ++ f,
        set_last_ready_time current_time response_ratio pcbs q,
        ap
              (λ s.
                hrrn_finish current_time response_ratio pcbs
                  (hrrn_loop current_time response_ratio pcbs s (p' ∷ ps)))
              (first_step p h)
            ∙ ap (hrrn_finish current_time response_ratio pcbs) e
            ∙ finish q t f rq,
        (above, over),
        λ x. omega (arith, kept1 x, count-append x t f),
      )

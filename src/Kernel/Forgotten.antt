-- ===== src/Kernel/Forgotten.antt =====
-- A PCB that `pick_with_hrrn` of kernel/src/algorithms_kernel.c puts in no queue.
use tp_so_tuki.Common.{
  ℕ, ◌+◌, ◌≤◌, ◌<◌, ◌≡◌, ◌≢◌, refl, ap, ◌∙◌, inl, inr, true, false, List, [], ◌∷◌, ◌++◌, Option,
  none, some, ltb, ◌==◌, if◌then◌else◌, Bool-cases, ℤ, arith,
}
use tp_so_tuki.Kernel.State.{Pcb, pcb_is_ready}
use tp_so_tuki.Kernel.Schedule.{
  Search, push_ready, hrrn_step, hrrn_loop, hrrn_finish, set_last_ready_time, pick_with_hrrn,
}
use tp_so_tuki.Kernel.Hrrn.{count, count-append, ratio, state, kept, first_step}

module _ (current_time : ℤ) (response_ratio : ℤ → Pcb → ℕ) (pcbs : ℕ → Pcb) where
  -- Nothing is in the variables of the loop that was not there, or in the queue.
  abbrev Bounded : Search → ℕ → List ℕ → List ℕ → List ℕ → Type 0
  Bounded s q t f ps =
      (q' : ℕ) × (t' : List ℕ) × (f' : List ℕ) × (s
        ≡ state current_time response_ratio pcbs q' t' f')
      × ((x : ℕ)
          → kept current_time response_ratio pcbs x q' t' f'
            ≤ kept current_time response_ratio pcbs x q t f + count x ps)

  hrrn_step-Bounded :
      (q p : ℕ) (t f : List ℕ)
      → Bounded
          (hrrn_step current_time response_ratio pcbs
            (state current_time response_ratio pcbs q t f)
            p)
          q
          t
          f
          (p ∷ [])
  unfolding hrrn_step push_ready
  hrrn_step-Bounded q p t f =
      elim (Bool-cases (
        ltb (ratio current_time response_ratio pcbs q)
          (ratio current_time response_ratio pcbs p))) [
            | inl e ↦ elim (Bool-cases (pcb_is_ready (pcbs q))) [
              | inl r ↦
                  rw (e, r, hrrn_step)
                    (p, t ++ (q ∷ []), f, refl, λ x. omega (arith, count-append x t (q ∷ [])))
              | inr r ↦ rw (e, r, hrrn_step) (p, t, f, refl, λ x. omega arith)
            ]
            | inr e ↦
                elim (Bool-cases (
                  ratio current_time response_ratio pcbs p
                  == ratio current_time response_ratio pcbs q)) [
                    | inl e' ↦
                        rw (e, e', hrrn_step)
                          (q, t, f ++ (p ∷ []), refl, λ x. omega (arith, count-append x f (p ∷ [])))
                    | inr e' ↦
                        rw (e, e', hrrn_step)
                          (q, t ++ (p ∷ []), f, refl, λ x. omega (arith, count-append x t (p ∷ [])))
                  ]
          ]

  hrrn_loop-Bounded :
      (ps : List ℕ) (q : ℕ) (t f : List ℕ)
      → Bounded
          (hrrn_loop current_time response_ratio pcbs
            (state current_time response_ratio pcbs q t f)
            ps)
          q
          t
          f
          ps
  unfolding hrrn_loop
  hrrn_loop-Bounded [] q t f = (q, t, f, refl, λ x. omega arith)
  hrrn_loop-Bounded (p ∷ ps) q t f =
      let (q1, t1, f1, e1, b1) = hrrn_step-Bounded q p t f in
      let (q2, t2, f2, e2, b2) = hrrn_loop-Bounded ps q1 t1 f1 in
      (
        q2,
        t2,
        f2,
        ap (λ s. hrrn_loop current_time response_ratio pcbs s ps) e1 ∙ e2,
        λ x. omega (arith, b1 x, b2 x),
      )

  -- The search answers, but neither with `p` nor with a queue that holds it.
  abbrev pub Forgets : ℕ → Option ((ℕ → Pcb) × Option ℕ × List ℕ) → Type 0
  Forgets p result =
      (store : ℕ → Pcb) × (picked : Option ℕ) × (left : List ℕ) × (result
        ≡ some (store, picked, left))
      × (picked ≢ some p)
      × (count p left ≡ 0)

  replaced :
      (p q : ℕ)
      → pcb_is_ready (pcbs p) ≡ false
      → ratio current_time response_ratio pcbs p < ratio current_time response_ratio pcbs q
      → hrrn_step current_time response_ratio pcbs
          (state current_time response_ratio pcbs p [] [])
          q
        ≡ state current_time response_ratio pcbs q [] []
  unfolding hrrn_step push_ready
  replaced p q w h = rw (higher, w, hrrn_step) refl
    where
      higher :
          ltb (ratio current_time response_ratio pcbs p) (ratio current_time response_ratio pcbs q)
          ≡ true
      higher = ground arith

  finish-Forgets :
      (p q : ℕ) (t f : List ℕ)
      → kept current_time response_ratio pcbs p q t f ≡ 0
      → Forgets p (
          hrrn_finish current_time response_ratio pcbs
            (state current_time response_ratio pcbs q t f))
  unfolding hrrn_finish
  finish-Forgets p q t f z = (
    set_last_ready_time current_time response_ratio pcbs q,
    (if pcb_is_ready (pcbs q) then some q else none),
    t ++ f,
    refl,
    λ e. ground (arith, e, z),
    omega (arith, count-append p t f, z),
  )

  -- Let the first PCB of a queue be not ready, stand nowhere else in it, and have a response ratio above
  -- zero, but below that of the second. Then HRRN does not fault, and the first PCB is neither picked
  -- nor left in the queue.
  pub pick_with_hrrn_lost :
      (p q : ℕ) (ps : List ℕ)
      → pcb_is_ready (pcbs p) ≡ false
      → 0 < ratio current_time response_ratio pcbs p
      → ratio current_time response_ratio pcbs p < ratio current_time response_ratio pcbs q
      → count p (q ∷ ps) ≡ 0
      → Forgets p (pick_with_hrrn current_time response_ratio pcbs (p ∷ q ∷ ps))
  unfolding pick_with_hrrn hrrn_loop
  pick_with_hrrn_lost p q ps w h h' z =
      let (q', t, f, e, bound) = hrrn_loop-Bounded ps q [] [] in
      let end : Search → Option ((ℕ → Pcb) × Option ℕ × List ℕ) = λ s.
        hrrn_finish current_time response_ratio pcbs
          (hrrn_loop current_time response_ratio pcbs s ps) in
      let (store, picked, left, answer, other, none_left) =
        finish-Forgets p q' t f (omega (arith, bound p, z)) in
      (
        store,
        picked,
        left,
        ap (λ s. end (hrrn_step current_time response_ratio pcbs s q))
              (first_step current_time response_ratio pcbs p h)
            ∙ ap end (replaced p q w h')
            ∙ ap (hrrn_finish current_time response_ratio pcbs) e
            ∙ answer,
        other,
        none_left,
      )

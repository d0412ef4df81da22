-- ===== src/Cpu/KeptBurst.antt =====
-- What the loop of cpu/src/cpu.c leaves alone over a whole burst.
use tp_so_tuki.Common.{
  ℕ, zero, suc, ◌≡◌, refl, subst, ◌∙◌, inl, inr, List, Option, none, some, Option-cases, ℤ,
}
use tp_so_tuki.Package.{Package}
use tp_so_tuki.Serializer.{Instruction}
use tp_so_tuki.Cpu.Execute.{ExecutionContext, fetch, decode, execute}
use tp_so_tuki.Cpu.Cycle.{Burst, done, fault, out_of_rounds, next, round, run_burst}
use tp_so_tuki.Cpu.Termination.{execute-Kept}

-- The process, its program and its segment table.
abbrev pub SameProcess : ExecutionContext → ExecutionContext → Type 0
SameProcess ec ec' =
    (ec'.pid ≡ ec.pid)
    × (ec'.instructions ≡ ec.instructions)
    × (ec'.segments_table ≡ ec.segments_table)

abbrev RoundKeeps : {W : Type 0} → ExecutionContext → Option (ExecutionContext × W) → Type 0
RoundKeeps ec none = Unit {0}
RoundKeeps ec (some r) = SameProcess ec r.0

abbrev pub BurstKeeps : {W : Type 0} → ExecutionContext → Burst W → Type 0
BurstKeeps ec (done ec' w) = SameProcess ec ec'
BurstKeeps ec fault = Unit {0}
BurstKeeps ec out_of_rounds = Unit {0}

BurstKeeps-trans :
    {W : Type 0} (ec ec' : ExecutionContext) (b : Burst W)
    → SameProcess ec ec'
    → BurstKeeps ec' b
    → BurstKeeps ec b
BurstKeeps-trans ec ec' (done e w) s k = (k.0 ∙ s.0, k.1 ∙ s.1, k.2 ∙ s.2)
BurstKeeps-trans ec ec' fault s k = tt
BurstKeeps-trans ec ec' out_of_rounds s k = tt

module _ (max_segment_size : ℕ) (string_itoa : ℤ → List ℕ) {W : Type 0}
    (ask : W → Instruction → Option Package × W) where
  round-RoundKeeps :
      (i : Instruction) (ec : ExecutionContext) (w : W)
      → RoundKeeps ec (round max_segment_size string_itoa ask i ec w)
  unfolding round next
  round-RoundKeeps i ec w = elim (Option-cases (decode max_segment_size i ec)) [
    | inl e ↦ rw (e, round) tt
    | inr (pa, e) ↦ elim (Option-cases (execute string_itoa ask i ec pa w)) [
      | inl e' ↦ rw (e, e', round) tt
      | inr (s, e') ↦
          (let kept = execute-Kept string_itoa ask i ec pa w s e' in
            rw (e, e', round) (kept.0, kept.2, kept.3))
    ]
  ]

  pub run_burst-BurstKeeps :
      (fuel : ℕ) (ec : ExecutionContext) (w : W)
      → BurstKeeps ec (run_burst max_segment_size string_itoa ask fuel ec w)
  unfolding run_burst
  run_burst-BurstKeeps zero ec w = tt
  run_burst-BurstKeeps (suc fuel) ec w = elim (Option-cases ec.kernel_request) [
    | inr (r, e) ↦ rw (e, run_burst) (refl, refl, refl)
    | inl e ↦ elim (Option-cases (fetch ec)) [
      | inl e' ↦ rw (e, e', run_burst) (refl, refl, refl)
      | inr (i, e') ↦ elim (Option-cases (round max_segment_size string_itoa ask i ec w)) [
        | inl e'' ↦ rw (e, e', e'', run_burst) tt
        | inr (s, e'') ↦
            rw (e, e', e'', run_burst)
              (BurstKeeps-trans ec s.0 _ (subst (RoundKeeps ec) e'' (round-RoundKeeps i ec w))
                (run_burst-BurstKeeps fuel s.0 s.1))
      ]
    ]
  ]

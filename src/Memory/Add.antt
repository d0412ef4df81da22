-- ===== src/Memory/Add.antt =====
-- `add_segment`: what it answers, when, and what it leaves behind.
use tp_so_tuki.Common.{
  ℕ, ◌-◌, ◌≤◌, ◌<◌, ◌≡◌, refl, sym, subst, inl, inr, List, [], ◌∷◌, ◌++◌, Option, none, some, In,
  In-middle, All, leb, Bool-cases, Option-cases, arith,
}
use tp_so_tuki.Memory.State.{Segment, Memory, table_get, table_put, transform_base_to_decimal}
use tp_so_tuki.Memory.Fit.{
  find_first, find_best, find_worst, new_segment, register, place, register_if_known, first_fit,
  best_fit, worst_fit, Algorithm, first, best, worst, fit, Added, created, needs_compaction,
  no_space, report_segment, add_segment,
}
use tp_so_tuki.Memory.Choice.{
  find_best-IsBest, find_best-none, find_worst-IsWorst, find_worst-none, find_first-some,
  find_first-none,
}
use tp_so_tuki.Memory.Invariant.{IsMemory}
use tp_so_tuki.Memory.Allocation.{carve, carve-IsMemory, cell_fresh, ram-carve, tables-carve}

-- The search of each algorithm.
find : Algorithm → (ℕ → Segment) → ℕ → List ℕ → Option ℕ
find first cells size hs = find_first cells size hs
find best cells size hs = find_best cells size hs none
find worst cells size hs = find_worst cells size hs none

find-none :
    (a : Algorithm) (cells : ℕ → Segment) (size : ℕ) (hs : List ℕ)
    → find a cells size hs ≡ none
    → All (λ h. (cells h).offset < size) hs
unfolding find
find-none first cells size hs e = find_first-none cells size hs e
find-none best cells size hs e = (find_best-none cells size hs none e).1
find-none worst cells size hs e = (find_worst-none cells size hs none e).1

find-some :
    (a : Algorithm) (cells : ℕ → Segment) (size : ℕ) (hs : List ℕ) (h : ℕ)
    → find a cells size hs ≡ some h
    → In h hs × (size ≤ (cells h).offset)
unfolding find
find-some first cells size hs h e =
    let (before, after, split, fits, small) = find_first-some cells size hs h e in
    (subst (In h) (sym split) (In-middle before h after), fits)
find-some best cells size hs h e =
    let b = find_best-IsBest cells size hs none h tt e in (ground (arith, b.source), b.fits)
find-some worst cells size hs h e =
    let b = find_worst-IsWorst cells size hs none h tt e in (ground (arith, b.source), b.fits)

fit-none :
    (a : Algorithm) (m : Memory) (size pid s_id : ℕ)
    → find a m.cells size m.hole_list ≡ none
    → fit a m size pid s_id ≡ some (none, m)
unfolding find fit first_fit best_fit worst_fit
fit-none first m size pid s_id e = rw (e, first_fit)
fit-none best m size pid s_id e = rw (e, best_fit)
fit-none worst m size pid s_id e = rw (e, worst_fit)

fit-some :
    (a : Algorithm) (m : Memory) (size pid s_id h : ℕ) (table : List ℕ)
    → table_get pid m.tables ≡ some table
    → find a m.cells size m.hole_list ≡ some h
    → fit a m size pid s_id ≡ some (some m.fresh, carve m h size s_id pid table)
unfolding find fit first_fit best_fit worst_fit place register_if_known carve new_segment register
fit-some first m size pid s_id h table t e = rw (e, first_fit, t, register_if_known)
fit-some best m size pid s_id h table t e = rw (e, best_fit, t)
fit-some worst m size pid s_id h table t e = rw (e, worst_fit, t)

-- The hole that an algorithm takes: the first that is large enough, one that no hole that is large
-- enough is smaller than, or one that no hole is larger than.
abbrev pub Chosen : Algorithm → (ℕ → Segment) → ℕ → List ℕ → ℕ → Type 0
Chosen first cells size hs h =
    (before : List ℕ) × (after : List ℕ) × (hs ≡ before ++ h ∷ after)
    × All (λ g. (cells g).offset < size) before
Chosen best cells size hs h =
    All (λ g. size ≤ (cells g).offset → (cells h).offset ≤ (cells g).offset) hs
Chosen worst cells size hs h = All (λ g. (cells g).offset ≤ (cells h).offset) hs

find-Chosen :
    (a : Algorithm) (cells : ℕ → Segment) (size : ℕ) (hs : List ℕ) (h : ℕ)
    → find a cells size hs ≡ some h
    → Chosen a cells size hs h
unfolding find
find-Chosen first cells size hs h e =
    let (before, after, split, fits, small) = find_first-some cells size hs h e in
    (before, after, split, small)
find-Chosen best cells size hs h e = (find_best-IsBest cells size hs none h tt e).least
find-Chosen worst cells size hs h e = (find_worst-IsWorst cells size hs none h tt e).greatest

-- The answer and the memory that `add_segment` gives for a process with the segments of `table`.
-- A new segment takes the first bytes of the hole `h` that the algorithm chooses.
abbrev pub Outcome : Algorithm → Memory → ℕ → ℕ → ℕ → List ℕ → Added → Memory → Type 0
Outcome a m pid size s_id table no_space m' = (m.remaining_memory < size) × (m' ≡ m)
Outcome a m pid size s_id table needs_compaction m' =
    (size ≤ m.remaining_memory) × All (λ h. (m.cells h).offset < size) m.hole_list × (m' ≡ m)
Outcome a m pid size s_id table (created base) m' =
    (h : ℕ) × In h m.hole_list
    × (size ≤ (m.cells h).offset)
    × Chosen a m.cells size m.hole_list h
    × (base ≡ transform_base_to_decimal (m'.cells m.fresh).base (m'.cells m.segment_zero).base)
    × (m'.cells m.fresh ≡ record { base = (m.cells h).base; offset = size; s_id = s_id })
    × (m'.ram ≡ m.ram ++ (m.fresh ∷ []))
    × (m'.tables ≡ table_put pid (table ++ (m.fresh ∷ [])) m.tables)

-- For a process that has a segment table in a valid memory, `add_segment` answers under each
-- algorithm. It refuses only what exceeds the remaining memory, it asks for compaction only where
-- every hole is too small, and else it gives the process a segment of that size at the start of the
-- hole that the algorithm chooses, and answers its distance from segment zero. In every case the
-- memory stays valid: no byte is in two blocks, and the remaining memory is what the holes hold.
pub add_segment_lem :
    {memory_size : ℕ} {m : Memory} (a : Algorithm) (pid size s_id : ℕ) (table : List ℕ)
    → IsMemory memory_size m
    → table_get pid m.tables ≡ some table
    → (r : Added) × (m' : Memory) × (add_segment a m pid size s_id ≡ some (r, m'))
      × Outcome a m pid size s_id table r m'
      × IsMemory memory_size m'
unfolding add_segment report_segment carve
add_segment_lem {m = m} a pid size s_id table v t =
    elim (Bool-cases (leb size m.remaining_memory)) [
      | inr e ↦ (no_space, m, rw e, (ground arith, refl), v)
      | inl e ↦ elim (Option-cases (find a m.cells size m.hole_list)) [
        | inl n ↦ (
          needs_compaction,
          m,
          rw (e, fit-none a m size pid s_id n),
          (ground arith, find-none a m.cells size m.hole_list n, refl),
          v,
        )
        | inr (h, found) ↦
            let (held, fits) = find-some a m.cells size m.hole_list h found in
            let m' = carve m h size s_id pid table in
            (
              created (
                  transform_base_to_decimal (m'.cells m.fresh).base
                    (m'.cells m'.segment_zero).base),
              record m' { remaining_memory = m'.remaining_memory - size },
              rw (e, fit-some a m size pid s_id h table t found),
              (
                h,
                held,
                fits,
                find-Chosen a m.cells size m.hole_list h found,
                refl,
                cell_fresh v h held size s_id pid table fits,
                ram-carve v h held size s_id pid table fits,
                tables-carve v h held size s_id pid table fits,
              ),
              carve-IsMemory v h held size s_id pid table fits,
            )
      ]
    ]

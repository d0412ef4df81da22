-- ===== src/Memory/Ended.antt =====
-- The end of a process: `remove_sg_table` of memoria/src/handler_instruction_memoria.c gives back every
-- segment of its table.
use tp_so_tuki.Common.{
  ℕ, zero, suc, ◌+◌, ◌-◌, ◌<◌, ◌≡◌, ◌≢◌, refl, sym, ap, subst, ◌∙◌, inl, inr, true, List, [], ◌∷◌,
  some, length, get_elem?, In, ltb, arith,
}
use native.Mathlib.Decide.{ℕ_discrete}
use tp_so_tuki.Memory.State.{Segment, Memory, table_get, table_remove}
use tp_so_tuki.Memory.Delete.{remove_base, delete_segment, remove_segments, remove_sg_table}
use tp_so_tuki.Memory.Blocks.{Distinct, total}
use tp_so_tuki.Memory.Invariant.{IsMemory}
use tp_so_tuki.Memory.Release.{IsRam, delete_segment_lem}
use tp_so_tuki.Memory.Removed.{In-remove_base}
use tp_so_tuki.Memory.Kept.{delete_segment_kept}
use tp_so_tuki.Memory.Taken.{
  Taken, take_segment-Taken, take_segment_found, get_elem-In, table_get-put,
}

-- What the end of the segments of `table` makes of a memory.
pub record Ended (memory_size : ℕ) (m : Memory) (table : List ℕ) (m' : Memory) : Type 0 where
  pub valid : IsMemory memory_size m'
  pub given_back : m'.remaining_memory ≡ m.remaining_memory + total m.cells table
  pub gone : (q : ℕ) → In q table → ¬ In q m'.ram
  pub fewer : (q : ℕ) → In q m'.ram → In q m.ram
  pub others : (q : ℕ) → In q m.ram → ¬ In q table → In q m'.ram

-- One round, for any segment of the table.
record Round (memory_size : ℕ) (m : Memory) (pid z : ℕ) (used table : List ℕ) (m' : Memory)
    (used' table' : List ℕ) (p : ℕ) : Type 0 where
  taken : Taken m.cells table p table'
  valid : IsMemory memory_size m'
  ram : IsRam m' used'
  listed : table_get pid m'.tables ≡ some (z ∷ table')
  live : (q : ℕ) → In q table' → In q used'
  remaining : m'.remaining_memory ≡ m.remaining_memory + (m.cells p).offset
  cells_kept : (q : ℕ) → In q table' → m'.cells q ≡ m.cells q
  gone : ¬ In p m'.ram
  fewer : (q : ℕ) → In q m'.ram → In q m.ram
  others : (q : ℕ) → In q m.ram → q ≢ p → In q m'.ram

delete_segment-Round :
    {memory_size : ℕ} {m : Memory} (pid z : ℕ) (used table : List ℕ) (q : ℕ)
    → IsMemory memory_size m
    → IsRam m used
    → table_get pid m.tables ≡ some (z ∷ table)
    → ((x : ℕ) → In x table → In x used)
    → Distinct table
    → In q table
    → (m' : Memory) × (used' : List ℕ) × (table' : List ℕ) × (p : ℕ) × (delete_segment m pid
          (m.cells q).s_id
        ≡ some m')
      × Round memory_size m pid z used table m' used' table' p
delete_segment-Round {m = m} pid z used table q v r t listed d i =
    let (found, e) = take_segment_found m.cells q table i in
    let (m', deleted, id, tables, ram, gone, remaining, valid, cells, held) =
      delete_segment_lem pid (m.cells q).s_id z found.0 used table found.1 v r t listed e in
    let (zero_kept, kept, in_use) =
      delete_segment_kept pid (m.cells q).s_id z found.0 used table found.1 v r t listed e m'
        deleted in
    let taken = take_segment-Taken m.cells (m.cells q).s_id table found.0 found.1 d e in
    let in_ram : (x : ℕ) → In x used → In x m.ram = λ x j. subst (In x) (sym r.split) (inr j) in
    let before : (x : ℕ) → In x (remove_base m.cells (m.cells found.0).base used) → In x used =
      λ x j. In-remove_base m.cells found.0 used x j in
    let other : (x : ℕ) → In x found.1 → x ≢ found.0 =
      λ x j k. taken.gone (subst (λ y. In y found.1) k j) in
    (
      m',
      remove_base m.cells (m.cells found.0).base used,
      found.1,
      found.0,
      deleted,
      record {
        taken = taken;
        valid = valid;
        ram = record {
          split =
              ram ∙ ap (λ x. x ∷ remove_base m.cells (m.cells found.0).base used) (sym zero_kept);
          positive = λ x j.
              subst (λ (c : Segment). 0 < c.offset)
                (sym (
                  cells x (in_ram x (before x j)) (λ k. gone (
                    subst (In found.0) (sym ram) (
                      inr (
                        subst (λ y. In y (remove_base m.cells (m.cells found.0).base used)) k
                          j))))))
                (r.positive x (before x j));
        };
        listed = ap (table_get pid) tables ∙ table_get-put pid (z ∷ found.1) m.tables;
        live = λ x j. in_use x (listed x (taken.within x j)) (other x j);
        remaining = remaining;
        cells_kept = λ x j. cells x (in_ram x (listed x (taken.within x j))) (other x j);
        gone = gone;
        fewer = λ x j. elim (subst (In x) ram j) [
          | inl k ↦ subst (In x) (sym r.split) (inl k)
          | inr k ↦ in_ram x (before x k)
        ];
        others = λ x j n. elim (subst (In x) r.split j) [
          | inl k ↦ subst (In x) (sym ram) (inl k)
          | inr k ↦ subst (In x) (sym ram) (inr (in_use x k n))
        ];
      },
    )

total-kept :
    (c c' : ℕ → Segment) (ps : List ℕ) → ((q : ℕ) → In q ps → c' q ≡ c q) → total c' ps ≡ total c ps
total-kept c c' [] h = refl
total-kept c c' (p ∷ ps) h = omega (
  arith,
  ap (λ (s : Segment). s.offset) (h p (inl refl)),
  total-kept c c' ps (λ q i. h q (inr i)),
)

remove_segments-step :
    (fuel : ℕ) (m m1 : Memory) (pid i q : ℕ) (table : List ℕ)
    → table_get pid m.tables ≡ some table
    → ltb 1 (length table) ≡ true
    → get_elem? table i ≡ some q
    → delete_segment m pid (m.cells q).s_id ≡ some m1
    → remove_segments (suc fuel) m pid i ≡ remove_segments fuel m1 pid (i - 1)
unfolding remove_segments
remove_segments-step fuel m m1 pid i q table t more at e = grind (arith, t, more, at, e)

-- The rounds, for a table of `n` segments behind its first entry.
remove_segments-Ended :
    {memory_size : ℕ} (n : ℕ) (m : Memory) (pid z : ℕ) (used table : List ℕ)
    → length table ≡ n
    → IsMemory memory_size m
    → IsRam m used
    → table_get pid m.tables ≡ some (z ∷ table)
    → ((x : ℕ) → In x table → In x used)
    → Distinct table
    → (m' : Memory) × (remove_segments (suc n) m pid n ≡ some m') × Ended memory_size m table m'
unfolding remove_segments
remove_segments-Ended zero m pid z used [] l v r t listed d = (
  m,
  rw t refl,
  record {
    valid = v;
    given_back = omega arith;
    gone = λ q i. absurd i;
    fewer = λ q i. i;
    others = λ q i n. i;
  },
)
remove_segments-Ended zero m pid z used (x ∷ table) l v r t listed d = absurd (omega arith)
remove_segments-Ended (suc n) m pid z used table l v r t listed d =
    let (q, at, i) = get_elem-In table n (omega arith) in
    let (m1, used', table', p, e, s) = delete_segment-Round pid z used table q v r t listed d i in
    let (m', e', ended) =
      remove_segments-Ended n m1 pid z used' table' (omega (arith, s.taken.one_less, l)) s.valid
        s.ram s.listed s.live s.taken.once in
    (
      m',
      remove_segments-step (suc n) m m1 pid (suc n) q (z ∷ table) t more at e
          ∙ ap (remove_segments (suc n) m1 pid) back
          ∙ e',
      record {
        valid = ended.valid;
        given_back = omega (
          arith,
          ended.given_back,
          s.remaining,
          s.taken.sum,
          total-kept m.cells m1.cells table' s.cells_kept,
        );
        gone = λ x j k. elim (ℕ_discrete x p) [
          | yes same ↦ s.gone (subst (λ y. In y m1.ram) same (ended.fewer x k))
          | no ne ↦ ended.gone x (s.taken.others x j ne) k
        ];
        fewer = λ x j. s.fewer x (ended.fewer x j);
        others = λ x j k.
            ended.others x
              (s.others x j (λ same. k (subst (λ y. In y table) (sym same) s.taken.member)))
              (λ h. k (s.taken.within x h));
      },
    )
  where
    more : ltb 1 (length (z ∷ table)) ≡ true
    more = ground (arith, l)

    back : suc n - 1 ≡ n
    back = omega arith

Ended-tables :
    {memory_size : ℕ} {m m' : Memory} {table : List ℕ} (tables : List (ℕ × List ℕ))
    → Ended memory_size m table m'
    → Ended memory_size m table (record m' { tables = tables })
Ended-tables tables e = record {
  valid = record {
    allocated = e.valid.allocated;
    holes_once = e.valid.holes_once;
    segments_once = e.valid.segments_once;
    apart = e.valid.apart;
    within = e.valid.within;
    disjoint = e.valid.disjoint;
    free_total = e.valid.free_total;
    all_total = e.valid.all_total;
  };
  given_back = e.given_back;
  gone = e.gone;
  fewer = e.fewer;
  others = e.others;
}

-- Let the memory be valid, segment zero head the list of all segments and no other be empty, and let the
-- table of a process hold, behind its first entry, segments in use, each once. Then `remove_sg_table`
-- neither faults nor runs out of rounds: the memory stays valid, the remaining memory grows by the
-- sizes of exactly these segments, none of them is a segment any more, and every other segment still is.
pub remove_sg_table_lem :
    {memory_size : ℕ} {m : Memory} (pid z : ℕ) (used table : List ℕ)
    → IsMemory memory_size m
    → IsRam m used
    → table_get pid m.tables ≡ some (z ∷ table)
    → ((x : ℕ) → In x table → In x used)
    → Distinct table
    → (m' : Memory) × (remove_sg_table m pid ≡ some m') × Ended memory_size m table m'
unfolding remove_sg_table
remove_sg_table_lem {m = m} pid z used table v r t listed d =
    let (m', e, ended) =
      remove_segments-Ended (length table) m pid z used table refl v r t listed d in
    (
      record m' { tables = table_remove pid m'.tables },
      grind (arith, t, e),
      Ended-tables (table_remove pid m'.tables) ended,
    )

-- ===== src/Memory/Kept.antt =====
-- What `delete_segment` of memoria/src/handler_instruction_memoria.c leaves as it was.
use tp_so_tuki.Common.{ℕ, ◌≡◌, ◌≢◌, refl, sym, ap, ◌∙◌, List, ◌∷◌, some, In, some-injective}
use tp_so_tuki.Memory.State.{Memory, table_get}
use tp_so_tuki.Memory.Delete.{
  take_segment, remove_base, release_segment, compact_hole_list, delete_segment,
}
use tp_so_tuki.Memory.Invariant.{IsMemory}
use tp_so_tuki.Memory.Compaction.{zero-compact_hole_list}
use tp_so_tuki.Memory.Removed.{remove_base-In}
use tp_so_tuki.Memory.Release.{IsRam, lone, released, kept-released, take_segment-In}

-- What stays when a segment is deleted: segment zero, and the other segments in use with their structs.
pub delete_segment_kept :
    {memory_size : ℕ} {m : Memory} (pid s_id z p : ℕ) (used table rest : List ℕ)
    → IsMemory memory_size m
    → IsRam m used
    → table_get pid m.tables ≡ some (z ∷ table)
    → ((q : ℕ) → In q table → In q used)
    → take_segment m.cells s_id table ≡ some (p, rest)
    → (m' : Memory) → delete_segment m pid s_id ≡ some m'
    → (m'.segment_zero ≡ m.segment_zero)
      × ((q : ℕ) → In q m.ram → q ≢ p → (m'.cells q ≡ m.cells q))
      × ((q : ℕ) → In q used → q ≢ p → In q (remove_base m.cells (m.cells p).base used))
unfolding delete_segment release_segment released
delete_segment_kept {m = m} pid s_id z p used table rest v r t listed e m' d =
    let live = listed p (take_segment-In m.cells s_id table p rest e).0 in
    let m1 = released v used r pid z p rest live in
    let same : compact_hole_list m1 ≡ m' = some-injective (sym (rw (t, e) refl) ∙ d) in
    (
      ap (λ (x : Memory). x.segment_zero) (sym same) ∙ zero-compact_hole_list m1,
      λ q i n.
          ap (λ (x : Memory). x.cells q) (sym same)
          ∙ kept-released v used r pid z p rest live q i n,
      λ q i n. remove_base-In m.cells p used (lone v used r pid z p rest live) q i n,
    )

-- ===== src/Serializer/AllSegments.antt =====
-- `deserialize_all_segments_tables` of shared/src/shared_serializer.c. The dictionary is given by the types
-- of the nested packages, which are the process ids that its keys print. `malloc` is the address of an
-- allocation in the call for the table of a process.
use tp_so_tuki.Common.{
  ℕ, zero, suc, true, false, List, [], ◌∷◌, Option, none, some, map, if◌then◌else◌, ◌==◌, ◌>>=◌,
}
use tp_so_tuki.Package.{Package, package_decode, package_decode_isset}
use tp_so_tuki.Serializer.SegmentTables.{deserialize_segment_table}
use tp_so_tuki.Memory.State.{Segment}

-- `dictionary_put` by the process id.
unfoldable pub put_table : ℕ → List Segment → List (ℕ × List Segment) → List (ℕ × List Segment)
put_table pid table [] = (pid, table) ∷ []
put_table pid table ((k, t) ∷ rest) =
    if k == pid then (pid, table) ∷ rest else (k, t) ∷ put_table pid table rest

-- `dictionary_get`, with `none` for NULL.
unfoldable pub get_table : ℕ → List (ℕ × List Segment) → Option (List Segment)
get_table pid [] = none
get_table pid ((k, t) ∷ rest) = if k == pid then some t else get_table pid rest

module _ (malloc : ℕ → ℕ → ℕ) where
  unfoldable pub load_tables :
      ℕ → Package → ℕ → List (ℕ × List Segment) → Option (List (ℕ × List Segment))
  load_tables zero p offset tables = none
  load_tables (suc fuel) p offset tables = elim (package_decode_isset p offset) [
    | true ↦ (do
      (nested, offset') ← package_decode p.buffer offset
      table ← deserialize_segment_table (malloc nested.type) nested
      load_tables fuel p offset'
          (put_table nested.type (map (λ (e : Segment × ℕ). e.0) table) tables))
    | false ↦ some tables
  ]

  unfoldable pub deserialize_all_segments_tables : Package → Option (List (ℕ × List Segment))
  deserialize_all_segments_tables p = load_tables (suc p.size) p 0 []

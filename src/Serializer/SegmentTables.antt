-- ===== src/Serializer/SegmentTables.antt =====
-- The segment tables of shared/src/shared_serializer.c. `string_itoa` is the commons library's, and
-- `malloc` is the address of the n-th allocation of a call. An `int` is kept as its bit pattern.
use tp_so_tuki.Common.{
  ℕ, zero, suc, ◌-◌, ◌^◌, ◌%◌, true, false, List, [], ◌∷◌, ◌++◌, Option, none, some, length,
  get_elem?, ◌>>=◌, ℤ, pos, negsuc, atoi,
}
use tp_so_tuki.Package.{Package, package_new, package_nest, package_decode, package_decode_isset}
use tp_so_tuki.Serializer.{Instruction, serialize_instruction, deserialize_instruction}
use tp_so_tuki.Memory.State.{Segment}
use tp_so_tuki.Cpu.Execute.{to_int}

-- `SEGMENT`, the last of `t_memory_state`.
abbrev pub segment : ℕ
segment = 4

unfoldable pub int_bits : ℤ → ℕ
int_bits (pos n) = n % 2 ^ 32
int_bits (negsuc n) = 2 ^ 32 - 1 - n % 2 ^ 32

module _ (string_itoa : ℤ → List ℕ) where
  -- `serialize_segment`. The difference from `heap_pointer` is the base itself: the memory keeps a base as
  -- the offset into its heap, and the kernel and the CPU pass 0. `string_itoa` takes an `int`.
  unfoldable pub segment_instruction : Segment → Instruction
  segment_instruction s = record {
    op_code = segment;
    args =
        string_itoa (to_int s.base)
        ∷ string_itoa (to_int s.offset)
        ∷ string_itoa (to_int s.s_id)
        ∷ [];
  }

  unfoldable pub nest_segments : Package → List Segment → Package
  nest_segments p [] = p
  nest_segments p (s ∷ ss) =
      nest_segments (package_nest p (serialize_instruction (segment_instruction s))) ss

  unfoldable pub serialize_segments_table : List Segment → ℕ → Package
  serialize_segments_table table type = nest_segments (package_new type) table

-- The new segment's base points to an `int` that is read from the base sent. `none` for a missing argument,
-- which `atoi` reads through NULL.
unfoldable pub deserialize_segment : ℕ → Package → Option (Segment × ℕ)
deserialize_segment pointer nested = do
  i ← deserialize_instruction nested
  base ← get_elem? i.args 0
  offset ← get_elem? i.args 1
  s_id ← get_elem? i.args 2
  some (
    record { base = pointer; offset = int_bits (atoi offset); s_id = int_bits (atoi s_id) },
    int_bits (atoi base),
  )

module _ (malloc : ℕ → ℕ) where
  -- The table, and what the bases point to.
  unfoldable pub load_segments : ℕ → Package → ℕ → List (Segment × ℕ) → Option (List (Segment × ℕ))
  load_segments zero p offset table = none
  load_segments (suc fuel) p offset table = elim (package_decode_isset p offset) [
    | true ↦ (do
      (nested, offset') ← package_decode p.buffer offset
      s ← deserialize_segment (malloc (length table)) nested
      load_segments fuel p offset' (table ++ (s ∷ [])))
    | false ↦ some table
  ]

  unfoldable pub deserialize_segment_table : Package → Option (List (Segment × ℕ))
  deserialize_segment_table p = load_segments (suc p.size) p 0 []

-- ===== src/Memory/Tests.antt =====
-- Concrete memories: set up for a hundred bytes, with the table of process 5, and with a segment of
-- twenty bytes in it.
use tp_so_tuki.Common.{
  ℤ, pos, negsuc, digits, signed, atoi, false, ℕ, zero, suc, ◌+◌, ◌≤◌, ◌<◌, ◌≡◌, ◌≢◌, refl, subst,
  ◌⊎◌, inl, inr, Bool, true, List, [], ◌∷◌, some, In, arith,
}
use tp_so_tuki.Package.{package_new}
use tp_so_tuki.Serializer.{Instruction, serialize_message, deserialize_message}
use tp_so_tuki.Memory.Messages.{natural, int_arg, handle_modules}
use tp_so_tuki.Memory.Echo.{Names, handle_modules-echo}
use tp_so_tuki.Memory.State.{Segment, Memory, table_get, table_put}
use tp_so_tuki.Memory.Fit.{first, best, Added, add_segment}
use tp_so_tuki.Memory.Merge.{Held}
use tp_so_tuki.Memory.Invariant.{Covers, Owned, IsMemory}
use tp_so_tuki.Memory.Add.{Outcome, add_segment_lem}
use tp_so_tuki.Memory.Delete.{remove_sg_table, take_segment, remove_base, delete_segment}
use tp_so_tuki.Memory.Ended.{Ended, remove_sg_table_lem}
use tp_so_tuki.Memory.Release.{IsRam, delete_segment_lem}
use tp_so_tuki.Memory.Access.{get_segment_by_id, find_segment, read_memory, write_memory}
use tp_so_tuki.Memory.ReadWrite.{read_memory-write_memory, write_memory_past_end}
use tp_so_tuki.Memory.Compact.{compact_memory}
use tp_so_tuki.Memory.Reordered.{nil, cons}
use tp_so_tuki.Memory.Slide.{end_of}
use tp_so_tuki.Memory.Compacted.{IsZero, Compacted}
use tp_so_tuki.Memory.Gap.{Sorts, compact_memory_lem, compact_memory_past_end}

abbrev cells : ℕ → Segment
cells zero = record { base = 0; offset = 16; s_id = 0 }
cells (suc zero) = record { base = 36; offset = 64; s_id = 0 }
cells (suc (suc p)) = record { base = 16; offset = 20; s_id = 1 }

abbrev two_segments : Memory
two_segments = record {
  cells = cells;
  fresh = 3;
  segment_zero = 0;
  tables = (5, 0 ∷ 2 ∷ []) ∷ [];
  hole_list = 1 ∷ [];
  ram = 0 ∷ 2 ∷ [];
  heap = λ a. 0;
  remaining_memory = 64;
}

Owned-cases : (p : ℕ) → Owned two_segments p → (p ≡ 0) ⊎ ((p ≡ 1) ⊎ (p ≡ 2))
Owned-cases p o = ground arith

two_segments-IsMemory : IsMemory 100 two_segments
two_segments-IsMemory = record {
  allocated = λ p o. ground (arith, Owned-cases p o);
  holes_once = ((λ i. i), tt);
  segments_once = ((λ i. ground arith), ((λ i. i), tt));
  apart = λ p i j. ground arith;
  within = λ p o. within p (Owned-cases p o);
  disjoint = λ p q o o' n x a b. disjoint p q x (Owned-cases p o) (Owned-cases q o') n a b;
  free_total = omega arith;
  all_total = omega arith;
}
  where
    within : (p : ℕ) → (p ≡ 0) ⊎ ((p ≡ 1) ⊎ (p ≡ 2)) → (cells p).base + (cells p).offset ≤ 100
    within p c = elim c [
      | inl e ↦ rw e (omega arith)
      | inr (inl e) ↦ rw e (omega arith)
      | inr (inr e) ↦ rw e (omega arith)
    ]

    region :
        (p x : ℕ)
        → (p ≡ 0) ⊎ ((p ≡ 1) ⊎ (p ≡ 2))
        → Covers (cells p) x
        → ((p ≡ 0) × (x < 16)) ⊎ (((p ≡ 1) × (36 ≤ x)) ⊎ ((p ≡ 2) × (16 ≤ x) × (x < 36)))
    region p x (inl e) a = inl (e, (subst (λ r. Covers (cells r) x) e a).1)
    region p x (inr (inl e)) a = inr (inl (e, (subst (λ r. Covers (cells r) x) e a).0))
    region p x (inr (inr e)) a =
        inr (
          inr (e, (subst (λ r. Covers (cells r) x) e a).0, (subst (λ r. Covers (cells r) x) e a).1))

    disjoint :
        (p q x : ℕ)
        → (p ≡ 0) ⊎ ((p ≡ 1) ⊎ (p ≡ 2))
        → (q ≡ 0) ⊎ ((q ≡ 1) ⊎ (q ≡ 2))
        → p ≢ q
        → Covers (cells p) x
        → Covers (cells q) x
        → ⊥
    disjoint p q x c d n a b = ground (arith, region p x c a, region q x d b)

two_segments-IsRam : IsRam two_segments (2 ∷ [])
two_segments-IsRam = record {
  split = refl;
  positive = λ p i. elim i [ inl e ↦ rw e (omega arith) | inr j ↦ absurd j ];
}

two_segments-IsZero : IsZero two_segments
two_segments-IsZero = record { at_start = refl; nonempty = omega arith }

add_segment_lem_example :
    (r : Added) × (m' : Memory) × (add_segment best two_segments 5 30 2 ≡ some (r, m'))
    × Outcome best two_segments 5 30 2 (0 ∷ 2 ∷ []) r m'
    × IsMemory 100 m'
unfolding table_get
add_segment_lem_example = add_segment_lem best 5 30 2 (0 ∷ 2 ∷ []) two_segments-IsMemory refl

delete_segment_lem_example :
    (m' : Memory) × (delete_segment two_segments 5 1 ≡ some m')
    × ((cells 2).s_id ≡ 1)
    × (m'.tables ≡ table_put 5 (0 ∷ []) ((5, 0 ∷ 2 ∷ []) ∷ []))
    × (m'.ram ≡ 0 ∷ remove_base cells 16 (2 ∷ []))
    × (¬ In 2 m'.ram)
    × (m'.remaining_memory ≡ 64 + 20)
    × IsMemory 100 m'
    × ((q : ℕ) → In q (0 ∷ 2 ∷ []) → q ≢ 2 → (m'.cells q ≡ cells q))
    × ((x : ℕ)
        → Covers (cells 2) x ⊎ Held cells two_segments.hole_list x
        → Held m'.cells m'.hole_list x)
unfolding table_get take_segment
delete_segment_lem_example =
    delete_segment_lem 5 1 0 2 (2 ∷ []) (2 ∷ []) [] two_segments-IsMemory two_segments-IsRam refl
      (λ q i. i) refl

abbrev keep_order : (ℕ → ℕ → Bool) → List ℕ → List ℕ
keep_order le xs = xs

keep_order-Sorts : Sorts keep_order two_segments
keep_order-Sorts = record {
  reordered = cons 0 (cons 2 nil);
  ascending = ((omega arith, tt), (tt, tt));
}

compact_memory_lem_example :
    (m' : Memory) × (compact_memory keep_order two_segments 64 ≡ some m')
    × Compacted two_segments-IsMemory (2 ∷ []) two_segments-IsRam two_segments-IsZero 64 m'
compact_memory_lem_example =
    compact_memory_lem two_segments-IsMemory (2 ∷ []) two_segments-IsRam two_segments-IsZero
      keep_order 64 2 (inl refl) keep_order-Sorts

compact_memory_past_end_example :
    (m' : Memory) × (compact_memory keep_order two_segments 64 ≡ some m')
    × (end_of (m'.cells 3) ≡ 100 + 1)
    × (¬ IsMemory 100 m')
compact_memory_past_end_example =
    compact_memory_past_end two_segments-IsMemory (2 ∷ []) two_segments-IsRam two_segments-IsZero
      keep_order 2 (inl refl) keep_order-Sorts

remove_sg_table_lem_example :
    (m' : Memory) × (remove_sg_table two_segments 5 ≡ some m') × Ended 100 two_segments (2 ∷ []) m'
unfolding table_get
remove_sg_table_lem_example =
    remove_sg_table_lem 5 0 (2 ∷ []) (2 ∷ []) two_segments-IsMemory two_segments-IsRam refl
      (λ q i. i) ((λ i. i), tt)

found_segment : get_segment_by_id two_segments 1 5 ≡ some (some 2)
unfolding get_segment_by_id find_segment table_get
found_segment = refl

read_memory-write_memory_example :
    (m' : Memory) × (write_memory two_segments 1 4 2 (72 ∷ 73 ∷ []) 5 ≡ some (true, m'))
    × (read_memory m' 1 4 2 5 ≡ some (some (72 ∷ 73 ∷ [])))
read_memory-write_memory_example =
    read_memory-write_memory two_segments 1 4 5 2 (72 ∷ 73 ∷ []) found_segment (omega arith)
      (omega arith)

write_memory_past_end_example :
    (m' : Memory) × (write_memory two_segments 1 18 2 (72 ∷ 73 ∷ []) 5 ≡ some (true, m'))
    × (m'.heap 36 ≡ 0)
write_memory_past_end_example =
    write_memory_past_end two_segments 1 18 5 2 (72 ∷ 73 ∷ []) found_segment refl

abbrev digit : ℤ → List ℕ
digit (pos n) = (48 + n) ∷ []
digit (negsuc n) = 45 ∷ (49 + n) ∷ []

-- Write "HI" to byte 4 of segment 1, and read eight bytes there.
abbrev write_hi : Instruction
write_hi = record { op_code = 3; args = (49 ∷ []) ∷ (52 ∷ []) ∷ (72 ∷ 73 ∷ []) ∷ (53 ∷ []) ∷ [] }

abbrev read_eight : Instruction
read_eight = record { op_code = 2; args = (49 ∷ []) ∷ (52 ∷ []) ∷ (56 ∷ []) ∷ (53 ∷ []) ∷ [] }

write_hi-Names : Names write_hi 3 1 4 5
unfolding int_arg natural atoi signed digits
write_hi-Names = record {
  asks = refl;
  segment_read = refl;
  offset_read = refl;
  process_read = refl;
}

read_eight-Names : Names read_eight 2 1 4 5
unfolding int_arg natural atoi signed digits
read_eight-Names = record {
  asks = refl;
  segment_read = refl;
  offset_read = refl;
  process_read = refl;
}

handle_modules-echo_example :
    (m' : Memory) × (handle_modules digit keep_order first two_segments write_hi
      ≡ some (some (package_new 1), m'))
    × (handle_modules digit keep_order first m' read_eight
        ≡ some (some (serialize_message (72 ∷ 73 ∷ []) false), m'))
    × (deserialize_message (serialize_message (72 ∷ 73 ∷ []) false) ≡ some (72 ∷ 73 ∷ []))
unfolding int_arg natural atoi signed digits
handle_modules-echo_example =
    handle_modules-echo digit keep_order first two_segments write_hi read_eight 1 4 8 5 2
      (72 ∷ 73 ∷ []) write_hi-Names refl read_eight-Names refl found_segment
      ((λ e. ground (arith, e)), ((λ e. ground (arith, e)), tt)) (omega arith) (omega arith)
      (omega arith)

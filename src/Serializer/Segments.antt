-- ===== src/Serializer/Segments.antt =====
-- Segment tables survive the trip from the memory to the kernel, but for the bases.
use tp_so_tuki.Common.{
  ℕ, zero, suc, ◌+◌, ◌<◌, ◌%◌, ◌^◌, ◌≡◌, refl, sym, subst, ap, ◌∙◌, true, List, [], ◌∷◌, ◌++◌, map,
  append_assoc, append-nil, some, length, length-append, All, ℤ, atoi, arith,
}
use tp_so_tuki.Package.{Package, package_new, package_nest, package_decode_isset}
use tp_so_tuki.Package.Cursor.{At, At-start}
use tp_so_tuki.Package.RoundTrip.{IsPackage, length-frame, frame_next, package_decode-frame}
use tp_so_tuki.Serializer.{
  Instruction, serialize_instruction, deserialize_instruction, nest_instructions,
}
use tp_so_tuki.Serializer.Arguments.{
  IsInstruction, instruction_package, instruction_package-IsPackage, serialize_instruction-package,
  deserialize_instruction-serialize_instruction, isset_before_end, isset_at_end,
}
use tp_so_tuki.Serializer.Instructions.{
  instruction_frame, encode_instructions, length-encode_instructions, nest_instructions-encode,
}
use tp_so_tuki.Memory.State.{Segment}
use tp_so_tuki.Cpu.Execute.{to_int}
use tp_so_tuki.Serializer.SegmentTables.{
  int_bits, segment_instruction, nest_segments, serialize_segments_table, deserialize_segment,
  load_segments, deserialize_segment_table,
}

module _ (string_itoa : ℤ → List ℕ) (malloc : ℕ → ℕ) where
  -- A segment whose numbers are printed so that `atoi` reads them, and whose package is well formed.
  pub record IsSent (s : Segment) : Type 0 where
    pub base_read : int_bits (atoi (string_itoa (to_int s.base))) ≡ s.base % 2 ^ 32
    pub offset_read : int_bits (atoi (string_itoa (to_int s.offset))) ≡ s.offset
    pub s_id_read : int_bits (atoi (string_itoa (to_int s.s_id))) ≡ s.s_id
    pub sent : IsInstruction (segment_instruction string_itoa s)

  abbrev pub sent_table : List Segment → List Instruction
  sent_table table = map (segment_instruction string_itoa) table

  -- From the n-th allocation on: each segment with a new pointer for its base, and the `int` it points to.
  abbrev pub received : ℕ → List Segment → List (Segment × ℕ)
  received n [] = []
  received n (s ∷ ss) =
      (record { base = malloc n; offset = s.offset; s_id = s.s_id }, s.base % 2 ^ 32)
      ∷ received (suc n) ss

  deserialize_segment-sent :
      (pointer : ℕ) (s : Segment)
      → IsSent s
      → deserialize_segment pointer (instruction_package (segment_instruction string_itoa s))
        ≡ some (record { base = pointer; offset = s.offset; s_id = s.s_id }, s.base % 2 ^ 32)
  unfolding deserialize_segment segment_instruction
  deserialize_segment-sent pointer s v = rw (back, v.base_read, v.offset_read, v.s_id_read) refl
    where
      back :
          deserialize_instruction (instruction_package (segment_instruction string_itoa s))
          ≡ some (segment_instruction string_itoa s)
      back =
          ap deserialize_instruction
            (sym (serialize_instruction-package (segment_instruction string_itoa s) v.sent))
          ∙ deserialize_instruction-serialize_instruction (segment_instruction string_itoa s) v.sent

  nest_segments-map :
      (p : Package) (table : List Segment)
      → nest_segments string_itoa p table ≡ nest_instructions p (sent_table table)
  unfolding nest_segments nest_instructions
  nest_segments-map p [] = refl
  nest_segments-map p (s ∷ ss) =
      nest_segments-map (package_nest p (serialize_instruction (segment_instruction string_itoa s)))
        ss

  valid_table : (table : List Segment) → All IsSent table → All IsInstruction (sent_table table)
  valid_table [] v = tt
  valid_table (s ∷ ss) v = (v.0.sent, valid_table ss v.1)

  load_segments-encode :
      (fuel : ℕ) (p : Package) (offset : ℕ) (done : List (Segment × ℕ)) (table : List Segment)
      → p.size ≡ length p.buffer
      → p.size < 2 ^ 64
      → All IsSent table
      → At p.buffer offset (encode_instructions (sent_table table))
      → length (sent_table table) < fuel
      → load_segments malloc fuel p offset done ≡ some (done ++ received (length done) table)
  unfolding load_segments
  load_segments-encode zero p offset done table s b v a h = absurd (omega arith)
  load_segments-encode (suc fuel) p offset done [] s b v a h =
      rw (isset_at_end p offset (omega (arith, a.within)), load_segments)
        (ap some (sym (append-nil done)))
  load_segments-encode (suc fuel) p offset done (x ∷ table) s b v a h =
      rw
        (
          more,
          load_segments,
          package_decode-frame p.buffer (omega arith) offset q
              (encode_instructions (sent_table table)) valid a,
          deserialize_segment-sent (malloc (length done)) x v.0,
        )
        (load_segments-encode fuel p (offset + (12 + q.size)) (done ++ (entry ∷ [])) table s b v.1
            (frame_next p.buffer (omega arith) offset q (encode_instructions (sent_table table))
              valid a)
            (omega arith)
          ∙ ap some (
              ap (λ n. (done ++ (entry ∷ [])) ++ received n table)
                {x = length (done ++ (entry ∷ []))} {y = suc (length done)}
                (omega (arith, length-append done (entry ∷ [])))
              ∙ append_assoc done (entry ∷ []) (received (suc (length done)) table)))
    where
      entry : Segment × ℕ
      entry = (
        record { base = malloc (length done); offset = x.offset; s_id = x.s_id },
        x.base % 2 ^ 32,
      )

      q : Package
      q = instruction_package (segment_instruction string_itoa x)

      valid : IsPackage q
      valid = instruction_package-IsPackage (segment_instruction string_itoa x) v.0.sent

      more : package_decode_isset p offset ≡ true
      more = isset_before_end p offset (
          omega (
            arith,
            a.within,
            s,
            length-append (instruction_frame (segment_instruction string_itoa x))
                (encode_instructions (sent_table table)),
            length-frame q,
          ))

  table_package : List Segment → ℕ → Package
  table_package table type = record {
    size = length (encode_instructions (sent_table table));
    type = type;
    buffer = encode_instructions (sent_table table);
  }

  sent_package :
      (table : List Segment) (type : ℕ)
      → All IsSent table
      → length (encode_instructions (sent_table table)) < 2 ^ 64
      → nest_instructions (package_new type) (sent_table table) ≡ table_package table type
  unfolding package_new table_package
  sent_package table type v h =
      ground (
        arith,
        nest_instructions-encode (package_new type) (sent_table table) (valid_table table v),
      )

  sent_table-package :
      (table : List Segment) (type : ℕ)
      → All IsSent table
      → length (encode_instructions (sent_table table)) < 2 ^ 64
      → serialize_segments_table string_itoa table type ≡ table_package table type
  unfolding serialize_segments_table
  sent_table-package table type v h =
      nest_segments-map (package_new type) table ∙ sent_package table type v h

  pub serialize_segments_table-IsPackage :
      (table : List Segment) (type : ℕ)
      → All IsSent table
      → type < 2 ^ 32
      → 12 + length (encode_instructions (sent_table table)) < 2 ^ 64
      → IsPackage (serialize_segments_table string_itoa table type)
  unfolding table_package
  serialize_segments_table-IsPackage table type v t h =
      subst IsPackage (sym (sent_table-package table type v (omega (arith, h))))
        (record { sized = refl; type_fits = t; size_fits = h })

  pub serialize_segments_table-type :
      (table : List Segment) (type : ℕ)
      → All IsSent table
      → length (encode_instructions (sent_table table)) < 2 ^ 64
      → (serialize_segments_table string_itoa table type).type ≡ type
  unfolding table_package
  serialize_segments_table-type table type v h =
      ap (λ (p : Package). p.type) (sent_table-package table type v h)

  -- Let each number of a segment table be printed so that `atoi` reads it, with the low 32 bits of a base,
  -- and the table's package fit its size field. The receiver gets the segments in order, with their sizes
  -- and ids; the base of each is a new allocation that holds the low 32 bits of the base that was sent,
  -- not that base.
  pub deserialize_segment_table-serialize_segments_table :
      (table : List Segment) (type : ℕ)
      → All IsSent table
      → length (encode_instructions (sent_table table)) < 2 ^ 64
      → deserialize_segment_table malloc (serialize_segments_table string_itoa table type)
        ≡ some (received 0 table)
  unfolding deserialize_segment_table serialize_segments_table table_package package_new
  deserialize_segment_table-serialize_segments_table table type v h =
      ap (λ p. load_segments malloc (suc p.size) p 0 [])
        (nest_segments-map (package_new type) table ∙ sent_package table type v h)
      ∙ load_segments-encode (suc (length (encode_instructions (sent_table table))))
          (table_package table type) 0 [] table refl h v
          (At-start (encode_instructions (sent_table table)))
          (omega (arith, length-encode_instructions (sent_table table)))

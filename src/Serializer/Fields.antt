-- ===== src/Serializer/Fields.antt =====
-- The loop of `deserialize_execution_context` of shared/src/shared_serializer.c, field by field.
use tp_so_tuki.Common.{
  ℕ, zero, suc, ◌+◌, ◌<◌, ◌^◌, ◌≡◌, refl, subst, drop-append, sym, ap, ◌∙◌, true, List, [], ◌∷◌,
  Option, none, some, drop, length, length-append, All, ◌>>=◌, append-nil, arith,
}
use tp_so_tuki.Package.{Package, package_new_dict, package_decode_buffer, package_decode_isset}
use tp_so_tuki.Package.Bytes.{le_bytes, length-le_bytes, le_value-le_bytes}
use tp_so_tuki.Package.Cursor.{At, At-start}
use tp_so_tuki.Package.RoundTrip.{
  IsPackage, frame, length-frame, chunk, length-chunk, frame_next, package_decode-frame,
  package_decode_buffer-chunk,
}
use tp_so_tuki.Package.Nested.{frames}
use tp_so_tuki.Serializer.Arguments.{isset_before_end, isset_at_end}
use tp_so_tuki.Cpu.Execute.{ExecutionContext}
use tp_so_tuki.Serializer.Context.{overwrite, read_field, load_context}

field_then :
    (read : Option (Option ExecutionContext))
    (f g : ExecutionContext → Option (Option ExecutionContext))
    → ((ec : ExecutionContext) → f ec ≡ g ec)
    → (read >>= λ r. elim r [ none ↦ some none | some ec ↦ f ec ])
      ≡ (read >>= λ r. elim r [ none ↦ some none | some ec ↦ g ec ])
field_then none f g h = refl
field_then (some none) f g h = refl
field_then (some (some ec)) f g h = h ec

module _ (malloc : ℕ → ℕ) where
  -- What the fields make of a context, one after the other.
  abbrev pub read_fields : ExecutionContext → List Package → Option (Option ExecutionContext)
  read_fields ec [] = some (some ec)
  read_fields ec (q ∷ qs) = read_field malloc ec q >>= λ read. elim read [
    | none ↦ some none
    | some ec' ↦ read_fields ec' qs
  ]

  pub load_context-frames :
      (fuel : ℕ) (p : Package) (offset : ℕ) (ec : ExecutionContext) (qs : List Package)
      → p.size ≡ length p.buffer
      → p.size < 2 ^ 64
      → All IsPackage qs
      → At p.buffer offset (frames qs)
      → length qs < fuel
      → load_context malloc fuel p offset ec ≡ read_fields ec qs
  unfolding load_context
  load_context-frames zero p offset ec qs s b v a h = absurd (omega arith)
  load_context-frames (suc fuel) p offset ec [] s b v a h =
      rw (isset_at_end p offset (omega (arith, a.within)), load_context) refl
  load_context-frames (suc fuel) p offset ec (q ∷ qs) s b v a h =
      rw
        (more, load_context, package_decode-frame p.buffer (omega arith) offset q (frames qs) v.0 a)
        (field_then (read_field malloc ec q) (load_context malloc fuel p (offset + (12 + q.size)))
          (λ ec'. read_fields ec' qs)
          (λ ec'.
            load_context-frames fuel p (offset + (12 + q.size)) ec' qs s b v.1
              (frame_next p.buffer (omega arith) offset q (frames qs) v.0 a) (omega arith)))
    where
      more : package_decode_isset p offset ≡ true
      more =
          isset_before_end p offset
            (omega (arith, a.within, s, length-append (frame q) (frames qs), length-frame q))

-- A number that fits its field as the package that `package_new_dict` makes of it.
abbrev pub number_package : ℕ → ℕ → ℕ → Package
number_package key width n = record {
  size = 8 + width;
  type = key;
  buffer = chunk (le_bytes width n);
}

pub package_new_dict-number :
    (key width n : ℕ)
    → 8 + width < 2 ^ 64
    → package_new_dict key (le_bytes width n) ≡ number_package key width n
unfolding package_new_dict
package_new_dict-number key width n h = ground (arith, length-le_bytes width n)

pub number_package-IsPackage :
    (key width n : ℕ) → key < 2 ^ 32 → 20 + width < 2 ^ 64 → IsPackage (number_package key width n)
number_package-IsPackage key width n k h = record {
  sized = omega (arith, length-chunk (le_bytes width n), length-le_bytes width n);
  type_fits = k;
  size_fits = omega (arith, h);
}

pub package_decode_buffer-number :
    (width n : ℕ)
    → 8 + width < 2 ^ 64
    → package_decode_buffer (chunk (le_bytes width n)) 0
      ≡ some (le_bytes width n, 0 + (8 + length (le_bytes width n)))
package_decode_buffer-number width n h =
    package_decode_buffer-chunk (chunk (le_bytes width n))
      (omega (arith, length-chunk (le_bytes width n), length-le_bytes width n)) 0 (le_bytes width n)
      []
      (subst (At (chunk (le_bytes width n)) 0) (sym (append-nil (chunk (le_bytes width n))))
        (At-start (chunk (le_bytes width n))))

pub overwrite-le_bytes :
    (width old n : ℕ) → n < 256 ^ width → overwrite width old (le_bytes width n) ≡ some n
unfolding overwrite
overwrite-le_bytes width old n h = ground (
  arith,
  length-le_bytes width n,
  gone,
  append-nil (le_bytes width n),
  le_value-le_bytes width n h,
)
  where
    gone : drop (length (le_bytes width n)) (le_bytes width old) ≡ []
    gone =
        ap (drop (length (le_bytes width n))) (sym (append-nil (le_bytes width old)))
        ∙ drop-append (length (le_bytes width n)) (le_bytes width old) []
            (length-le_bytes width n ∙ sym (length-le_bytes width old))

-- ===== src/Serializer/CpuRegisters.antt =====
-- The twelve registers of the CPU survive the trip through the wire format.
use tp_so_tuki.Common.{
  ℕ, ◌+◌, ◌<◌, ◌^◌, ◌≡◌, refl, ap, ◌∙◌, sym, List, [], ◌∷◌, ◌++◌, append_assoc, append-nil, some,
  length, length-append, All, arith,
}
use tp_so_tuki.Package.{Package, package_new, package_add, package_decode_buffer}
use tp_so_tuki.Package.Cursor.{At, At-start}
use tp_so_tuki.Package.RoundTrip.{
  IsPackage, chunk, length-chunk, chunk_next, package_decode_buffer-chunk,
}
use tp_so_tuki.Serializer.{
  Registers, add_all, register_list, serialize_cpu_registers, deserialize_cpu_registers,
  cpu_registers,
}

abbrev encode_values : List (List ℕ) → List ℕ
encode_values [] = []
encode_values (v ∷ vs) = chunk v ++ encode_values vs

abbrev total : List (List ℕ) → ℕ
total [] = 0
total (v ∷ vs) = 8 + length v + total vs

length-encode_values : (vs : List (List ℕ)) → length (encode_values vs) ≡ total vs
length-encode_values [] = refl
length-encode_values (v ∷ vs) =
    omega
      (arith, length-append (chunk v) (encode_values vs), length-chunk v, length-encode_values vs)

add_all-buffer :
    (p : Package) (vs : List (List ℕ)) → (add_all p vs).buffer ≡ p.buffer ++ encode_values vs
unfolding add_all package_add
add_all-buffer p [] = sym (append-nil p.buffer)
add_all-buffer p (v ∷ vs) =
    add_all-buffer (package_add p v) vs ∙ append_assoc p.buffer (chunk v) (encode_values vs)

-- Read one after the other from `offset`, the buffers are the listed values.
abbrev Decodes : List ℕ → ℕ → List (List ℕ) → Type 0
Decodes source offset [] = Unit {0}
Decodes source offset (v ∷ vs) =
    (package_decode_buffer source offset ≡ some (v, offset + (8 + length v)))
    × Decodes source (offset + (8 + length v)) vs

Decodes-encode :
    (source : List ℕ) (offset : ℕ) (vs : List (List ℕ))
    → length source < 2 ^ 64
    → At source offset (encode_values vs)
    → Decodes source offset vs
Decodes-encode source offset [] h a = tt
Decodes-encode source offset (v ∷ vs) h a = (
  package_decode_buffer-chunk source h offset v (encode_values vs) a,
  Decodes-encode source (offset + (8 + length v)) vs h
      (chunk_next source h offset v (encode_values vs) a),
)

-- Each register array has the number of bytes that `t_registers` declares.
pub record IsRegisters (r : Registers) : Type 0 where
  pub four : All (λ v. length v ≡ 4) (r.ax ∷ r.bx ∷ r.cx ∷ r.dx ∷ [])
  pub eight : All (λ v. length v ≡ 8) (r.eax ∷ r.ebx ∷ r.ecx ∷ r.edx ∷ [])
  pub sixteen : All (λ v. length v ≡ 16) (r.rax ∷ r.rbx ∷ r.rcx ∷ r.rdx ∷ [])

length-registers : (r : Registers) → IsRegisters r → length (encode_values (register_list r)) ≡ 208
length-registers r v = omega (arith, length-encode_values (register_list r))

add_all-size :
    (p : Package) (vs : List (List ℕ))
    → p.size + total vs < 2 ^ 64
    → (add_all p vs).size ≡ p.size + total vs
unfolding add_all package_add
add_all-size p [] h = omega arith
add_all-size p (v ∷ vs) h = omega (arith, add_all-size (package_add p v) vs (omega (arith, h)))

add_all-type : (p : Package) (vs : List (List ℕ)) → (add_all p vs).type ≡ p.type
unfolding add_all package_add
add_all-type p [] = refl
add_all-type p (v ∷ vs) = add_all-type (package_add p v) vs

pub serialize_cpu_registers-type :
    (r : Registers) → (serialize_cpu_registers r).type ≡ cpu_registers
unfolding serialize_cpu_registers package_new
serialize_cpu_registers-type r = add_all-type (package_new cpu_registers) (register_list r)

pub serialize_cpu_registers-IsPackage :
    (r : Registers) → IsRegisters r → IsPackage (serialize_cpu_registers r)
unfolding serialize_cpu_registers package_new
serialize_cpu_registers-IsPackage r v = record {
  sized = size ∙ sym bytes;
  type_fits = omega (arith, add_all-type (package_new cpu_registers) (register_list r));
  size_fits = omega (arith, size, length-registers r v, length-encode_values (register_list r));
}
  where
    size : (add_all (package_new cpu_registers) (register_list r)).size ≡ total (register_list r)
    size =
        add_all-size (package_new cpu_registers) (register_list r)
          (omega (arith, length-registers r v, length-encode_values (register_list r)))
        ∙ omega arith

    bytes :
        length (add_all (package_new cpu_registers) (register_list r)).buffer
        ≡ total (register_list r)
    bytes =
        ap length (add_all-buffer (package_new cpu_registers) (register_list r))
        ∙ length-encode_values (register_list r)

-- The registers that were sent are received unchanged.
pub deserialize_cpu_registers-serialize_cpu_registers :
    (r : Registers)
    → IsRegisters r
    → deserialize_cpu_registers (serialize_cpu_registers r).buffer ≡ some r
unfolding deserialize_cpu_registers serialize_cpu_registers package_new
deserialize_cpu_registers-serialize_cpu_registers r v =
    rw (add_all-buffer (package_new cpu_registers) (register_list r)) (
      rw (
        d.0, d.1.0, d.1.1.0, d.1.1.1.0, d.1.1.1.1.0, d.1.1.1.1.1.0, d.1.1.1.1.1.1.0,
        d.1.1.1.1.1.1.1.0, d.1.1.1.1.1.1.1.1.0, d.1.1.1.1.1.1.1.1.1.0, d.1.1.1.1.1.1.1.1.1.1.0,
        d.1.1.1.1.1.1.1.1.1.1.1.0,
      ))
  where
    bytes : List ℕ
    bytes = encode_values (register_list r)

    d : Decodes bytes 0 (register_list r)
    d =
        Decodes-encode bytes 0 (register_list r) (omega (arith, length-registers r v))
          (At-start bytes)

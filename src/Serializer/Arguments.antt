-- ===== src/Serializer/Arguments.antt =====
-- Instructions as a package of their own survive the trip through the wire format.
use tp_so_tuki.Common.{
  ℕ, zero, suc, ◌+◌, ◌<◌, ◌≤◌, ◌^◌, ◌≡◌, refl, sym, ap, ◌∙◌, true, false, List, [], ◌∷◌, ◌++◌,
  append_assoc, append-nil, some, length, length-append, All, arith,
}
use tp_so_tuki.Package.{Package, package_new, package_write, package_decode_isset}
use tp_so_tuki.Package.Cursor.{At, At-start}
use tp_so_tuki.Package.RoundTrip.{
  IsPackage, IsText, chunk, length-chunk, chunk_next, package_decode_string-chunk,
}
use tp_so_tuki.Serializer.{
  Instruction, write_args, serialize_instruction, load_args, deserialize_instruction,
}

abbrev pub arg_chunk : List ℕ → List ℕ
arg_chunk s = chunk (s ++ (0 ∷ []))

-- What the arguments take in a buffer.
abbrev pub encode_args : List (List ℕ) → List ℕ
encode_args [] = []
encode_args (arg ∷ args) = arg_chunk arg ++ encode_args args

length-encode_args : (args : List (List ℕ)) → length args ≤ length (encode_args args)
length-encode_args [] = omega arith
length-encode_args (arg ∷ args) = omega (
  arith,
  length-append (arg_chunk arg) (encode_args args),
  length-chunk (arg ++ (0 ∷ [])),
  length-encode_args args,
)

pub package_write-chunk :
    (p : Package) (s : List ℕ)
    → p.size + length (arg_chunk s) < 2 ^ 64
    → package_write p s
      ≡ record p { size = p.size + length (arg_chunk s); buffer = p.buffer ++ arg_chunk s }
unfolding package_write
package_write-chunk p s h = ground (arith, length-chunk (s ++ (0 ∷ [])))

write_args-encode :
    (p : Package) (args : List (List ℕ))
    → p.size + length (encode_args args) < 2 ^ 64
    → write_args p args ≡ record p {
      size = p.size + length (encode_args args);
      buffer = p.buffer ++ encode_args args;
    }
unfolding write_args
write_args-encode p [] h = ground (arith, append-nil p.buffer)
write_args-encode p (arg ∷ args) h = ground (
  arith,
  length-append (arg_chunk arg) (encode_args args),
  package_write-chunk p arg,
  write_args-encode (package_write p arg) args,
  append_assoc p.buffer (arg_chunk arg) (encode_args args),
)

-- An instruction whose strings are C strings and whose package fits its size field.
pub record IsInstruction (i : Instruction) : Type 0 where
  pub op_fits : i.op_code < 2 ^ 32
  pub texts : All IsText i.args
  pub args_fit : 12 + length (encode_args i.args) < 2 ^ 64

abbrev pub instruction_package : Instruction → Package
instruction_package i = record {
  size = length (encode_args i.args);
  type = i.op_code;
  buffer = encode_args i.args;
}

pub serialize_instruction-package :
    (i : Instruction) → IsInstruction i → serialize_instruction i ≡ instruction_package i
unfolding serialize_instruction package_new
serialize_instruction-package i v =
    ground (arith, v.args_fit, write_args-encode (package_new i.op_code) i.args)

pub instruction_package-IsPackage :
    (i : Instruction) → IsInstruction i → IsPackage (instruction_package i)
instruction_package-IsPackage i v = record {
  sized = refl;
  type_fits = v.op_fits;
  size_fits = v.args_fit;
}

pub isset_before_end :
    (p : Package) (offset : ℕ) → offset < p.size → package_decode_isset p offset ≡ true
unfolding package_decode_isset
isset_before_end p offset h = ground arith

pub isset_at_end :
    (p : Package) (offset : ℕ) → p.size ≤ offset → package_decode_isset p offset ≡ false
unfolding package_decode_isset
isset_at_end p offset h = ground arith

-- With a round for each argument still ahead, and one to stop, the loop adds the arguments in order.
load_args-encode :
    (fuel : ℕ) (p : Package) (offset : ℕ) (done args : List (List ℕ))
    → p.size ≡ length p.buffer
    → p.size < 2 ^ 64
    → All IsText args
    → At p.buffer offset (encode_args args)
    → length args < fuel
    → load_args fuel p offset done ≡ some (done ++ args)
unfolding load_args
load_args-encode zero p offset done args s b t a h = absurd (omega arith)
load_args-encode (suc fuel) p offset done [] s b t a h =
    rw (isset_at_end p offset (omega (arith, a.within)), load_args)
      (ap some (sym (append-nil done)))
load_args-encode (suc fuel) p offset done (arg ∷ args) s b t a h =
    rw
      (
        more,
        load_args,
        package_decode_string-chunk p.buffer (omega arith) offset arg (encode_args args) t.0
            (split a),
      )
      (load_args-encode fuel p (offset + (8 + length (arg ++ (0 ∷ [])))) (done ++ (arg ∷ [])) args s
          b t.1
          (chunk_next p.buffer (omega arith) offset (arg ++ (0 ∷ [])) (encode_args args) (split a))
          (omega arith)
        ∙ ap some (append_assoc done (arg ∷ []) args))
  where
    split :
        At p.buffer offset (encode_args (arg ∷ args))
        → At p.buffer offset (arg_chunk arg ++ encode_args args)
    split h = h

    more : package_decode_isset p offset ≡ true
    more = isset_before_end p offset (
        omega (
          arith,
          a.within,
          s,
          length-append (arg_chunk arg) (encode_args args),
          length-chunk (arg ++ (0 ∷ [])),
        ))

-- An instruction that was sent is received with its operation code and its arguments, in order.
pub deserialize_instruction-serialize_instruction :
    (i : Instruction) → IsInstruction i → deserialize_instruction (serialize_instruction i) ≡ some i
unfolding deserialize_instruction
deserialize_instruction-serialize_instruction i v = rw (
  serialize_instruction-package i v,
  load_args-encode (suc (length (encode_args i.args))) (instruction_package i) 0 [] i.args refl
      (omega (arith, v.args_fit)) v.texts (At-start (encode_args i.args))
      (omega (arith, length-encode_args i.args)),
)

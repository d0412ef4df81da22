-- ===== src/Serializer/Instructions.antt =====
-- Queues of instructions survive the trip through the wire format.
use tp_so_tuki.Common.{
  ℕ, zero, suc, ◌+◌, ◌<◌, ◌≤◌, ◌^◌, ◌≡◌, refl, sym, subst, false, ap, ◌∙◌, Bool, true, List, [],
  ◌∷◌, ◌++◌, append_assoc, append-nil, some, length, length-append, All, if◌then◌else◌, arith,
}
use tp_so_tuki.Package.{Package, package_new, package_nest, package_decode_isset}
use tp_so_tuki.Package.Cursor.{At, At-start}
use tp_so_tuki.Package.RoundTrip.{IsPackage, frame, length-frame, frame_next, package_decode-frame}
use tp_so_tuki.Package.Nested.{package_nest-frame}
use tp_so_tuki.Serializer.{
  Instruction, serialize_instruction, deserialize_instruction, nest_instructions,
  serialize_instructions, load_instructions, deserialize_instructions,
}
use tp_so_tuki.Serializer.Arguments.{
  IsInstruction, instruction_package, serialize_instruction-package, instruction_package-IsPackage,
  isset_before_end, isset_at_end, deserialize_instruction-serialize_instruction,
}

abbrev pub instruction_frame : Instruction → List ℕ
instruction_frame i = frame (instruction_package i)

-- What a queue of instructions takes in a buffer.
abbrev pub encode_instructions : List Instruction → List ℕ
encode_instructions [] = []
encode_instructions (i ∷ is) = instruction_frame i ++ encode_instructions is

pub length-encode_instructions :
    (is : List Instruction) → length is ≤ length (encode_instructions is)
length-encode_instructions [] = omega arith
length-encode_instructions (i ∷ is) = omega (
  arith,
  length-append (instruction_frame i) (encode_instructions is),
  length-frame (instruction_package i),
  length-encode_instructions is,
)

package_nest-instruction :
    (p : Package) (i : Instruction)
    → IsInstruction i
    → p.size + length (instruction_frame i) < 2 ^ 64
    → package_nest p (serialize_instruction i) ≡ record p {
      size = p.size + length (instruction_frame i);
      buffer = p.buffer ++ instruction_frame i;
    }
package_nest-instruction p i v h =
    rw (serialize_instruction-package i v)
      (package_nest-frame p (instruction_package i) (instruction_package-IsPackage i v) h)

pub nest_instructions-encode :
    (p : Package) (is : List Instruction)
    → All IsInstruction is
    → p.size + length (encode_instructions is) < 2 ^ 64
    → nest_instructions p is ≡ record p {
      size = p.size + length (encode_instructions is);
      buffer = p.buffer ++ encode_instructions is;
    }
unfolding nest_instructions
nest_instructions-encode p [] v h = ground (arith, append-nil p.buffer)
nest_instructions-encode p (i ∷ is) v h = ground (
  arith,
  length-append (instruction_frame i) (encode_instructions is),
  package_nest-instruction p i v.0,
  nest_instructions-encode (package_nest p (serialize_instruction i)) is v.1,
  append_assoc p.buffer (instruction_frame i) (encode_instructions is),
)

load_instructions-encode :
    (fuel : ℕ) (p : Package) (offset : ℕ) (done is : List Instruction)
    → p.size ≡ length p.buffer
    → p.size < 2 ^ 64
    → All IsInstruction is
    → At p.buffer offset (encode_instructions is)
    → length is < fuel
    → load_instructions fuel p offset done ≡ some (done ++ is)
unfolding load_instructions
load_instructions-encode zero p offset done is s b v a h = absurd (omega arith)
load_instructions-encode (suc fuel) p offset done [] s b v a h =
    rw (isset_at_end p offset (omega (arith, a.within)), load_instructions)
      (ap some (sym (append-nil done)))
load_instructions-encode (suc fuel) p offset done (i ∷ is) s b v a h =
    rw
      (
        more,
        load_instructions,
        package_decode-frame p.buffer (omega arith) offset q (encode_instructions is) valid a,
        received,
      )
      (load_instructions-encode fuel p (offset + (12 + q.size)) (done ++ (i ∷ [])) is s b v.1
          (frame_next p.buffer (omega arith) offset q (encode_instructions is) valid a)
          (omega arith)
        ∙ ap some (append_assoc done (i ∷ []) is))
  where
    q : Package
    q = instruction_package i

    valid : IsPackage q
    valid = instruction_package-IsPackage i v.0

    received : deserialize_instruction q ≡ some i
    received =
        ap deserialize_instruction (sym (serialize_instruction-package i v.0))
        ∙ deserialize_instruction-serialize_instruction i v.0

    more : package_decode_isset p offset ≡ true
    more = isset_before_end p offset (
        omega (
          arith,
          a.within,
          s,
          length-append (instruction_frame i) (encode_instructions is),
          length-frame q,
        ))

queue_package : List Instruction → Bool → Package
queue_package is is_ec = record {
  size = length (encode_instructions is);
  type = if is_ec then 0 else 4;
  buffer = encode_instructions is;
}

serialize_instructions-package :
    (is : List Instruction) (is_ec : Bool)
    → All IsInstruction is
    → length (encode_instructions is) < 2 ^ 64
    → serialize_instructions is is_ec ≡ queue_package is is_ec
unfolding serialize_instructions package_new queue_package
serialize_instructions-package is is_ec v h =
    ground (arith, nest_instructions-encode (package_new (if is_ec then 0 else 4)) is v)

pub serialize_instructions-type :
    (is : List Instruction) (is_ec : Bool)
    → All IsInstruction is
    → length (encode_instructions is) < 2 ^ 64
    → (serialize_instructions is is_ec).type ≡ (if is_ec then 0 else 4)
unfolding queue_package
serialize_instructions-type is is_ec v h = rw (serialize_instructions-package is is_ec v h) refl

pub serialize_instructions-IsPackage :
    (is : List Instruction) (is_ec : Bool)
    → All IsInstruction is
    → 12 + length (encode_instructions is) < 2 ^ 64
    → IsPackage (serialize_instructions is is_ec)
unfolding queue_package
serialize_instructions-IsPackage is is_ec v h =
    subst IsPackage (sym (serialize_instructions-package is is_ec v (omega (arith, h))))
      (record { sized = refl; type_fits = queue_type is_ec; size_fits = h })
  where
    queue_type : (is_ec' : Bool) → (if is_ec' then 0 else 4) < 2 ^ 32
    queue_type true = omega arith
    queue_type false = omega arith

-- A queue of instructions whose package fits its size field is received behind the instructions
-- that the receiver's queue already holds, each with its code and arguments, in order.
pub deserialize_instructions-serialize_instructions :
    (is queue : List Instruction) (is_ec : Bool)
    → All IsInstruction is
    → length (encode_instructions is) < 2 ^ 64
    → deserialize_instructions (serialize_instructions is is_ec) queue ≡ some (queue ++ is)
unfolding deserialize_instructions queue_package
deserialize_instructions-serialize_instructions is queue is_ec v h = rw (
  serialize_instructions-package is is_ec v h,
  load_instructions-encode (suc (length (encode_instructions is))) (queue_package is is_ec) 0 queue
      is refl h v (At-start (encode_instructions is))
      (omega (arith, length-encode_instructions is)),
)

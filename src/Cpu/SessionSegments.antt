-- ===== src/Cpu/SessionSegments.antt =====
-- Two segments as the kernel and the CPU send them, with a printer for their numbers.
use tp_so_tuki.Common.{
  ℕ, suc, ◌+◌, ◌*◌, ◌/◌, ◌%◌, ◌^◌, ltb, if◌then◌else◌, refl, inl, inr, Bool-cases, List, [], ◌∷◌, ℤ,
  pos, negsuc, digits, signed, atoi, arith,
}
use tp_so_tuki.Package.Bytes.{le_bytes}
use tp_so_tuki.Package.RoundTrip.{IsText}
use tp_so_tuki.Memory.State.{Segment}
use tp_so_tuki.Serializer.SegmentTables.{int_bits, segment_instruction}
use tp_so_tuki.Serializer.Segments.{IsSent}
use tp_so_tuki.Cpu.Execute.{to_int}

-- Numbers of one digit, or of two.
abbrev pub natural_digits : ℕ → List ℕ
natural_digits n = if ltb n 10 then (48 + n) ∷ [] else (48 + n / 10) ∷ (48 + n % 10) ∷ []

abbrev pub two_digits : ℤ → List ℕ
two_digits (pos n) = natural_digits n
two_digits (negsuc n) = 45 ∷ natural_digits (suc n)

-- Addresses that do not fit an `int`.
abbrev pub cpu_malloc : ℕ → ℕ
cpu_malloc n = 2 ^ 33 + 16 * n

abbrev pub kernel_malloc : ℕ → ℕ
kernel_malloc n = 2 ^ 34 + 48 + 16 * n

-- Segment zero, and one more, as the kernel keeps them.
abbrev pub sent_segments : List Segment
sent_segments =
    record { base = 2 ^ 34 + 48; offset = 64; s_id = 0 }
    ∷ record { base = 2 ^ 34 + 64; offset = 20; s_id = 1 }
    ∷ []

-- The same, as they reach the CPU.
abbrev pub cpu_segments : List Segment
cpu_segments =
    record { base = 2 ^ 33; offset = 64; s_id = 0 }
    ∷ record { base = 2 ^ 33 + 16; offset = 20; s_id = 1 }
    ∷ []

natural_digits-IsText : (n : ℕ) → IsText (natural_digits n)
natural_digits-IsText n = elim (Bool-cases (ltb n 10)) [
  | inl e ↦ rw e ((λ z. omega arith), tt)
  | inr e ↦ rw e ((λ z. omega arith), ((λ z. omega arith), tt))
]

pub kernel_zero-IsSent :
    IsSent two_digits cpu_malloc (record { base = 2 ^ 34 + 48; offset = 64; s_id = 0 })
unfolding int_bits atoi signed digits to_int segment_instruction le_bytes
kernel_zero-IsSent = record {
  base_read = refl;
  offset_read = refl;
  s_id_read = refl;
  sent = record {
    op_fits = omega arith;
    texts = (natural_digits-IsText 48, (natural_digits-IsText 64, (natural_digits-IsText 0, tt)));
    args_fit = omega arith;
  };
}

pub kernel_one-IsSent :
    IsSent two_digits cpu_malloc (record { base = 2 ^ 34 + 64; offset = 20; s_id = 1 })
unfolding int_bits atoi signed digits to_int segment_instruction le_bytes
kernel_one-IsSent = record {
  base_read = refl;
  offset_read = refl;
  s_id_read = refl;
  sent = record {
    op_fits = omega arith;
    texts = (natural_digits-IsText 64, (natural_digits-IsText 20, (natural_digits-IsText 1, tt)));
    args_fit = omega arith;
  };
}

pub cpu_zero-IsSent :
    IsSent two_digits kernel_malloc (record { base = 2 ^ 33; offset = 64; s_id = 0 })
unfolding int_bits atoi signed digits to_int segment_instruction le_bytes
cpu_zero-IsSent = record {
  base_read = refl;
  offset_read = refl;
  s_id_read = refl;
  sent = record {
    op_fits = omega arith;
    texts = (natural_digits-IsText 0, (natural_digits-IsText 64, (natural_digits-IsText 0, tt)));
    args_fit = omega arith;
  };
}

pub cpu_one-IsSent :
    IsSent two_digits kernel_malloc (record { base = 2 ^ 33 + 16; offset = 20; s_id = 1 })
unfolding int_bits atoi signed digits to_int segment_instruction le_bytes
cpu_one-IsSent = record {
  base_read = refl;
  offset_read = refl;
  s_id_read = refl;
  sent = record {
    op_fits = omega arith;
    texts = (natural_digits-IsText 16, (natural_digits-IsText 20, (natural_digits-IsText 1, tt)));
    args_fit = omega arith;
  };
}

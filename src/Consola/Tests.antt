-- ===== src/Consola/Tests.antt =====
-- A file of three lines, of which one is blank.
use tp_so_tuki.Common.{ℕ, ◌<◌, ◌^◌, ◌≡◌, refl, List, [], ◌∷◌, ◌++◌, some, ◌>>=◌, arith}
use tp_so_tuki.Package.Bytes.{le_bytes}
use tp_so_tuki.Serializer.{Instruction, deserialize_instructions}
use tp_so_tuki.Serializer.Arguments.{IsInstruction}
use tp_so_tuki.OpCode.{codes, str_eq, parse_op_code}
use tp_so_tuki.Consola.{chomp, process_instructions}
use tp_so_tuki.Consola.Sent.{instructions_of, process_instructions-received}

-- A `string_split` that is right for texts of one word.
abbrev one_word : List ℕ → List ℕ → List (List ℕ)
one_word text separator = text ∷ []

abbrev yield_now : Instruction
yield_now = record { op_code = 15; args = [] }

abbrev exit_now : Instruction
exit_now = record { op_code = 14; args = [] }

abbrev file : List (List ℕ)
file = (codes "YIELD" ++ (10 ∷ [])) ∷ (10 ∷ []) ∷ (codes "EXIT" ++ (13 ∷ 10 ∷ [])) ∷ []

no_args-IsInstruction : (c : ℕ) → c < 2 ^ 32 → IsInstruction (record { op_code = c; args = [] })
no_args-IsInstruction c h = record { op_fits = h; texts = tt; args_fit = omega arith }

process_instructions-received_example :
    (process_instructions one_word file >>= λ p. deserialize_instructions p [])
    ≡ some (yield_now ∷ exit_now ∷ [])
unfolding instructions_of chomp parse_op_code str_eq le_bytes
process_instructions-received_example =
    process_instructions-received one_word file (yield_now ∷ exit_now ∷ []) refl
      (no_args-IsInstruction 15 (omega arith), (no_args-IsInstruction 14 (omega arith), tt))
      (omega arith)

-- ===== src/Consola/Sent.antt =====
-- What the console sends is what the kernel's queue receives.
use tp_so_tuki.Common.{
  ℕ, ◌<◌, ◌^◌, ◌≡◌, refl, ap, ◌∙◌, false, List, [], ◌∷◌, Option, none, some, ◌>>=◌, length, All,
}
use mathlib.Core.Option.{some-injective}
use tp_so_tuki.Package.{Package, instructions, package_new, package_nest}
use tp_so_tuki.Serializer.{
  Instruction, write_args, serialize_instruction, nest_instructions, serialize_instructions,
  deserialize_instructions,
}
use tp_so_tuki.Serializer.Arguments.{IsInstruction}
use tp_so_tuki.Serializer.Instructions.{
  encode_instructions, deserialize_instructions-serialize_instructions,
}
use tp_so_tuki.OpCode.{codes, parse_op_code}
use tp_so_tuki.Consola.{chomp, parse_instruction, process_line, process_lines, process_instructions}

module _ (string_split : List ℕ → List ℕ → List (List ℕ)) where
  -- The instruction that a line stands for: its first word names the operation, the others are the
  -- arguments.
  abbrev pub instruction_of : List (List ℕ) → Option Instruction
  instruction_of [] = none
  instruction_of (op ∷ args) = some (record { op_code = parse_op_code op; args = args })

  -- The instructions of a line without its line end, and of those behind it. A blank line has none.
  abbrev pub sent_line : List ℕ → Option (List Instruction) → Option (List Instruction)
  sent_line [] rest = rest
  sent_line (b ∷ bs) rest = do
    i ← instruction_of (string_split (b ∷ bs) (codes " "))
    is ← rest
    some (i ∷ is)

  unfoldable pub instructions_of : List (List ℕ) → Option (List Instruction)
  instructions_of [] = some []
  instructions_of (line ∷ lines) = sent_line (chomp line) (instructions_of lines)

  -- The induction step, by the parts of the line and the outcome of the lines behind it.
  nest-parts :
      (p : Package) (parts : List (List ℕ)) (lines : List (List ℕ))
      (rest : Option (List Instruction)) (is : List Instruction)
      → ((q : Package) (js : List Instruction)
          → rest ≡ some js
          → process_lines string_split q lines ≡ some (nest_instructions q js))
      → (instruction_of parts >>= λ i. rest >>= λ js. some (i ∷ js)) ≡ some is
      → ((elim parts [
        | [] ↦ none
        | op ∷ args ↦ some (write_args (package_new (parse_op_code op)) args)
      ])
          >>= λ nested. process_lines string_split (package_nest p nested) lines)
        ≡ some (nest_instructions p is)
  unfolding nest_instructions serialize_instruction
  nest-parts p [] lines rest is ih e = cc
  nest-parts p (op ∷ args) lines none is ih e = cc
  nest-parts p (op ∷ args) lines (some js) is ih e =
      ih (package_nest p (write_args (package_new (parse_op_code op)) args)) js refl
      ∙ ap some (ap (nest_instructions p) (some-injective _ _ e))

  nest-line :
      (p : Package) (line : List ℕ) (lines : List (List ℕ)) (rest : Option (List Instruction))
      (is : List Instruction)
      → ((q : Package) (js : List Instruction)
          → rest ≡ some js
          → process_lines string_split q lines ≡ some (nest_instructions q js))
      → sent_line line rest ≡ some is
      → (process_line string_split p line >>= λ q. process_lines string_split q lines)
        ≡ some (nest_instructions p is)
  unfolding process_line parse_instruction
  nest-line p [] lines rest is ih e = ih p is e
  nest-line p (b ∷ bs) lines rest is ih e =
      assoc (string_split (b ∷ bs) (codes " "))
      ∙ nest-parts p (string_split (b ∷ bs) (codes " ")) lines rest is ih e
    where
      assoc :
          (parts : List (List ℕ))
          → (((elim parts [
            | [] ↦ none
            | op ∷ args ↦ some (write_args (package_new (parse_op_code op)) args)
          ])
                >>= λ nested. some (package_nest p nested))
              >>= λ q. process_lines string_split q lines)
            ≡ ((elim parts [
              | [] ↦ none
              | op ∷ args ↦ some (write_args (package_new (parse_op_code op)) args)
            ])
                >>= λ nested. process_lines string_split (package_nest p nested) lines)
      assoc [] = refl
      assoc (op ∷ args) = refl

  process_lines-nest :
      (lines : List (List ℕ)) (p : Package) (is : List Instruction)
      → instructions_of lines ≡ some is
      → process_lines string_split p lines ≡ some (nest_instructions p is)
  unfolding instructions_of process_lines nest_instructions
  process_lines-nest [] p is e = ap some (ap (nest_instructions p) (some-injective _ _ e))
  process_lines-nest (line ∷ lines) p is e =
      nest-line p (chomp line) lines (instructions_of lines) is
        (λ q js h. process_lines-nest lines q js h) e

  -- If each line that is not blank has a first word, and what they stand for fits the size fields,
  -- then the package of the file is received as its instructions, in the order of the file.
  pub process_instructions-received :
      (lines : List (List ℕ)) (is : List Instruction)
      → instructions_of lines ≡ some is
      → All IsInstruction is
      → length (encode_instructions is) < 2 ^ 64
      → (process_instructions string_split lines >>= λ p. deserialize_instructions p []) ≡ some is
  unfolding process_instructions serialize_instructions
  process_instructions-received lines is e v h =
      rw (process_lines-nest lines (package_new instructions) is e)
        (deserialize_instructions-serialize_instructions is [] false v h)

-- ===== src/Consola.antt =====
-- consola/src/instructions_handler.c: the instruction file becomes a package for the kernel.
-- `string_split` is the commons library's; a line is what one `fgets` returns.
mod Tests
pub mod Sent
use tp_so_tuki.Common.{ℕ, Bool, ◌||◌, List, [], ◌∷◌, Option, none, some, ◌==◌, if◌then◌else◌, ◌>>=◌}
use tp_so_tuki.Package.{Package, instructions, package_new, package_nest}
use tp_so_tuki.Serializer.{write_args}
use tp_so_tuki.OpCode.{codes, parse_op_code}

-- `line[strcspn(line, "\r\n")] = '\0'`
unfoldable pub chomp : List ℕ → List ℕ
chomp [] = []
chomp (b ∷ bs) = if b == 13 || b == 10 then [] else (b ∷ chomp bs)

module _ (string_split : List ℕ → List ℕ → List (List ℕ)) where
  -- `parts[0]` is NULL if the text has no part, and `strcmp` reads through it.
  unfoldable pub parse_instruction : List ℕ → Option Package
  parse_instruction instruction = elim (string_split instruction (codes " ")) [
    | [] ↦ none
    | op ∷ args ↦ some (write_args (package_new (parse_op_code op)) args)
  ]

  -- One round of the loop over the file.
  unfoldable pub process_line : Package → List ℕ → Option Package
  process_line p [] = some p
  process_line p (b ∷ bs) = do nested ← parse_instruction (b ∷ bs); some (package_nest p nested)

  unfoldable pub process_lines : Package → List (List ℕ) → Option Package
  process_lines p [] = some p
  process_lines p (line ∷ lines) = do p' ← process_line p (chomp line); process_lines p' lines

  unfoldable pub process_instructions : List (List ℕ) → Option Package
  process_instructions lines = process_lines (package_new instructions) lines

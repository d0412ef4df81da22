-- ===== src/OpCode/Names.antt =====
-- The names of the operation codes: what `read_op_code` prints and `parse_op_code` reads.
use tp_so_tuki.Common.{
  ℕ, zero, suc, ◌<◌, ◌≡◌, refl, ◌⊎◌, inl, inr, true, List, [], ◌∷◌, Bool-cases, if◌then◌else◌, ◌∙◌,
  sym, ap, ◌↔◌, arith,
}
use tp_so_tuki.OpCode.{str_eq, invalid, read_op_code, parse_op_code}

pub str_eq-eq : (a b : List ℕ) → str_eq a b ≡ true → a ≡ b
unfolding str_eq
str_eq-eq [] [] h = refl
str_eq-eq [] (b ∷ bs) h = cc
str_eq-eq (a ∷ as') [] h = cc
str_eq-eq (a ∷ as') (b ∷ bs) h = ground (arith, str_eq-eq as' bs)

pub str_eq_self : (a : List ℕ) → str_eq a a ≡ true
unfolding str_eq
str_eq_self [] = refl
str_eq_self (x ∷ a) = ground (arith, str_eq_self a)

pub str_eq_iff : (a b : List ℕ) → (str_eq a b ≡ true) ↔ (a ≡ b)
str_eq_iff a b = (str_eq-eq a b, λ e. ap (str_eq a) (sym e) ∙ str_eq_self a)

-- Every operation code is the parse of its name.
pub parse_op_code-read_op_code : (c : ℕ) → c < 16 → parse_op_code (read_op_code c) ≡ c
unfolding parse_op_code read_op_code str_eq
parse_op_code-read_op_code zero h = refl
parse_op_code-read_op_code (suc zero) h = refl
parse_op_code-read_op_code (suc (suc zero)) h = refl
parse_op_code-read_op_code (suc (suc (suc zero))) h = refl
parse_op_code-read_op_code (suc (suc (suc (suc zero)))) h = refl
parse_op_code-read_op_code (suc (suc (suc (suc (suc zero))))) h = refl
parse_op_code-read_op_code (suc (suc (suc (suc (suc (suc zero)))))) h = refl
parse_op_code-read_op_code (suc (suc (suc (suc (suc (suc (suc zero))))))) h = refl
parse_op_code-read_op_code (suc (suc (suc (suc (suc (suc (suc (suc zero)))))))) h = refl
parse_op_code-read_op_code (suc (suc (suc (suc (suc (suc (suc (suc (suc zero))))))))) h = refl
parse_op_code-read_op_code (suc (suc (suc (suc (suc (suc (suc (suc (suc (suc zero)))))))))) h = refl
parse_op_code-read_op_code (suc (suc (suc (suc (suc (suc (suc (suc (suc (suc (suc zero)))))))))))
      h =
    refl
parse_op_code-read_op_code
      (suc (suc (suc (suc (suc (suc (suc (suc (suc (suc (suc (suc zero)))))))))))) h =
    refl
parse_op_code-read_op_code
      (suc (suc (suc (suc (suc (suc (suc (suc (suc (suc (suc (suc (suc zero))))))))))))) h =
    refl
parse_op_code-read_op_code
      (suc (suc (suc (suc (suc (suc (suc (suc (suc (suc (suc (suc (suc (suc zero)))))))))))))) h =
    refl
parse_op_code-read_op_code
      (suc (suc (suc (suc (suc (suc (suc (suc (suc (suc (suc (suc (suc (suc (suc zero)))))))))))))))
      h =
    refl
parse_op_code-read_op_code
      (suc (
        suc
          (suc (suc (suc (suc (suc (suc (suc (suc (suc (suc (suc (suc (suc (suc (c)))))))))))))))))
      h =
    absurd (omega arith)

-- `r` is the code that `s` names, or -1.
abbrev pub Reads : List ℕ → ℕ → Type 0
Reads s r = ((r < 16) × (read_op_code r ≡ s)) ⊎ (r ≡ invalid)

-- One arm of the ladder.
Reads-arm :
    (s name : List ℕ) (c rest : ℕ)
    → c < 16
    → read_op_code c ≡ name
    → Reads s rest
    → Reads s (if str_eq s name then c else rest)
Reads-arm s name c rest h e r = elim (Bool-cases (str_eq s name)) [
  | inl same ↦ rw same (inl (h, e ∙ sym (str_eq-eq s name same)))
  | inr other ↦ rw other r
]

-- A text parses to the code that it names, and to -1 if it names none.
pub read_op_code-parse_op_code : (s : List ℕ) → Reads s (parse_op_code s)
unfolding parse_op_code read_op_code
read_op_code-parse_op_code s = Reads-arm s _ 0 _ (omega arith) refl (
    Reads-arm s _ 1 _ (omega arith) refl (
      Reads-arm s _ 2 _ (omega arith) refl (
        Reads-arm s _ 3 _ (omega arith) refl (
          Reads-arm s _ 4 _ (omega arith) refl (
            Reads-arm s _ 5 _ (omega arith) refl (
              Reads-arm s _ 6 _ (omega arith) refl (
                Reads-arm s _ 7 _ (omega arith) refl (
                  Reads-arm s _ 8 _ (omega arith) refl (
                    Reads-arm s _ 9 _ (omega arith) refl (
                      Reads-arm s _ 10 _ (omega arith) refl (
                        Reads-arm s _ 11 _ (omega arith) refl (
                          Reads-arm s _ 12 _ (omega arith) refl (
                            Reads-arm s _ 13 _ (omega arith) refl (
                              Reads-arm s _ 14 _ (omega arith) refl
                                (Reads-arm s _ 15 _ (omega arith) refl (inr refl))))))))))))))))

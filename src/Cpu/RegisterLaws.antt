-- ===== src/Cpu/RegisterLaws.antt =====
-- What `set_register` stores and what a read of a register as a C string returns.
use tp_so_tuki.Common.{
  ℕ, zero, suc, ◌≤◌, ◌≡◌, refl, ap, ◌∙◌, inl, inr, true, false, List, [], ◌∷◌, ◌++◌, some, length,
  drop, ltb, if◌then◌else◌, ◌>>=◌, ◌==◌, Bool-cases, Option-cases, arith,
}
use tp_so_tuki.Serializer.{Registers, register_list}
use tp_so_tuki.Package.RoundTrip.{IsText}
use tp_so_tuki.Cpu.RegisterFile.{
  Register, ax, bx, cx, dx, eax, ebx, ecx, edx, rax, rbx, rcx, rdx, register_pointer, put, strncpy,
  register_size, set_register, flat, index, until_nul, register_text,
}

-- A register that was overwritten, and the registers behind it.
flat-put :
    (r : Registers) (p : Register) (v : List ℕ)
    → flat (drop (index p) (register_list (put r p v)))
      ≡ v ++ flat (drop (suc (index p)) (register_list r))
unfolding flat index put
flat-put r ax v = refl
flat-put r bx v = refl
flat-put r cx v = refl
flat-put r dx v = refl
flat-put r eax v = refl
flat-put r ebx v = refl
flat-put r ecx v = refl
flat-put r edx v = refl
flat-put r rax v = refl
flat-put r rbx v = refl
flat-put r rcx v = refl
flat-put r rdx v = refl

-- The bytes that `strncpy` leaves, read as a C string.
until_nul-strncpy :
    (n : ℕ) (value rest : List ℕ)
    → IsText value
    → length value ≤ n
    → until_nul (strncpy n value ++ rest)
      ≡ (if ltb (length value) n then some value else (until_nul rest >>= λ s. some (value ++ s)))
unfolding until_nul strncpy
until_nul-strncpy zero [] rest t h = elim (Option-cases (until_nul rest)) [
  | inl e ↦ rw e refl
  | inr (s, e) ↦ rw e refl
]
until_nul-strncpy zero (b ∷ s) rest t h = absurd (omega arith)
until_nul-strncpy (suc n) [] rest t h = rw above refl
  where
    above : ltb 0 (suc n) ≡ true
    above = ground arith
until_nul-strncpy (suc n) (b ∷ s) rest t h =
    rw (not_nul, until_nul-strncpy n s rest t.1 (omega arith), shifted)
      (elim (Bool-cases (ltb (length s) n)) [
        | inl e ↦ rw e refl
        | inr e ↦ elim (Option-cases (until_nul rest)) [
          | inl e' ↦ rw (e, e') refl
          | inr (u, e') ↦ rw (e, e') refl
        ]
      ])
  where
    not_nul : (b == 0) ≡ false
    not_nul = ground (arith, t.0)

    shifted : ltb (suc (length s)) (suc n) ≡ ltb (length s) n
    shifted = ground arith

-- Let the name be that of register `p`, and let a text without NUL fit it. After `set_register`, the
-- register read as a C string is the text if the register is longer; a text as long as the register is
-- followed by the string that begins in the register behind it.
pub set_register_lem :
    (name value : List ℕ) (p : Register) (r : Registers)
    → register_pointer name ≡ some p
    → IsText value
    → length value ≤ register_size name
    → register_text (set_register name value r) p ≡ (
        if ltb (length value) (register_size name)
        then some value
        else (until_nul (flat (drop (suc (index p)) (register_list r))) >>= λ s. some (value ++ s)))
unfolding register_text set_register
set_register_lem name value p r found t h =
    ap (λ r'. register_text r' p) stored
    ∙ ap until_nul (flat-put r p (strncpy (register_size name) value))
    ∙ (until_nul-strncpy (register_size name) value _ t h)
  where
    fits : ltb (register_size name) (length value) ≡ false
    fits = ground arith

    stored : set_register name value r ≡ put r p (strncpy (register_size name) value)
    stored = rw (found, fits, set_register) refl

-- ===== src/Cpu/RegisterFile.antt =====
-- `register_pointer` and `size_of_register_pointer` of cpu/src/utils_cpu.c, and `set_register` of
-- cpu/src/handler_cpu.c.
use tp_so_tuki.Common.{
  ℕ, zero, suc, List, [], ◌∷◌, ◌++◌, Option, none, some, length, drop, ltb, if◌then◌else◌, ◌>>=◌,
  ◌==◌, ℤ, pos, negsuc,
}
use tp_so_tuki.Serializer.{Registers, register_list}
use tp_so_tuki.OpCode.{codes, str_eq}

-- What a non-NULL `register_pointer` points to: one of the twelve arrays of `t_registers`.
pub data Register : Type 0 where
  ax bx cx dx eax ebx ecx edx rax rbx rcx rdx : Register

unfoldable pub register_pointer : List ℕ → Option Register
register_pointer name =
    if str_eq name (codes "AX")
    then some ax
    else if str_eq name (codes "BX")
    then some bx
    else if str_eq name (codes "CX")
    then some cx
    else if str_eq name (codes "DX")
    then some dx
    else if str_eq name (codes "EAX")
    then some eax
    else if str_eq name (codes "EBX")
    then some ebx
    else if str_eq name (codes "ECX")
    then some ecx
    else if str_eq name (codes "EDX")
    then some edx
    else if str_eq name (codes "RAX")
    then some rax
    else if str_eq name (codes "RBX")
    then some rbx
    else if str_eq name (codes "RCX")
    then some rcx
    else if str_eq name (codes "RDX")
    then some rdx
    else none

unfoldable pub size_of_register_pointer : List ℕ → ℤ
size_of_register_pointer name =
    if str_eq name (codes "AX")
    then pos 4
    else if str_eq name (codes "BX")
    then pos 4
    else if str_eq name (codes "CX")
    then pos 4
    else if str_eq name (codes "DX")
    then pos 4
    else if str_eq name (codes "EAX")
    then pos 8
    else if str_eq name (codes "EBX")
    then pos 8
    else if str_eq name (codes "ECX")
    then pos 8
    else if str_eq name (codes "EDX")
    then pos 8
    else if str_eq name (codes "RAX")
    then pos 16
    else if str_eq name (codes "RBX")
    then pos 16
    else if str_eq name (codes "RCX")
    then pos 16
    else if str_eq name (codes "RDX")
    then pos 16
    else negsuc 0

-- The bytes behind the pointer.
unfoldable pub get : Registers → Register → List ℕ
get r ax = r.ax
get r bx = r.bx
get r cx = r.cx
get r dx = r.dx
get r eax = r.eax
get r ebx = r.ebx
get r ecx = r.ecx
get r edx = r.edx
get r rax = r.rax
get r rbx = r.rbx
get r rcx = r.rcx
get r rdx = r.rdx

unfoldable pub put : Registers → Register → List ℕ → Registers
put r ax v = record r { ax = v }
put r bx v = record r { bx = v }
put r cx v = record r { cx = v }
put r dx v = record r { dx = v }
put r eax v = record r { eax = v }
put r ebx v = record r { ebx = v }
put r ecx v = record r { ecx = v }
put r edx v = record r { edx = v }
put r rax v = record r { rax = v }
put r rbx v = record r { rbx = v }
put r rcx v = record r { rcx = v }
put r rdx v = record r { rdx = v }

-- `strncpy`: `n` bytes of the text, filled up with NULs.
unfoldable pub strncpy : ℕ → List ℕ → List ℕ
strncpy zero s = []
strncpy (suc n) [] = 0 ∷ strncpy n []
strncpy (suc n) (b ∷ s) = b ∷ strncpy n s

-- The size as a `size_t`; -1 is taken by no register.
unfoldable pub register_size : List ℕ → ℕ
register_size name = elim (size_of_register_pointer name) [ pos n ↦ n | negsuc n ↦ 0 ]

-- A NULL value, an unknown register and a value that is too long are logged, and change nothing.
unfoldable pub set_register : List ℕ → List ℕ → Registers → Registers
set_register name value r = elim (register_pointer name) [
  | none ↦ r
  | some p ↦
      if ltb (register_size name) (length value)
      then r
      else put r p (strncpy (register_size name) value)
]

unfoldable pub flat : List (List ℕ) → List ℕ
flat [] = []
flat (v ∷ vs) = v ++ flat vs

-- The place of a register among the twelve.
unfoldable pub index : Register → ℕ
index ax = 0
index bx = 1
index cx = 2
index dx = 3
index eax = 4
index ebx = 5
index ecx = 6
index edx = 7
index rax = 8
index rbx = 9
index rcx = 10
index rdx = 11

-- The bytes up to the first NUL, and `none` if there is none.
unfoldable pub until_nul : List ℕ → Option (List ℕ)
until_nul [] = none
until_nul (b ∷ bs) =
    let rest = until_nul bs in if b == 0 then some [] else (rest >>= λ s. some (b ∷ s))

-- A register read as a C string: it goes on through the registers behind it up to a NUL. `none` where
-- it leaves the struct.
unfoldable pub register_text : Registers → Register → Option (List ℕ)
register_text r p = until_nul (flat (drop (index p) (register_list r)))

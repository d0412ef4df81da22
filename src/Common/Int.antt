-- ===== src/Common/Int.antt =====
-- The values of C `int` variables that may be negative, and `atoi`. Sums go through natural numbers.
use Prim.Native.Nat.{ℕ, zero, suc, ◌+◌, ◌-◌, ◌*◌}
use mathlib.Core.Bool.{◌&&◌, ◌||◌}
use mathlib.Core.List.{List, [], ◌∷◌}
use tp_so_tuki.Common.Tests.{leb, ◌==◌, if◌then◌else◌}

-- `negsuc n` is -(n + 1).
pub data ℤ : Type 0 where
  pos : ℕ → ℤ
  negsuc : ℕ → ℤ

-- -n
abbrev pub negate : ℕ → ℤ
negate zero = pos 0
negate (suc n) = negsuc n

-- The number that the leading digits stand for, behind `acc`.
unfoldable pub digits : ℕ → List ℕ → ℕ
digits acc [] = acc
digits acc (c ∷ cs) =
    let rest = digits (acc * 10 + (c - 48)) cs in if leb 48 c && leb c 57 then rest else acc

unfoldable pub signed : List ℕ → ℤ
signed [] = pos 0
signed (c ∷ cs) =
    if c == 45
    then negate (digits 0 cs)
    else if c == 43
    then pos (digits 0 cs)
    else pos (digits 0 (c ∷ cs))

-- `atoi`, on texts whose number fits an `int`.
unfoldable pub atoi : List ℕ → ℤ
atoi [] = pos 0
atoi (c ∷ cs) =
    let rest = atoi cs in if c == 32 || (leb 9 c && leb c 13) then rest else signed (c ∷ cs)

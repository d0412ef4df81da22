-- ===== src/Cpu/Mmu.antt =====
-- `mmu` and `list_get_by_sid` of cpu/src/utils_cpu.c.
use tp_so_tuki.Common.{
  ℕ, suc, ◌+◌, ◌-◌, ◌/◌, ◌%◌, ◌^◌, Bool, List, [], ◌∷◌, Option, none, some, ltb, if◌then◌else◌,
  ◌>>=◌, ◌==◌, ℤ, pos, negsuc, negate,
}
use tp_so_tuki.Memory.State.{Segment}

-- `t_physical_address`; the address is an `intptr_t`, as its bit pattern.
pub record PhysicalAddress : Type 0 where
  pub segment : ℤ
  pub offset : ℤ
  pub address : ℕ

-- An `int` against an id, which is kept as its bit pattern.
unfoldable pub has_sid : Segment → ℤ → Bool
has_sid s (pos n) = s.s_id == n
has_sid s (negsuc n) = s.s_id + suc n == 2 ^ 32

unfoldable pub list_get_by_sid : List Segment → ℤ → Option Segment
list_get_by_sid [] id = none
list_get_by_sid (s ∷ ss) id = if has_sid s id then some s else list_get_by_sid ss id

-- `/` and `%` of C, which round towards zero.
unfoldable pub div_int : ℤ → ℕ → ℤ
div_int (pos n) d = pos (n / d)
div_int (negsuc n) d = negate (suc n / d)

unfoldable pub mod_int : ℤ → ℕ → ℤ
mod_int (pos n) d = pos (n % d)
mod_int (negsuc n) d = negate (suc n % d)

-- `physical_address->offset + size > segment->offset`
unfoldable pub past_end : ℤ → ℕ → ℕ → Bool
past_end (pos o) size limit = ltb limit (o + size)
past_end (negsuc n) size limit = ltb (limit + suc n) size

-- `base + offset - base0`, modulo the width of a pointer.
unfoldable pub address_of : ℕ → ℤ → ℕ → ℕ
address_of base (pos o) zero_base = (base + o + 2 ^ 64 - zero_base) % 2 ^ 64
address_of base (negsuc n) zero_base = (base + 2 ^ 64 - suc n + 2 ^ 64 - zero_base) % 2 ^ 64

-- The translation of an address whose size is `size`, between 1 and the maximum. The outer `none` is
-- a read through the NULL of a segment that is not in the table, the inner one the NULL of a fault.
unfoldable pub translate : ℕ → ℤ → ℕ → List Segment → Option (Option PhysicalAddress)
translate max logical_address size table = do
  let segment = div_int logical_address max
  let offset = mod_int logical_address max
  s ← list_get_by_sid table segment
  z ← list_get_by_sid table (pos 0)
  some (
      if past_end offset size s.offset
      then none
      else some (record {
        segment = segment;
        offset = offset;
        address = address_of s.base offset z.base;
      }))

unfoldable pub mmu : ℕ → ℤ → ℤ → List Segment → Option (Option PhysicalAddress)
mmu max logical_address (negsuc n) table = some none
mmu max logical_address (pos size) table =
    if size == 0
    then some none
    else if ltb max size
    then some none
    else translate max logical_address size table

-- ===== src/Cpu/Translation.antt =====
-- What the `mmu` of cpu/src/utils_cpu.c answers for a logical address.
use tp_so_tuki.Common.{
  ℕ, suc, ◌+◌, ◌-◌, ◌*◌, ◌/◌, ◌%◌, ◌^◌, ◌≤◌, ◌<◌, ◌≡◌, refl, sym, ap, subst, ◌∙◌, inl, inr, false,
  List, [], ◌∷◌, map, none, some, In, ltb, if◌then◌else◌, ◌==◌, ==_iff, Bool-cases, pos, negsuc,
  arith,
}
use tp_so_tuki.Memory.State.{Segment}
use tp_so_tuki.Memory.Blocks.{Distinct}
use tp_so_tuki.Cpu.Mmu.{
  has_sid, list_get_by_sid, div_int, mod_int, past_end, address_of, translate, mmu,
}
use native.Mathlib.Nat.{mul-add-div_right, mul-add-mod_self_right, div-eq_of_lt, mod-eq_of_lt}

In-map :
    {A : Type 0} {B : Type 0} (f : A → B) (a : A) (as' : List A) → In a as' → In (f a) (map f as')
In-map f a [] i = elim i [ ]
In-map f a (x ∷ xs) i = elim i [ inl e ↦ inl (ap f e) | inr j ↦ inr (In-map f a xs j) ]

abbrev pub ids : List Segment → List ℕ
ids table = map (λ (s : Segment). s.s_id) table

-- A table whose ids are distinct answers an id with its segment.
list_get_by_sid-In :
    (table : List Segment) (s : Segment)
    → Distinct (ids table)
    → In s table
    → list_get_by_sid table (pos s.s_id) ≡ some s
unfolding list_get_by_sid has_sid
list_get_by_sid-In [] s d i = elim i [ ]
list_get_by_sid-In (x ∷ table) s d i = elim i [
  | inl e ↦ ground (arith, ap (λ (c : Segment). c.s_id) e, ap {A = Segment} (λ c. some c) e)
  | inr j ↦ elim (Bool-cases (x.s_id == s.s_id)) [
    | inl e ↦ absurd (
        d.0 (
          subst (λ n. In n (ids table)) (sym ((==_iff x.s_id s.s_id).0 e))
            (In-map (λ (s : Segment). s.s_id) s table j)))
    | inr e ↦ rw e (list_get_by_sid-In table s d.1 j)
  ]
]

quotient : (max n o : ℕ) → o < max → (n * max + o) / max ≡ n
quotient max n o h = omega (arith, mul-add-div_right {m = max} (omega arith) n o, div-eq_of_lt h)

remainder : (max n o : ℕ) → o < max → (n * max + o) % max ≡ o
remainder max n o h = mul-add-mod_self_right n max o ∙ mod-eq_of_lt h

module _ (max : ℕ) (table : List Segment) (s z : Segment) (o size : ℕ)
    (distinct : Distinct (ids table)) (s_in : In s table) (z_in : In z table) (z_zero : z.s_id ≡ 0)
    (o_below : o < max) (size_above : 0 < size) (size_below : size ≤ max) where
  -- Let segment `s` stand in a table of distinct ids with segment zero, and let the size be between 1
  -- and the maximum. The logical address of byte `o` of `s` is translated into `s`, `o` and the
  -- difference of the bases plus `o` if the access ends within `s`, and into NULL if it does not.
  pub mmu_lem :
      mmu max (pos (s.s_id * max + o)) (pos size) table
      ≡ some (
          if ltb s.offset (o + size)
          then none
          else some (record {
            segment = pos s.s_id;
            offset = pos o;
            address = (s.base + o + 2 ^ 64 - z.base) % 2 ^ 64;
          }))
  unfolding mmu translate past_end address_of div_int mod_int
  mmu_lem =
      rw
        (
          zero_test,
          max_test,
          quotient max s.s_id o o_below,
          remainder max s.s_id o o_below,
          list_get_by_sid-In table s distinct s_in,
          zero_found,
        )
        refl
    where
      zero_test : (size == 0) ≡ false
      zero_test = ground arith

      max_test : ltb max size ≡ false
      max_test = ground arith

      zero_found : list_get_by_sid table (pos 0) ≡ some z
      zero_found =
          subst (λ n. list_get_by_sid table (pos n) ≡ some z) z_zero
            (list_get_by_sid-In table z distinct z_in)

-- A negative logical address is no fault. Let the maximum be below 2 ^ 32 and the table have segment
-- zero. An address above minus the maximum is translated, for every size up to the maximum that does
-- not pass the end of segment zero, into a place before segment zero: its offset is negative, and
-- its address is the bit pattern of that offset.
pub mmu_negative :
    (max : ℕ) (table : List Segment) (z : Segment) (n size : ℕ)
    → list_get_by_sid table (pos 0) ≡ some z
    → suc n < max
    → max < 2 ^ 32
    → 0 < size
    → size ≤ max
    → size ≤ z.offset + suc n
    → mmu max (negsuc n) (pos size) table
      ≡ some (some (record { segment = pos 0; offset = negsuc n; address = 2 ^ 64 - suc n }))
unfolding mmu translate past_end address_of div_int mod_int
mmu_negative max table z n size found small max_small size_above size_below fits =
    rw (zero_test, max_test, div-eq_of_lt small, mod-eq_of_lt small, found, end_test)
      (ap (λ a. some (some (record { segment = pos 0; offset = negsuc n; address = a })))
        {x = (z.base + 2 ^ 64 - suc n + 2 ^ 64 - z.base) % 2 ^ 64} (omega arith))
  where
    zero_test : (size == 0) ≡ false
    zero_test = ground arith

    max_test : ltb max size ≡ false
    max_test = ground arith

    end_test : ltb (z.offset + suc n) size ≡ false
    end_test = ground arith

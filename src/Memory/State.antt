-- ===== src/Memory/State.antt =====
-- memoria/include/memory_structures.h, memoria/src/utils_memoria.c and the segment tables of
-- memoria/src/handler_instruction_memoria.c.
-- A pointer to a struct is a number, an address is an offset from the start of the heap. An `int`
-- size is a number: none is negative, and none exceeds the configured memory.
use tp_so_tuki.Common.{
  ℕ, ◌+◌, ◌-◌, ◌%◌, ◌^◌, List, [], ◌∷◌, Option, none, some, ◌==◌, if◌then◌else◌,
}

-- `t_segment`, and `hole`, whose two fields are the first two.
pub record Segment : Type 0 where
  pub base : ℕ
  pub offset : ℕ
  pub s_id : ℕ

-- `t_memory_structure` with the structs that it points to, the bytes of the heap, and
-- `config_memory.remaining_memory`. The dictionary goes by the process id that its keys print.
pub record Memory : Type 0 where
  pub cells : ℕ → Segment
  pub fresh : ℕ
  pub segment_zero : ℕ
  pub tables : List (ℕ × List ℕ)
  pub hole_list : List ℕ
  pub ram : List ℕ
  pub heap : ℕ → ℕ
  pub remaining_memory : ℕ

-- A write through a pointer.
unfoldable pub update {ℓ} : {A : Type ℓ} → (ℕ → A) → ℕ → A → ℕ → A
update f p v q = if q == p then v else f q

-- `dictionary_get`, with `none` for NULL.
unfoldable pub table_get : ℕ → List (ℕ × List ℕ) → Option (List ℕ)
table_get pid [] = none
table_get pid ((k, t) ∷ ts) = if k == pid then some t else table_get pid ts

-- `dictionary_put`
unfoldable pub table_put : ℕ → List ℕ → List (ℕ × List ℕ) → List (ℕ × List ℕ)
table_put pid t [] = (pid, t) ∷ []
table_put pid t ((k, u) ∷ ts) = if k == pid then (pid, t) ∷ ts else (k, u) ∷ table_put pid t ts

-- `dictionary_remove`
unfoldable pub table_remove : ℕ → List (ℕ × List ℕ) → List (ℕ × List ℕ)
table_remove pid [] = []
table_remove pid ((k, u) ∷ ts) = if k == pid then ts else (k, u) ∷ table_remove pid ts

-- `transform_base_to_decimal`: a difference of `uintptr_t`, cut to `uint32_t`.
unfoldable pub transform_base_to_decimal : ℕ → ℕ → ℕ
transform_base_to_decimal address base = (address + 2 ^ 64 - base) % 2 ^ 64 % 2 ^ 32

-- `new_memory_structure`, with `TAM_MEMORIA` and `TAM_SEGMENTO_0`. Pointer 0 is segment zero and
-- pointer 1 the first hole. The dictionary entry that the function adds for segment zero has the
-- empty text as its key, which no process id prints, and is left out.
unfoldable pub new_memory_structure : ℕ → ℕ → Memory
new_memory_structure memory_size sg_zero_size = record {
  cells =
      update
        (update (λ p. record { base = 0; offset = 0; s_id = 0 }) 0
          (record { base = 0; offset = sg_zero_size; s_id = 0 }))
        1 (record { base = sg_zero_size; offset = memory_size - sg_zero_size; s_id = 0 });
  fresh = 2;
  segment_zero = 0;
  tables = [];
  hole_list = 1 ∷ [];
  ram = 0 ∷ [];
  heap = λ a. 0;
  remaining_memory = memory_size - sg_zero_size;
}

-- `create_sg_table`: the new table, which starts with the shared segment zero.
unfoldable pub create_sg_table : Memory → ℕ → List ℕ × Memory
create_sg_table m pid =
    let table = m.segment_zero ∷ [] in (table, record m { tables = table_put pid table m.tables })

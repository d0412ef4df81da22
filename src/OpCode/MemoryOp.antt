-- ===== src/OpCode/MemoryOp.antt =====
-- `t_memory_op`, what the memory module is asked for, and `t_memory_state`, what it answers, of
-- shared/include/shared_utils.h.
use tp_so_tuki.Common.{ℕ}

abbrev pub mem_init_process : ℕ
mem_init_process = 0

abbrev pub mem_end_process : ℕ
mem_end_process = 1

abbrev pub mem_read_address : ℕ
mem_read_address = 2

abbrev pub mem_write_address : ℕ
mem_write_address = 3

abbrev pub mem_create_segment : ℕ
mem_create_segment = 4

abbrev pub mem_delete_segment : ℕ
mem_delete_segment = 5

abbrev pub mem_compact_all : ℕ
mem_compact_all = 6

abbrev pub seg_fault : ℕ
seg_fault = 0

abbrev pub ok_instruction : ℕ
ok_instruction = 1

abbrev pub out_of_memory : ℕ
out_of_memory = 2

abbrev pub compact_request : ℕ
compact_request = 3

-- `SEGMENTS_TABLE` and `ALL_SEGMENTS_TABLES` of `execution_context_index`.
abbrev pub segments_table : ℕ
segments_table = 5

abbrev pub all_segments_tables : ℕ
all_segments_tables = 6

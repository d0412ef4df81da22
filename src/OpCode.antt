-- ===== src/OpCode.antt =====
-- The operation codes: `op_code` and `read_op_code` of shared/include/shared_utils.h and
-- shared/src/shared_utils.c, and `parse_op_code` of consola/src/instructions_handler.c.
pub mod Names
pub mod MemoryOp
use Prim.Native.Char.{code}
use Prim.Native.String.{String}
use tp_so_tuki.Common.{ℕ, ◌-◌, ◌^◌, Bool, true, false, ◌&&◌, List, [], ◌∷◌, ◌==◌, if◌then◌else◌}

-- The bytes of an ASCII literal.
abbrev pub codes : String → List ℕ
codes String.[] = []
codes (String.◌∷◌ c s) = code c ∷ codes s

-- `strcmp(a, b) == 0`
unfoldable pub str_eq : List ℕ → List ℕ → Bool
str_eq [] [] = true
str_eq [] (b ∷ bs) = false
str_eq (a ∷ as') [] = false
str_eq (a ∷ as') (b ∷ bs) = a == b && str_eq as' bs

abbrev pub f_read : ℕ
f_read = 0

abbrev pub f_write : ℕ
f_write = 1

abbrev pub set : ℕ
set = 2

abbrev pub mov_in : ℕ
mov_in = 3

abbrev pub mov_out : ℕ
mov_out = 4

abbrev pub f_truncate : ℕ
f_truncate = 5

abbrev pub f_seek : ℕ
f_seek = 6

abbrev pub create_segment : ℕ
create_segment = 7

abbrev pub i_o : ℕ
i_o = 8

abbrev pub wait : ℕ
wait = 9

abbrev pub signal : ℕ
signal = 10

abbrev pub f_open : ℕ
f_open = 11

abbrev pub f_close : ℕ
f_close = 12

abbrev pub delete_segment : ℕ
delete_segment = 13

abbrev pub exit : ℕ
exit = 14

abbrev pub yield : ℕ
yield = 15

-- -1 as an `int32_t`, what an unknown name parses to
abbrev pub invalid : ℕ
invalid = 2 ^ 32 - 1

unfoldable pub read_op_code : ℕ → List ℕ
read_op_code code =
    if code == f_read
    then codes "F_READ"
    else if code == f_write
    then codes "F_WRITE"
    else if code == set
    then codes "SET"
    else if code == mov_in
    then codes "MOV_IN"
    else if code == mov_out
    then codes "MOV_OUT"
    else if code == f_truncate
    then codes "F_TRUNCATE"
    else if code == f_seek
    then codes "F_SEEK"
    else if code == create_segment
    then codes "CREATE_SEGMENT"
    else if code == i_o
    then codes "I/O"
    else if code == wait
    then codes "WAIT"
    else if code == signal
    then codes "SIGNAL"
    else if code == f_open
    then codes "F_OPEN"
    else if code == f_close
    then codes "F_CLOSE"
    else if code == delete_segment
    then codes "DELETE_SEGMENT"
    else if code == exit
    then codes "EXIT"
    else if code == yield
    then codes "YIELD"
    else codes "INVALID"

unfoldable pub parse_op_code : List ℕ → ℕ
parse_op_code code =
    if str_eq code (codes "F_READ")
    then f_read
    else if str_eq code (codes "F_WRITE")
    then f_write
    else if str_eq code (codes "SET")
    then set
    else if str_eq code (codes "MOV_IN")
    then mov_in
    else if str_eq code (codes "MOV_OUT")
    then mov_out
    else if str_eq code (codes "F_TRUNCATE")
    then f_truncate
    else if str_eq code (codes "F_SEEK")
    then f_seek
    else if str_eq code (codes "CREATE_SEGMENT")
    then create_segment
    else if str_eq code (codes "I/O")
    then i_o
    else if str_eq code (codes "WAIT")
    then wait
    else if str_eq code (codes "SIGNAL")
    then signal
    else if str_eq code (codes "F_OPEN")
    then f_open
    else if str_eq code (codes "F_CLOSE")
    then f_close
    else if str_eq code (codes "DELETE_SEGMENT")
    then delete_segment
    else if str_eq code (codes "EXIT")
    then exit
    else if str_eq code (codes "YIELD")
    then yield
    else invalid

-- ===== src/Package.antt =====
-- shared/src/shared_package.c and shared/include/shared_package.h: packages of bytes that nest.
-- A buffer is the list of the bytes that were allocated; a read past its end is `none`.
pub mod Bytes
pub mod Cursor
pub mod RoundTrip
pub mod Nested
use tp_so_tuki.Common.{
  ℕ, zero, suc, ◌+◌, ◌^◌, ◌%◌, Bool, List, [], ◌∷◌, ◌++◌, Option, none, some, take, drop, length,
  ltb, leb, ◌==◌, if◌then◌else◌, ◌>>=◌,
}
use Bytes.{le_bytes, le_value}

-- `t_package`. The type is the bit pattern of its `int32_t`.
pub record Package : Type 0 where
  pub size : ℕ
  pub type : ℕ
  pub buffer : List ℕ

-- `t_package_type`
abbrev pub serialized : ℕ
serialized = 0

abbrev pub message_ok : ℕ
message_ok = 1

abbrev pub message_flaw : ℕ
message_flaw = 2

abbrev pub message_done : ℕ
message_done = 3

abbrev pub instructions : ℕ
instructions = 4

abbrev pub execution_context : ℕ
execution_context = 5

-- `uint64_t` addition
abbrev pub add64 : ℕ → ℕ → ℕ
add64 a b = (a + b) % 2 ^ 64

-- The content of the C string that starts at the first byte.
abbrev pub c_str : List ℕ → List ℕ
c_str [] = []
c_str (b ∷ bs) = if b == 0 then [] else (b ∷ c_str bs)

unfoldable pub package_new : ℕ → Package
package_new type = record { size = 0; type = type; buffer = [] }

-- The value comes with its size, the number of its bytes.
unfoldable pub package_add : Package → List ℕ → Package
package_add p value = record p {
  size = add64 p.size (add64 8 (length value));
  buffer = p.buffer ++ (le_bytes 8 (length value) ++ value);
}

-- A C string is written with its final NUL.
unfoldable pub package_write : Package → List ℕ → Package
unfolding package_add
package_write p value = package_add p (value ++ (0 ∷ []))

unfoldable pub package_new_dict : ℕ → List ℕ → Package
unfolding package_add package_new
package_new_dict key value = package_add (package_new key) value

unfoldable pub package_close : Package → Package
package_close p = record {
  size = add64 12 p.size;
  type = serialized;
  buffer = le_bytes 8 p.size ++ (le_bytes 4 p.type ++ take p.size p.buffer);
}

unfoldable pub package_nest : Package → Package → Package
package_nest p nested =
    let closed = package_close nested in
    record p {
      size = add64 p.size closed.size;
      buffer = p.buffer ++ take closed.size closed.buffer;
    }

unfoldable pub package_new_nested : ℕ → Package → Package
package_new_nested key value = package_nest (package_new key) value

-- `memcpy` of `n` bytes out of `source`
unfoldable pub read_bytes : List ℕ → ℕ → ℕ → Option (List ℕ)
read_bytes source offset n =
    if leb (offset + n) (length source) then some (take n (drop offset source)) else none

-- What is decoded, and the new `*offset`. A NULL offset is 0, and its new value is dropped.
unfoldable pub package_decode : List ℕ → ℕ → Option (Package × ℕ)
package_decode source offset = do
  size ← read_bytes source offset 8
  type ← read_bytes source (add64 offset 8) 4
  let n = le_value size
  let start = add64 (add64 offset 8) 4
  buffer ← read_bytes source start n
  some (record { size = n; type = le_value type; buffer = buffer }, add64 start n)

unfoldable pub package_decode_isset : Package → ℕ → Bool
package_decode_isset p offset = ltb offset p.size

-- The bytes behind `*size`, and the new `*offset`.
unfoldable pub package_decode_buffer : List ℕ → ℕ → Option (List ℕ × ℕ)
package_decode_buffer source offset = do
  size ← read_bytes source offset 8
  let n = le_value size
  let start = add64 offset 8
  bytes ← read_bytes source start n
  some (bytes, add64 start n)

-- The same bytes with a NUL behind them, read as a C string.
unfoldable pub package_decode_string : List ℕ → ℕ → Option (List ℕ × ℕ)
package_decode_string source offset = do
  size ← read_bytes source offset 8
  let n = le_value size
  let start = add64 offset 8
  bytes ← read_bytes source start n
  some (c_str (bytes ++ (0 ∷ [])), add64 start n)

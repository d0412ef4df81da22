-- ===== src/Filesystem/TransferTests.antt =====
-- Three bytes over the end of a block, in the file of Filesystem/Sample.
use tp_so_tuki.Common.{
  ℕ, zero, suc, ◌+◌, ◌-◌, ◌<◌, ◌≡◌, ◌≢◌, refl, sym, ap, ◌∙◌, true, false, [], ◌∷◌, ◌++◌, map,
  Option, some, some-injective, atoi, signed, digits, arith,
}
use tp_so_tuki.Package.{Package, package_new, package_write, package_add}
use tp_so_tuki.Package.RoundTrip.{IsText}
use tp_so_tuki.Serializer.{Instruction, serialize_message}
use tp_so_tuki.OpCode.{codes, str_eq, f_read, f_write}
use tp_so_tuki.Memory.Messages.{int_arg, natural}
use tp_so_tuki.Memory.State.{update}
use tp_so_tuki.Memory.Heap.{load, store}
use tp_so_tuki.Package.Bytes.{le_bytes, le_value}
use tp_so_tuki.Cpu.Execute.{to_int}
use tp_so_tuki.Filesystem.Blocks.{get_bf_ip, set_bf_ip, read_pointers, write_pointers}
use tp_so_tuki.Filesystem.Disk.{Disk, block_of}
use tp_so_tuki.Filesystem.Resize.{pointers}
use tp_so_tuki.Filesystem.Transfer.{shown, block_at, transfer, file_pointers, iterate_block_file}
use tp_so_tuki.Filesystem.Flat.{byte_address, flat_transfer, with_size, transfer-flat_transfer}
use tp_so_tuki.Filesystem.FlatEcho.{Room, Elsewhere}
use tp_so_tuki.Filesystem.FileEcho.{Names, IsFile, with_bytes, iterate_block_file-echo}
use tp_so_tuki.Filesystem.Dispatch.{stored_in_memory, process_instruction}
use tp_so_tuki.Filesystem.Exchange.{Request, process_instruction-exchange}
use tp_so_tuki.Filesystem.Sample.{itoa, fcb, disk, pointer_list}

place_of : ℕ → ℕ
place_of b = b - 2

place_of-block : (i b : ℕ) → block_at 8 pointer_list i ≡ some b → i ≡ place_of b
unfolding block_at block_of place_of
place_of-block zero b e = ap (λ x. x - 2) (some-injective e)
place_of-block (suc zero) b e = ap (λ x. x - 2) (some-injective e)
place_of-block (suc (suc zero)) b e = ap (λ x. x - 2) (some-injective e)
place_of-block (suc (suc (suc i))) b e = cc

not_two : (i : ℕ) → block_at 8 pointer_list i ≢ some 2
unfolding block_at block_of
not_two zero e = absurd (omega (arith, some-injective e))
not_two (suc zero) e = absurd (omega (arith, some-injective e))
not_two (suc (suc zero)) e = absurd (omega (arith, some-injective e))
not_two (suc (suc (suc i))) e = cc

two : block_of 8 (atoi (codes "2")) ≡ some 2
unfolding block_of atoi signed digits
two = refl

pointers_listed : file_pointers disk fcb ≡ some pointer_list
unfolding file_pointers pointers get_bf_ip set_bf_ip read_pointers write_pointers load store
    le_value le_bytes update block_of atoi signed digits to_int
pointers_listed = refl

is_file : IsFile disk fcb pointer_list (codes "a")
unfolding str_eq
is_file = record {
  known = refl;
  listed = pointers_listed;
  separate = λ i j b e f. place_of-block i b e ∙ sym (place_of-block j b f);
  apart = λ i b e f. not_two i (f ∙ sym e ∙ two);
  positive = omega arith;
  words = omega arith;
}

-- Three bytes over the end of the first block.
room : Room 16 8 pointer_list 15 3
unfolding byte_address block_at block_of
room = (31, refl, (48, refl, (49, refl, tt)))

request : ℕ → Instruction
request op = record {
  op_code = op;
  args = codes "a" ∷ codes "15" ∷ codes "3" ∷ codes "7" ∷ codes "1" ∷ codes "0" ∷ codes "9" ∷ [];
}

request_text : Instruction
unfolding request
request_text = record (request f_write) { args = (request f_write).args ++ (codes "abc" ∷ []) }

names : Names (request f_read) (codes "a") 15 3
unfolding request int_arg natural atoi signed digits
names = record { file = refl; place = refl; bytes = refl }

Names-text : Names request_text (codes "a") 15 3
unfolding request_text request int_arg natural atoi signed digits
Names-text = record { file = refl; place = refl; bytes = refl }

iterate_block_file-echo_example :
    (block_file : ℕ → ℕ) × (iterate_block_file disk request_text
      ≡ some (codes "abc", with_bytes disk fcb pointer_list block_file))
    × (iterate_block_file (with_bytes disk fcb pointer_list block_file) (request f_read)
        ≡ some (map shown (codes "abc"), with_bytes disk fcb pointer_list block_file))
    × ((x : ℕ) → Elsewhere 16 8 pointer_list 15 18 x → block_file x ≡ disk.block_file x)
unfolding request_text request
iterate_block_file-echo_example =
    iterate_block_file-echo disk fcb pointer_list request_text (request f_read) (codes "a")
      (codes "abc") 15 3 refl Names-text refl refl names is_file room refl (omega arith)

-- A memory module that answers every request by the same text, and counts the requests.
ask : ℕ → Instruction → Option Package × ℕ
ask n i = (some (serialize_message (codes "abc") false), n + 1)

asked :
    (op : ℕ)
    → Request (request op) op (codes "a") (codes "3") (codes "7") (codes "1") (codes "0") 15 3
unfolding request int_arg natural atoi signed digits
asked op = record {
  asks = refl;
  names = record { file = refl; place = refl; bytes = refl };
  size_arg = refl;
  pid_arg = refl;
  segment_arg = refl;
  offset_arg = refl;
  count = refl;
}

process_instruction-exchange_example :
    (d' : Disk) × (process_instruction (some ask) itoa disk 0 (request f_write)
      ≡ some (true, d', 0 + 1))
    × (process_instruction (some ask) itoa d' (0 + 1) (request f_read) ≡ some (true, d', 0 + 1 + 1))
    × ((x : ℕ) → Elsewhere 16 8 pointer_list 15 18 x → d'.block_file x ≡ disk.block_file x)
unfolding ask stored_in_memory serialize_message package_new package_write package_add
process_instruction-exchange_example =
    process_instruction-exchange ask itoa disk fcb pointer_list (codes "a") (codes "abc") 15 3
      (request f_write) (request f_read) (codes "3") (codes "7") (codes "1") (codes "0") (codes "3")
      (codes "7") (codes "1") (codes "0") 0 (0 + 1) (asked f_write) (asked f_read) refl is_file room
      text refl (omega arith) (omega arith)
  where
    nonzero : (n : ℕ) → 0 < n → n ≢ 0
    nonzero n h e = absurd (omega arith)

    text : IsText (codes "abc")
    text = (nonzero 97 (omega arith), (nonzero 98 (omega arith), (nonzero 99 (omega arith), tt)))

transfer-flat_transfer_example :
    transfer true 3 [] 16 8 pointer_list 15 (record { block_file = λ x. x; str_read = [] })
    ≡ with_size 3 (
        flat_transfer true 3 [] 16 8 pointer_list 15 3
          (record { block_file = λ x. x; str_read = [] })
          0)
transfer-flat_transfer_example =
    transfer-flat_transfer true 3 [] 16 8 pointer_list 15
      (record { block_file = λ x. x; str_read = [] }) (omega arith) (omega arith)

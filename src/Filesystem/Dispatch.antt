-- ===== src/Filesystem/Dispatch.antt =====
-- `open_file`, `create_file`, `process_instruction` and `handle_kernel` of
-- filesystem/src/handler_instruction_filesystem.c. `memory` stands for a message to the memory module
-- and its answer, over the state `W` of whatever is outside; it is `none` if the file system runs
-- without a memory module, whose socket is -1. The outer `none` is a fault.
use tp_so_tuki.Common.{
  ℕ, Bool, true, false, List, [], ◌∷◌, ◌++◌, Option, none, some, get_elem?, ◌==◌, if◌then◌else◌,
  ◌>>=◌, ℤ,
}
use tp_so_tuki.Package.{Package, message_ok, message_flaw, package_new}
use tp_so_tuki.Serializer.{Instruction, deserialize_message, deserialize_instruction}
use tp_so_tuki.OpCode.{codes, str_eq, f_read, f_write, f_open, f_truncate}
use tp_so_tuki.OpCode.MemoryOp.{mem_read_address, mem_write_address, seg_fault}
use tp_so_tuki.Filesystem.Disk.{Disk, save}
use tp_so_tuki.Filesystem.Resize.{truncate_file}
use tp_so_tuki.Filesystem.Transfer.{iterate_block_file}

unfoldable pub create_file : Disk → List ℕ → Disk
create_file d file_name = record d {
  files = save d.files file_name (record {
    nombre_archivo = file_name;
    tamanio_archivo = [];
    puntero_directo = [];
    puntero_indirecto = [];
  });
}

-- A file that is not there is created if argument 1 is "1".
unfoldable pub open_file : Disk → Instruction → Option (Bool × Disk)
open_file d i = do
  file_name ← get_elem? i.args 0
  can_create ← get_elem? i.args 1
  some (elim (d.files file_name) [
    | some fcb ↦ (true, d)
    | none ↦ if str_eq can_create (codes "1") then (true, create_file d file_name) else (false, d)
  ])

-- The answer of the memory to what was read: whether the request succeeded.
unfoldable pub stored_in_memory : Option Package → Bool
stored_in_memory none = false
stored_in_memory (some answer) =
    if answer.type == seg_fault then false else (answer.type == message_ok)

module _ {W : Type 0} (memory : Option (W → Instruction → Option Package × W)) where
  -- NAME(0) POS(1) SIZE(2) PID(3) S_ID(4) OFFSET(5)
  unfoldable pub process_read : Disk → W → Instruction → Option (Bool × Disk × W)
  process_read d w i = do
    (read_file, d') ← iterate_block_file d i
    elim memory [
      | none ↦ some (true, d', w)
      | some ask ↦ (do
        s_id ← get_elem? i.args 4
        offset ← get_elem? i.args 5
        pid ← get_elem? i.args 3
        let mem_request : Instruction = record {
          op_code = mem_write_address;
          args = s_id ∷ offset ∷ read_file ∷ pid ∷ codes "FS" ∷ [];
        }
        let (answer, w') = ask w mem_request
        some (stored_in_memory answer, d', w'))
    ]

  -- What the memory holds becomes the last argument.
  unfoldable pub write_received : Disk → W → Instruction → Option Package → Option (Bool × Disk × W)
  write_received d w i none = some (false, d, w)
  write_received d w i (some answer) = do
    to_write ← deserialize_message answer
    (result_write, d') ← iterate_block_file d (record i { args = i.args ++ (to_write ∷ []) })
    some (true, d', w)

  unfoldable pub process_write : Disk → W → Instruction → Option (Bool × Disk × W)
  process_write d w i = elim memory [
    | none ↦ (do (result_write, d') ← iterate_block_file d i; some (true, d', w))
    | some ask ↦ (do
      s_id ← get_elem? i.args 4
      offset ← get_elem? i.args 5
      size ← get_elem? i.args 2
      pid ← get_elem? i.args 3
      let mem_request : Instruction = record {
        op_code = mem_read_address;
        args = s_id ∷ offset ∷ size ∷ pid ∷ codes "FS" ∷ [];
      }
      let (answer, w') = ask w mem_request
      write_received d w' i answer)
  ]

  module _ (string_itoa : ℤ → List ℕ) where
    unfoldable pub process_instruction : Disk → W → Instruction → Option (Bool × Disk × W)
    process_instruction d w i =
        if i.op_code == f_read
        then process_read d w i
        else if i.op_code == f_write
        then process_write d w i
        else if i.op_code == f_open
        then (do (opened, d') ← open_file d i; some (opened, d', w))
        else if i.op_code == f_truncate
        then (do d' ← truncate_file string_itoa d i; some (true, d', w))
        else some (false, d, w)

    -- The loop over the packages that the kernel sends until it disconnects, each with whether the answer
    -- to it can be sent, and the answers.
    unfoldable pub handle_kernel :
        Disk → W → List (Package × Bool) → Option (List Package × Disk × W)
    handle_kernel d w [] = some ([], d, w)
    handle_kernel d w ((received, sent) ∷ rest) = do
      instruction ← deserialize_instruction received
      (processed, d', w') ← process_instruction d w instruction
      elim sent [
        | false ↦ some ([], d', w')
        | true ↦ (do
          (answers, d'', w'') ← handle_kernel d' w' rest
          some (package_new (if processed then message_ok else message_flaw) ∷ answers, d'', w''))
      ]

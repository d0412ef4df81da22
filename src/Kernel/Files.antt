-- ===== src/Kernel/Files.antt =====
-- `t_helper_fs_handler` and `t_file_instruction` of kernel/include/handler_pcb.h, what `main` of
-- kernel/src/kernel.c does for F_OPEN, F_CLOSE, F_SEEK, F_TRUNCATE, F_READ and F_WRITE, and a round of
-- `handle_fs` of kernel/src/handler_pcb.c. `ask` stands for a message to the file system and its
-- answer, `none` if the socket fails, over the state `W` of whatever is outside. The outer `none`
-- is a read through NULL. `string_itoa` is the commons library's.
use tp_so_tuki.Common.{
  ℕ, zero, suc, List, [], ◌∷◌, ◌++◌, map, Option, none, some, get_elem?, ◌==◌, if◌then◌else◌, ◌||◌,
  ◌>>=◌, ℤ, atoi,
}
use tp_so_tuki.Package.{Package, message_ok, message_flaw}
use tp_so_tuki.Serializer.{Instruction}
use tp_so_tuki.OpCode.{codes, f_read, f_write}
use tp_so_tuki.Cpu.Execute.{to_int}
use tp_so_tuki.Kernel.State.{
  ready, block, Pcb, Kernel, dictionary_get, dictionary_update, dictionary_put, dictionary_remove,
  has_key, set_state,
}

-- An argument may be the NULL that stands for the position in a file that was never sought in.
pub record FileInstruction : Type 0 where
  pub op_code : ℕ
  pub args : List (Option (List ℕ))
  pub logical_address : ℤ
  pub pcb : ℕ

-- The kernel and its open files, each with the queue of the PCBs that wait for it.
pub record Files : Type 0 where
  pub kernel : Kernel
  pub global_files : List (List ℕ × List ℕ)
  pub file_instructions : List FileInstruction

-- An assignment to the local files of a PCB.
unfoldable pub set_local_files : (ℕ → Pcb) → ℕ → List (List ℕ × Option (List ℕ)) → ℕ → Pcb
set_local_files pcbs p files q = if q == p then record (pcbs q) { local_files = files } else pcbs q

-- `dictionary_put(pcb->local_files, filename, position)`, and the removal of the file.
unfoldable pub put_local : (ℕ → Pcb) → ℕ → List ℕ → Option (List ℕ) → ℕ → Pcb
put_local pcbs p filename position =
    set_local_files pcbs p (dictionary_put filename position (pcbs p).local_files)

unfoldable pub remove_local : (ℕ → Pcb) → ℕ → List ℕ → ℕ → Pcb
remove_local pcbs p filename =
    set_local_files pcbs p (dictionary_remove filename (pcbs p).local_files)

abbrev pub with_pcbs : Files → (ℕ → Pcb) → Files
with_pcbs s pcbs = record s { kernel = record s.kernel { pcbs = pcbs } }

-- `list_replace` and `list_add_in_index` of the commons library, within the list.
unfoldable pub list_replace {ℓ} : {A : Type ℓ} → List A → ℕ → A → List A
list_replace [] n v = []
list_replace (x ∷ xs) zero v = v ∷ xs
list_replace (x ∷ xs) (suc n) v = x ∷ list_replace xs n v

unfoldable pub list_add_in_index {ℓ} : {A : Type ℓ} → List A → ℕ → A → List A
list_add_in_index xs zero v = v ∷ xs
list_add_in_index [] (suc n) v = []
list_add_in_index (x ∷ xs) (suc n) v = x ∷ list_add_in_index xs n v

-- `case F_CLOSE`
unfoldable pub close_found : Files → ℕ → List ℕ → List ℕ → Files
close_found s p filename [] = record s {
  kernel = record s.kernel { pcbs = remove_local s.kernel.pcbs p filename };
  global_files = dictionary_remove filename s.global_files;
}
close_found s p filename (q ∷ waiting) = record s {
  kernel = record s.kernel {
    pcbs = remove_local (set_state (put_local s.kernel.pcbs q filename none) q ready) p filename;
  };
  global_files = dictionary_update filename waiting s.global_files;
}

unfoldable pub handle_close : Files → ℕ → Instruction → Option Files
handle_close s p request = do
  filename ← get_elem? request.args 0
  some (elim (dictionary_get filename s.global_files) [
    | none ↦ s
    | some waiting_pcbs ↦ close_found s p filename waiting_pcbs
  ])

-- `case F_SEEK`
unfoldable pub handle_seek : Files → ℕ → Instruction → Option Files
handle_seek s p request = do
  filename ← get_elem? request.args 0
  some (
      if has_key filename (s.kernel.pcbs p).local_files
      then with_pcbs s (put_local s.kernel.pcbs p filename (get_elem? request.args 1))
      else s)

-- `case F_READ` and `case F_WRITE`: the process waits for `handle_fs`.
unfoldable pub handle_transfer : (ℤ → List ℕ) → Files → ℕ → Instruction → Option Files
handle_transfer string_itoa s p request = do
  filename ← get_elem? request.args 0
  elim (dictionary_get filename (s.kernel.pcbs p).local_files) [
    | none ↦ some s
    | some position ↦ (do
      address ← get_elem? request.args 1
      some (record s {
        kernel = record s.kernel { pcbs = set_state s.kernel.pcbs p block };
        file_instructions =
            s.file_instructions
            ++ (record {
              op_code = request.op_code;
              args =
                  list_add_in_index
                    (list_replace (map (λ (a : List ℕ). some a) request.args) 1 position) 3
                    (some (string_itoa (to_int (s.kernel.pcbs p).pid)));
              logical_address = atoi address;
              pcb = p;
            }
                ∷ []);
      }))
  ]

-- The arguments as C strings: `none` if one is NULL.
unfoldable pub strings : List (Option (List ℕ)) → Option (List (List ℕ))
strings [] = some []
strings (a ∷ as') = do text ← a; texts ← strings as'; some (text ∷ texts)

-- What `handle_fs` does with an answer.
unfoldable pub transfer_answer : Files → ℕ → Option Package → Files
transfer_answer s p none = s
transfer_answer s p (some answer) =
    if answer.type == message_ok then with_pcbs s (set_state s.kernel.pcbs p ready) else s

-- What follows the last answer of the file system to F_OPEN.
unfoldable pub open_answer : Files → ℕ → List ℕ → Option Package → Files
open_answer s p filename none = s
open_answer s p filename (some answer) =
    if answer.type == message_ok
    then record s {
      kernel = record s.kernel { pcbs = put_local s.kernel.pcbs p filename none };
      global_files = dictionary_put filename [] s.global_files;
    }
    else s

module _ {W : Type 0} (ask : W → Instruction → Option Package × W) where
  -- A file that is not there is asked for again, to be created; the two requests differ in argument 1.
  unfoldable pub open_again : Files → W → ℕ → List ℕ → Instruction → Option Package → Files × W
  open_again s w p filename request none = (s, w)
  open_again s w p filename request (some answer) =
      if answer.type == message_flaw
      then (let (again, w') =
            ask w (record request { args = list_replace request.args 1 (codes "1") }) in
          (open_answer s p filename again, w'))
      else (open_answer s p filename (some answer), w)

  -- `case F_OPEN`
  unfoldable pub handle_open : Files → W → ℕ → Instruction → Option (Files × W)
  handle_open s w p request = do
    filename ← get_elem? request.args 0
    some (elim (dictionary_get filename s.global_files) [
      | some waiting ↦ (
        record s {
          kernel = record s.kernel { pcbs = set_state s.kernel.pcbs p block };
          global_files = dictionary_update filename (waiting ++ (p ∷ [])) s.global_files;
        },
        w,
      )
      | none ↦
          (let sent = record request { args = request.args ++ (codes "0" ∷ []) } in
            let (answer, w') = ask w sent in open_again s w' p filename sent answer)
    ])

  -- `case F_TRUNCATE`: whatever the answer is, only the log differs.
  unfoldable pub handle_truncate : Files → W → Instruction → Files × W
  handle_truncate s w request = (s, (ask w request).1)

  -- One round of `handle_fs`, on a queue that is not empty.
  unfoldable pub fs_round : Files → W → FileInstruction → Option (Files × W)
  fs_round s w fi =
      if fi.op_code == f_read || fi.op_code == f_write
      then (do
        args ← strings fi.args
        let (answer, w') = ask w (record { op_code = fi.op_code; args = args })
        some (transfer_answer s fi.pcb answer, w'))
      else some (s, w)

  unfoldable pub handle_fs : Files → W → Option (Files × W)
  handle_fs s w = elim s.file_instructions [
    | [] ↦ some (s, w)
    | fi ∷ rest ↦ fs_round (record s { file_instructions = rest }) w fi
  ]

-- ===== src/Kernel/RunningFiles.antt =====
-- The file requests of kernel/src/kernel.c make no process run.
use tp_so_tuki.Common.{
  ℕ, refl, inl, inr, List, [], ◌∷◌, Option, none, some, get_elem?, ◌==◌, Ensures, Ensures-any,
  Bool-cases, Option-cases, ℤ,
}
use tp_so_tuki.Package.{Package, message_ok, message_flaw}
use tp_so_tuki.Serializer.{Instruction}
use tp_so_tuki.Kernel.State.{ready, block, dictionary_get, has_key, set_state, is_exec}
use tp_so_tuki.Kernel.Files.{
  Files, put_local, remove_local, close_found, handle_close, handle_seek, handle_transfer,
  open_answer, open_again, handle_open,
}
use tp_so_tuki.Kernel.Running.{Quiet, set_state-Quiet, set_local_files-Quiet}

close_found-Quiet :
    (s : Files) (p : ℕ) (name waiting : List ℕ)
    → Quiet s.kernel.pcbs (close_found s p name waiting).kernel.pcbs
unfolding close_found remove_local put_local is_exec
close_found-Quiet s p name [] = set_local_files-Quiet s.kernel.pcbs p _
close_found-Quiet s p name (q ∷ waiting) = λ r h.
    set_local_files-Quiet (set_state (put_local s.kernel.pcbs q name none) q ready) p _ r (
      set_state-Quiet (put_local s.kernel.pcbs q name none) q ready refl r
        (set_local_files-Quiet s.kernel.pcbs q _ r h))

-- A new state of the kernel and its files in which no other process runs.
abbrev pub QuietFiles : {W : Type 0} → Files → Files × W → Type 0
QuietFiles s r = Quiet s.kernel.pcbs r.0.kernel.pcbs

pub handle_close-Quiet :
    (s : Files) (p : ℕ) (request : Instruction)
    → Ensures (λ s'. Quiet s.kernel.pcbs s'.kernel.pcbs) (handle_close s p request)
unfolding handle_close
handle_close-Quiet s p request =
    Ensures-any (λ s'. Quiet s.kernel.pcbs s'.kernel.pcbs) (get_elem? request.args 0) _
      (λ name. elim (Option-cases (dictionary_get name s.global_files)) [
        | inl e ↦ rw e (λ q h. h)
        | inr w ↦ rw w.1 (close_found-Quiet s p name w.0)
      ])

pub handle_seek-Quiet :
    (s : Files) (p : ℕ) (request : Instruction)
    → Ensures (λ s'. Quiet s.kernel.pcbs s'.kernel.pcbs) (handle_seek s p request)
unfolding handle_seek put_local
handle_seek-Quiet s p request =
    Ensures-any (λ s'. Quiet s.kernel.pcbs s'.kernel.pcbs) (get_elem? request.args 0) _
      (λ name. elim (Bool-cases (has_key name (s.kernel.pcbs p).local_files)) [
        | inr e ↦ rw e (λ q h. h)
        | inl e ↦ rw e (set_local_files-Quiet s.kernel.pcbs p _)
      ])

pub handle_transfer-Quiet :
    (string_itoa : ℤ → List ℕ) (s : Files) (p : ℕ) (request : Instruction)
    → Ensures (λ s'. Quiet s.kernel.pcbs s'.kernel.pcbs) (handle_transfer string_itoa s p request)
unfolding handle_transfer is_exec
handle_transfer-Quiet string_itoa s p request =
    Ensures-any (λ s'. Quiet s.kernel.pcbs s'.kernel.pcbs) (get_elem? request.args 0) _
      (λ name. elim (Option-cases (dictionary_get name (s.kernel.pcbs p).local_files)) [
        | inl e ↦ rw e (λ q h. h)
        | inr w ↦ rw w.1 (
            Ensures-any (λ s'. Quiet s.kernel.pcbs s'.kernel.pcbs) (get_elem? request.args 1) _
              (λ address. set_state-Quiet s.kernel.pcbs p block refl))
      ])

open_answer-Quiet :
    (s : Files) (p : ℕ) (name : List ℕ) (answer : Option Package)
    → Quiet s.kernel.pcbs (open_answer s p name answer).kernel.pcbs
unfolding open_answer put_local
open_answer-Quiet s p name none = λ q h. h
open_answer-Quiet s p name (some answer) = elim (Bool-cases (answer.type == message_ok)) [
  | inl e ↦ rw e (set_local_files-Quiet s.kernel.pcbs p _)
  | inr e ↦ rw e (λ q h. h)
]

module _ {W : Type 0} (ask : W → Instruction → Option Package × W) where
  open_again-Quiet :
      (s : Files) (w : W) (p : ℕ) (name : List ℕ) (request : Instruction) (answer : Option Package)
      → QuietFiles s (open_again ask s w p name request answer)
  unfolding open_again
  open_again-Quiet s w p name request none = λ q h. h
  open_again-Quiet s w p name request (some answer) =
      elim (Bool-cases (answer.type == message_flaw)) [
        | inl e ↦ rw e (open_answer-Quiet s p name _)
        | inr e ↦ rw e (open_answer-Quiet s p name (some answer))
      ]

  pub handle_open-Quiet :
      (s : Files) (w : W) (p : ℕ) (request : Instruction)
      → Ensures (QuietFiles s) (handle_open ask s w p request)
  unfolding handle_open is_exec
  handle_open-Quiet s w p request = Ensures-any (QuietFiles s) (get_elem? request.args 0) _ (λ name.
      elim (Option-cases (dictionary_get name s.global_files)) [
        | inl e ↦ rw e (open_again-Quiet s _ p name _ _)
        | inr f ↦ rw f.1 (set_state-Quiet s.kernel.pcbs p block refl)
      ])

-- ===== src/Kernel/FileLock.antt =====
-- F_OPEN and F_CLOSE of kernel/src/kernel.c as the lock that each file is: it has one holder at most, and
-- the others wait in the order in which they came.
use tp_so_tuki.Common.{
  ℕ, ◌≡◌, ◌≢◌, refl, sym, ap, ◌∙◌, inl, Bool, true, false, List, [], ◌∷◌, ◌++◌, Option, none, some,
  get_elem?, ◌==◌, if◌then◌else◌, In, arith,
}
use tp_so_tuki.Serializer.{Instruction}
use tp_so_tuki.OpCode.{str_eq}
use tp_so_tuki.OpCode.Names.{str_eq_iff, str_eq_self}
use tp_so_tuki.Kernel.State.{ready, ProcessState, Pcb, dictionary_get, dictionary_remove, set_state}
use tp_so_tuki.Kernel.Dictionary.{is_some, get-put, get-remove, get-update_lem}
use tp_so_tuki.Kernel.Semaphore.{set_state_self}
use tp_so_tuki.Kernel.Files.{
  Files, set_local_files, put_local, remove_local, close_found, handle_close,
}

-- What a file is to the processes.
pub data Lock : Type 0 where
  free : Lock
  held : ℕ → List ℕ → Lock

abbrev pub acquire : ℕ → Lock → Lock
acquire p free = held p []
acquire p (held h waiting) = held h (waiting ++ (p ∷ []))

abbrev pub hand_over : List ℕ → Lock
hand_over [] = free
hand_over (q ∷ waiting) = held q waiting

-- The process has the file among its local files.
abbrev pub has_file : (ℕ → Pcb) → List ℕ → ℕ → Bool
has_file pcbs name q = is_some (dictionary_get name (pcbs q).local_files)

-- The state of the file in the kernel.
abbrev pub Locks : Files → List ℕ → Lock → Type 0
Locks s name free =
    (dictionary_get name s.global_files ≡ none) × ((q : ℕ) → has_file s.kernel.pcbs name q ≡ false)
Locks s name (held h waiting) =
    (dictionary_get name s.global_files ≡ some waiting)
    × (has_file s.kernel.pcbs name h ≡ true)
    × ((q : ℕ) → q ≢ h → has_file s.kernel.pcbs name q ≡ false)

pub has_file-set_state :
    (pcbs : ℕ → Pcb) (p : ℕ) (state : ProcessState) (name : List ℕ) (q : ℕ)
    → has_file (set_state pcbs p state) name q ≡ has_file pcbs name q
unfolding set_state
has_file-set_state pcbs p state name q = ground arith

pub has_file-put_local :
    (pcbs : ℕ → Pcb) (p : ℕ) (file : List ℕ) (position : Option (List ℕ)) (name : List ℕ) (q : ℕ)
    → has_file (put_local pcbs p file position) name q ≡ (
        if q == p
        then (if str_eq file name then true else has_file pcbs name q)
        else has_file pcbs name q)
unfolding put_local set_local_files
has_file-put_local pcbs p file position name q =
    ground (arith, get-put file name position (pcbs p).local_files)

has_file-remove_local :
    (pcbs : ℕ → Pcb) (p : ℕ) (file name : List ℕ) (q : ℕ)
    → has_file (remove_local pcbs p file) name q ≡ (
        if q == p
        then (if str_eq file name then false else has_file pcbs name q)
        else has_file pcbs name q)
unfolding remove_local set_local_files
has_file-remove_local pcbs p file name q = ground (arith, get-remove file name (pcbs p).local_files)

pub state-set_local_files :
    (pcbs : ℕ → Pcb) (p : ℕ) (files : List (List ℕ × Option (List ℕ))) (q : ℕ)
    → (set_local_files pcbs p files q).state ≡ (pcbs q).state
unfolding set_local_files
state-set_local_files pcbs p files q = ground arith

-- Every other file is as it was.
abbrev pub OthersKept : List ℕ → Files → Files → Type 0
OthersKept name s s' =
    (other : List ℕ)
    → name ≢ other
    → (dictionary_get other s'.global_files ≡ dictionary_get other s.global_files)
      × ((q : ℕ) → has_file s'.kernel.pcbs other q ≡ has_file s.kernel.pcbs other q)

close_found-Locks :
    (s : Files) (p : ℕ) (name : List ℕ) (waiting : List ℕ)
    → Locks s name (held p waiting)
    → ¬ In p waiting
    → Locks (close_found s p name waiting) name (hand_over waiting)
unfolding close_found
close_found-Locks s p name [] l n = (
  get-remove name name s.global_files ∙ rw (str_eq_self name) refl,
  λ q. ground (arith, has_file-remove_local s.kernel.pcbs p name name q, str_eq_self name, l.2 q),
)
close_found-Locks s p name (q ∷ waiting) l n = (
  get-update_lem name name waiting s.global_files (ap is_some l.0) ∙ rw (str_eq_self name) refl,
  ground (
    arith,
    has_file-remove_local given p name name q,
    has_file-set_state (put_local s.kernel.pcbs q name none) q ready name q,
    has_file-put_local s.kernel.pcbs q name none name q,
    str_eq_self name,
    other,
  ),
  λ r ne. ground (
    arith,
    has_file-remove_local given p name name r,
    has_file-set_state (put_local s.kernel.pcbs q name none) q ready name r,
    has_file-put_local s.kernel.pcbs q name none name r,
    str_eq_self name,
    l.2 r,
  ),
)
  where
    given : ℕ → Pcb
    given = set_state (put_local s.kernel.pcbs q name none) q ready

    other : q ≢ p
    other e = n (inl (sym e))

close_found-OthersKept :
    (s : Files) (p : ℕ) (name : List ℕ) (waiting : List ℕ)
    → dictionary_get name s.global_files ≡ some waiting
    → OthersKept name s (close_found s p name waiting)
unfolding close_found
close_found-OthersKept s p name [] e other ne = (
  ground (arith, get-remove name other s.global_files, str_eq_iff name other),
  λ r. ground (arith, has_file-remove_local s.kernel.pcbs p name other r, str_eq_iff name other),
)
close_found-OthersKept s p name (q ∷ waiting) e other ne = (
  ground (
    arith,
    get-update_lem name other waiting s.global_files (ap is_some e),
    str_eq_iff name other,
  ),
  λ r. ground (
    arith,
    has_file-remove_local (set_state (put_local s.kernel.pcbs q name none) q ready) p name other r,
    has_file-set_state (put_local s.kernel.pcbs q name none) q ready other r,
    has_file-put_local s.kernel.pcbs q name none other r,
    str_eq_iff name other,
  ),
)

-- The first of those that waited is ready to run.
abbrev pub FirstReady : List ℕ → (ℕ → Pcb) → Type 0
FirstReady [] pcbs = Unit
FirstReady (q ∷ waiting) pcbs = (pcbs q).state ≡ ready

first_ready :
    (s : Files) (p : ℕ) (name waiting : List ℕ)
    → FirstReady waiting (close_found s p name waiting).kernel.pcbs
unfolding close_found remove_local
first_ready s p name [] = tt
first_ready s p name (q ∷ waiting) =
    state-set_local_files given p (dictionary_remove name (given p).local_files) q
    ∙ set_state_self (put_local s.kernel.pcbs q name none) q ready
  where
    given : ℕ → Pcb
    given = set_state (put_local s.kernel.pcbs q name none) q ready

-- The holder of a file, which does not wait for it, closes it: this does not fault, and the file passes to
-- the process that has waited longest, which becomes ready and has it among its local files, or is
-- free if nobody waits. The other files stay as they were.
pub handle_close_lem :
    (s : Files) (p : ℕ) (request : Instruction) (name waiting : List ℕ)
    → get_elem? request.args 0 ≡ some name
    → Locks s name (held p waiting)
    → ¬ In p waiting
    → (s' : Files) × (handle_close s p request ≡ some s')
      × Locks s' name (hand_over waiting)
      × FirstReady waiting s'.kernel.pcbs
      × OthersKept name s s'
unfolding handle_close
handle_close_lem s p request name waiting a l n = (
  close_found s p name waiting,
  rw (a, l.0) refl,
  close_found-Locks s p name waiting l n,
  first_ready s p name waiting,
  close_found-OthersKept s p name waiting l.0,
)

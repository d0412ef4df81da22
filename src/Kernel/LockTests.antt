-- ===== src/Kernel/LockTests.antt =====
-- Four processes and a file that two of them wait for.
use tp_so_tuki.Common.{
  ℕ, zero, suc, ◌+◌, ◌≡◌, ◌≢◌, refl, inr, false, List, [], ◌∷◌, Option, none, some, pos, arith,
}
use tp_so_tuki.Package.{Package, message_ok, message_flaw}
use tp_so_tuki.Serializer.{Instruction}
use tp_so_tuki.OpCode.{str_eq, f_open}
use tp_so_tuki.Kernel.State.{block, Pcb, Kernel, pcb_new, dictionary_get}
use tp_so_tuki.Kernel.Files.{Files, handle_close, handle_open}
use tp_so_tuki.Kernel.FileLock.{
  has_file, free, held, acquire, hand_over, Locks, FirstReady, OthersKept, handle_close_lem,
}
use tp_so_tuki.Kernel.FileOpen.{handle_open-free, handle_open-held}

-- A name of one letter.
abbrev file : List ℕ
file = 97 ∷ []

abbrev request : Instruction
request = record { op_code = f_open; args = file ∷ [] }

abbrev pcbs : ℕ → Pcb
pcbs zero = record (pcb_new 0 (pos 0) 4 (pos 10)) { local_files = (file, none) ∷ [] }
pcbs (suc p) = record (pcb_new 0 (pos 0) (5 + p) (pos 10)) { local_files = [] }

abbrev kernel : Kernel
kernel = record {
  pcbs = pcbs;
  new_pcbs = [];
  active_pcbs = 3 ∷ [];
  resources = [];
  algorithm_is_hrrn = false;
  max_multiprogramming = 4;
  prioritized_pcb = none;
}

abbrev shared : Files
shared = record { kernel = kernel; global_files = (file, 1 ∷ 2 ∷ []) ∷ []; file_instructions = [] }

shared-Locks : Locks shared file (held 0 (1 ∷ 2 ∷ []))
unfolding dictionary_get str_eq
shared-Locks = (refl, refl, λ q ne. nobody q ne)
  where
    nobody : (q : ℕ) → q ≢ 0 → has_file pcbs file q ≡ false
    nobody zero ne = absurd (ne refl)
    nobody (suc q) ne = refl

-- The file system knows a file once it has been asked to create it.
abbrev ask : ℕ → Instruction → Option Package × ℕ
ask zero i = (some (record { size = 0; type = message_flaw; buffer = [] }), 1)
ask (suc w) i = (some (record { size = 0; type = message_ok; buffer = [] }), suc (suc w))

handle_close_lem_example :
    (s' : Files) × (handle_close shared 0 request ≡ some s')
    × Locks s' file (hand_over (1 ∷ 2 ∷ []))
    × FirstReady (1 ∷ 2 ∷ []) s'.kernel.pcbs
    × OthersKept file shared s'
handle_close_lem_example =
    handle_close_lem shared 0 request file (1 ∷ 2 ∷ []) refl shared-Locks (λ i. ground (arith, i))

handle_open-held_example :
    (s' : Files) × (handle_open ask shared zero 3 request ≡ some (s', zero))
    × Locks s' file (acquire 3 (held 0 (1 ∷ 2 ∷ [])))
    × ((s'.kernel.pcbs 3).state ≡ block)
    × OthersKept file shared s'
handle_open-held_example =
    handle_open-held ask shared 0 3 request file 0 (1 ∷ 2 ∷ []) refl shared-Locks

-- The letter b.
abbrev other : List ℕ
other = 98 ∷ []

other-Locks : Locks shared other free
unfolding dictionary_get str_eq
other-Locks = (refl, nobody)
  where
    nobody : (q : ℕ) → has_file pcbs other q ≡ false
    nobody zero = refl
    nobody (suc q) = refl

handle_open-free_example :
    (s' : Files) × (handle_open ask shared 0 2 (record request { args = other ∷ [] })
      ≡ some (s', 2))
    × Locks s' other (acquire 2 free)
    × OthersKept other shared s'
handle_open-free_example =
    handle_open-free ask shared 0 2 2 (record request { args = other ∷ [] }) other refl other-Locks
      (inr (
        record { size = 0; type = message_flaw; buffer = [] },
        1,
        record { size = 0; type = message_ok; buffer = [] },
        refl,
        refl,
        refl,
        refl,
      ))

-- ===== src/Kernel/FileOpen.antt =====
-- F_OPEN of kernel/src/kernel.c as the taking of the lock that a file is.
use tp_so_tuki.Common.{
  ℕ, ◌≡◌, refl, ap, ◌∙◌, ◌⊎◌, inl, inr, true, false, List, [], ◌∷◌, ◌++◌, Option, none, some,
  get_elem?, ◌==◌, arith,
}
use tp_so_tuki.Package.{Package, message_ok, message_flaw}
use tp_so_tuki.Serializer.{Instruction}
use tp_so_tuki.OpCode.{codes}
use tp_so_tuki.OpCode.Names.{str_eq_iff, str_eq_self}
use tp_so_tuki.Kernel.State.{block, dictionary_update, dictionary_put, set_state}
use tp_so_tuki.Kernel.Dictionary.{is_some, get-put, get-update_lem}
use tp_so_tuki.Kernel.Semaphore.{set_state_self}
use tp_so_tuki.Kernel.Files.{Files, put_local, list_replace, open_answer, open_again, handle_open}
use tp_so_tuki.Kernel.FileLock.{
  free, held, acquire, Locks, OthersKept, has_file-set_state, has_file-put_local,
}

module _ {W : Type 0} (ask : W → Instruction → Option Package × W) where
  -- The file system lets the process have the file: at once, or when it is asked again to create it.
  abbrev pub Grants : W → Instruction → W → Type 0
  Grants w sent w' =
      ((answer : Package) × (ask w sent ≡ (some answer, w'))
        × ((answer.type == message_flaw) ≡ false)
        × ((answer.type == message_ok) ≡ true))
      ⊎ ((flaw : Package) × (between : W) × (answer : Package) × (ask w sent ≡ (some flaw, between))
          × ((flaw.type == message_flaw) ≡ true)
          × (ask between (record sent { args = list_replace sent.args 1 (codes "1") })
              ≡ (some answer, w'))
          × ((answer.type == message_ok) ≡ true))

  abbrev opened : Files → ℕ → List ℕ → Files
  opened s p name = record s {
    kernel = record s.kernel { pcbs = put_local s.kernel.pcbs p name none };
    global_files = dictionary_put name [] s.global_files;
  }

  opened-Locks :
      (s : Files) (p : ℕ) (name : List ℕ)
      → Locks s name free
      → Locks (opened s p name) name (held p [])
  opened-Locks s p name l = (
    get-put name name [] s.global_files ∙ rw (str_eq_self name) refl,
    ground (arith, has_file-put_local s.kernel.pcbs p name none name p, str_eq_self name),
    λ r ne. ground (arith, has_file-put_local s.kernel.pcbs p name none name r, l.1 r),
  )

  opened-OthersKept : (s : Files) (p : ℕ) (name : List ℕ) → OthersKept name s (opened s p name)
  opened-OthersKept s p name other ne = (
    ground (arith, get-put name other [] s.global_files, str_eq_iff name other),
    λ r.
        ground (arith, has_file-put_local s.kernel.pcbs p name none other r, str_eq_iff name other),
  )

  -- A process opens a file that is free, and the file system grants it: this does not fault, and the process
  -- holds the file. The other files stay as they were.
  pub handle_open-free :
      (s : Files) (w w' : W) (p : ℕ) (request : Instruction) (name : List ℕ)
      → get_elem? request.args 0 ≡ some name
      → Locks s name free
      → Grants w (record request { args = request.args ++ (codes "0" ∷ []) }) w'
      → (s' : Files) × (handle_open ask s w p request ≡ some (s', w'))
        × Locks s' name (acquire p free)
        × OthersKept name s s'
  unfolding handle_open open_again open_answer
  handle_open-free s w w' p request name a l g = (
    opened s p name,
    elim g [
      | inl h ↦ rw (a, l.0, h.1, h.2, h.3) refl
      | inr h ↦ rw (a, l.0, h.3, h.4, h.5, h.6) refl
    ],
    opened-Locks s p name l,
    opened-OthersKept s p name,
  )

  -- A process opens a file that another holds: this does not fault and asks the file system for nothing.
  -- The process is blocked, as the last of those that wait; the holder and all other files stay.
  pub handle_open-held :
      (s : Files) (w : W) (p : ℕ) (request : Instruction) (name : List ℕ) (h : ℕ) (waiting : List ℕ)
      → get_elem? request.args 0 ≡ some name
      → Locks s name (held h waiting)
      → (s' : Files) × (handle_open ask s w p request ≡ some (s', w))
        × Locks s' name (acquire p (held h waiting))
        × ((s'.kernel.pcbs p).state ≡ block)
        × OthersKept name s s'
  unfolding handle_open
  handle_open-held s w p request name h waiting a l = (
    record s {
      kernel = record s.kernel { pcbs = set_state s.kernel.pcbs p block };
      global_files = dictionary_update name (waiting ++ (p ∷ [])) s.global_files;
    },
    rw (a, l.0) refl,
    (
      get-update_lem name name (waiting ++ (p ∷ [])) s.global_files (ap is_some l.0)
          ∙ rw (str_eq_self name) refl,
      has_file-set_state s.kernel.pcbs p block name h ∙ l.1,
      λ q ne. has_file-set_state s.kernel.pcbs p block name q ∙ l.2 q ne,
    ),
    set_state_self s.kernel.pcbs p block,
    λ other ne. (
      ground (
        arith,
        get-update_lem name other (waiting ++ (p ∷ [])) s.global_files (ap is_some l.0),
        str_eq_iff name other,
      ),
      λ q. has_file-set_state s.kernel.pcbs p block other q,
    ),
  )

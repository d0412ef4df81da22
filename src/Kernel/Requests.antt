-- ===== src/Kernel/Requests.antt =====
-- WAIT and SIGNAL of kernel/src/kernel.c, on the resources of the whole kernel.
use tp_so_tuki.Common.{
  ℕ, ◌≡◌, ◌≢◌, refl, sym, ap, subst, ◌∙◌, ◌⊎◌, inl, inr, true, false, List, [], ◌∷◌, none, some,
  if◌then◌else◌, Bool-cases, All, arith,
}
use tp_so_tuki.OpCode.{str_eq}
use tp_so_tuki.OpCode.Names.{str_eq-eq}
use tp_so_tuki.Kernel.State.{block, Resource, Kernel, dictionary_get, dictionary_update}
use tp_so_tuki.Kernel.Resources.{
  resource_get, resource_wait, grant, wait_found, handle_wait, signal_found, handle_signal,
}
use tp_so_tuki.Kernel.Semaphore.{
  IsResource, Signalled, set_state_self, resource_wait_lem, resource_signal_lem,
}

module _ {A : Type 0} where
  get-All :
      (P : A → Type 0) (key : List ℕ) (d : List (List ℕ × A)) (v : A)
      → All (λ e. P e.1) d
      → dictionary_get key d ≡ some v
      → P v
  unfolding dictionary_get
  get-All P key [] v a e = absurd (ground (arith, e))
  get-All P key ((k, u) ∷ d) v a e = elim (Bool-cases (str_eq k key)) [
    | inl b ↦ subst P (some-injective (sym (rw b refl) ∙ e)) a.0
    | inr b ↦ get-All P key d v a.1 (sym (rw b refl) ∙ e)
  ]
    where
      some-injective : {x y : A} → some x ≡ some y → x ≡ y
      some-injective h = cc

  update-All :
      (P : A → Type 0) (key : List ℕ) (v : A) (d : List (List ℕ × A))
      → P v
      → All (λ e. P e.1) d
      → All (λ e. P e.1) (dictionary_update key v d)
  unfolding dictionary_update
  update-All P key v [] p a = tt
  update-All P key v ((k, u) ∷ d) p a = elim (Bool-cases (str_eq k key)) [
    | inl b ↦ rw b (p, a.1)
    | inr b ↦ rw b (a.0, update-All P key v d p a.1)
  ]

  -- An update is seen under its key, if that is there, and under no other key.
  get-update :
      (key : List ℕ) (old v : A) (d : List (List ℕ × A))
      → dictionary_get key d ≡ some old
      → dictionary_get key (dictionary_update key v d) ≡ some v
  unfolding dictionary_get dictionary_update
  get-update key old v [] e = absurd (ground (arith, e))
  get-update key old v ((k, u) ∷ d) e = elim (Bool-cases (str_eq k key)) [
    | inl b ↦ rw b (rw b refl)
    | inr b ↦ rw b (rw b (get-update key old v d (sym (rw b refl) ∙ e)))
  ]

  get-update_other :
      (key other : List ℕ) (v : A) (d : List (List ℕ × A))
      → key ≢ other
      → dictionary_get other (dictionary_update key v d) ≡ dictionary_get other d
  unfolding dictionary_get dictionary_update
  get-update_other key other v [] n = refl
  get-update_other key other v ((k, u) ∷ d) n = elim (Bool-cases (str_eq k key)) [
    | inr b ↦
        rw b (ap (λ t. if str_eq k other then some u else t) (get-update_other key other v d n))
    | inl b ↦ elim (Bool-cases (str_eq k other)) [
      | inl c ↦ absurd (n (sym (str_eq-eq k key b) ∙ str_eq-eq k other c))
      | inr c ↦ rw (b, c) refl
    ]
  ]

-- All resources of the kernel are valid, and those of other names are as they were.
abbrev pub AllValid : Kernel → Type 0
AllValid k = All (λ e. IsResource e.1) k.resources

abbrev pub OthersKept : List ℕ → Kernel → Kernel → Type 0
OthersKept name k k' =
    (other : List ℕ)
    → name ≢ other
    → dictionary_get other k'.resources ≡ dictionary_get other k.resources

resource_get-some :
    (k : Kernel) (p : ℕ) (name : List ℕ) (r : Resource)
    → dictionary_get name k.resources ≡ some r
    → resource_get k p name ≡ (k, some r)
unfolding resource_get
resource_get-some k p name r e = rw (e, resource_get) refl

-- WAIT on a resource of the configuration keeps all resources valid. That resource becomes what the
-- semaphore's WAIT makes of it, no other resource changes, and the process is either the next to run,
-- where an instance was free, or it is blocked.
pub handle_wait_lem :
    (k : Kernel) (p : ℕ) (name : List ℕ) (r : Resource)
    → AllValid k
    → dictionary_get name k.resources ≡ some r
    → AllValid (handle_wait k p name)
      × (dictionary_get name (handle_wait k p name).resources ≡ some (resource_wait p r).1)
      × OthersKept name k (handle_wait k p name)
      × ((((resource_wait p r).0 ≡ true) × ((handle_wait k p name).prioritized_pcb ≡ some p))
          ⊎ (((resource_wait p r).0 ≡ false) × (((handle_wait k p name).pcbs p).state ≡ block)))
unfolding handle_wait wait_found grant
handle_wait_lem k p name r v found = elim (Bool-cases (resource_wait p r).0) [
  | inl b ↦ rw (resource_get-some k p name r found, b) (valid, updated, others, inl (refl, refl))
  | inr b ↦
      rw (resource_get-some k p name r found, b)
        (valid, updated, others, inr (refl, set_state_self k.pcbs p block))
]
  where
    r' : Resource
    r' = (resource_wait p r).1

    valid : All (λ e. IsResource e.1) (dictionary_update name r' k.resources)
    valid =
        update-All IsResource name r' k.resources
          (resource_wait_lem p r (get-All IsResource name k.resources r v found)).0 v

    updated : dictionary_get name (dictionary_update name r' k.resources) ≡ some r'
    updated = get-update name r r' k.resources found

    others :
        (other : List ℕ)
        → name ≢ other
        → dictionary_get other (dictionary_update name r' k.resources)
          ≡ dictionary_get other k.resources
    others other n = get-update_other name other r' k.resources n

-- SIGNAL on a resource of the configuration that is assigned or waited for does not fault, and keeps all
-- resources valid. That resource and the PCBs become what the semaphore's SIGNAL makes of them, no other
-- resource changes, and the process runs on.
pub handle_signal_lem :
    (k : Kernel) (p : ℕ) (name : List ℕ) (r : Resource)
    → AllValid k
    → dictionary_get name k.resources ≡ some r
    → (r.assigned_to ≢ none) ⊎ (r.enqueued_processes ≢ [])
    → (k' : Kernel) × (r' : Resource) × (handle_signal k p name ≡ some k')
      × AllValid k'
      × (dictionary_get name k'.resources ≡ some r')
      × Signalled k.pcbs r (k'.pcbs, r')
      × OthersKept name k k'
      × (k'.prioritized_pcb ≡ some p)
unfolding handle_signal signal_found
handle_signal_lem k p name r v found held =
    let (s, e, signalled) =
      resource_signal_lem k.pcbs r (get-All IsResource name k.resources r v found) held in
    (
      record k {
        pcbs = s.0;
        resources = dictionary_update name s.1 k.resources;
        prioritized_pcb = some p;
      },
      s.1,
      rw (resource_get-some k p name r found, e) refl,
      update-All IsResource name s.1 k.resources signalled.0 v,
      get-update name r s.1 k.resources found,
      signalled,
      (λ other n. get-update_other name other s.1 k.resources n),
      refl,
    )

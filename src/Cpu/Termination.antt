-- ===== src/Cpu/Termination.antt =====
-- What `execute` of cpu/src/handler_cpu.c leaves alone, and why the loop of cpu/src/cpu.c ends.
use tp_so_tuki.Common.{
  ℕ, zero, suc, ◌+◌, ◌-◌, ◌%◌, ◌^◌, ◌<◌, ◌≡◌, ◌≢◌, refl, sym, ap, subst, inl, inr, List, Option,
  none, some, length, get_elem?, ◌==◌, ◌||◌, Bool-cases, Option-cases, ◌>>=◌, ℤ, arith,
}
use tp_so_tuki.Package.{Package, message_ok}
use tp_so_tuki.Serializer.{Instruction, deserialize_message}
use tp_so_tuki.OpCode.{set, mov_in, mov_out, f_read, f_write}
use tp_so_tuki.Cpu.Mmu.{PhysicalAddress}
use tp_so_tuki.Cpu.Execute.{
  ExecutionContext, fetch, decode, execute, execute_set, execute_file, execute_mov_in,
  execute_mov_out, is_request, read_answer, write_answer, request,
}
use tp_so_tuki.OpCode.MemoryOp.{seg_fault}
use tp_so_tuki.Cpu.RegisterFile.{register_pointer, register_text}
use tp_so_tuki.Cpu.Cycle.{Burst, done, fault, out_of_rounds, next, round, run_burst}

-- The fields that belong to the process and to its program.
abbrev pub Kept : ExecutionContext → ExecutionContext → Type 0
Kept ec ec' =
    (ec'.pid ≡ ec.pid)
    × (ec'.program_counter ≡ ec.program_counter)
    × (ec'.instructions ≡ ec.instructions)
    × (ec'.segments_table ≡ ec.segments_table)

-- A result, if there is one, keeps those fields.
abbrev pub Keeps : {W : Type 0} → ExecutionContext → Option (ExecutionContext × W) → Type 0
Keeps ec none = Unit {0}
Keeps ec (some r) = Kept ec r.0

execute_set-Keeps :
    {W : Type 0} (i : Instruction) (ec : ExecutionContext) (w : W)
    → Keeps ec (execute_set i ec >>= λ ec'. some (ec', w))
unfolding execute_set
execute_set-Keeps i ec w = elim (Option-cases (get_elem? i.args 1)) [
  | inl e ↦ rw (e, execute_set) (refl, refl, refl, refl)
  | inr (v, e) ↦ elim (Option-cases (get_elem? i.args 0)) [
    | inl e' ↦ rw (e, e', execute_set) tt
    | inr (n, e') ↦ rw (e, e', execute_set) (refl, refl, refl, refl)
  ]
]

module _ (string_itoa : ℤ → List ℕ) {W : Type 0} (ask : W → Instruction → Option Package × W) where
  execute_file-Keeps :
      (i : Instruction) (ec : ExecutionContext) (pa : Option PhysicalAddress) (w : W)
      → Keeps ec (some (execute_file string_itoa i ec pa, w))
  unfolding execute_file request
  execute_file-Keeps i ec none w = (refl, refl, refl, refl)
  execute_file-Keeps i ec (some pa) w = (refl, refl, refl, refl)

  read_answer-Keeps :
      (name : List ℕ) (ec : ExecutionContext) (answer : Option Package) (w : W)
      → Keeps ec (read_answer name ec answer >>= λ ec'. some (ec', w))
  unfolding read_answer
  read_answer-Keeps name ec none w = (refl, refl, refl, refl)
  read_answer-Keeps name ec (some p) w = elim (Bool-cases (p.type == message_ok)) [
    | inr e ↦ rw e (refl, refl, refl, refl)
    | inl e ↦ elim (Option-cases (deserialize_message p)) [
      | inl e' ↦ rw (e, e') tt
      | inr (v, e') ↦ rw (e, e') (refl, refl, refl, refl)
    ]
  ]

  write_answer-Keeps :
      (ec : ExecutionContext) (answer : Option Package) (w : W)
      → Keeps ec (some (write_answer string_itoa ec answer, w))
  unfolding write_answer request
  write_answer-Keeps ec none w = (refl, refl, refl, refl)
  write_answer-Keeps ec (some p) w = elim (Bool-cases (p.type == seg_fault)) [
    | inl e ↦ rw e (refl, refl, refl, refl)
    | inr e ↦ rw e (refl, refl, refl, refl)
  ]

  execute_mov_in-Keeps :
      (i : Instruction) (ec : ExecutionContext) (pa : Option PhysicalAddress) (w : W)
      → Keeps ec (execute_mov_in string_itoa ask i ec pa w)
  unfolding execute_mov_in request
  execute_mov_in-Keeps i ec none w = (refl, refl, refl, refl)
  execute_mov_in-Keeps i ec (some pa) w = elim (Option-cases (get_elem? i.args 0)) [
    | inl e ↦ rw e tt
    | inr (name, e) ↦ rw e (read_answer-Keeps name ec _ _)
  ]

  execute_mov_out-Keeps :
      (i : Instruction) (ec : ExecutionContext) (pa : Option PhysicalAddress) (w : W)
      → Keeps ec (execute_mov_out string_itoa ask i ec pa w)
  unfolding execute_mov_out request
  execute_mov_out-Keeps i ec none w = (refl, refl, refl, refl)
  execute_mov_out-Keeps i ec (some pa) w = elim (Option-cases (get_elem? i.args 1)) [
    | inl e ↦ rw e tt
    | inr (name, e) ↦ elim (Option-cases (register_pointer name)) [
      | inl e' ↦ rw (e, e') tt
      | inr (p, e') ↦ elim (Option-cases (register_text ec.cpu_register p)) [
        | inl e'' ↦ rw (e, e', e'') tt
        | inr (v, e'') ↦ rw (e, e', e'') (write_answer-Keeps ec _ w)
      ]
    ]
  ]

  execute-Keeps :
      (i : Instruction) (ec : ExecutionContext) (pa : Option PhysicalAddress) (w : W)
      → Keeps ec (execute string_itoa ask i ec pa w)
  unfolding execute request
  execute-Keeps i ec pa w = elim (Bool-cases (i.op_code == set)) [
    | inl e ↦ rw (e, execute) (execute_set-Keeps i ec w)
    | inr e1 ↦ elim (Bool-cases (i.op_code == mov_in)) [
      | inl e ↦ rw (e1, e, execute) (execute_mov_in-Keeps i ec pa w)
      | inr e2 ↦ elim (Bool-cases (i.op_code == mov_out)) [
        | inl e ↦ rw (e1, e2, e, execute) (execute_mov_out-Keeps i ec pa w)
        | inr e3 ↦ elim (Bool-cases (i.op_code == f_read || i.op_code == f_write)) [
          | inl e ↦ rw (e1, e2, e3, e, execute) (execute_file-Keeps i ec pa w)
          | inr e4 ↦ elim (Bool-cases (is_request i.op_code)) [
            | inl e ↦ rw (e1, e2, e3, e4, e, execute) (refl, refl, refl, refl)
            | inr e ↦ rw (e1, e2, e3, e4, e, execute) (refl, refl, refl, refl)
          ]
        ]
      ]
    ]
  ]

  -- Executing an instruction, whatever the memory answers, leaves the process id, the program counter,
  -- the instructions and the segment table of the context as they were.
  pub execute-Kept :
      (i : Instruction) (ec : ExecutionContext) (pa : Option PhysicalAddress) (w : W)
      (r : ExecutionContext × W)
      → execute string_itoa ask i ec pa w ≡ some r
      → Kept ec r.0
  execute-Kept i ec pa w r h = subst (Keeps ec) h (execute-Keeps i ec pa w)

abbrev Advances : {W : Type 0} → ExecutionContext → Option (ExecutionContext × W) → Type 0
Advances ec none = Unit {0}
Advances ec (some r) =
    (r.0.instructions ≡ ec.instructions) × (r.0.program_counter ≡ (ec.program_counter + 1) % 2 ^ 32)

closer :
    (fuel pc len pc' len' : ℕ)
    → len < 2 ^ 31
    → len - pc < suc fuel
    → pc < len
    → pc' ≡ (pc + 1) % 2 ^ 32
    → len' ≡ len
    → len' - pc' < fuel
closer fuel pc len pc' len' small h below e e' = omega arith

-- A burst that ended: with a request, and with the program it began with.
abbrev pub Ended : {W : Type 0} → List Instruction → Burst W → Type 0
Ended is (done ec' w) = (ec'.kernel_request ≢ none) × (ec'.instructions ≡ is)
Ended is fault = Unit {0}
Ended is out_of_rounds = ⊥

module _ (max_segment_size : ℕ) (string_itoa : ℤ → List ℕ) {W : Type 0}
    (ask : W → Instruction → Option Package × W) where
  round-Advances :
      (i : Instruction) (ec : ExecutionContext) (w : W)
      → Advances ec (round max_segment_size string_itoa ask i ec w)
  unfolding round next
  round-Advances i ec w = elim (Option-cases (decode max_segment_size i ec)) [
    | inl e ↦ rw (e, round) tt
    | inr (pa, e) ↦ elim (Option-cases (execute string_itoa ask i ec pa w)) [
      | inl e' ↦ rw (e, e', round) tt
      | inr (s, e') ↦
          (let kept = execute-Kept string_itoa ask i ec pa w s e' in
            rw (e, e', round) (kept.2, ap (λ n. (n + 1) % 2 ^ 32) kept.1))
    ]
  ]

  fetch-lt :
      (ec : ExecutionContext) (i : Instruction)
      → fetch ec ≡ some i
      → ec.program_counter < length ec.instructions
  unfolding fetch
  fetch-lt ec i h = ground arith

  -- Let a program have fewer than 2 ^ 31 instructions. With more rounds than instructions from the
  -- program counter on, the loop of the CPU ends: with a request to the kernel and the program
  -- unchanged, or with a read through NULL.
  pub run_burst-Ended :
      (fuel : ℕ) (ec : ExecutionContext) (w : W)
      → length ec.instructions < 2 ^ 31
      → length ec.instructions - ec.program_counter < fuel
      → Ended ec.instructions (run_burst max_segment_size string_itoa ask fuel ec w)
  unfolding run_burst fetch
  run_burst-Ended zero ec w small h = absurd (omega arith)
  run_burst-Ended (suc fuel) ec w small h = elim (Option-cases ec.kernel_request) [
    | inr (r, e) ↦ rw (e, run_burst) (λ z. ground (arith, e, z), refl)
    | inl e ↦ elim (Option-cases (fetch ec)) [
      | inl e' ↦ rw (e, e', run_burst) (λ z. ground (arith, z), refl)
      | inr (i, e') ↦ elim (Option-cases (round max_segment_size string_itoa ask i ec w)) [
        | inl e'' ↦ rw (e, e', e'', run_burst) tt
        | inr (s, e'') ↦
            (let forward = subst (Advances ec) e'' (round-Advances i ec w) in
              rw (e, e', e'', run_burst)
                (subst (λ is. Ended is (run_burst max_segment_size string_itoa ask fuel s.0 s.1))
                  forward.0
                  (run_burst-Ended fuel s.0 s.1
                    (subst (λ (is : List Instruction). length is < 2 ^ 31) (sym forward.0) small)
                    (closer fuel ec.program_counter (length ec.instructions) s.0.program_counter
                      (length s.0.instructions) small h (fetch-lt ec i e') forward.1
                      (ap (λ (is : List Instruction). length is) forward.0)))))
      ]
    ]
  ]

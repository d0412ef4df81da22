-- ===== src/Memory/ReadWrite.antt =====
-- What a read returns and what a write changes.
use tp_so_tuki.Common.{
  ℕ, zero, suc, ◌+◌, ◌-◌, ◌*◌, ◌≤◌, ◌<◌, ◌≡◌, sym, ap, ◌∙◌, inl, inr, true, false, List, [], ◌∷◌,
  ◌++◌, append_assoc, append-nil, none, some, length, length-append, append_cancel, ltb, ◌==◌,
  if◌then◌else◌, Bool-cases, arith,
}
use tp_so_tuki.Memory.State.{Segment, Memory}
use tp_so_tuki.Memory.Heap.{load, store, load-add, load-store, length-load, store_last}
use tp_so_tuki.Memory.Access.{
  min, get_segment_by_id, out_of_segment, read_rounds, read_memory, write_memory,
}

out_of_segment_lem :
    (s : Segment) (offset size : ℕ)
    → offset + size ≤ s.offset
    → out_of_segment s offset size ≡ false
unfolding out_of_segment
out_of_segment_lem s offset size h = ground arith

out_of_segment_past :
    (s : Segment) (offset size : ℕ) → s.offset < offset + size → out_of_segment s offset size ≡ true
unfolding out_of_segment
out_of_segment_past s offset size h = ground arith

-- The bytes of one round, and those of the rounds behind it.
load_round :
    (heap : ℕ → ℕ) (a rest : ℕ)
    → load heap a (min 16 rest) ++ load heap (a + 16) (rest - min 16 rest) ≡ load heap a rest
unfolding min load
load_round heap a rest = elim (Bool-cases (ltb 16 rest)) [
  | inl e ↦
      rw e (load-add heap a 16 (rest - 16) ∙ ap (load heap a) {x = 16 + (rest - 16)} (ground arith))
  | inr e ↦ rw e (
      ap (λ n. load heap a rest ++ load heap (a + 16) n) {x = rest - rest} {y = 0} (omega arith)
      ∙ done)
]
  where
    done : load heap a rest ++ load heap (a + 16) 0 ≡ load heap a rest
    done = append-nil (load heap a rest)

shrinks : (n : ℕ) → 0 < n → n - min 16 n < n
unfolding min
shrinks n h = ground arith

module _ (m : Memory) (s_id offset size pid p : ℕ)
    (found : get_segment_by_id m s_id pid ≡ some (some p)) where
  abbrev start : ℕ
  start = (m.cells p).base + offset

  -- While bytes are missing, a round whose segment holds them all reads up to sixteen.
  read_rounds-load :
      (fuel rest count : ℕ) (buffer : List ℕ)
      → offset + size ≤ (m.cells p).offset
      → rest < fuel
      → read_rounds fuel m s_id offset size pid rest count buffer
        ≡ some (some (buffer ++ load m.heap (start + count * 16) rest))
  unfolding read_rounds load
  read_rounds-load zero rest count buffer fits h = absurd (omega arith)
  read_rounds-load (suc fuel) rest count buffer fits h = elim (Bool-cases (ltb 0 rest)) [
    | inr e ↦
        let z : rest ≡ 0 = ground arith in
        rw (z, read_rounds) (ap (λ t. some (some t)) (sym (append-nil buffer)))
    | inl e ↦
        rw (e, read_rounds, found, out_of_segment_lem (m.cells p) offset size fits)
          (read_rounds-load fuel (rest - min 16 rest) (count + 1)
              (buffer ++ load m.heap (start + count * 16) (min 16 rest)) fits
              (omega (arith, shrinks rest (ground arith)))
            ∙ ap (λ t. some (some t))
                (append_assoc buffer (load m.heap (start + count * 16) (min 16 rest)) _
                  ∙ ap (λ t. buffer ++ t)
                      (ap
                          (λ a.
                            load m.heap (start + count * 16) (min 16 rest)
                            ++ load m.heap a (rest - min 16 rest))
                          {x = start + (count + 1) * 16} (omega arith)
                        ∙ load_round m.heap (start + count * 16) rest)))
  ]

  -- Let the process have the segment, and let the size be above zero. A read that goes past the end
  -- of the segment is refused, and any other returns the bytes asked for, from the first.
  pub read_memory_lem :
      0 < size
      → read_memory m s_id offset size pid
        ≡ some
            (if ltb (m.cells p).offset (offset + size) then none else some (load m.heap start size))
  unfolding read_memory read_rounds
  read_memory_lem h = elim (Bool-cases (ltb (m.cells p).offset (offset + size))) [
    | inl e ↦ rw (e, nonzero) (refused (ground arith))
    | inr e ↦
        rw (e, nonzero)
          (read_rounds-load (suc size) size 0 [] (ground arith) (omega arith)
            ∙ ap (λ a. some (some (load m.heap a size))) {x = start + 0 * 16} (omega arith))
  ]
    where
      nonzero : (size == 0) ≡ false
      nonzero = ground arith

      positive : ltb 0 size ≡ true
      positive = ground arith

      refused :
          (m.cells p).offset < offset + size
          → read_rounds (suc size) m s_id offset size pid size 0 [] ≡ some none
      refused past =
          rw (positive, read_rounds, found, out_of_segment_past (m.cells p) offset size past)

  -- Let the process have the segment. A write whose size goes past its end is refused and changes
  -- nothing. Any other stores the text and a NUL behind it.
  pub write_memory_lem :
      (buffer : List ℕ)
      → write_memory m s_id offset size buffer pid
        ≡ some (
            if ltb (m.cells p).offset (offset + size)
            then (false, m)
            else (true, record m { heap = store m.heap start (buffer ++ (0 ∷ [])) }))
  unfolding write_memory
  write_memory_lem buffer = elim (Bool-cases (ltb (m.cells p).offset (offset + size))) [
    | inl e ↦ rw (e, found, out_of_segment_past (m.cells p) offset size (ground arith))
    | inr e ↦ rw (e, found, out_of_segment_lem (m.cells p) offset size (ground arith))
  ]

abbrev written : Memory → ℕ → List ℕ → Memory
written m address buffer = record m { heap = store m.heap address (buffer ++ (0 ∷ [])) }

load-written :
    (m : Memory) (address : ℕ) (buffer : List ℕ)
    → load (written m address buffer).heap address (length buffer) ≡ buffer
load-written m address buffer = prefix_of (load-store m.heap address (buffer ++ (0 ∷ [])))
  where
    prefix_of :
        load (written m address buffer).heap address (length (buffer ++ (0 ∷ [])))
          ≡ buffer ++ (0 ∷ [])
        → load (written m address buffer).heap address (length buffer) ≡ buffer
    prefix_of e = append_cancel _ buffer _ (0 ∷ []) (length-load _ address (length buffer)) (
        load-add _ address (length buffer) 1
        ∙ ap (load _ address) {x = length buffer + 1} (omega (arith, length-append buffer (0 ∷ [])))
        ∙ e)

-- Text of at least one byte that a process writes within a segment it has, it reads back from the
-- same place: the write succeeds, and a read of as many bytes returns the text.
pub read_memory-write_memory :
    (m : Memory) (s_id offset pid p : ℕ) (buffer : List ℕ)
    → get_segment_by_id m s_id pid ≡ some (some p)
    → 0 < length buffer
    → offset + length buffer ≤ (m.cells p).offset
    → (m' : Memory) × (write_memory m s_id offset (length buffer) buffer pid ≡ some (true, m'))
      × (read_memory m' s_id offset (length buffer) pid ≡ some (some buffer))
unfolding get_segment_by_id
read_memory-write_memory m s_id offset pid p buffer found some_text fits = (
  m',
  write_memory_lem m s_id offset (length buffer) pid p found buffer ∙ rw inside,
  read_memory_lem m' s_id offset (length buffer) pid p found some_text
      ∙ rw inside (ap (λ t. some (some t)) (load-written m ((m.cells p).base + offset) buffer)),
)
  where
    m' : Memory
    m' = written m ((m.cells p).base + offset) buffer

    inside : ltb (m.cells p).offset (offset + length buffer) ≡ false
    inside = ground arith

-- Text that reaches exactly to the end of a segment is accepted, and its NUL then overwrites the byte
-- behind the segment.
pub write_memory_past_end :
    (m : Memory) (s_id offset pid p : ℕ) (buffer : List ℕ)
    → get_segment_by_id m s_id pid ≡ some (some p)
    → offset + length buffer ≡ (m.cells p).offset
    → (m' : Memory) × (write_memory m s_id offset (length buffer) buffer pid ≡ some (true, m'))
      × (m'.heap ((m.cells p).base + (m.cells p).offset) ≡ 0)
write_memory_past_end m s_id offset pid p buffer found full = (
  written m address buffer,
  write_memory_lem m s_id offset (length buffer) pid p found buffer ∙ rw inside,
  ap (store m.heap address (buffer ++ (0 ∷ []))) {x = (m.cells p).base + (m.cells p).offset}
        (omega arith)
      ∙ store_last m.heap address buffer 0,
)
  where
    address : ℕ
    address = (m.cells p).base + offset

    inside : ltb (m.cells p).offset (offset + length buffer) ≡ false
    inside = ground arith

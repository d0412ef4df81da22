-- ===== src/Memory/Taken.antt =====
-- A segment that `delete_segment` of memoria/src/handler_instruction_memoria.c takes out of a table.
use tp_so_tuki.Common.{
  ℕ, zero, suc, ◌+◌, ◌<◌, ◌≡◌, ◌≢◌, refl, ap, subst, inl, inr, List, [], ◌∷◌, some, length,
  get_elem?, In, ◌==◌, Bool-cases, Option-cases, arith,
}
use tp_so_tuki.Memory.State.{Segment, table_get, table_put}
use tp_so_tuki.Memory.Delete.{take_segment}
use tp_so_tuki.Memory.Blocks.{Distinct, total}

-- A table of which the segment `p` was taken.
pub record Taken (cells : ℕ → Segment) (ps : List ℕ) (p : ℕ) (rest : List ℕ) : Type 0 where
  pub sum : (cells p).offset + total cells rest ≡ total cells ps
  pub one_less : suc (length rest) ≡ length ps
  pub gone : ¬ In p rest
  pub once : Distinct rest
  pub member : In p ps
  pub within : (q : ℕ) → In q rest → In q ps
  pub others : (q : ℕ) → In q ps → q ≢ p → In q rest

Taken-head :
    {cells : ℕ → Segment} (q : ℕ) (ps : List ℕ) → Distinct (q ∷ ps) → Taken cells (q ∷ ps) q ps
Taken-head q ps d = record {
  sum = refl;
  one_less = refl;
  gone = d.0;
  once = d.1;
  member = inl refl;
  within = λ x i. inr i;
  others = λ x i n. elim i [ inl k ↦ absurd (n k) | inr j ↦ j ];
}

Taken-tail :
    {cells : ℕ → Segment} (q : ℕ) (ps : List ℕ) (p : ℕ) (rest : List ℕ)
    → Distinct (q ∷ ps)
    → Taken cells ps p rest
    → Taken cells (q ∷ ps) p (q ∷ rest)
Taken-tail q ps p rest d t = record {
  sum = omega (arith, t.sum);
  one_less = ap suc t.one_less;
  gone = λ i. elim i [ inl k ↦ d.0 (subst (λ x. In x ps) k t.member) | inr j ↦ t.gone j ];
  once = ((λ i. d.0 (t.within q i)), t.once);
  member = inr t.member;
  within = λ x i. elim i [ inl k ↦ inl k | inr j ↦ inr (t.within x j) ];
  others = λ x i n. elim i [ inl k ↦ inl k | inr j ↦ inr (t.others x j n) ];
}

pub take_segment-Taken :
    (cells : ℕ → Segment) (s_id : ℕ) (ps : List ℕ) (p : ℕ) (rest : List ℕ)
    → Distinct ps
    → take_segment cells s_id ps ≡ some (p, rest)
    → Taken cells ps p rest
unfolding take_segment
take_segment-Taken cells s_id [] p rest d e = cc
take_segment-Taken cells s_id (q ∷ ps) p rest d e = elim (Bool-cases ((cells q).s_id == s_id)) [
  | inl t ↦
      (let first : q ≡ p = ground arith in
        let left : ps ≡ rest = ground arith in
        subst (λ x. Taken cells (q ∷ ps) x rest) first
          (subst (Taken cells (q ∷ ps) q) left (Taken-head q ps d)))
  | inr t ↦ elim (Option-cases (take_segment cells s_id ps)) [
    | inl n ↦ ground arith
    | inr (r, f) ↦
        (let later : r.0 ≡ p = ground arith in
          let left : q ∷ r.1 ≡ rest = ground arith in
          subst (λ x. Taken cells (q ∷ ps) x rest) later
            (subst (Taken cells (q ∷ ps) r.0) left
              (Taken-tail q ps r.0 r.1 d (take_segment-Taken cells s_id ps r.0 r.1 d.1 f))))
  ]
]

pub take_segment_found :
    (cells : ℕ → Segment) (q : ℕ) (ps : List ℕ)
    → In q ps
    → (r : ℕ × List ℕ) × (take_segment cells (cells q).s_id ps ≡ some r)
unfolding take_segment
take_segment_found cells q [] i = elim i [ ]
take_segment_found cells q (x ∷ ps) i = elim (Bool-cases ((cells x).s_id == (cells q).s_id)) [
  | inl t ↦ ((x, ps), rw t refl)
  | inr t ↦ elim i [
    | inl k ↦ absurd (ground arith)
    | inr j ↦ (let (r, e) = take_segment_found cells q ps j in ((r.0, x ∷ r.1), rw (t, e) refl))
  ]
]

pub get_elem-In :
    (ps : List ℕ) (n : ℕ) → n < length ps → (q : ℕ) × (get_elem? ps n ≡ some q) × In q ps
get_elem-In [] n h = absurd (omega arith)
get_elem-In (x ∷ ps) zero h = (x, refl, inl refl)
get_elem-In (x ∷ ps) (suc n) h = let (q, e, i) = get_elem-In ps n (omega arith) in (q, e, inr i)

pub table_get-put :
    (pid : ℕ) (t : List ℕ) (ts : List (ℕ × List ℕ)) → table_get pid (table_put pid t ts) ≡ some t
unfolding table_get table_put
table_get-put pid t [] = ground arith
table_get-put pid t ((k, u) ∷ ts) = ground (arith, table_get-put pid t ts)

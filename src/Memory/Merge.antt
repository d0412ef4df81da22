-- ===== src/Memory/Merge.antt =====
-- `compact_hole_list` keeps the free bytes: their number, their places, and that no byte is in two
-- holes.
use tp_so_tuki.Common.{
  ℕ, ◌+◌, ◌≡◌, ◌≢◌, refl, sym, ap, subst, ◌∙◌, inl, inr, true, List, [], ◌∷◌, In, All, Bool-cases,
  arith,
}
use tp_so_tuki.Memory.State.{Segment}
use tp_so_tuki.Memory.Delete.{adjacent, join, merge_holes}
use tp_so_tuki.Memory.Blocks.{Distinct, total, update_self, update_ne}
use tp_so_tuki.Memory.Invariant.{Covers, Disjoint}
use tp_so_tuki.Memory.Apart.{Joins, Disjoint-joins, Disjoint-sym, Apart}

-- The byte at `x` is in one of the blocks of the list.
abbrev pub Held : (ℕ → Segment) → List ℕ → ℕ → Type 0
Held cells ps x = (h : ℕ) × In h ps × Covers (cells h) x

-- The holes after a merge, against those before it.
pub record Merged (cells : ℕ → Segment) (hs : List ℕ) (cells' : ℕ → Segment) (hs' : List ℕ)
    : Type 1 where
  pub kept : (q : ℕ) → In q hs' → In q hs
  pub others : (q : ℕ) → ¬ In q hs → cells' q ≡ cells q
  pub same_total : total cells' hs' ≡ total cells hs
  pub distinct : Distinct hs'
  pub bytes : (x : ℕ) → Held cells hs x → Held cells' hs' x
  pub apart : Apart cells hs → Apart cells' hs'
  pub every :
      (P : Segment → Type 0) → Joins P → All (λ h. P (cells h)) hs → All (λ h. P (cells' h)) hs'

All-cells :
    (P : Segment → Type 0) (c c' : ℕ → Segment) (hs : List ℕ)
    → ((q : ℕ) → In q hs → c' q ≡ c q)
    → All (λ h. P (c h)) hs
    → All (λ h. P (c' h)) hs
All-cells P c c' [] e a = tt
All-cells P c c' (h ∷ hs) e a =
    (subst P (sym (e h (inl refl))) a.0, All-cells P c c' hs (λ q i. e q (inr i)) a.1)

join_self :
    (c : ℕ → Segment) (x y : ℕ)
    → join c x y x
      ≡ record { base = (c x).base; offset = (c x).offset + (c y).offset; s_id = (c x).s_id }
unfolding join
join_self c x y = update_self c x _

join_ne : (c : ℕ → Segment) (x y q : ℕ) → q ≢ x → join c x y q ≡ c q
unfolding join
join_ne c x y q n = update_ne c x _ q n

Merged-refl : (c : ℕ → Segment) (hs : List ℕ) → Distinct hs → Merged c hs c hs
Merged-refl c hs d = record {
  kept = λ q i. i;
  others = λ q n. refl;
  same_total = refl;
  distinct = d;
  bytes = λ x h. h;
  apart = λ a. a;
  every = λ P j a. a;
}

Merged-trans :
    {c c' c'' : ℕ → Segment} {hs hs' hs'' : List ℕ}
    → Merged c hs c' hs'
    → Merged c' hs' c'' hs''
    → Merged c hs c'' hs''
Merged-trans v w = record {
  kept = λ q i. v.kept q (w.kept q i);
  others = λ q n. w.others q (λ i. n (v.kept q i)) ∙ v.others q n;
  same_total = w.same_total ∙ v.same_total;
  distinct = w.distinct;
  bytes = λ x h. w.bytes x (v.bytes x h);
  apart = λ a. w.apart (v.apart a);
  every = λ P j a. w.every P j (v.every P j a);
}

Merged-cons :
    {c c' : ℕ → Segment} {hs hs' : List ℕ} (x : ℕ)
    → ¬ In x hs
    → Merged c hs c' hs'
    → Merged c (x ∷ hs) c' (x ∷ hs')
Merged-cons {c} {c'} {hs} {hs'} x n v = record {
  kept = λ q i. elim i [ inl e ↦ inl e | inr j ↦ inr (v.kept q j) ];
  others = λ q k. v.others q (λ i. k (inr i));
  same_total = omega (arith, ap (λ (s : Segment). s.offset) (v.others x n), v.same_total);
  distinct = ((λ i. n (v.kept x i)), v.distinct);
  bytes = λ b (q, i, o). elim i [
    | inl e ↦ (
      x,
      inl refl,
      subst (λ s. Covers s b) (sym (v.others x n)) (subst (λ r. Covers (c r) b) e o),
    )
    | inr j ↦ (let (r, k, o') = v.bytes b (q, j, o) in (r, inr k, o'))
  ];
  apart = λ a. (
    subst (λ s. All (λ q. Disjoint s (c' q)) hs') (sym (v.others x n))
        (v.every (Disjoint (c x)) (Disjoint-joins (c x)) a.0),
    v.apart a.1,
  );
  every = λ P j a. (subst P (sym (v.others x n)) a.0, v.every P j a.1);
}

-- One merge: the hole `y` is taken into the hole `x` just before it.
Merged-join :
    (c : ℕ → Segment) (x y : ℕ) (rest : List ℕ)
    → Distinct (x ∷ y ∷ rest)
    → (c x).base + (c x).offset ≡ (c y).base
    → Merged c (x ∷ y ∷ rest) (join c x y) (x ∷ rest)
Merged-join c x y rest d e = record {
  kept = λ q i. elim i [ inl e ↦ inl e | inr j ↦ inr (inr j) ];
  others = λ q n. join_ne c x y q (λ e. n (inl e));
  same_total = omega (arith, ap (λ (s : Segment). s.offset) (join_self c x y), rest_total);
  distinct = ((λ i. d.0 (inr i)), d.1.1);
  bytes = λ b (q, i, o). elim i [
    | inl k ↦ (
      x,
      inl refl,
      subst (λ s. Covers s b) (sym (join_self c x y)) (first b (subst (λ r. Covers (c r) b) k o)),
    )
    | inr (inl k) ↦ (
      x,
      inl refl,
      subst (λ s. Covers s b) (sym (join_self c x y)) (second b (subst (λ r. Covers (c r) b) k o)),
    )
    | inr (inr j) ↦ (q, inr j, subst (λ s. Covers s b) (sym (join_ne c x y q (other q j))) o)
  ];
  apart = λ a. (
    subst (λ s. All (λ q. Disjoint s (join c x y q)) rest) (sym (join_self c x y))
        (All-cells (Disjoint joined) c (join c x y) rest (λ q i. join_ne c x y q (other q i))
          (both rest a.0.1 a.1.0)),
    Apart-cells rest other a.1.1,
  );
  every = λ P j a. (
    subst P (sym (join_self c x y)) (j (c x) (c y) _ refl refl e a.0 a.1.0),
    All-cells P c (join c x y) rest (λ q i. join_ne c x y q (other q i)) a.1.1,
  );
}
  where
    other : (q : ℕ) → In q rest → q ≢ x
    other q i e = d.0 (inr (subst (λ r. In r rest) e i))

    joined : Segment
    joined = record { base = (c x).base; offset = (c x).offset + (c y).offset; s_id = (c x).s_id }

    first : (b : ℕ) → Covers (c x) b → Covers joined b
    first b (l, h) = (l, omega arith)

    second : (b : ℕ) → Covers (c y) b → Covers joined b
    second b (l, h) = (omega arith, omega arith)

    both :
        (ps : List ℕ)
        → All (λ q. Disjoint (c x) (c q)) ps
        → All (λ q. Disjoint (c y) (c q)) ps
        → All (λ q. Disjoint joined (c q)) ps
    both [] a b = tt
    both (p ∷ ps) a b = (
      Disjoint-sym (c p) joined (
          Disjoint-joins (c p) (c x) (c y) joined refl refl e (Disjoint-sym (c x) (c p) a.0)
            (Disjoint-sym (c y) (c p) b.0)),
      both ps a.1 b.1,
    )

    Apart-cells : (ps : List ℕ) → ((q : ℕ) → In q ps → q ≢ x) → Apart c ps → Apart (join c x y) ps
    Apart-cells [] n a = tt
    Apart-cells (p ∷ ps) n a = (
      subst (λ s. All (λ q. Disjoint s (join c x y q)) ps) (sym (join_ne c x y p (n p (inl refl))))
          (All-cells (Disjoint (c p)) c (join c x y) ps (λ q i. join_ne c x y q (n q (inr i))) a.0),
      Apart-cells ps (λ q i. n q (inr i)) a.1,
    )

    rest_total : total (join c x y) rest ≡ total c rest
    rest_total = total_of rest other
      where
        total_of : (ps : List ℕ) → ((q : ℕ) → In q ps → q ≢ x) → total (join c x y) ps ≡ total c ps
        total_of [] n = refl
        total_of (p ∷ ps) n = omega (
          arith,
          ap (λ (s : Segment). s.offset) (join_ne c x y p (n p (inl refl))),
          total_of ps (λ q i. n q (inr i)),
        )

adjacent-eq : (a b : Segment) → adjacent a b ≡ true → a.base + a.offset ≡ b.base
unfolding adjacent
adjacent-eq a b e = ground arith

pub merge_holes-Merged :
    (c : ℕ → Segment) (hs : List ℕ)
    → Distinct hs
    → Merged c hs (merge_holes c hs).0 (merge_holes c hs).1
unfolding merge_holes
merge_holes-Merged c [] d = Merged-refl c [] d
merge_holes-Merged c (x ∷ []) d = Merged-refl c (x ∷ []) d
merge_holes-Merged c (x ∷ y ∷ []) d = elim (Bool-cases (adjacent (c x) (c y))) [
  | inl e ↦ rw (e, merge_holes) (Merged-join c x y [] d (adjacent-eq (c x) (c y) e))
  | inr e ↦ rw (e, merge_holes) (Merged-refl c (x ∷ y ∷ []) d)
]
merge_holes-Merged c (x ∷ y ∷ z ∷ rest) d = elim (Bool-cases (adjacent (c x) (c y))) [
  | inl e ↦
      rw (e, merge_holes)
        (Merged-trans (Merged-join c x y (z ∷ rest) d (adjacent-eq (c x) (c y) e)) (
          Merged-cons x (λ i. d.0 (inr i))
            (Merged-cons z d.1.1.0 (merge_holes-Merged (join c x y) rest d.1.1.1))))
  | inr e ↦ rw (e, merge_holes) (Merged-cons x d.0 (merge_holes-Merged c (y ∷ z ∷ rest) d.1))
]

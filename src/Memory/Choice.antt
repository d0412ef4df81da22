-- ===== src/Memory/Choice.antt =====
-- Which hole each algorithm of memoria/src/algorithms.c takes.
use tp_so_tuki.Common.{
  ℕ, ◌≤◌, ◌<◌, ◌≡◌, ◌⊎◌, inl, inr, true, ◌&&◌, List, [], ◌∷◌, ◌++◌, ap, Option, none, some, In, All,
  ltb, leb, if◌then◌else◌, Bool-cases, arith,
}
use tp_so_tuki.Memory.State.{Segment}
use tp_so_tuki.Memory.Fit.{find_first, find_best, find_worst, smaller, larger}

module _ (cells : ℕ → Segment) (size : ℕ) where
  abbrev pub Fits : Option ℕ → Type 0
  Fits none = Unit {0}
  Fits (some b) = size ≤ (cells b).offset

  abbrev pub NoLarger : ℕ → Option ℕ → Type 0
  NoLarger b none = Unit {0}
  NoLarger b (some c) = (cells b).offset ≤ (cells c).offset

  abbrev pub NoSmaller : ℕ → Option ℕ → Type 0
  NoSmaller b none = Unit {0}
  NoSmaller b (some c) = (cells c).offset ≤ (cells b).offset

  -- `b` fits, stands in the list or was given, and no hole that fits is smaller.
  pub record IsBest (hs : List ℕ) (given : Option ℕ) (b : ℕ) : Type 0 where
    pub fits : size ≤ (cells b).offset
    pub source : In b hs ⊎ (given ≡ some b)
    pub least : All (λ h. size ≤ (cells h).offset → (cells b).offset ≤ (cells h).offset) hs
    pub bound : NoLarger b given

  IsBest-take :
      {hs : List ℕ} {b : ℕ} (h : ℕ) (given : Option ℕ)
      → NoLarger h given
      → IsBest hs (some h) b
      → IsBest (h ∷ hs) given b
  IsBest-take h none n v = record {
    fits = v.fits;
    source = inl (ground (arith, v.source));
    least = (λ _. v.bound, v.least);
    bound = tt;
  }
  IsBest-take h (some c) n v = record {
    fits = v.fits;
    source = inl (ground (arith, v.source));
    least = (λ _. v.bound, v.least);
    bound = omega (arith, v.bound);
  }

  IsBest-skip :
      {hs : List ℕ} {b : ℕ} (h : ℕ) (given : Option ℕ)
      → (size ≤ (cells h).offset → NoLarger b given → (cells b).offset ≤ (cells h).offset)
      → IsBest hs given b
      → IsBest (h ∷ hs) given b
  IsBest-skip h given n v = record {
    fits = v.fits;
    source = ground (arith, v.source);
    least = (λ k. n k v.bound, v.least);
    bound = v.bound;
  }

  pub find_best-IsBest :
      (hs : List ℕ) (given : Option ℕ) (b : ℕ)
      → Fits given
      → find_best cells size hs given ≡ some b
      → IsBest hs given b
  unfolding find_best smaller
  find_best-IsBest [] none b f e = cc
  find_best-IsBest [] (some c) b f e = ground arith
  find_best-IsBest (h ∷ hs) none b f e = elim (Bool-cases (leb size (cells h).offset)) [
    | inl t ↦ IsBest-take h none tt (find_best-IsBest hs (some h) b (ground arith) (ground arith))
    | inr t ↦
        IsBest-skip h none (λ k _. absurd (ground arith))
          (find_best-IsBest hs none b tt (ground arith))
  ]
  find_best-IsBest (h ∷ hs) (some c) b f e =
      elim (Bool-cases (leb size (cells h).offset && ltb (cells h).offset (cells c).offset)) [
        | inl t ↦
            IsBest-take h (some c) (ground arith)
              (find_best-IsBest hs (some h) b (ground arith) (ground arith))
        | inr t ↦
            IsBest-skip h (some c) (λ k n. ground arith)
              (find_best-IsBest hs (some c) b f (ground arith))
      ]

  -- Nothing was given and nothing fits.
  pub find_best-none :
      (hs : List ℕ) (given : Option ℕ)
      → find_best cells size hs given ≡ none
      → (given ≡ none) × All (λ h. (cells h).offset < size) hs
  unfolding find_best smaller
  find_best-none [] given e = (e, tt)
  find_best-none (h ∷ hs) none e =
      ground (arith, find_best-none hs (if leb size (cells h).offset && true then some h else none))
  find_best-none (h ∷ hs) (some c) e = ground (
    arith,
    find_best-none hs (
        if leb size (cells h).offset && ltb (cells h).offset (cells c).offset
        then some h
        else some c),
  )

  -- `b` fits, stands in the list or was given, and no hole that fits is larger.
  pub record IsWorst (hs : List ℕ) (given : Option ℕ) (b : ℕ) : Type 0 where
    pub fits : size ≤ (cells b).offset
    pub source : In b hs ⊎ (given ≡ some b)
    pub greatest : All (λ h. (cells h).offset ≤ (cells b).offset) hs
    pub bound : NoSmaller b given

  IsWorst-take :
      {hs : List ℕ} {b : ℕ} (h : ℕ) (given : Option ℕ)
      → NoSmaller h given
      → IsWorst hs (some h) b
      → IsWorst (h ∷ hs) given b
  IsWorst-take h none n v = record {
    fits = v.fits;
    source = inl (ground (arith, v.source));
    greatest = (v.bound, v.greatest);
    bound = tt;
  }
  IsWorst-take h (some c) n v = record {
    fits = v.fits;
    source = inl (ground (arith, v.source));
    greatest = (v.bound, v.greatest);
    bound = omega (arith, v.bound);
  }

  IsWorst-skip :
      {hs : List ℕ} {b : ℕ} (h : ℕ) (given : Option ℕ)
      → (size ≤ (cells b).offset → NoSmaller b given → (cells h).offset ≤ (cells b).offset)
      → IsWorst hs given b
      → IsWorst (h ∷ hs) given b
  IsWorst-skip h given n v = record {
    fits = v.fits;
    source = ground (arith, v.source);
    greatest = (n v.fits v.bound, v.greatest);
    bound = v.bound;
  }

  pub find_worst-IsWorst :
      (hs : List ℕ) (given : Option ℕ) (b : ℕ)
      → Fits given
      → find_worst cells size hs given ≡ some b
      → IsWorst hs given b
  unfolding find_worst larger
  find_worst-IsWorst [] none b f e = cc
  find_worst-IsWorst [] (some c) b f e = ground arith
  find_worst-IsWorst (h ∷ hs) none b f e = elim (Bool-cases (leb size (cells h).offset)) [
    | inl t ↦
        IsWorst-take h none tt (find_worst-IsWorst hs (some h) b (ground arith) (ground arith))
    | inr t ↦
        IsWorst-skip h none (λ k _. ground arith) (find_worst-IsWorst hs none b tt (ground arith))
  ]
  find_worst-IsWorst (h ∷ hs) (some c) b f e =
      elim (Bool-cases (leb size (cells h).offset && ltb (cells c).offset (cells h).offset)) [
        | inl t ↦
            IsWorst-take h (some c) (ground arith)
              (find_worst-IsWorst hs (some h) b (ground arith) (ground arith))
        | inr t ↦
            IsWorst-skip h (some c) (λ k n. ground arith)
              (find_worst-IsWorst hs (some c) b f (ground arith))
      ]

  -- Nothing was given and nothing fits.
  pub find_worst-none :
      (hs : List ℕ) (given : Option ℕ)
      → find_worst cells size hs given ≡ none
      → (given ≡ none) × All (λ h. (cells h).offset < size) hs
  unfolding find_worst larger
  find_worst-none [] given e = (e, tt)
  find_worst-none (h ∷ hs) none e =
      ground
        (arith, find_worst-none hs (if leb size (cells h).offset && true then some h else none))
  find_worst-none (h ∷ hs) (some c) e = ground (
    arith,
    find_worst-none hs (
        if leb size (cells h).offset && ltb (cells c).offset (cells h).offset
        then some h
        else some c),
  )

  -- `h` stands in the list and fits, and no hole before it does.
  pub find_first-some :
      (hs : List ℕ) (h : ℕ)
      → find_first cells size hs ≡ some h
      → (before : List ℕ) × (after : List ℕ) × (hs ≡ before ++ h ∷ after)
        × (size ≤ (cells h).offset)
        × All (λ g. (cells g).offset < size) before
  unfolding find_first
  find_first-some [] h e = cc
  find_first-some (g ∷ hs) h e = elim (Bool-cases (leb size (cells g).offset)) [
    | inl t ↦ ([], hs, ground arith, ground arith, tt)
    | inr t ↦
        (let (before, after, split, fits, small) = find_first-some hs h (ground arith) in
          (g ∷ before, after, ap (λ r. g ∷ r) split, fits, (ground arith, small)))
  ]

  pub find_first-none :
      (hs : List ℕ) → find_first cells size hs ≡ none → All (λ h. (cells h).offset < size) hs
  unfolding find_first
  find_first-none [] e = tt
  find_first-none (h ∷ hs) e = ground (arith, find_first-none hs)

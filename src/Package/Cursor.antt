-- ===== src/Package/Cursor.antt =====
-- A read position in a buffer, by the bytes that are still ahead.
use tp_so_tuki.Common.{
  ℕ, ◌+◌, ◌≡◌, refl, sym, ap, ◌∙◌, List, ◌++◌, some, length, length-append, drop, take-append,
  drop-append, drop-add, arith,
}
use tp_so_tuki.Package.{read_bytes}

-- At `offset` of `source` the bytes `rest` are ahead, up to its end.
pub record At (source : List ℕ) (offset : ℕ) (rest : List ℕ) : Type 0 where
  pub ahead : drop offset source ≡ rest
  pub within : offset + length rest ≡ length source

pub At-start : (source : List ℕ) → At source 0 source
At-start source = record { ahead = refl; within = omega arith }

-- The next bytes are read,
pub read_bytes-At :
    (source : List ℕ) (offset n : ℕ) (xs ys : List ℕ)
    → At source offset (xs ++ ys)
    → n ≡ length xs
    → read_bytes source offset n ≡ some xs
unfolding read_bytes
read_bytes-At source offset n xs ys a e =
    ground (arith, a.ahead, take-append n xs ys e, a.within, length-append xs ys)

-- and the position moves behind them.
pub At-step :
    (source : List ℕ) (offset n : ℕ) (xs ys : List ℕ)
    → At source offset (xs ++ ys)
    → n ≡ length xs
    → At source (offset + n) ys
At-step source offset n xs ys a e = record {
  ahead =
      ap (λ k. drop k source) (omega arith)
      ∙ sym (drop-add offset n source)
      ∙ ap (drop n) a.ahead
      ∙ drop-append n xs ys e;
  within = omega (arith, a.within, length-append xs ys);
}

-- ===== src/Package/Nested.antt =====
-- A package that `package_close` put into a buffer of shared_package.c.
use tp_so_tuki.Common.{
  ◌≤◌, All, append_assoc, append-nil, [], ◌∷◌, ℕ, ◌+◌, ◌<◌, ◌^◌, ◌≡◌, refl, ap, subst, ◌∙◌, List,
  ◌++◌, some, length, length-append, arith,
}
use tp_so_tuki.Package.{Package, package_nest, package_close, package_decode}
use tp_so_tuki.Package.Cursor.{At, At-start, At-step}
use tp_so_tuki.Package.RoundTrip.{
  take_all, IsPackage, frame, length-frame, package_close-frame, package_decode-frame,
}

-- A package that is well formed and was closed into a buffer that fits a `uint64_t` is decoded there as
-- it was, and the offset then stands behind it.
pub package_decode-package_close :
    (before after : List ℕ) (p : Package)
    → IsPackage p
    → length before + (12 + p.size) + length after < 2 ^ 64
    → package_decode (before ++ ((package_close p).buffer ++ after)) (length before)
      ≡ some (p, length before + (12 + p.size))
package_decode-package_close before after p v h =
    ap (λ (q : Package). package_decode (before ++ (q.buffer ++ after)) (length before))
      (package_close-frame p v)
    ∙ package_decode-frame (before ++ (frame p ++ after)) (omega (arith, total)) (length before) p
        after v
        (subst (λ n. At (before ++ (frame p ++ after)) n (frame p ++ after)) (omega arith)
          (At-step (before ++ (frame p ++ after)) 0 (length before) before (frame p ++ after)
            (At-start _) refl))
  where
    total : length (before ++ (frame p ++ after)) ≡ length before + (12 + p.size + length after)
    total = omega (
      arith,
      length-append before (frame p ++ after),
      length-append (frame p) after,
      length-frame p,
      v.sized,
    )

-- What nested packages take in a buffer, one after the other.
abbrev pub frames : List Package → List ℕ
frames [] = []
frames (q ∷ qs) = frame q ++ frames qs

pub length-frames : (qs : List Package) → length qs ≤ length (frames qs)
length-frames [] = omega arith
length-frames (q ∷ qs) =
    omega (arith, length-append (frame q) (frames qs), length-frame q, length-frames qs)

-- A well-formed package is put behind the buffer, with its header.
pub package_nest-frame :
    (p q : Package)
    → IsPackage q
    → p.size + length (frame q) < 2 ^ 64
    → package_nest p q ≡ record p { size = p.size + length (frame q); buffer = p.buffer ++ frame q }
unfolding package_nest
package_nest-frame p q v h =
    rw (package_close-frame q v)
      (ground (arith, v.sized, length-frame q, take_all (frame q) (12 + q.size)))

-- The packages nested one after the other.
abbrev pub nest_all : Package → List Package → Package
nest_all p [] = p
nest_all p (q ∷ qs) = nest_all (package_nest p q) qs

pub nest_all-frames :
    (p : Package) (qs : List Package)
    → All IsPackage qs
    → p.size + length (frames qs) < 2 ^ 64
    → nest_all p qs
      ≡ record p { size = p.size + length (frames qs); buffer = p.buffer ++ frames qs }
nest_all-frames p [] v h = ground (arith, append-nil p.buffer)
nest_all-frames p (q ∷ qs) v h = ground (
  arith,
  length-append (frame q) (frames qs),
  package_nest-frame p q v.0,
  nest_all-frames (package_nest p q) qs v.1,
  append_assoc p.buffer (frame q) (frames qs),
)

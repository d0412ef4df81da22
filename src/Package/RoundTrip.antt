-- ===== src/Package/RoundTrip.antt =====
-- What shared_package.c writes it reads back: strings, buffers and nested packages.
use tp_so_tuki.Common.{
  ℕ, ◌+◌, ◌<◌, ◌≤◌, ◌^◌, ◌≡◌, ◌≢◌, refl, sym, ap, subst, ◌∙◌, List, [], ◌∷◌, ◌++◌, append_assoc,
  some, length, length-append, take, take-append, append-nil, arith,
}
use tp_so_tuki.Package.{
  Package, c_str, add64, package_close, read_bytes, package_decode, package_decode_buffer,
  package_decode_string,
}
use tp_so_tuki.Package.Bytes.{le_bytes, le_value, length-le_bytes, le_value-le_bytes}
use tp_so_tuki.Package.Cursor.{At, read_bytes-At, At-step}

-- The size is that of the buffer, and both header fields fit their widths.
pub record IsPackage (p : Package) : Type 0 where
  pub sized : p.size ≡ length p.buffer
  pub type_fits : p.type < 2 ^ 32
  pub size_fits : 12 + p.size < 2 ^ 64

-- The bytes that `package_add` puts behind the buffer.
abbrev pub chunk : List ℕ → List ℕ
chunk value = le_bytes 8 (length value) ++ value

-- No byte of a C string's content is NUL.
abbrev pub IsText : List ℕ → Type 0
IsText [] = Unit {0}
IsText (b ∷ bs) = (b ≢ 0) × IsText bs

pub c_str-text : (s rest : List ℕ) → IsText s → c_str (s ++ (0 ∷ rest)) ≡ s
c_str-text [] rest t = refl
c_str-text (b ∷ s) rest t = ground (arith, c_str-text s rest t.1)

abbrev pub frame : Package → List ℕ
frame p = le_bytes 8 p.size ++ (le_bytes 4 p.type ++ p.buffer)

pub length-chunk : (value : List ℕ) → length (chunk value) ≡ 8 + length value
length-chunk value =
    omega (arith, length-append (le_bytes 8 (length value)) value, length-le_bytes 8 (length value))

pub length-frame : (p : Package) → length (frame p) ≡ 12 + length p.buffer
length-frame p = omega (
  arith,
  length-append (le_bytes 8 p.size) (le_bytes 4 p.type ++ p.buffer),
  length-append (le_bytes 4 p.type) p.buffer,
  length-le_bytes 8 p.size,
  length-le_bytes 4 p.type,
)

pub take_all : (xs : List ℕ) (n : ℕ) → n ≡ length xs → take n xs ≡ xs
take_all xs n e = ap (take n) (sym (append-nil xs)) ∙ take-append n xs [] e

-- `package_close` keeps the package's content, behind its header.
pub package_close-frame :
    (p : Package)
    → IsPackage p
    → package_close p ≡ record { size = 12 + p.size; type = 0; buffer = frame p }
unfolding package_close
package_close-frame p v = ground (arith, take_all p.buffer p.size v.sized)

module _ (source : List ℕ) (fits : length source < 2 ^ 64) (offset : ℕ) where
  -- The two reads that a chunk takes, and the offsets between them.
  record ReadsChunk (value rest : List ℕ) : Type 0 where
    head : read_bytes source offset 8 ≡ some (le_bytes 8 (length value))
    count : le_value (le_bytes 8 (length value)) ≡ length value
    start : add64 offset 8 ≡ offset + 8
    body : read_bytes source (offset + 8) (length value) ≡ some value
    end : add64 (offset + 8) (length value) ≡ offset + (8 + length value)
    next : At source (offset + (8 + length value)) rest

  chunk_reads :
      (value rest : List ℕ) → At source offset (chunk value ++ rest) → ReadsChunk value rest
  chunk_reads value rest a = record {
    head = read_bytes-At source offset 8 header (value ++ rest) at_header eight;
    count = le_value-le_bytes 8 (length value) (omega (arith, room));
    start = omega (arith, room);
    body = read_bytes-At source (offset + 8) (length value) value rest at_value refl;
    end = omega (arith, room);
    next =
        subst (λ k. At source k rest) (omega arith)
          (At-step source (offset + 8) (length value) value rest at_value refl);
  }
    where
      header : List ℕ
      header = le_bytes 8 (length value)

      eight : 8 ≡ length header
      eight = sym (length-le_bytes 8 (length value))

      at_header : At source offset (header ++ (value ++ rest))
      at_header = subst (At source offset) (append_assoc header value rest) a

      at_value : At source (offset + 8) (value ++ rest)
      at_value = At-step source offset 8 header (value ++ rest) at_header eight

      room : offset + (8 + length value) ≤ length source
      room = omega (arith, a.within, length-append (chunk value) rest, length-chunk value)

  pub chunk_next :
      (value rest : List ℕ)
      → At source offset (chunk value ++ rest)
      → At source (offset + (8 + length value)) rest
  chunk_next value rest a = (chunk_reads value rest a).next

  -- A chunk is read back as it was written.
  pub package_decode_buffer-chunk :
      (value rest : List ℕ)
      → At source offset (chunk value ++ rest)
      → package_decode_buffer source offset ≡ some (value, offset + (8 + length value))
  unfolding package_decode_buffer
  package_decode_buffer-chunk value rest a =
      let r = chunk_reads value rest a in rw (r.head, r.count, r.start, r.body, r.end)

  -- A C string is read back as it was written, the NUL that both add aside.
  pub package_decode_string-chunk :
      (s rest : List ℕ)
      → IsText s
      → At source offset (chunk (s ++ (0 ∷ [])) ++ rest)
      → package_decode_string source offset ≡ some (s, offset + (8 + length (s ++ (0 ∷ []))))
  unfolding package_decode_string
  package_decode_string-chunk s rest t a =
      let r = chunk_reads (s ++ (0 ∷ [])) rest a in
      rw (
        r.head,
        r.count,
        r.start,
        r.body,
        r.end,
        append_assoc s (0 ∷ []) (0 ∷ []),
        c_str-text s (0 ∷ []) t,
      )

  -- The three reads that a nested package takes.
  record ReadsFrame (p : Package) (rest : List ℕ) : Type 0 where
    size_read : read_bytes source offset 8 ≡ some (le_bytes 8 p.size)
    size_value : le_value (le_bytes 8 p.size) ≡ p.size
    after_size : add64 offset 8 ≡ offset + 8
    type_read : read_bytes source (offset + 8) 4 ≡ some (le_bytes 4 p.type)
    type_value : le_value (le_bytes 4 p.type) ≡ p.type
    after_type : add64 (offset + 8) 4 ≡ offset + 12
    body : read_bytes source (offset + 12) p.size ≡ some p.buffer
    end : add64 (offset + 12) p.size ≡ offset + (12 + p.size)
    next : At source (offset + (12 + p.size)) rest

  frame_reads :
      (p : Package) (rest : List ℕ)
      → IsPackage p
      → At source offset (frame p ++ rest)
      → ReadsFrame p rest
  frame_reads p rest v a = record {
    size_read =
        read_bytes-At source offset 8 size_bytes (type_bytes ++ (p.buffer ++ rest)) at_size eight;
    size_value = le_value-le_bytes 8 p.size (omega (arith, v.size_fits));
    after_size = omega (arith, room);
    type_read = read_bytes-At source (offset + 8) 4 type_bytes (p.buffer ++ rest) at_type four;
    type_value = le_value-le_bytes 4 p.type (omega (arith, v.type_fits));
    after_type = omega (arith, room);
    body = read_bytes-At source (offset + 12) p.size p.buffer rest at_body v.sized;
    end = omega (arith, room);
    next =
        subst (λ k. At source k rest) (omega arith)
          (At-step source (offset + 12) p.size p.buffer rest at_body v.sized);
  }
    where
      size_bytes : List ℕ
      size_bytes = le_bytes 8 p.size

      type_bytes : List ℕ
      type_bytes = le_bytes 4 p.type

      eight : 8 ≡ length size_bytes
      eight = sym (length-le_bytes 8 p.size)

      four : 4 ≡ length type_bytes
      four = sym (length-le_bytes 4 p.type)

      at_size : At source offset (size_bytes ++ (type_bytes ++ (p.buffer ++ rest)))
      at_size =
          subst (At source offset)
            (append_assoc size_bytes (type_bytes ++ p.buffer) rest
              ∙ ap (◌++◌ size_bytes) (append_assoc type_bytes p.buffer rest))
            a

      at_type : At source (offset + 8) (type_bytes ++ (p.buffer ++ rest))
      at_type = At-step source offset 8 size_bytes (type_bytes ++ (p.buffer ++ rest)) at_size eight

      at_body : At source (offset + 12) (p.buffer ++ rest)
      at_body =
          subst (λ k. At source k (p.buffer ++ rest)) (omega arith)
            (At-step source (offset + 8) 4 type_bytes (p.buffer ++ rest) at_type four)

      room : offset + (12 + p.size) ≤ length source
      room = omega (arith, a.within, v.sized, length-append (frame p) rest, length-frame p)

  pub frame_next :
      (p : Package) (rest : List ℕ)
      → IsPackage p
      → At source offset (frame p ++ rest)
      → At source (offset + (12 + p.size)) rest
  frame_next p rest v a = (frame_reads p rest v a).next

  -- A nested package is read back as it was written.
  pub package_decode-frame :
      (p : Package) (rest : List ℕ)
      → IsPackage p
      → At source offset (frame p ++ rest)
      → package_decode source offset ≡ some (p, offset + (12 + p.size))
  unfolding package_decode
  package_decode-frame p rest v a =
      let r = frame_reads p rest v a in
      rw (
        r.size_read, r.size_value, r.after_size, r.type_read, r.type_value, r.after_type, r.body,
        r.end,
      )

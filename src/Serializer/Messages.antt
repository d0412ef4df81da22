-- ===== src/Serializer/Messages.antt =====
-- Messages of shared/src/shared_serializer.c survive the trip through the wire format.
use tp_so_tuki.Common.{
  ℕ, ◌+◌, ◌<◌, ◌^◌, ◌≡◌, refl, sym, ap, subst, Bool, List, [], ◌∷◌, ◌++◌, append-nil, some, length,
  length-append, if◌then◌else◌, arith,
}
use tp_so_tuki.Package.{Package, package_new, package_decode_string, message_ok, message_flaw}
use tp_so_tuki.Package.Cursor.{At, At-start}
use tp_so_tuki.Package.RoundTrip.{IsText, chunk, length-chunk, package_decode_string-chunk}
use tp_so_tuki.Serializer.{serialize_message, deserialize_message}
use tp_so_tuki.Serializer.Arguments.{package_write-chunk}

pub serialize_message-buffer :
    (text : List ℕ) (is_flaw : Bool)
    → length text < 2 ^ 32
    → (serialize_message text is_flaw).buffer ≡ chunk (text ++ (0 ∷ []))
unfolding serialize_message package_new
serialize_message-buffer text is_flaw h =
    ap (λ (p : Package). p.buffer)
      (package_write-chunk (package_new (if is_flaw then message_flaw else message_ok)) text
        (omega (arith, length-chunk (text ++ (0 ∷ [])), length-append text (0 ∷ []))))

-- A text without NUL that was sent as a message, marked as a flaw or not, is received unchanged.
pub deserialize_message-serialize_message :
    (text : List ℕ) (is_flaw : Bool)
    → IsText text
    → length text < 2 ^ 32
    → deserialize_message (serialize_message text is_flaw) ≡ some text
unfolding deserialize_message
deserialize_message-serialize_message text is_flaw t h =
    rw (serialize_message-buffer text is_flaw h, read) refl
  where
    bytes : List ℕ
    bytes = chunk (text ++ (0 ∷ []))

    read : package_decode_string bytes 0 ≡ some (text, 0 + (8 + length (text ++ (0 ∷ []))))
    read =
        package_decode_string-chunk bytes
          (omega (arith, length-chunk (text ++ (0 ∷ [])), length-append text (0 ∷ []))) 0 text [] t
          (subst (At bytes 0) (sym (append-nil bytes)) (At-start bytes))

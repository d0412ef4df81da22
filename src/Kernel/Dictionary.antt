-- ===== src/Kernel/Dictionary.antt =====
-- The dictionaries of Kernel/State: what a put and a removal do to each key.
use tp_so_tuki.Common.{
  ℕ, ◌≡◌, refl, Bool, true, false, List, [], ◌∷◌, Option, none, some, if◌then◌else◌, arith,
}
use tp_so_tuki.OpCode.{str_eq}
use tp_so_tuki.OpCode.Names.{str_eq_iff}
use tp_so_tuki.Kernel.State.{
  dictionary_get, dictionary_put, dictionary_remove, dictionary_update, has_key,
}

-- `v` is there.
abbrev pub is_some {ℓ} : {A : Type ℓ} → Option A → Bool
is_some none = false
is_some (some a) = true

module _ {A : Type 0} where
  pub get-put :
      (key other : List ℕ) (v : A) (d : List (List ℕ × A))
      → dictionary_get other (dictionary_put key v d)
        ≡ (if str_eq key other then some v else dictionary_get other d)
  unfolding dictionary_get dictionary_put
  get-put key other v [] = refl
  get-put key other v ((k, u) ∷ d) =
      ground
        (arith, str_eq_iff key other, str_eq_iff k key, str_eq_iff k other, get-put key other v d)

  pub get-remove :
      (key other : List ℕ) (d : List (List ℕ × A))
      → dictionary_get other (dictionary_remove key d)
        ≡ (if str_eq key other then none else dictionary_get other d)
  unfolding dictionary_get dictionary_remove
  get-remove key other [] = ground arith
  get-remove key other ((k, u) ∷ d) =
      ground
        (arith, str_eq_iff key other, str_eq_iff k key, str_eq_iff k other, get-remove key other d)

  pub get-update_lem :
      (key other : List ℕ) (v : A) (d : List (List ℕ × A))
      → is_some (dictionary_get key d) ≡ true
      → dictionary_get other (dictionary_update key v d)
        ≡ (if str_eq key other then some v else dictionary_get other d)
  unfolding dictionary_get dictionary_update
  get-update_lem key other v [] h = cc
  get-update_lem key other v ((k, u) ∷ d) h = ground (
    arith,
    str_eq_iff key other,
    str_eq_iff k key,
    str_eq_iff k other,
    get-update_lem key other v d,
  )

  pub has_key-get :
      (key : List ℕ) (d : List (List ℕ × A)) → has_key key d ≡ is_some (dictionary_get key d)
  unfolding has_key dictionary_get
  has_key-get key [] = refl
  has_key-get key ((k, u) ∷ d) = ground (arith, has_key-get key d)

-- ===== src/ConfigFile/Typed.antt =====
-- A file that is accepted has a value of the right type for every key.
use nova_airouter.Prelude.{
  ◌≡◌, ◌≢◌, refl, ℤ, Bool, true, false, Option, none, some, is_some, List, [], ◌∷◌, ◌++◌, Text,
  text_eq, text_eq_iff, Dict, lookup, Bool-cases, Option-cases, inl, inr, subst,
}
use nova_airouter.Balancer.{Float64}
use nova_airouter.ConfigFile.{
  Value, of_text, of_int, of_int64, of_bool, ItemType, string_item, bool_item, duration_item,
  int_item, DefaultItem, ItemError, default_configs, ConfigFile, is_duration, is_item, validate_in,
  validate_items, validate_config_file, value_in, get_value, string_of, int_of, bool_of,
  duration_of, get_string, get_int, get_bool, get_duration, accepted_file, loaded_in,
  load_or_create,
}

module _ {R : Type 0} (f : Float64 R) (parse_duration : Text → Option ℤ) where
  -- Whether the getter of the type gives a value.
  abbrev pub is_got : ItemType → Text → Option (ConfigFile R) → Bool
  is_got string_item key cm = is_some (get_string f parse_duration key cm)
  is_got int_item key cm = is_some (get_int f parse_duration key cm)
  is_got bool_item key cm = is_some (get_bool f parse_duration key cm)
  is_got duration_item key cm = is_some (get_duration f parse_duration key cm)

  false-true : false ≢ true
  false-true e = absurd (cc)

  same_item : {x d : DefaultItem R} → some x ≡ some d → x ≡ d
  same_item e = cc

  no_error : {e : ItemError} {es : List ItemError} → e ∷ es ≢ []
  no_error e = absurd (cc)

  first_empty : (xs ys : List ItemError) → xs ++ ys ≡ [] → xs ≡ []
  first_empty [] ys e = refl
  first_empty (x ∷ xs) ys e = absurd (no_error e)

  rest_empty : (xs ys : List ItemError) → xs ++ ys ≡ [] → ys ≡ []
  rest_empty [] ys e = e
  rest_empty (x ∷ xs) ys e = absurd (no_error e)

  -- A default item that is found has been validated.
  validated :
      (key : Text) (d : DefaultItem R) (defaults : Dict (DefaultItem R)) (file : ConfigFile R)
      → lookup key defaults ≡ some d
      → validate_items f parse_duration defaults file ≡ []
      → validate_in f parse_duration key d.item_type (lookup key file) ≡ []
  unfolding lookup validate_items
  validated key d [] file l e = absurd (cc)
  validated key d ((k, x) ∷ defaults) file l e = elim (Bool-cases (text_eq k key)) [
    | inl t ↦
        subst (λ y. validate_in f parse_duration key y.item_type (lookup key file) ≡ [])
          (same_item (rw t at l))
          (subst (λ y. validate_in f parse_duration y x.item_type (lookup y file) ≡ [])
            ((text_eq_iff k key).0 t)
            (first_empty (validate_in f parse_duration k x.item_type (lookup k file)) _ e))
    | inr t ↦
        validated key d defaults file (rw t at l)
          (rest_empty (validate_in f parse_duration k x.item_type (lookup k file)) _ e)
  ]

  got :
      (key : Text) (t : ItemType) (v : Value R) (file : ConfigFile R)
      → lookup key file ≡ some v
      → is_item f parse_duration t v ≡ true
      → is_got t key (some file) ≡ true
  unfolding get_string get_int get_bool get_duration get_value value_in is_item is_duration
      string_of int_of bool_of duration_of
  got key string_item (of_text x) file l e = rw l refl
  got key int_item (of_int n) file l e = rw l refl
  got key int_item (of_int64 n) file l e = rw l refl
  got key bool_item (of_bool b) file l e = rw l refl
  got key duration_item (of_text x) file l e = elim (Option-cases (parse_duration x)) [
    | inl n ↦ absurd (false-true (rw n at e))
    | inr (y, n) ↦ rw (l, n) refl
  ]
  got key t v file l e = absurd (false-true e)

  accepted_got :
      (key : Text) (d : DefaultItem R) (file : ConfigFile R)
      → lookup key default_configs ≡ some d
      → validate_config_file f parse_duration file ≡ []
      → is_got d.item_type key (some file) ≡ true
  unfolding validate_config_file validate_in
  accepted_got key d file l e =
      let valid = validated key d default_configs file l e in
      elim (Option-cases (lookup key file)) [
        | inl n ↦ absurd (no_error (rw n at valid))
        | inr (v, n) ↦ elim (Bool-cases (is_item f parse_duration d.item_type v)) [
          | inl i ↦ got key d.item_type v file n i
          | inr i ↦ absurd (no_error (rw (n, i) at valid))
        ]
      ]

  same_file : {a b : ConfigFile R} → some a ≡ some b → a ≡ b
  same_file e = cc

  accepted :
      (raw file : ConfigFile R) (es : List ItemError)
      → accepted_file f parse_duration raw es ≡ some file
      → (es ≡ []) × (raw ≡ file)
  unfolding accepted_file
  accepted raw file [] e = (refl, same_file e)
  accepted raw file (x ∷ es) e = absurd (cc)

  loaded_got :
      (key : Text) (d : DefaultItem R) (o : Option (ConfigFile R)) (file : ConfigFile R)
      → lookup key default_configs ≡ some d
      → loaded_in f parse_duration o ≡ some file
      → is_got d.item_type key (some file) ≡ true
  unfolding loaded_in accepted_file
  loaded_got key d none file l e = absurd (cc)
  loaded_got key d (some raw) file l e =
      let (none_wrong, same) = accepted raw file (validate_config_file f parse_duration raw) e in
      subst (λ x. is_got d.item_type key (some x) ≡ true) same (accepted_got key d raw l none_wrong)

-- A file that is loaded is well typed: for each of the 26 keys that have a default, the getter of the
-- key's type gives a value and no error, whatever the file says elsewhere.
pub load_or_create-typed :
    {R : Type 0} (f : Float64 R) (parse_duration : Text → Option ℤ)
    (read : Option (ConfigFile R) → Option (ConfigFile R)) (is_there : Bool) (key : Text)
    (d : DefaultItem R) (file : ConfigFile R)
    → lookup key default_configs ≡ some d
    → load_or_create f parse_duration read is_there ≡ some file
    → is_got f parse_duration d.item_type key (some file) ≡ true
unfolding load_or_create
load_or_create-typed f parse_duration read is_there key d file l e =
    loaded_got f parse_duration key d _ file l e

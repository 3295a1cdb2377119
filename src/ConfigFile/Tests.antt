-- ===== src/ConfigFile/Tests.antt =====
-- The file that is written where there is none.
use nova_airouter.Prelude.{
  ◌≡◌, refl, ℤ, pos, true, false, Option, some, Text, codes, text_eq, lookup,
}
use nova_airouter.Balancer.{Float64}
use nova_airouter.ConfigFile.{
  of_text, duration_item, ConfigFile, default_configs, default_values, validate_config_file,
  validate_items, validate_in, is_item, is_duration, accepted_file, loaded_in, load_or_create,
}
use nova_airouter.ConfigFile.Typed.{is_got, load_or_create-typed}

abbrev floats : Float64 ℤ
floats = record {
  of_int = λ z. z;
  literal = λ m n. pos m;
  add = λ x y. x;
  sub = λ x y. x;
  mul = λ x y. x;
  div = λ x y. x;
  lt = λ x y. false;
  le = λ x y. true;
  is_zero = λ x. false;
}

-- Every text is a duration.
abbrev parse : Text → Option ℤ
parse t = some (pos 1)

written : ConfigFile ℤ
written = default_values floats parse default_configs

loads : load_or_create floats parse (λ o. o) false ≡ some written
unfolding load_or_create loaded_in accepted_file validate_config_file validate_items validate_in
    is_item is_duration default_values written lookup text_eq
loads = refl

load_or_create-typed_example :
    is_got floats parse duration_item (codes "queue-timeout") (some written) ≡ true
unfolding lookup text_eq
load_or_create-typed_example =
    load_or_create-typed floats parse (λ o. o) false (codes "queue-timeout")
      (record { default_val = of_text (codes "30s"); item_type = duration_item }) written refl loads

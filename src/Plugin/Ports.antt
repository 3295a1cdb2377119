-- ===== src/Plugin/Ports.antt =====
-- models_plugin/sync.go: the port and the path of a backend, and the plugin's own port; with what
-- they use of `strings` and `strconv`.
use nova_airouter.Prelude.{
  ℕ, ◌+◌, ◌-◌, ◌*◌, ◌==◌, leb, ℤ, pos, ◌-ℤ◌, Bool, ◌&&◌, if◌then◌else◌, Option, none, some, [], ◌∷◌,
  Text, codes,
}

-- The text before the first `c`, and the one after it.
unfoldable pub cut : ℕ → Text → Text × Option Text
cut c [] = ([], none)
cut c (b ∷ t) =
    let (before, after) = cut c t in if b == c then ([], some t) else (b ∷ before, after)

slash_before : Option Text → Text
slash_before none = codes "/"
slash_before (some t) = 47 ∷ t

-- The text of the port of a service path "PORT/path", and the path of the backend.
unfoldable pub split_service_path : Text → Text × Text
unfolding slash_before
split_service_path t = let (port, path) = cut 47 t in (port, slash_before path)

abbrev pub is_digit : ℕ → Bool
is_digit b = leb 48 b && leb b 57

-- The value of digits after those of `n`.
unfoldable pub digits : ℕ → Text → Option ℕ
digits n [] = some n
digits n (b ∷ t) = let rest = digits (n * 10 + (b - 48)) t in if is_digit b then rest else none

unsigned : Text → Option ℕ
unsigned [] = none
unsigned (b ∷ t) = digits 0 (b ∷ t)

positive_in : Option ℕ → Option ℤ
positive_in none = none
positive_in (some n) = if leb n 9223372036854775807 then some (pos n) else none

negative_in : Option ℕ → Option ℤ
negative_in none = none
negative_in (some n) = if leb n 9223372036854775808 then some (pos 0 -ℤ pos n) else none

-- `strconv.Atoi`, none for an error.
unfoldable pub atoi : Text → Option ℤ
unfolding unsigned positive_in negative_in
atoi [] = none
atoi (b ∷ t) =
    if b == 45
    then negative_in (unsigned t)
    else if b == 43
    then positive_in (unsigned t)
    else positive_in (unsigned (b ∷ t))

or_after : Bool → Text → Option Text → Option Text
or_after here t (some later) = some later
or_after here t none = if here then some t else none

int_or_zero : Option ℤ → ℤ
int_or_zero none = pos 0
int_or_zero (some n) = n

-- The text after the last `c`.
unfoldable pub after_last : ℕ → Text → Option Text
unfolding or_after
after_last c [] = none
after_last c (b ∷ t) = or_after (b == c) t (after_last c t)

own_port_in : Option Text → ℤ
unfolding int_or_zero
own_port_in none = pos 0
own_port_in (some t) = int_or_zero (atoi t)

-- `pluginPort`: 0 without one.
unfoldable pub plugin_port : Text → ℤ
unfolding own_port_in
plugin_port addr = own_port_in (after_last 58 addr)

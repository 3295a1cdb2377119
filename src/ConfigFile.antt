-- ===== src/ConfigFile.antt =====
-- internal/config/config_manager.go: the configuration file, its validation and its typed getters.
-- What YAML makes of the file is an argument, and so is `time.ParseDuration`, none for an error. The
-- descriptions of the items are left out.
mod Tests
pub mod Typed
use nova_airouter.Prelude.{
  ℤ, pos, Bool, true, false, if◌then◌else◌, Option, none, some, List, [], ◌∷◌, ◌++◌, Text, codes,
  Dict, lookup,
}
use nova_airouter.Balancer.{Float64}

-- An `interface{}` that YAML fills in.
pub data Value (R : Type 0) : Type 0 where
  of_text : Text → Value R
  of_int : ℤ → Value R
  of_int64 : ℤ → Value R
  of_float : R → Value R
  of_bool : Bool → Value R
  of_other : Value R  -- nothing, a list or a map

-- The field `Type`.
pub data ItemType : Type 0 where
  string_item : ItemType
  bool_item : ItemType
  duration_item : ItemType
  int_item : ItemType

pub record DefaultItem (R : Type 0) : Type 0 where
  pub default_val : Value R
  pub item_type : ItemType

pub data ItemError : Type 0 where
  missing : Text → ItemError
  invalid : Text → ItemError

abbrev default_item : {R : Type 0} → Text → Value R → ItemType → Text × DefaultItem R
default_item key value item_type = (key, record { default_val = value; item_type = item_type })

abbrev pub default_configs : {R : Type 0} → Dict (DefaultItem R)
default_configs =
    default_item (codes "node-id") (of_text []) string_item
    ∷ default_item (codes "listen-addr") (of_text (codes ":15050")) string_item
    ∷ default_item (codes "admin-api-key") (of_text []) string_item
    ∷ default_item (codes "disable-admin-auth") (of_bool false) bool_item
    ∷ default_item (codes "heartbeat-timeout") (of_text (codes "15s")) duration_item
    ∷ default_item (codes "default-max-concurrency") (of_int (pos 10)) int_item
    ∷ default_item (codes "gossip-state-interval") (of_text (codes "3s")) duration_item
    ∷ default_item (codes "gossip-metadata-interval") (of_text (codes "1h")) duration_item
    ∷ default_item (codes "gossip-probe-interval") (of_text (codes "1s")) duration_item
    ∷ default_item (codes "gossip-probe-timeout") (of_text (codes "500ms")) duration_item
    ∷ default_item (codes "gossip-suspicion-mult") (of_int (pos 4)) int_item
    ∷ default_item (codes "gossip-retransmit-mult") (of_int (pos 3)) int_item
    ∷ default_item (codes "gossip-secret-key") (of_text []) string_item
    ∷ default_item (codes "log-level") (of_text (codes "info")) string_item
    ∷ default_item (codes "backend-timeout") (of_text (codes "300s")) duration_item
    ∷ default_item (codes "queue-timeout") (of_text (codes "30s")) duration_item
    ∷ default_item (codes "forward-connect-timeout") (of_text (codes "10s")) duration_item
    ∷ default_item (codes "forward-read-timeout") (of_text (codes "300s")) duration_item
    ∷ default_item (codes "queue-capacity") (of_int (pos 1000)) int_item
    ∷ default_item (codes "gossip-sync-interval") (of_text (codes "10s")) duration_item
    ∷ default_item (codes "gossip-http-timeout") (of_text (codes "2s")) duration_item
    ∷ default_item (codes "discovery-retry-interval") (of_text (codes "5s")) duration_item
    ∷ default_item (codes "discovery-poll-interval") (of_text (codes "100ms")) duration_item
    ∷ default_item (codes "discovery-broadcast-interval") (of_text (codes "30s")) duration_item
    ∷ default_item (codes "discovery-node-timeout") (of_text (codes "60s")) duration_item
    ∷ default_item (codes "sync-peer-timeout") (of_text (codes "30s")) duration_item
    ∷ []

-- The values of a file, by key.
abbrev pub ConfigFile : Type 0 → Type 0
ConfigFile R = Dict (Value R)

module _ {R : Type 0} (f : Float64 R) (parse_duration : Text → Option ℤ) where
  unfoldable pub is_duration : Option ℤ → Bool
  is_duration none = false
  is_duration (some d) = true

  -- Whether `validateItem` finds no error.
  unfoldable pub is_item : ItemType → Value R → Bool
  is_item duration_item (of_text t) = is_duration (parse_duration t)
  is_item int_item (of_int n) = true
  is_item int_item (of_int64 n) = true
  is_item bool_item (of_bool b) = true
  is_item string_item (of_text t) = true
  is_item _ _ = false

  unfoldable pub validate_in : Text → ItemType → Option (Value R) → List ItemError
  validate_in key item_type none = missing key ∷ []
  validate_in key item_type (some v) = if is_item item_type v then [] else invalid key ∷ []

  unfoldable pub validate_items : Dict (DefaultItem R) → ConfigFile R → List ItemError
  validate_items [] file = []
  validate_items ((key, d) ∷ defaults) file =
      validate_in key d.item_type (lookup key file) ++ validate_items defaults file

  -- The errors of `ValidateConfig`.
  unfoldable pub validate_config_file : ConfigFile R → List ItemError
  validate_config_file file = validate_items default_configs file

  unfoldable pub default_of : Option (DefaultItem R) → Option (Value R)
  default_of none = none
  default_of (some d) = some d.default_val

  unfoldable pub value_in : Text → Option (Value R) → Option (Value R)
  value_in key (some v) = some v
  value_in key none = default_of (lookup key default_configs)

  -- `GetValue`, of a manager that has loaded a file or not.
  unfoldable pub get_value : Text → Option (ConfigFile R) → Option (Value R)
  get_value key none = none
  get_value key (some file) = value_in key (lookup key file)

  unfoldable pub string_of : Option (Value R) → Option Text
  string_of (some (of_text t)) = some t
  string_of _ = none

  unfoldable pub int_of : Option (Value R) → Option ℤ
  int_of (some (of_int n)) = some n
  int_of (some (of_int64 n)) = some n
  int_of _ = none

  unfoldable pub bool_of : Option (Value R) → Option Bool
  bool_of (some (of_bool b)) = some b
  bool_of _ = none

  unfoldable pub float_of : Option (Value R) → Option R
  float_of (some (of_float x)) = some x
  float_of (some (of_int n)) = some (f.of_int n)
  float_of (some (of_int64 n)) = some (f.of_int n)
  float_of _ = none

  unfoldable pub duration_of : Option (Value R) → Option ℤ
  duration_of (some (of_text t)) = parse_duration t
  duration_of _ = none

  -- The typed getters.
  unfoldable pub get_string : Text → Option (ConfigFile R) → Option Text
  get_string key cm = string_of (get_value key cm)

  unfoldable pub get_int : Text → Option (ConfigFile R) → Option ℤ
  get_int key cm = int_of (get_value key cm)

  unfoldable pub get_bool : Text → Option (ConfigFile R) → Option Bool
  get_bool key cm = bool_of (get_value key cm)

  unfoldable pub get_float : Text → Option (ConfigFile R) → Option R
  get_float key cm = float_of (get_value key cm)

  unfoldable pub get_duration : Text → Option (ConfigFile R) → Option ℤ
  get_duration key cm = duration_of (get_value key cm)

  -- What `CreateDefaultConfig` writes.
  unfoldable pub default_values : Dict (DefaultItem R) → ConfigFile R
  default_values [] = []
  default_values ((key, d) ∷ defaults) = (key, d.default_val) ∷ default_values defaults

  unfoldable pub accepted_file : ConfigFile R → List ItemError → Option (ConfigFile R)
  accepted_file file [] = some file
  accepted_file file (e ∷ es) = none

  unfoldable pub loaded_in : Option (ConfigFile R) → Option (ConfigFile R)
  loaded_in none = none
  loaded_in (some file) = accepted_file file (validate_config_file file)

  -- `LoadOrCreate`: the file that is loaded, none for an error. `read` reads the file from the disk,
  -- where the default file is created first if there is none.
  unfoldable pub load_or_create :
      (Option (ConfigFile R) → Option (ConfigFile R)) → Bool → Option (ConfigFile R)
  load_or_create read is_there =
      loaded_in (read (if is_there then none else some (default_values default_configs)))

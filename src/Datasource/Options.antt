-- ===== src/Datasource/Options.antt =====
-- The options of a data source, as internal/adapter/clickhouse/adapter.go reads them; the adapter of
-- StarRocks has the same functions for whole numbers and durations.
use mountain_king.Prelude.{
  ℕ, ◌+◌, ◌-◌, ◌*◌, Bool, Option, none, some, Bytes, bytes_eq, if◌then◌else◌, [],
}
use mountain_king.Prelude.Int.{ℤ, pos, negsuc}
use mountain_king.Template.Params.{parse_int}
use mountain_king.Value.{Value, Fields, lookup_field, string, boolean, float64, int}

-- The conversion of a float64 to an int, and the packages strconv and time. A duration is a number of
-- nanoseconds; none of the options is a `time.Duration`, since they are read from YAML.
pub record Readers : Type 0 where
  pub to_int : ℕ → ℤ
  pub parse_bool : Bytes → Option Bool
  pub parse_duration : Bytes → Option ℤ
  pub format_duration : ℤ → Bytes
  pub path_escape : Bytes → Bytes

abbrev pub or_else : {A : Type 0} → A → Option A → A
or_else a none = a
or_else a (some b) = b

abbrev int_or : Readers → ℤ → Option Value → ℤ
unfolding parse_int
int_or rd def (some (int z)) = z
int_or rd def (some (float64 bits)) = rd.to_int bits
int_or rd def (some (string s)) = or_else def (parse_int s)
int_or rd def v = def

unfoldable pub get_int_option : Readers → Fields → Bytes → ℤ → ℤ
unfolding lookup_field int_or parse_int
get_int_option rd options key def = int_or rd def (lookup_field key options)

-- `time.Duration(val) * time.Second`, for values whose product has 64 bits.
unfoldable pub seconds : ℤ → ℤ
seconds (pos n) = pos (n * 1_000_000_000)
seconds (negsuc n) = negsuc ((n + 1) * 1_000_000_000 - 1)

abbrev duration_or : Readers → ℤ → Option Value → ℤ
unfolding seconds
duration_or rd def (some (string s)) = or_else def (rd.parse_duration s)
duration_or rd def (some (float64 bits)) = seconds (rd.to_int bits)
duration_or rd def (some (int z)) = seconds z
duration_or rd def v = def

unfoldable pub get_duration_option : Readers → Fields → Bytes → ℤ → ℤ
unfolding lookup_field duration_or seconds
get_duration_option rd options key def = duration_or rd def (lookup_field key options)

abbrev bool_or : Readers → Bool → Option Value → Bool
bool_or rd def (some (boolean b)) = b
bool_or rd def (some (string s)) = or_else def (rd.parse_bool s)
bool_or rd def v = def

unfoldable pub get_bool_option : Readers → Fields → Bytes → Bool → Bool
unfolding lookup_field
get_bool_option rd options key def = bool_or rd def (lookup_field key options)

abbrev string_or : Bytes → Option Value → Bytes
unfolding bytes_eq
string_or def (some (string s)) = if bytes_eq s [] then def else s
string_or def v = def

unfoldable pub get_string_option : Fields → Bytes → Bytes → Bytes
unfolding lookup_field string_or bytes_eq
get_string_option options key def = string_or def (lookup_field key options)

-- `s, _ := conn[key].(string)`.
abbrev text_or_empty : Option Value → Bytes
text_or_empty (some (string s)) = s
text_or_empty v = []

unfoldable pub text_field : Fields → Bytes → Bytes
unfolding lookup_field
text_field conn key = text_or_empty (lookup_field key conn)

-- ===== src/Json/Object.antt =====
-- server/libjson.hpp, class `Value::Object`: the look-ups by key, and those at the entry that `has`
-- found.
use monitor_queue.Prelude.{
  ℕ, Bool, true, false, Option, none, some, ◌++◌, Str, bytes, if◌then◌else◌,
}
use monitor_queue.Json.Value.{
  Value, object, array, string, number, bool, Values, Members, Outcome, returns, throws, ◌>>=◌,
  is_nonzero, double_zero, double_one, key_conversion_error, lookup,
}

-- What each typed method makes of a value that it found; `key` is for the message.
unfoldable pub to_bool : Str → Str → Value → Outcome Bool
unfolding key_conversion_error
to_bool key type (bool b) = returns b
to_bool key type (number n) = returns (is_nonzero n)
to_bool key type v = throws (key_conversion_error v key type)

unfoldable pub to_number : Str → Value → Outcome ℕ
unfolding key_conversion_error
to_number key (number n) = returns n
to_number key (bool b) = returns (if b then double_one else double_zero)
to_number key v = throws (key_conversion_error v key (bytes "number"))

unfoldable pub to_text : Str → Value → Outcome Str
unfolding key_conversion_error
to_text key (string s) = returns s
to_text key v = throws (key_conversion_error v key (bytes "string"))

unfoldable pub to_object : Str → Value → Outcome Members
unfolding key_conversion_error
to_object key (object ms) = returns ms
to_object key v = throws (key_conversion_error v key (bytes "object"))

unfoldable pub to_array : Str → Value → Outcome Values
unfolding key_conversion_error
to_array key (array vs) = returns vs
to_array key v = throws (key_conversion_error v key (bytes "array"))

-- Object::getValue
unfoldable pub get_value : Members → Str → Outcome Value
unfolding lookup
get_value ms key = elim (lookup key ms) [
  | none ↦ throws (bytes "Key not found: " ++ key)
  | some v ↦ returns v
]

-- Object::getObject, getArray, getBool, getNumber, getString
unfoldable pub get_object : Members → Str → Outcome Members
unfolding get_value to_object
get_object ms key = get_value ms key >>= to_object key

unfoldable pub get_array : Members → Str → Outcome Values
unfolding get_value to_array
get_array ms key = get_value ms key >>= to_array key

unfoldable pub get_bool : Members → Str → Outcome Bool
unfolding get_value to_bool
get_bool ms key = get_value ms key >>= to_bool key (bytes "bool")

unfoldable pub get_number : Members → Str → Outcome ℕ
unfolding get_value to_number
get_number ms key = get_value ms key >>= to_number key

unfoldable pub get_string : Members → Str → Outcome Str
unfolding get_value to_text
get_string ms key = get_value ms key >>= to_text key

-- Object::at
unfoldable pub at : Members → Str → Outcome Value
unfolding lookup
at ms key = elim (lookup key ms) [
  | none ↦ throws (bytes "Key " ++ key ++ bytes " not present")
  | some v ↦ returns v
]

-- `m_iter`, with `none` for end(): the key and the value where it stands.
abbrev pub Iter : Type 0
Iter = Option (Str × Value)

-- Object::has: the answer, and where `m_iter` then stands
unfoldable pub has : Members → Str → Bool × Iter
unfolding lookup
has ms key = elim (lookup key ms) [ none ↦ (false, none) | some v ↦ (true, some (key, v)) ]

-- Object::value
unfoldable pub iter_value : Iter → Outcome Value
iter_value none = throws (bytes "Key not set")
iter_value (some (key, v)) = returns v

-- Object::asString, asNumber, asBool, asObject, asArray
unfoldable pub iter_string : Iter → Outcome Str
unfolding to_text
iter_string none = throws (bytes "Key not set")
iter_string (some (key, v)) = to_text key v

unfoldable pub iter_number : Iter → Outcome ℕ
unfolding to_number
iter_number none = throws (bytes "No key set")
iter_number (some (key, v)) = to_number key v

unfoldable pub iter_bool : Iter → Outcome Bool
unfolding to_bool
iter_bool none = throws (bytes "Key not set")
iter_bool (some (key, v)) = to_bool key (bytes "boolean") v

unfoldable pub iter_object : Iter → Outcome Members
unfolding to_object
iter_object none = throws (bytes "Key not set")
iter_object (some (key, v)) = to_object key v

unfoldable pub iter_array : Iter → Outcome Values
unfolding to_array
iter_array none = throws (bytes "Key not set")
iter_array (some (key, v)) = to_array key v

-- ===== src/Json/Value.antt =====
-- server/libjson.hpp, class `Value` and class `Value::Object`: what they hold, and the methods that
-- read them. A double is the number that its 64 bits make. An object is its map, in the order of
-- its keys, with the entry at which `m_iter` stands.
use monitor_queue.Prelude.{
  ℕ, suc, ◌+◌, ◌-◌, ◌*◌, ◌/◌, ◌%◌, ◌^◌, Bool, not, Option, none, some, ◌++◌, Str, str_eq, str_lt,
  bytes, ltb, ◌==◌, if◌then◌else◌,
}

mutual
  pub data Value : Type 0 where
    null : Value
    object : Members → Value
    array : Values → Value
    string : Str → Value
    number : ℕ → Value
    bool : Bool → Value

  pub data Values : Type 0 where
    nil : Values
    cons : Value → Values → Values

  pub data Members : Type 0 where
    end : Members
    member : Str → Value → Members → Members

-- What a call comes to: a value, or an exception with its `what()`.
pub data Outcome {ℓ} (A : Type ℓ) : Type ℓ where
  returns : A → Outcome A
  throws : Str → Outcome A

infixl 1 ◌>>=◌
abbrev pub ◌>>=◌ {ℓ κ} : {A : Type ℓ} → {B : Type κ} → Outcome A → (A → Outcome B) → Outcome B
returns a >>= f = f a
throws e >>= f = throws e

-- (bool)n: neither 0 nor -0
abbrev pub is_nonzero : ℕ → Bool
is_nonzero n = not (n % 2 ^ 63 == 0)

abbrev pub double_zero : ℕ
double_zero = 0

abbrev pub double_one : ℕ
double_one = 1023 * 2 ^ 52

-- The integer part of a double that is not negative, from its exponent and its mantissa.
unfoldable pub integer_part : ℕ → ℕ
integer_part n =
    let exponent : ℕ = n / 2 ^ 52 % 2 ^ 11 in
    let mantissa : ℕ = 2 ^ 52 + n % 2 ^ 52 in
    if ltb exponent 1023
    then 0
    else (if ltb exponent 1075
        then mantissa / 2 ^ (1075 - exponent)
        else mantissa * 2 ^ (exponent - 1075))

-- Value::getTypeString
unfoldable pub get_type_string : Value → Str
get_type_string null = bytes "NULL"
get_type_string (object ms) = bytes "OBJECT"
get_type_string (array vs) = bytes "ARRAY"
get_type_string (string s) = bytes "STRING"
get_type_string (number n) = bytes "NUMBER"
get_type_string (bool b) = bytes "BOOL"

-- Value::typeConversionError, without and with a key
unfoldable pub conversion_error : Value → Str → Str
unfolding get_type_string
conversion_error v type =
    bytes "Invalid conversion of " ++ get_type_string v ++ bytes " to " ++ type

unfoldable pub key_conversion_error : Value → Str → Str → Str
unfolding get_type_string
key_conversion_error v key type =
    bytes "Invalid conversion of "
    ++ get_type_string v
    ++ bytes " to "
    ++ type
    ++ bytes " for key "
    ++ key

-- Value::asBool
unfoldable pub as_bool : Value → Outcome Bool
unfolding conversion_error
as_bool (bool b) = returns b
as_bool (number n) = returns (is_nonzero n)
as_bool v = throws (conversion_error v (bytes "boolean"))

-- Value::asNumber
unfoldable pub as_number : Value → Outcome ℕ
unfolding conversion_error
as_number (number n) = returns n
as_number (bool b) = returns (if b then double_one else double_zero)
as_number v = throws (conversion_error v (bytes "number"))

-- Value::asString
unfoldable pub as_string : Value → Outcome Str
unfolding conversion_error
as_string (string s) = returns s
as_string v = throws (conversion_error v (bytes "string"))

-- Value::asObject, Value::asArray
unfoldable pub as_object : Value → Outcome Members
as_object (object ms) = returns ms
as_object v = throws (bytes "Value is not an object")

unfoldable pub as_array : Value → Outcome Values
as_array (array vs) = returns vs
as_array v = throws (bytes "Value is not an array")

-- m_map.find( key )
unfoldable pub lookup : Str → Members → Option Value
lookup key end = none
lookup key (member k v ms) = if str_eq k key then some v else lookup key ms

-- m_map[key] = v
unfoldable pub set : Str → Value → Members → Members
set key v end = member key v end
set key v (member k w ms) =
    let rest = set key v ms in
    if str_lt key k
    then member key v (member k w ms)
    else (if str_eq k key then member k v ms else member k w rest)

-- Object::size and Value::size
unfoldable pub size_members : Members → ℕ
size_members end = 0
size_members (member k v ms) = suc (size_members ms)

unfoldable pub size_values : Values → ℕ
size_values nil = 0
size_values (cons v vs) = suc (size_values vs)

unfoldable pub size : Value → Outcome ℕ
unfolding size_members size_values
size (object ms) = returns (size_members ms)
size (array vs) = returns (size_values vs)
size v = throws (bytes "Value::size() requires object or array type")

-- ===== src/Json/Print.antt =====
-- server/libjson.hpp, toString: strToString, numToString and toStringRecurse. `dtoa`, which prints
-- a double, is a parameter. `char` is signed, so a byte from 128 on is below 0x20 there.
use monitor_queue.Prelude.{ℕ, ◌||◌, [], ◌∷◌, ◌++◌, Str, bytes, ltb, leb, ◌==◌, if◌then◌else◌}
use monitor_queue.Json.Value.{
  Value, null, object, array, string, number, bool, Values, nil, cons, Members, end, member,
}

-- What `strToString` appends for one character
unfoldable pub escape_char : ℕ → Str
escape_char c =
    if ltb c 32 || leb 128 c
    then (if c == 8
        then 92 ∷ b'b' ∷ []
        else (if c == 12
            then 92 ∷ b'f' ∷ []
            else (if c == 10
                then 92 ∷ b'n' ∷ []
                else (if c == 13
                    then 92 ∷ b'r' ∷ []
                    else (if c == 9 then 92 ∷ b't' ∷ [] else [])))))
    else (if c == 34 then 92 ∷ 34 ∷ [] else (if c == 92 then 92 ∷ 92 ∷ [] else c ∷ []))

-- The loop of `strToString`
unfoldable pub escape_all : Str → Str
escape_all [] = []
escape_all (c ∷ cs) = escape_char c ++ escape_all cs

-- Value::strToString
unfoldable pub str_to_string : Str → Str
str_to_string s = 34 ∷ escape_all s ++ 34 ∷ []

module _ (dtoa : ℕ → Str) where
  -- Value::toStringRecurse; `lead` is what stands before the next element or key
  unfoldable mutual
    pub print_value : Value → Str
    print_value null = bytes "null"
    print_value (object ms) = b'{' ∷ print_members [] ms ++ b'}' ∷ []
    print_value (array vs) = b'[' ∷ print_values [] vs ++ b']' ∷ []
    print_value (string s) = str_to_string s
    print_value (number n) = dtoa n
    print_value (bool b) = if b then bytes "true" else bytes "false"

    pub print_values : Str → Values → Str
    print_values lead nil = []
    print_values lead (cons v vs) = lead ++ print_value v ++ print_values (bytes ",") vs

    pub print_members : Str → Members → Str
    print_members lead end = []
    print_members lead (member k v ms) =
        lead ++ 34 ∷ k ++ 34 ∷ b':' ∷ print_value v ++ print_members (bytes ",") ms

-- ===== src/Json/Chars.antt =====
-- server/libjson.hpp, what the parser reads that does not nest: characters, escapes, strings and
-- literals. A `const char *` is the text from it on. A function returns its value and the text
-- behind the last character that it took, where the source returns a pointer to that character.
use monitor_queue.Prelude.{
  ℕ, zero, suc, ◌+◌, ◌-◌, ◌*◌, ◌/◌, ◌%◌, Bool, ◌&&◌, ◌||◌, Option, none, some, [], ◌∷◌, ◌++◌, Str,
  bytes, ltb, leb, ◌==◌, if◌then◌else◌,
}

-- What a parsing function comes to: a value and the rest, a `ParseError` with its message and the
-- text at its position, or no end within the fuel.
pub data Parsed {ℓ} (A : Type ℓ) : Type ℓ where
  parsed : A → Str → Parsed A
  fails : Str → Str → Parsed A
  out_of_fuel : Parsed A

abbrev pub bind {ℓ κ} : {A : Type ℓ} → {B : Type κ} → Parsed A → (A → Str → Parsed B) → Parsed B
bind (parsed a rest) f = f a rest
bind (fails msg at) f = fails msg at
bind out_of_fuel f = out_of_fuel

-- The STR_ERR messages
abbrev pub invalid_char : Str
invalid_char = bytes "Invalid character"

abbrev pub unterminated_array : Str
unterminated_array = bytes "Unterminated array"

abbrev pub unterminated_object : Str
unterminated_object = bytes "Unterminated object"

abbrev pub unterminated_value : Str
unterminated_value = bytes "Unterminated value"

abbrev pub invalid_value : Str
invalid_value = bytes "Invalid value"

abbrev pub invalid_key : Str
invalid_key = bytes "Invalid key string"

abbrev pub invalid_unicode : Str
invalid_unicode = bytes "Invalid unicode escape sequence"

-- What the cases of the parser's switches and tests tell apart.
pub data Kind : Type 0 where
  nul space open_brace close_brace open_bracket close_bracket : Kind
  quote colon comma letter_t letter_f letter_n numeric other : Kind

-- !notWS( c )
abbrev pub is_ws : ℕ → Bool
is_ws c = (c == 32) || ((c == 10) || ((c == 9) || (c == 13)))

-- isDigit( c )
abbrev pub is_digit : ℕ → Bool
is_digit c = leb b'0' c && leb c b'9'

unfoldable pub kind : ℕ → Kind
kind c =
    if c == 0
    then nul
    else (if is_ws c
        then space
        else (if c == b'{'
            then open_brace
            else (if c == b'}'
                then close_brace
                else (if c == b'['
                    then open_bracket
                    else (if c == b']'
                        then close_bracket
                        else (if c == 34
                            then quote
                            else (if c == b':'
                                then colon
                                else (if c == b','
                                    then comma
                                    else (if c == b't'
                                        then letter_t
                                        else (if c == b'f'
                                            then letter_f
                                            else (if c == b'n'
                                                then letter_n
                                                else (if (c == b'-') || (is_digit c || (c == b'.'))
                                                    then numeric
                                                    else other))))))))))))

-- *c, with the terminating NUL past the end
abbrev pub first : Str → ℕ
first [] = 0
first (c ∷ cs) = c

abbrev pub tail : Str → Str
tail [] = []
tail (c ∷ cs) = cs

-- Value::toHex, of the character at the text
unfoldable pub to_hex : Str → Parsed ℕ
to_hex cs =
    let c = first cs in
    if is_digit c
    then parsed (c - b'0') (tail cs)
    else (if leb b'A' c && leb c b'F'
        then parsed (10 + c - b'A') (tail cs)
        else (if leb b'a' c && leb c b'f'
            then parsed (10 + c - b'a') (tail cs)
            else fails invalid_char cs))

-- The bytes that `parseString` appends for a code point; `at` is the text at the backslash.
unfoldable pub utf8 : ℕ → Str → Str → Parsed Str
utf8 u at rest =
    if ltb u 128
    then parsed (u ∷ []) rest
    else (if ltb u 2048
        then parsed ((192 + u / 64) ∷ (128 + u % 64) ∷ []) rest
        else (if ltb u 65536
            then parsed ((224 + u / 4096) ∷ (128 + u / 64 % 64) ∷ (128 + u % 64) ∷ []) rest
            else (if ltb u 1114112
                then parsed
                    ((240 + u / 262144)
                      ∷ (128 + u / 4096 % 64)
                      ∷ (128 + u / 64 % 64)
                      ∷ (128 + u % 64)
                      ∷ [])
                    rest
                else fails invalid_unicode at)))

-- parseString, `\u` and its four digits, read from the left
unfoldable pub read_unicode : Str → Str → Parsed Str
read_unicode at cs = bind (to_hex cs) λ a cs1. bind (to_hex cs1) λ b cs2.
    bind (to_hex cs2)
      λ c cs3. bind (to_hex cs3) λ d cs4. utf8 (a * 4096 + b * 256 + c * 16 + d) at cs4

-- parseString, the escapes of one letter
unfoldable pub escaped_byte : ℕ → Option ℕ
escaped_byte e =
    if e == b'b'
    then some 8
    else (if e == b'f'
        then some 12
        else (if e == b'n'
            then some 10
            else (if e == b'r'
                then some 13
                else (if e == b't'
                    then some 9
                    else (if e == b'/'
                        then some b'/'
                        else (if e == 34 then some 34 else (if e == 92 then some 92 else none)))))))

-- parseString, behind a backslash: the bytes to append
unfoldable pub read_escape : Str → Str → Parsed Str
read_escape at cs = elim (escaped_byte (first cs)) [
  | some b ↦ parsed (b ∷ []) (tail cs)
  | none ↦ if first cs == b'u' then read_unicode at (tail cs) else fails invalid_char at
]

-- What the loop of `parseString` tells apart.
pub data StringKind : Type 0 where
  ends escapes closes control plain : StringKind

-- A byte from 128 on is a negative `char`, which the test for control characters lets pass.
unfoldable pub string_kind : ℕ → StringKind
string_kind c =
    if c == 0
    then ends
    else (if c == 92
        then escapes
        else (if c == 34 then closes else (if ltb c 32 then control else plain)))

-- Value::parseString, from the character behind the quote, at which `start` stands
unfoldable pub parse_string : ℕ → Str → Str → Str → Parsed Str
parse_string zero start value cs = out_of_fuel
parse_string (suc f) start value [] = fails unterminated_value start
parse_string (suc f) start value (c ∷ cs) = elim (string_kind c) [
  | ends ↦ fails unterminated_value start
  | escapes ↦ bind (read_escape (c ∷ cs) cs) λ b rest. parse_string f start (value ++ b) rest
  | closes ↦ parsed value cs
  | control ↦ fails invalid_char (c ∷ cs)
  | plain ↦ parse_string f start (value ++ c ∷ []) cs
]

-- parseValue, a literal behind its first letter: the letters `word`, or no value at `at`
unfoldable pub read_literal {ℓ} : {A : Type ℓ} → A → Str → Str → Str → Parsed A
read_literal a at [] cs = parsed a cs
read_literal a at (w ∷ word) [] = fails invalid_value at
read_literal a at (w ∷ word) (c ∷ cs) =
    let rest = read_literal a at word cs in if c == w then rest else fails invalid_value at

abbrev pub drop : ℕ → Str → Str
drop zero cs = cs
drop (suc n) [] = []
drop (suc n) (c ∷ cs) = drop n cs

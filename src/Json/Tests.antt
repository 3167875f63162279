-- ===== src/Json/Tests.antt =====
-- The parser and the printer at concrete texts. `strtod` reads a decimal number with no sign, point
-- or exponent here.
use monitor_queue.Prelude.{
  ℕ, suc, ◌+◌, ◌-◌, ◌*◌, ◌≡◌, refl, ◌⊎◌, true, [], ◌∷◌, ◌++◌, arith, Str, bytes, str_eq, str_lt,
  if◌then◌else◌,
}
use monitor_queue.Json.Value.{
  Value, null, array, object, string, number, bool, nil, cons, end, member, returns, set,
}
use monitor_queue.Json.Chars.{
  parsed, fails, is_digit, kind, string_kind, read_escape, escaped_byte, parse_string, read_literal,
}
use monitor_queue.Json.Parse.{
  seek_beg, text_fuel, push_value, parse_number, parse_value, parse_text, from_string,
}
use monitor_queue.Json.Double.{to_double}
use monitor_queue.Json.Blocks.{taken}
use monitor_queue.Json.Print.{str_to_string}
use monitor_queue.Json.Strings.{printed, parse_string-str_to_string}
use monitor_queue.Json.Total.{parse_text-total}

abbrev read_digits : ℕ → ℕ → Str → ℕ × ℕ
read_digits n taken [] = (to_double n, taken)
read_digits n taken (c ∷ cs) =
    let more = read_digits (10 * n + (c - b'0')) (suc taken) cs in
    if is_digit c then more else (to_double n, taken)

abbrev pub strtod_digits : Str → ℕ × ℕ
strtod_digits = read_digits 0 0

-- What a run in a test has to see through.
unfoldable pub json_opened : Unit {0}
unfolding from_string parse_text parse_value parse_number parse_string read_literal kind string_kind
    read_escape escaped_byte push_value set str_eq str_lt
json_opened = tt

abbrev sample : Str
sample = bytes "{\"a\": [1, true], \"b\": \"x\\n\"}"

sample_parsed :
    from_string strtod_digits sample
    ≡ returns (
        object (
          member
            (bytes "a")
            (array (cons (number (to_double 1)) (cons (bool true) nil)))
            (member (bytes "b") (string (b'x' ∷ 10 ∷ [])) end)))
unfolding json_opened
sample_parsed = refl

-- A bracket too many is accepted, as the end that `fromString` still looks for.
extra_bracket : from_string strtod_digits (bytes "[1]]") ≡ from_string strtod_digits (bytes "[1]")
unfolding json_opened
extra_bracket = refl

parse_text-total_example :
    ((v : Value) × (rest : Str) × (parse_text strtod_digits (text_fuel sample) seek_beg null sample
        ≡ parsed v rest))
    ⊎ ((msg at : Str) × (parse_text strtod_digits (text_fuel sample) seek_beg null sample
          ≡ fails msg at))
parse_text-total_example = parse_text-total strtod_digits sample

-- The string `a"b`, a line end and a byte of a longer character.
abbrev text : Str
text = b'a' ∷ 34 ∷ b'b' ∷ 10 ∷ 200 ∷ []

text-printed : printed text ≡ b'a' ∷ 34 ∷ b'b' ∷ 10 ∷ []
unfolding printed
text-printed = refl

parse_string-str_to_string_example :
    (body : Str) × (str_to_string text ++ bytes "]" ≡ 34 ∷ body)
    × (parse_string 6 [] [] body ≡ parsed (printed text) (bytes "]"))
parse_string-str_to_string_example = parse_string-str_to_string 6 [] text (bytes "]") (omega arith)

-- The printer of doubles, at the one number of the test.
abbrev dtoa_five : ℕ → Str
dtoa_five n = bytes "5"

abbrev document : Value
document = object (
    member (bytes "del") (number (to_double 5)) (
      member (bytes "id") (string (b'a' ∷ 34 ∷ []))
        (member (bytes "que") (array (cons (bool true) (cons null nil))) end)))

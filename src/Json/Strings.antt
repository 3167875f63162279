-- ===== src/Json/Strings.antt =====
-- A string that is printed and parsed again: `strToString` and `parseString` of server/libjson.hpp.
use mathlib.Core.List.{append_assoc, append-nil}
use monitor_queue.Prelude.{
  ℕ, zero, suc, ◌<◌, ◌≡◌, Bool, true, false, ◌&&◌, ◌||◌, [], ◌∷◌, ◌++◌, arith, Str, length, ltb,
  leb, ◌==◌, if◌then◌else◌, Bool-cases, inl, inr,
}
use monitor_queue.Json.Chars.{parsed, parse_string, string_kind, read_escape, escaped_byte}
use monitor_queue.Json.Print.{escape_char, escape_all, str_to_string}

-- The characters that are printed: the ASCII ones but the control characters with no escape.
abbrev pub is_printed : ℕ → Bool
is_printed c =
    (leb 32 c && ltb c 128) || ((c == 8) || ((c == 9) || ((c == 10) || ((c == 12) || (c == 13)))))

unfoldable pub printed : Str → Str
printed [] = []
printed (c ∷ cs) = if is_printed c then c ∷ printed cs else printed cs

parse_string-escape_char :
    (f c : ℕ) (start value cs : Str)
    → is_printed c ≡ true
    → parse_string (suc f) start value (escape_char c ++ cs)
      ≡ parse_string f start (value ++ c ∷ []) cs
unfolding parse_string escape_char string_kind read_escape escaped_byte
parse_string-escape_char f c start value cs h = ground arith

escape_char_none : (c : ℕ) → is_printed c ≡ false → escape_char c ≡ []
unfolding escape_char
escape_char_none c h = ground arith

pub parse_string-escape_all :
    (f : ℕ) (start value s rest : Str)
    → length s < f
    → parse_string f start value (escape_all s ++ 34 ∷ rest) ≡ parsed (value ++ printed s) rest
unfolding parse_string escape_all printed string_kind
parse_string-escape_all zero start value s rest h = absurd (omega arith)
parse_string-escape_all (suc f) start value [] rest h = rw (append-nil value)
parse_string-escape_all (suc f) start value (c ∷ s) rest h = elim (Bool-cases (is_printed c)) [
  | inl p ↦ rw (
    append_assoc (escape_char c) (escape_all s) (34 ∷ rest),
    p,
    parse_string-escape_char f c start value (escape_all s ++ 34 ∷ rest) p,
    parse_string-escape_all f start (value ++ c ∷ []) s rest (omega arith),
    append_assoc value (c ∷ []) (printed s),
  )
  | inr n ↦
      rw (escape_char_none c n, n)
        (parse_string-escape_all (suc f) start value s rest (omega arith))
]

-- A string that is printed, and parsed from behind its opening quote with fuel for its characters,
-- comes back without the characters that the printer drops: those below 32 but for \b, \f, \n, \r
-- and \t, and all from 128 on. What follows the string is left.
pub parse_string-str_to_string :
    (f : ℕ) (start s rest : Str)
    → length s < f
    → ((body : Str) × (str_to_string s ++ rest ≡ 34 ∷ body)
        × (parse_string f start [] body ≡ parsed (printed s) rest))
unfolding str_to_string
parse_string-str_to_string f start s rest h = (
  escape_all s ++ 34 ∷ rest,
  rw (append_assoc (escape_all s) (34 ∷ []) rest),
  parse_string-escape_all f start [] s rest h,
)

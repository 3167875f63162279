-- ===== src/Json/RoundTrip.antt =====
-- server/libjson.hpp: parseValue at the text of one key, string, number, element or member.
use mathlib.Core.List.{append_assoc, append-nil}
use monitor_queue.Prelude.{
  ℕ, zero, suc, ◌≤◌, ◌<◌, ◌≡◌, refl, sym, ap, ◌∙◌, subst, Bool, true, false, [], ◌∷◌, ◌++◌, arith,
  Str, length, All, bytes,
}
use monitor_queue.Json.Value.{
  Value, null, object, array, string, number, bool, Values, Members, set,
}
use monitor_queue.Json.Chars.{
  Parsed, parsed, bind, Kind, nul, space, close_bracket, numeric, fails, invalid_key, kind, plain,
  string_kind, parse_string, drop,
}
use monitor_queue.Json.Parse.{
  seek_key, seek_sep, seek_val, seek_end, seek_item, seek_comma, push_value, parse_number,
  parse_value, parse_object, parse_array,
}
use monitor_queue.Json.Print.{escape_all, str_to_string, print_value}
use monitor_queue.Json.Strings.{printed, is_printed, parse_string-escape_all}
use monitor_queue.Json.Plain.{stops, ReadsBack, IsKey, IsPlain}

printed-same : (s : Str) → All (λ c. is_printed c ≡ true) s → printed s ≡ s
unfolding printed
printed-same [] h = refl
printed-same (c ∷ s) h = rw h.0 (ap (◌∷◌ c) (printed-same s h.1))

parse_string-plain :
    (f c : ℕ) (start value cs : Str)
    → string_kind c ≡ plain
    → parse_string (suc f) start value (c ∷ cs) ≡ parse_string f start (value ++ c ∷ []) cs
unfolding parse_string
parse_string-plain f c start value cs h = ground arith

-- A key is written and read with no escape.
parse_string-key :
    (f : ℕ) (start value k rest : Str)
    → length k < f
    → All (λ c. string_kind c ≡ plain) k
    → parse_string f start value (k ++ 34 ∷ rest) ≡ parsed (value ++ k) rest
unfolding parse_string string_kind
parse_string-key zero start value k rest h a = absurd (omega arith)
parse_string-key (suc f) start value [] rest h a = rw (append-nil value)
parse_string-key (suc f) start value (c ∷ k) rest h a =
    parse_string-plain f c start value (k ++ 34 ∷ rest) a.0
    ∙ parse_string-key f start (value ++ c ∷ []) k rest (omega arith) a.1
    ∙ ap (λ x. parsed x rest) (append_assoc value (c ∷ []) k)

drop-length : (s cs : Str) → drop (length s) (s ++ cs) ≡ cs
drop-length [] cs = refl
drop-length (c ∷ s) cs = drop-length s cs

-- The kinds of character at which the loops hand over to `parseValue`, a value's first among them.
abbrev opens : Kind → Bool
opens nul = false
opens space = false
opens close_bracket = false
opens k = true

module _ (strtod : Str → ℕ × ℕ) (dtoa : ℕ → Str) where
  seek_val-opens :
      (f : ℕ) (start key : Str) (ms : Members) (c : ℕ) (cs : Str)
      → opens (kind c) ≡ true
      → parse_object strtod (suc f) seek_val start key ms (c ∷ cs)
        ≡ bind
            (parse_value strtod f (c ∷ cs) (c ∷ cs))
            (λ v rest. parse_object strtod f seek_end start key (set key v ms) rest)
  unfolding parse_object
  seek_val-opens f start key ms c cs h = ground arith

  seek_item-opens :
      (f : ℕ) (start : Str) (vs : Values) (c : ℕ) (cs : Str)
      → opens (kind c) ≡ true
      → parse_array strtod (suc f) seek_item start vs (c ∷ cs)
        ≡ bind
            (parse_value strtod f (c ∷ cs) (c ∷ cs))
            (λ v rest. parse_array strtod f seek_comma start (push_value vs v) rest)
  unfolding parse_array
  seek_item-opens f start vs c cs h = ground arith

  print_value-opens :
      (v : Value)
      → IsPlain strtod dtoa v
      → (c : ℕ) × (cs : Str) × (print_value dtoa v ≡ c ∷ cs) × (opens (kind c) ≡ true)
  unfolding print_value str_to_string kind IsPlain
  print_value-opens null p = (b'n', bytes "ull", refl, refl)
  print_value-opens (object ms) p = (b'{', _, refl, refl)
  print_value-opens (array vs) p = (b'[', _, refl, refl)
  print_value-opens (string s) p = (34, _, refl, refl)
  print_value-opens (number n) p = (p.head, p.rest, p.prints, ap opens p.is_number)
  print_value-opens (bool true) p = (b't', bytes "rue", refl, refl)
  print_value-opens (bool false) p = (b'f', bytes "alse", refl, refl)

  parse_value-numeric :
      (f : ℕ) (start : Str) (c : ℕ) (cs : Str)
      → kind c ≡ numeric
      → parse_value strtod (suc f) start (c ∷ cs) ≡ parse_number strtod (c ∷ cs)
  unfolding parse_value
  parse_value-numeric f start c cs h = ground arith

  pub parse_value-number :
      (f n : ℕ) (start rest : Str)
      → ReadsBack strtod dtoa n
      → stops rest ≡ true
      → parse_value strtod (suc f) start (dtoa n ++ rest) ≡ parsed (number n) rest
  unfolding parse_number
  parse_value-number f n start rest p h =
      let whole : strtod (p.head ∷ p.rest ++ rest) ≡ (n, length (p.head ∷ p.rest)) =
        subst (λ x. strtod (x ++ rest) ≡ (n, length x)) p.prints (p.reads rest h) in
      subst (λ x. parse_value strtod (suc f) start (x ++ rest) ≡ parsed (number n) rest)
        (sym p.prints)
        (parse_value-numeric f start p.head (p.rest ++ rest) p.is_number
          ∙ ap (λ (r : ℕ × ℕ). parsed (number r.0) (drop r.1 (p.head ∷ p.rest ++ rest))) whole
          ∙ ap (parsed (number n)) (drop-length (p.head ∷ p.rest) rest))

  pub parse_value-string :
      (f : ℕ) (start s rest : Str)
      → length s < f
      → All (λ c. is_printed c ≡ true) s
      → parse_value strtod (suc f) start (str_to_string s ++ rest) ≡ parsed (string s) rest
  unfolding parse_value kind str_to_string
  parse_value-string f start s rest h a =
      rw
        (
          append_assoc (escape_all s) (34 ∷ []) rest,
          parse_string-escape_all f (escape_all s ++ 34 ∷ rest) [] s rest h,
          printed-same s a,
        )
        refl

  -- A value that is read where a loop looks for one.
  pub item_round :
      (f : ℕ) (start : Str) (us : Values) (v : Value) (cs : Str)
      → IsPlain strtod dtoa v
      → ((s : Str) → parse_value strtod f s (print_value dtoa v ++ cs) ≡ parsed v cs)
      → parse_array strtod (suc f) seek_item start us (print_value dtoa v ++ cs)
        ≡ parse_array strtod f seek_comma start (push_value us v) cs
  item_round f start us v cs p ih =
      let (c, t, e, o) = print_value-opens v p in
      let ih' : (s : Str) → parse_value strtod f s (c ∷ t ++ cs) ≡ parsed v cs =
        subst (λ x. (s : Str) → parse_value strtod f s (x ++ cs) ≡ parsed v cs) e ih in
      subst
        (λ x.
          parse_array strtod (suc f) seek_item start us (x ++ cs)
          ≡ parse_array strtod f seek_comma start (push_value us v) cs)
        (sym e)
        (seek_item-opens f start us c (t ++ cs) o
          ∙ ap
              (λ r. bind r (λ v rest. parse_array strtod f seek_comma start (push_value us v) rest))
              (ih' (c ∷ t ++ cs)))

  val_round :
      (f : ℕ) (start key : Str) (ms : Members) (v : Value) (cs : Str)
      → IsPlain strtod dtoa v
      → ((s : Str) → parse_value strtod f s (print_value dtoa v ++ cs) ≡ parsed v cs)
      → parse_object strtod (suc f) seek_val start key ms (print_value dtoa v ++ cs)
        ≡ parse_object strtod f seek_end start key (set key v ms) cs
  val_round f start key ms v cs p ih =
      let (c, t, e, o) = print_value-opens v p in
      let ih' : (s : Str) → parse_value strtod f s (c ∷ t ++ cs) ≡ parsed v cs =
        subst (λ x. (s : Str) → parse_value strtod f s (x ++ cs) ≡ parsed v cs) e ih in
      subst
        (λ x.
          parse_object strtod (suc f) seek_val start key ms (x ++ cs)
          ≡ parse_object strtod f seek_end start key (set key v ms) cs)
        (sym e)
        (seek_val-opens f start key ms c (t ++ cs) o
          ∙ ap
              (λ r. bind r (λ v rest. parse_object strtod f seek_end start key (set key v ms) rest))
              (ih' (c ∷ t ++ cs)))

  -- A key, its colon and its value.
  pub member_round :
      (f : ℕ) (start key : Str) (ms : Members) (k : Str) (v : Value) (cs : Str)
      → IsKey k
      → length k ≤ f
      → IsPlain strtod dtoa v
      → ((s : Str) → parse_value strtod f s (print_value dtoa v ++ cs) ≡ parsed v cs)
      → parse_object strtod
          (suc (suc (suc f)))
          seek_key
          start
          key
          ms
          (34 ∷ (k ++ (34 ∷ b':' ∷ (print_value dtoa v ++ cs))))
        ≡ parse_object strtod f seek_end start k (set k v ms) cs
  unfolding parse_object kind
  member_round f start key ms [] v cs p h q ih = absurd (p.0 refl)
  member_round f start key ms (x ∷ xs) v cs p h q ih =
      let k = x ∷ xs in
      let tail = b':' ∷ (print_value dtoa v ++ cs) in
      let text = k ++ (34 ∷ tail) in
      let go : Str → Str → Parsed Members = λ k rest. elim k [
        | [] ↦ fails invalid_key (34 ∷ rest)
        | y ∷ ys ↦ parse_object strtod (suc (suc f)) seek_sep start (y ∷ ys) ms rest
      ] in
      ap (λ (r : Parsed Str). bind r go)
        (parse_string-key (suc (suc f)) text [] k tail (omega arith) p.1)
      ∙ val_round f start k ms v cs q ih

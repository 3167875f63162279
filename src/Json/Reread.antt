-- ===== src/Json/Reread.antt =====
-- server/libjson.hpp: fromString at a text that toString wrote.
use mathlib.Core.List.{append-nil}
use monitor_queue.Prelude.{
  ℕ, suc, ◌+◌, ◌*◌, ◌≤◌, ◌≡◌, refl, ap, ◌∙◌, subst, Bool, true, false, [], ◌∷◌, ◌++◌, arith, Str,
  length, length-append, All, bytes,
}
use monitor_queue.Json.Value.{
  Value, null, object, array, string, number, bool, Values, nil, cons, Members, end, member,
  returns,
}
use monitor_queue.Json.Chars.{Parsed, parsed, fails, out_of_fuel, bind, kind}
use monitor_queue.Json.Parse.{
  seek_key, seek_item, seek_beg, seek_obj_end, seek_arr_end, parse_value, parse_object, parse_array,
  parse_text, text_fuel, from_string,
}
use monitor_queue.Json.Print.{
  escape_char, escape_all, str_to_string, print_value, print_values, print_members,
}
use monitor_queue.Json.Strings.{is_printed}
use monitor_queue.Json.Plain.{
  IsPlain, AllPlain, Loads, ArePlain-Loads, cost, load_members, cost_values, cost_members,
}
use monitor_queue.Json.Whole.{parse_value-print_value, parse_object-print_members}

length-escape_char : (c : ℕ) → is_printed c ≡ true → 1 ≤ length (escape_char c)
unfolding escape_char
length-escape_char c h = ground arith

length-escape_all : (s : Str) → All (λ c. is_printed c ≡ true) s → length s ≤ length (escape_all s)
unfolding escape_all
length-escape_all [] h = omega arith
length-escape_all (c ∷ s) h = omega (
  arith,
  length-append (escape_char c) (escape_all s),
  length-escape_char c h.0,
  length-escape_all s h.1,
)

-- The parts of an end, with a value to stand where there is none.
abbrev text_left {ℓ} : {A : Type ℓ} → Parsed A → Str
text_left (parsed a rest) = rest
text_left (fails msg at) = []
text_left out_of_fuel = []

abbrev value_of : Value → Parsed Value → Value
value_of v (parsed a rest) = a
value_of v (fails msg at) = v
value_of v out_of_fuel = v

-- What an end behind a wrapping of its value was before it.
bind-parsed :
    {A : Type 0} (w : A → Value) (r : Parsed A) (v : Value) (rest : Str)
    → bind r (λ a rest. parsed (w a) rest) ≡ parsed v rest
    → (a : A) × (r ≡ parsed a rest) × (w a ≡ v)
bind-parsed w (parsed a t) v rest e = (a, ap (parsed a) (ap text_left e), ap (value_of v) e)
bind-parsed w (fails msg at) v rest e = absurd (ground arith)
bind-parsed w out_of_fuel v rest e = absurd (ground arith)

-- What a text may hold at its top.
abbrev pub is_document : Value → Bool
is_document (object ms) = true
is_document (array vs) = true
is_document v = false

module _ (strtod : Str → ℕ × ℕ) (dtoa : ℕ → Str) where
  mutual
    unfolding Loads print_value cost IsPlain str_to_string

    cost-print_value :
        (v : Value) → IsPlain strtod dtoa v → cost v ≤ 3 * length (print_value dtoa v)
    cost-print_value null p = omega arith
    cost-print_value (bool true) p = omega arith
    cost-print_value (bool false) p = omega arith
    cost-print_value (number n) p = omega (arith, ap length p.prints)
    cost-print_value (string s) p =
        omega (arith, length-append (escape_all s) (34 ∷ []), length-escape_all s p)
    cost-print_value (array nil) p = omega arith
    cost-print_value (array (cons v vs)) p =
        let more = print_values dtoa (bytes ",") vs in
        omega (
          arith,
          length-append (print_value dtoa v ++ more) (b']' ∷ []),
          length-append (print_value dtoa v) more,
          cost-print_value v p.0,
          cost-print_values vs p.1,
        )
    cost-print_value (object ms) p = omega (
      arith,
      length-append (print_members dtoa [] ms) (b'}' ∷ []),
      cost-print_members ms [] (ArePlain-Loads strtod dtoa ms p),
    )

    cost-print_values :
        (vs : Values)
        → AllPlain strtod dtoa vs
        → cost_values vs ≤ 1 + 3 * length (print_values dtoa (bytes ",") vs)
    cost-print_values nil p = omega arith
    cost-print_values (cons v vs) p = omega (
      arith,
      length-append (print_value dtoa v) (print_values dtoa (bytes ",") vs),
      cost-print_value v p.0,
      cost-print_values vs p.1,
    )

    cost-print_members :
        (ms : Members) (lead : Str)
        → Loads strtod dtoa ms
        → cost_members ms ≤ 1 + 3 * length (print_members dtoa lead ms)
    cost-print_members end lead p = omega arith
    cost-print_members (member k v ms) lead p =
        let more = print_members dtoa (bytes ",") ms in
        let body = 34 ∷ b':' ∷ print_value dtoa v in
        let e : length (print_members dtoa lead (member k v ms))
            ≡ length (lead ++ (34 ∷ k) ++ body) + length more =
          length-append (lead ++ (34 ∷ k) ++ body) more in
        omega (
          arith,
          e,
          length-append (lead ++ (34 ∷ k)) body,
          length-append lead (34 ∷ k),
          cost-print_value v p.1,
          cost-print_members ms (bytes ",") p.2,
        )

  parse_text-object :
      (f : ℕ) (cs : Str) (v : Value)
      → parse_value strtod (suc (suc f)) [] (b'{' ∷ cs) ≡ parsed v []
      → parse_text strtod (suc (suc f)) seek_beg null (b'{' ∷ cs) ≡ parsed v []
  unfolding parse_text parse_value kind
  parse_text-object f cs v h =
      let (ms, r, e) =
        bind-parsed object (parse_object strtod (suc f) seek_key cs [] end cs) v [] h in
      ap (λ x. bind x (λ ms rest. parse_text strtod (suc f) seek_obj_end (object ms) rest)) r
      ∙ ap (λ w. parsed w []) e

  from_string-parsed :
      (cs : Str) (v : Value) (f : ℕ)
      → suc (suc f) ≡ text_fuel cs
      → parse_text strtod (suc (suc f)) seek_beg null cs ≡ parsed v []
      → from_string strtod cs ≡ returns v
  unfolding from_string
  from_string-parsed cs v f e h =
      rw (subst (λ x. parse_text strtod x seek_beg null cs ≡ parsed v []) e h, from_string) refl

  -- The same for members in whatever order, and with keys that may come twice: `m_map[key]` puts them
  -- in their order, and keeps the last of each.
  pub from_string-print_members :
      (ms : Members)
      → Loads strtod dtoa ms
      → from_string strtod (print_value dtoa (object ms)) ≡ returns (object (load_members end ms))
  unfolding print_value parse_text kind
  from_string-print_members ms p =
      let text = print_value dtoa (object ms) in
      let body = print_members dtoa [] ms ++ b'}' ∷ [] in
      let f : ℕ = 3 * length text + 2 in
      let e : suc (suc f) ≡ text_fuel text = omega arith in
      let le : cost_members ms ≤ suc f =
        omega (
          arith,
          length-append (print_members dtoa [] ms) (b'}' ∷ []),
          cost-print_members ms [] p,
        ) in
      let r : parse_object strtod (suc f) seek_key body [] end body
          ≡ parsed (load_members end ms) [] =
        subst
          (λ x.
            parse_object strtod (suc f) seek_key body [] end x ≡ parsed (load_members end ms) [])
          (append-nil body) (parse_object-print_members strtod dtoa ms (suc f) body [] p le) in
      from_string-parsed text (object (load_members end ms)) f e
        (ap (λ x. bind x (λ ms rest. parse_text strtod (suc f) seek_obj_end (object ms) rest)) r)

  parse_text-array :
      (f : ℕ) (cs : Str) (v : Value)
      → parse_value strtod (suc (suc f)) [] (b'[' ∷ cs) ≡ parsed v []
      → parse_text strtod (suc (suc f)) seek_beg null (b'[' ∷ cs) ≡ parsed v []
  unfolding parse_text parse_value kind
  parse_text-array f cs v h =
      let (vs, r, e) = bind-parsed array (parse_array strtod (suc f) seek_item cs nil cs) v [] h in
      ap (λ x. bind x (λ vs rest. parse_text strtod (suc f) seek_arr_end (array vs) rest)) r
      ∙ ap (λ w. parsed w []) e

  -- The whole text of a value, with the fuel of `fromString`.
  parse_value-whole :
      (v : Value) (f : ℕ)
      → suc (suc f) ≡ text_fuel (print_value dtoa v)
      → IsPlain strtod dtoa v
      → parse_value strtod (suc (suc f)) [] (print_value dtoa v) ≡ parsed v []
  parse_value-whole v f e p =
      subst (λ x. parse_value strtod (suc (suc f)) [] x ≡ parsed v [])
        (append-nil (print_value dtoa v))
        (parse_value-print_value strtod dtoa v (suc (suc f)) [] [] p
          (omega (arith, cost-print_value v p)) refl)

  pub from_string-print_value :
      (v : Value)
      → is_document v ≡ true
      → IsPlain strtod dtoa v
      → from_string strtod (print_value dtoa v) ≡ returns v
  unfolding print_value
  from_string-print_value null d p = absurd (ground arith)
  from_string-print_value (string s) d p = absurd (ground arith)
  from_string-print_value (number n) d p = absurd (ground arith)
  from_string-print_value (bool b) d p = absurd (ground arith)
  from_string-print_value (object ms) d p =
      let text = print_value dtoa (object ms) in
      let f : ℕ = 3 * length text + 2 in
      let e : suc (suc f) ≡ text_fuel text = omega arith in
      from_string-parsed text (object ms) f e
        (parse_text-object f _ (object ms) (parse_value-whole (object ms) f e p))
  from_string-print_value (array vs) d p =
      let text = print_value dtoa (array vs) in
      let f : ℕ = 3 * length text + 2 in
      let e : suc (suc f) ≡ text_fuel text = omega arith in
      from_string-parsed text (array vs) f e
        (parse_text-array f _ (array vs) (parse_value-whole (array vs) f e p))

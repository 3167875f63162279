-- ===== src/Json/Total.antt =====
-- server/libjson.hpp: the fuel of parseValue, parseObject, parseArray and fromString. They take
-- three units for each character, and up to three for their states.
use monitor_queue.Prelude.{
  ℕ, zero, suc, ◌+◌, ◌*◌, ◌≤◌, ◌≡◌, refl, ◌⊎◌, inl, inr, true, false, [], ◌∷◌, arith, Str, length,
  bytes,
}
use monitor_queue.Json.Value.{
  Value, null, object, array, string, bool, Values, Members, end, nil, set,
}
use monitor_queue.Json.Chars.{
  Parsed, parsed, fails, out_of_fuel, parse_string, read_literal, invalid_key,
}
use monitor_queue.Json.Parse.{
  ObjectState, seek_key, seek_sep, seek_val, seek_end, ArrayState, seek_item, seek_comma, TextState,
  seek_beg, seek_obj_end, seek_arr_end, seek_nothing, push_value, parse_number, parse_value,
  parse_object, parse_array, parse_text, text_fuel,
}
use monitor_queue.Json.Fuel.{Ends, bind-Ends, Ends-le, length-drop, parse_string-Ends}

read_literal-Ends {ℓ} :
    {A : Type ℓ} (n : ℕ) (a : A) (at word cs : Str)
    → length cs ≤ n
    → Ends n (read_literal a at word cs)
unfolding read_literal
read_literal-Ends n a at [] cs h = h
read_literal-Ends n a at (w ∷ word) [] h = tt
read_literal-Ends n a at (w ∷ word) (c ∷ cs) h =
    ground (arith, read_literal-Ends n a at word cs (omega arith))

keyed-Ends {ℓ} :
    {A : Type ℓ} (n : ℕ) (k : Str) (bad : Parsed A) (f : ℕ → Str → Parsed A)
    → Ends n bad
    → ((x : ℕ) (xs : Str) → Ends n (f x xs))
    → Ends n (elim k [ [] ↦ bad | x ∷ xs ↦ f x xs ])
keyed-Ends n [] bad f b h = b
keyed-Ends n (x ∷ xs) bad f b h = h x xs

ended {ℓ} :
    {A : Type ℓ} (n : ℕ) (r : Parsed A)
    → Ends n r
    → ((a : A) × (rest : Str) × (r ≡ parsed a rest)) ⊎ ((msg at : Str) × (r ≡ fails msg at))
ended n (parsed a rest) h = inl (a, rest, refl)
ended n (fails msg at) h = inr (msg, at, refl)
ended n out_of_fuel h = absurd h

-- What a state may still need beyond its characters.
abbrev object_fuel : ObjectState → ℕ
object_fuel seek_end = 1
object_fuel st = 3

abbrev array_fuel : ArrayState → ℕ
array_fuel seek_comma = 1
array_fuel st = 3

module _ (strtod : Str → ℕ × ℕ) where
  -- `n` bounds what is left.
  mutual
    unfolding parse_value parse_number

    parse_value-Ends :
        (f n : ℕ) (start cs : Str)
        → length cs ≤ n
        → 3 * length cs + 2 ≤ f
        → Ends n (parse_value strtod f start cs)
    parse_value-Ends zero n start cs b h = absurd (omega arith)
    parse_value-Ends (suc f) n start [] b h = tt
    parse_value-Ends (suc f) n start (c ∷ cs) b h = ground (
      arith,
      length-drop (strtod (c ∷ cs)).1 (c ∷ cs),
      parse_value-Ends f n start cs (omega arith) (omega arith),
      read_literal-Ends n (bool true) (c ∷ cs) (bytes "rue") cs (omega arith),
      read_literal-Ends n (bool false) (c ∷ cs) (bytes "alse") cs (omega arith),
      read_literal-Ends n null (c ∷ cs) (bytes "ull") cs (omega arith),
      bind-Ends n n (parse_object strtod f seek_key cs [] end cs)
          (λ ms rest. parsed (object ms) rest)
          (parse_object-Ends f n seek_key cs [] end cs (omega arith) (omega arith))
          (λ ms rest k. k),
      bind-Ends n n (parse_array strtod f seek_item cs nil cs) (λ vs rest. parsed (array vs) rest)
          (parse_array-Ends f n seek_item cs nil cs (omega arith) (omega arith)) (λ vs rest k. k),
      bind-Ends n n (parse_string f cs [] cs) (λ s rest. parsed (string s) rest)
          (Ends-le (length cs) n (parse_string f cs [] cs) (omega arith)
            (parse_string-Ends f cs [] cs (omega arith)))
          (λ s rest k. k),
    )

    parse_object-Ends :
        (f n : ℕ) (st : ObjectState) (start key : Str) (ms : Members) (cs : Str)
        → length cs ≤ n
        → 3 * length cs + object_fuel st ≤ f
        → Ends n (parse_object strtod f st start key ms cs)
    parse_object-Ends zero n seek_key start key ms cs b h = absurd (omega arith)
    parse_object-Ends zero n seek_sep start key ms cs b h = absurd (omega arith)
    parse_object-Ends zero n seek_val start key ms cs b h = absurd (omega arith)
    parse_object-Ends zero n seek_end start key ms cs b h = absurd (omega arith)
    parse_object-Ends (suc f) n st start key ms [] b h = tt
    parse_object-Ends (suc f) n seek_key start key ms (c ∷ cs) b h =
        let s =
          bind-Ends (length cs) n (parse_string f cs [] cs)
            (λ k rest. elim k [
              | [] ↦ fails invalid_key (c ∷ rest)
              | x ∷ xs ↦ parse_object strtod f seek_sep start (x ∷ xs) ms rest
            ])
            (parse_string-Ends f cs [] cs (omega arith))
            (λ k rest le.
              keyed-Ends n k (fails invalid_key (c ∷ rest))
                (λ x xs. parse_object strtod f seek_sep start (x ∷ xs) ms rest) tt
                (λ x xs.
                  parse_object-Ends f n seek_sep start (x ∷ xs) ms rest (omega arith)
                    (omega arith))) in
        ground
          (arith, s, parse_object-Ends f n seek_key start key ms cs (omega arith) (omega arith))
    parse_object-Ends (suc f) n seek_sep start key ms (c ∷ cs) b h = ground (
      arith,
      parse_object-Ends f n seek_val start key ms cs (omega arith) (omega arith),
      parse_object-Ends f n seek_sep start key ms cs (omega arith) (omega arith),
    )
    parse_object-Ends (suc f) n seek_val start key ms (c ∷ cs) b h =
        let v =
          bind-Ends (suc (length cs)) n (parse_value strtod f (c ∷ cs) (c ∷ cs))
            (λ v rest. parse_object strtod f seek_end start key (set key v ms) rest)
            (parse_value-Ends f (suc (length cs)) (c ∷ cs) (c ∷ cs) (omega arith) (omega arith))
            (λ v rest le.
              parse_object-Ends f n seek_end start key (set key v ms) rest (omega arith)
                (omega arith)) in
        ground
          (arith, v, parse_object-Ends f n seek_val start key ms cs (omega arith) (omega arith))
    parse_object-Ends (suc f) n seek_end start key ms (c ∷ cs) b h = ground (
      arith,
      parse_object-Ends f n seek_key start key ms cs (omega arith) (omega arith),
      parse_object-Ends f n seek_end start key ms cs (omega arith) (omega arith),
    )

    parse_array-Ends :
        (f n : ℕ) (st : ArrayState) (start : Str) (vs : Values) (cs : Str)
        → length cs ≤ n
        → 3 * length cs + array_fuel st ≤ f
        → Ends n (parse_array strtod f st start vs cs)
    parse_array-Ends zero n seek_item start vs cs b h = absurd (omega arith)
    parse_array-Ends zero n seek_comma start vs cs b h = absurd (omega arith)
    parse_array-Ends (suc f) n st start vs [] b h = tt
    parse_array-Ends (suc f) n seek_item start vs (c ∷ cs) b h =
        let v =
          bind-Ends (suc (length cs)) n (parse_value strtod f (c ∷ cs) (c ∷ cs))
            (λ v rest. parse_array strtod f seek_comma start (push_value vs v) rest)
            (parse_value-Ends f (suc (length cs)) (c ∷ cs) (c ∷ cs) (omega arith) (omega arith))
            (λ v rest le.
              parse_array-Ends f n seek_comma start (push_value vs v) rest (omega arith)
                (omega arith)) in
        ground (arith, v, parse_array-Ends f n seek_item start vs cs (omega arith) (omega arith))
    parse_array-Ends (suc f) n seek_comma start vs (c ∷ cs) b h = ground (
      arith,
      parse_array-Ends f n seek_item start vs cs (omega arith) (omega arith),
      parse_array-Ends f n seek_comma start vs cs (omega arith) (omega arith),
    )

  parse_text-Ends :
      (f n : ℕ) (st : TextState) (v : Value) (cs : Str)
      → length cs ≤ n
      → 3 * length cs + 3 ≤ f
      → Ends n (parse_text strtod f st v cs)
  unfolding parse_text
  parse_text-Ends zero n st v cs b h = absurd (omega arith)
  parse_text-Ends (suc f) n st v [] b h = b
  parse_text-Ends (suc f) n seek_beg v (c ∷ cs) b h =
      let o =
        bind-Ends (length cs) n (parse_object strtod f seek_key cs [] end cs)
          (λ ms rest. parse_text strtod f seek_obj_end (object ms) rest)
          (parse_object-Ends f (length cs) seek_key cs [] end cs (omega arith) (omega arith))
          (λ ms rest k.
            parse_text-Ends f n seek_obj_end (object ms) rest (omega arith) (omega arith)) in
      let a =
        bind-Ends (length cs) n (parse_array strtod f seek_item cs nil cs)
          (λ vs rest. parse_text strtod f seek_arr_end (array vs) rest)
          (parse_array-Ends f (length cs) seek_item cs nil cs (omega arith) (omega arith))
          (λ vs rest k.
            parse_text-Ends f n seek_arr_end (array vs) rest (omega arith) (omega arith)) in
      ground (arith, o, a, parse_text-Ends f n seek_beg v cs (omega arith) (omega arith))
  parse_text-Ends (suc f) n seek_obj_end v (c ∷ cs) b h = ground (
    arith,
    parse_text-Ends f n seek_obj_end v cs (omega arith) (omega arith),
    parse_text-Ends f n seek_nothing v cs (omega arith) (omega arith),
  )
  parse_text-Ends (suc f) n seek_arr_end v (c ∷ cs) b h = ground (
    arith,
    parse_text-Ends f n seek_arr_end v cs (omega arith) (omega arith),
    parse_text-Ends f n seek_nothing v cs (omega arith) (omega arith),
  )
  parse_text-Ends (suc f) n seek_nothing v (c ∷ cs) b h =
      ground (arith, parse_text-Ends f n seek_nothing v cs (omega arith) (omega arith))

  -- Whatever the text, and whatever `strtod` reads of it, the parser comes to a value or to a
  -- `ParseError` within the fuel that `fromString` is given.
  pub parse_text-total :
      (cs : Str)
      → ((v : Value) × (rest : Str) × (parse_text strtod (text_fuel cs) seek_beg null cs
            ≡ parsed v rest))
        ⊎ ((msg at : Str) × (parse_text strtod (text_fuel cs) seek_beg null cs ≡ fails msg at))
  parse_text-total cs =
      ended (length cs) _
        (parse_text-Ends (text_fuel cs) (length cs) seek_beg null cs (omega arith) (omega arith))

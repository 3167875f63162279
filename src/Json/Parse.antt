-- ===== src/Json/Parse.antt =====
-- server/libjson.hpp, parseObject, parseArray, parseValue, parseNumber and fromString. `strtod`, of
-- the C library, is a parameter: the double that a text begins with, and how many characters it
-- takes. A call costs one unit of fuel, and so does each character.
use monitor_queue.Prelude.{
  ℕ, zero, suc, ◌+◌, ◌-◌, ◌*◌, true, false, [], ◌∷◌, ◌++◌, Str, bytes, length, to_string,
}
use monitor_queue.Json.Value.{
  Value, null, object, array, string, number, bool, Values, nil, cons, Members, end, set, Outcome,
  returns, throws,
}
use monitor_queue.Json.Chars.{
  Parsed, parsed, fails, out_of_fuel, bind, invalid_char, unterminated_array, unterminated_object,
  unterminated_value, invalid_key, kind, nul, space, open_brace, close_brace, open_bracket,
  close_bracket, quote, colon, comma, letter_t, letter_f, letter_n, numeric, parse_string,
  read_literal, drop,
}

-- The states of `parseObject`, `parseArray` and `fromString`
pub data ObjectState : Type 0 where
  seek_key seek_sep seek_val seek_end : ObjectState

pub data ArrayState : Type 0 where
  seek_item seek_comma : ArrayState

pub data TextState : Type 0 where
  seek_beg seek_obj_end seek_arr_end seek_nothing : TextState

-- a_parent.m_value.a->push_back( value )
unfoldable pub push_value : Values → Value → Values
push_value nil v = cons v nil
push_value (cons w vs) v = cons w (push_value vs v)

-- The fuel that `fromString` is given.
abbrev pub text_fuel : Str → ℕ
text_fuel cs = 3 * length cs + 4

module _ (strtod : Str → ℕ × ℕ) where
  -- Value::parseNumber
  unfoldable pub parse_number : Str → Parsed Value
  parse_number cs = let (n, taken) = strtod cs in parsed (number n) (drop taken cs)

  unfoldable mutual
    -- Value::parseValue
    pub parse_value : ℕ → Str → Str → Parsed Value
    parse_value zero start cs = out_of_fuel
    parse_value (suc f) start [] = fails unterminated_value start
    parse_value (suc f) start (c ∷ cs) = elim (kind c) [
      | nul ↦ fails unterminated_value start
      | open_brace ↦ bind (parse_object f seek_key cs [] end cs) λ ms rest. parsed (object ms) rest
      | open_bracket ↦ bind (parse_array f seek_item cs nil cs) λ vs rest. parsed (array vs) rest
      | quote ↦ bind (parse_string f cs [] cs) λ s rest. parsed (string s) rest
      | letter_t ↦ read_literal (bool true) (c ∷ cs) (bytes "rue") cs
      | letter_f ↦ read_literal (bool false) (c ∷ cs) (bytes "alse") cs
      | letter_n ↦ read_literal null (c ∷ cs) (bytes "ull") cs
      | numeric ↦ parse_number (c ∷ cs)
      | space ↦ parse_value f start cs
      | _ ↦ fails invalid_char (c ∷ cs)
    ]

    -- Value::parseObject; `start` is its argument, `key` and `ms` its local state. The value of a
    -- repeated key is replaced; that the old one is not deleted is in `parse_into` of Json/Cell.
    pub parse_object : ℕ → ObjectState → Str → Str → Members → Str → Parsed Members
    parse_object zero st start key ms cs = out_of_fuel
    parse_object (suc f) st start key ms [] = fails unterminated_object start
    parse_object (suc f) seek_key start key ms (c ∷ cs) = elim (kind c) [
      | nul ↦ fails unterminated_object start
      | close_brace ↦ parsed ms cs
      | quote ↦ bind (parse_string f cs [] cs) λ k rest. elim k [
        | [] ↦ fails invalid_key (c ∷ rest)
        | x ∷ xs ↦ parse_object f seek_sep start (x ∷ xs) ms rest
      ]
      | space ↦ parse_object f seek_key start key ms cs
      | _ ↦ fails invalid_char (c ∷ cs)
    ]
    parse_object (suc f) seek_sep start key ms (c ∷ cs) = elim (kind c) [
      | nul ↦ fails unterminated_object start
      | colon ↦ parse_object f seek_val start key ms cs
      | space ↦ parse_object f seek_sep start key ms cs
      | _ ↦ fails invalid_char (c ∷ cs)
    ]
    parse_object (suc f) seek_val start key ms (c ∷ cs) = elim (kind c) [
      | nul ↦ fails unterminated_object start
      | space ↦ parse_object f seek_val start key ms cs
      | _ ↦
          bind (parse_value f (c ∷ cs) (c ∷ cs))
            λ v rest. parse_object f seek_end start key (set key v ms) rest
    ]
    parse_object (suc f) seek_end start key ms (c ∷ cs) = elim (kind c) [
      | nul ↦ fails unterminated_object start
      | comma ↦ parse_object f seek_key start key ms cs
      | close_brace ↦ parsed ms cs
      | space ↦ parse_object f seek_end start key ms cs
      | _ ↦ fails invalid_char (c ∷ cs)
    ]

    -- Value::parseArray
    pub parse_array : ℕ → ArrayState → Str → Values → Str → Parsed Values
    parse_array zero st start vs cs = out_of_fuel
    parse_array (suc f) st start vs [] = fails unterminated_array start
    parse_array (suc f) seek_item start vs (c ∷ cs) = elim (kind c) [
      | nul ↦ fails unterminated_array start
      | close_bracket ↦ parsed vs cs
      | space ↦ parse_array f seek_item start vs cs
      | _ ↦
          bind (parse_value f (c ∷ cs) (c ∷ cs))
            λ v rest. parse_array f seek_comma start (push_value vs v) rest
    ]
    parse_array (suc f) seek_comma start vs (c ∷ cs) = elim (kind c) [
      | nul ↦ fails unterminated_array start
      | comma ↦ parse_array f seek_item start vs cs
      | close_bracket ↦ parsed vs cs
      | space ↦ parse_array f seek_comma start vs cs
      | _ ↦ fails invalid_char (c ∷ cs)
    ]

  -- The loop of `fromString`; `v` is what the value holds
  unfoldable pub parse_text : ℕ → TextState → Value → Str → Parsed Value
  parse_text zero st v cs = out_of_fuel
  parse_text (suc f) st v [] = parsed v []
  parse_text (suc f) seek_beg v (c ∷ cs) = elim (kind c) [
    | nul ↦ parsed v (c ∷ cs)
    | open_brace ↦
        bind (parse_object f seek_key cs [] end cs)
          λ ms rest. parse_text f seek_obj_end (object ms) rest
    | open_bracket ↦
        bind (parse_array f seek_item cs nil cs)
          λ vs rest. parse_text f seek_arr_end (array vs) rest
    | space ↦ parse_text f seek_beg v cs
    | _ ↦ fails invalid_char (c ∷ cs)
  ]
  parse_text (suc f) seek_obj_end v (c ∷ cs) = elim (kind c) [
    | nul ↦ parsed v (c ∷ cs)
    | close_brace ↦ parse_text f seek_nothing v cs
    | space ↦ parse_text f seek_obj_end v cs
    | _ ↦ fails invalid_char (c ∷ cs)
  ]
  parse_text (suc f) seek_arr_end v (c ∷ cs) = elim (kind c) [
    | nul ↦ parsed v (c ∷ cs)
    | close_bracket ↦ parse_text f seek_nothing v cs
    | space ↦ parse_text f seek_arr_end v cs
    | _ ↦ fails invalid_char (c ∷ cs)
  ]
  parse_text (suc f) seek_nothing v (c ∷ cs) = elim (kind c) [
    | nul ↦ parsed v (c ∷ cs)
    | space ↦ parse_text f seek_nothing v cs
    | _ ↦ fails invalid_char (c ∷ cs)
  ]

  -- Value::fromString of a value that is null, with ParseError::what
  unfoldable pub from_string : Str → Outcome Value
  from_string cs = elim (parse_text (text_fuel cs) seek_beg null cs) [
    | parsed v rest ↦ returns v
    | fails msg at ↦ throws (msg ++ bytes " at position " ++ to_string (length cs - length at))
    | out_of_fuel ↦ throws []
  ]

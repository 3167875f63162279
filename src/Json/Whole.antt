-- ===== src/Json/Whole.antt =====
-- server/libjson.hpp: the loops of the parser over what the loops of the printer write.
use mathlib.Core.List.{append_assoc}
use monitor_queue.Prelude.{
  ℕ, zero, suc, ◌-◌, ◌≤◌, ◌≡◌, refl, sym, ap, ◌∙◌, subst, true, false, [], ◌∷◌, ◌++◌, arith, Str,
  bytes,
}
use monitor_queue.Json.Value.{
  Value, null, object, array, string, number, bool, Values, nil, cons, Members, end, member, set,
}
use monitor_queue.Json.Chars.{parsed, bind, kind, read_literal}
use monitor_queue.Json.Parse.{
  seek_key, seek_end, seek_item, seek_comma, push_value, parse_value, parse_object, parse_array,
}
use monitor_queue.Json.Print.{print_value, print_values, print_members}
use monitor_queue.Json.Plain.{
  stops, IsPlain, AllPlain, ArePlain, Loads, ArePlain-Loads, cost, cost_values, cost_members,
  load_values, load_members, load_values-nil, load_members-end, Ascending,
}
use monitor_queue.Json.RoundTrip.{parse_value-number, parse_value-string, item_round, member_round}

abbrev values_rest : (ℕ → Str) → Values → Str → Str
values_rest dtoa vs rest = print_values dtoa (bytes ",") vs ++ b']' ∷ rest

abbrev members_rest : (ℕ → Str) → Members → Str → Str
members_rest dtoa ms rest = print_members dtoa (bytes ",") ms ++ b'}' ∷ rest

module _ (strtod : Str → ℕ × ℕ) (dtoa : ℕ → Str) where
  stops-values_rest : (vs : Values) (rest : Str) → stops (values_rest dtoa vs rest) ≡ true
  unfolding print_values
  stops-values_rest nil rest = refl
  stops-values_rest (cons v vs) rest = refl

  stops-members_rest : (ms : Members) (rest : Str) → stops (members_rest dtoa ms rest) ≡ true
  unfolding print_members
  stops-members_rest end rest = refl
  stops-members_rest (member k v ms) rest = refl

  -- What is written of elements and members, with what follows put at the end.
  values_rest-cons :
      (v : Value) (vs : Values) (rest : Str)
      → values_rest dtoa (cons v vs) rest ≡ b',' ∷ (print_value dtoa v ++ values_rest dtoa vs rest)
  unfolding print_values
  values_rest-cons v vs rest =
      ap (◌∷◌ b',')
        (append_assoc (print_value dtoa v) (print_values dtoa (bytes ",") vs) (b']' ∷ rest))

  member_text :
      (k : Str) (v : Value) (ms : Members) (rest : Str)
      → k ++ (34 ∷ b':' ∷ print_value dtoa v) ++ print_members dtoa (bytes ",") ms ++ rest
        ≡ k ++ (34 ∷ b':' ∷ (print_value dtoa v ++ (print_members dtoa (bytes ",") ms ++ rest)))
  member_text k v ms rest =
      let b = 34 ∷ b':' ∷ print_value dtoa v in
      let m = print_members dtoa (bytes ",") ms in
      append_assoc (k ++ b) m rest ∙ append_assoc k b (m ++ rest)

  members_rest-member :
      (k : Str) (v : Value) (ms : Members) (rest : Str)
      → members_rest dtoa (member k v ms) rest
        ≡ b',' ∷ 34 ∷ (k ++ (34 ∷ b':' ∷ (print_value dtoa v ++ members_rest dtoa ms rest)))
  unfolding print_members
  members_rest-member k v ms rest = ap (λ x. b',' ∷ 34 ∷ x) (member_text k v ms (b'}' ∷ rest))

  object_text :
      (k : Str) (v : Value) (ms : Members) (rest : Str)
      → print_members dtoa [] (member k v ms) ++ (b'}' ∷ []) ++ rest
        ≡ 34 ∷ (k ++ (34 ∷ b':' ∷ (print_value dtoa v ++ members_rest dtoa ms rest)))
  unfolding print_members
  object_text k v ms rest =
      append_assoc (print_members dtoa [] (member k v ms)) (b'}' ∷ []) rest
      ∙ ap (◌∷◌ 34) (member_text k v ms (b'}' ∷ rest))

  ArePlain-Ascending : (ms : Members) → ArePlain strtod dtoa ms → Ascending ms
  unfolding ArePlain
  ArePlain-Ascending end p = tt
  ArePlain-Ascending (member k v ms) p = (p.1, ArePlain-Ascending ms p.3)

  array_text :
      (v : Value) (vs : Values) (rest : Str)
      → print_values dtoa [] (cons v vs) ++ (b']' ∷ []) ++ rest
        ≡ print_value dtoa v ++ values_rest dtoa vs rest
  unfolding print_values
  array_text v vs rest =
      append_assoc (print_values dtoa [] (cons v vs)) (b']' ∷ []) rest
      ∙ append_assoc (print_value dtoa v) (print_values dtoa (bytes ",") vs) (b']' ∷ rest)

  mutual
    unfolding Loads print_value cost IsPlain load_values load_members parse_value kind read_literal

    pub parse_value-print_value :
        (v : Value) (f : ℕ) (start rest : Str)
        → IsPlain strtod dtoa v
        → cost v ≤ f
        → stops rest ≡ true
        → parse_value strtod f start (print_value dtoa v ++ rest) ≡ parsed v rest
    parse_value-print_value null zero start rest p c h = absurd (omega arith)
    parse_value-print_value null (suc f) start rest p c h = refl
    parse_value-print_value (bool b) zero start rest p c h = absurd (omega arith)
    parse_value-print_value (bool true) (suc f) start rest p c h = refl
    parse_value-print_value (bool false) (suc f) start rest p c h = refl
    parse_value-print_value (number n) zero start rest p c h = absurd (omega arith)
    parse_value-print_value (number n) (suc f) start rest p c h =
        parse_value-number strtod dtoa f n start rest p h
    parse_value-print_value (string s) zero start rest p c h = absurd (omega arith)
    parse_value-print_value (string s) (suc f) start rest p c h =
        parse_value-string strtod dtoa f start s rest (omega arith) p
    parse_value-print_value (array vs) zero start rest p c h = absurd (omega arith)
    parse_value-print_value (array nil) (suc zero) start rest p c h = absurd (omega arith)
    parse_value-print_value (array nil) (suc (suc f)) start rest p c h = refl
    parse_value-print_value (array (cons v vs)) (suc zero) start rest p c h = absurd (omega arith)
    parse_value-print_value (array (cons v vs)) (suc (suc f)) start rest p c h =
        let t = print_value dtoa v ++ values_rest dtoa vs rest in
        subst
          (λ x.
            bind (parse_array strtod (suc f) seek_item x nil x) (λ vs rest. parsed (array vs) rest)
            ≡ parsed (array (cons v vs)) rest)
          (sym (array_text v vs rest))
          (ap (λ r. bind r (λ vs rest. parsed (array vs) rest))
              (item_round strtod dtoa f t nil v (values_rest dtoa vs rest) p.0 (λ s.
                  parse_value-print_value v f s (values_rest dtoa vs rest) p.0 (omega arith)
                    (stops-values_rest vs rest))
                ∙ parse_array-values_rest vs f t (push_value nil v) rest p.1 (omega arith))
            ∙ ap (λ us. parsed (array us) rest) (load_values-nil (cons v vs)))
    parse_value-print_value (object ms) zero start rest p c h = absurd (omega arith)
    parse_value-print_value (object ms) (suc f) start rest p c h =
        ap (λ r. bind r (λ ms rest. parsed (object ms) rest))
          (parse_object-print_members ms f (print_members dtoa [] ms ++ (b'}' ∷ []) ++ rest) rest
            (ArePlain-Loads strtod dtoa ms p) (omega arith))
        ∙ ap (λ ls. parsed (object ls) rest) (load_members-end ms (ArePlain-Ascending ms p))

    pub parse_object-print_members :
        (ms : Members) (f : ℕ) (start rest : Str)
        → Loads strtod dtoa ms
        → cost_members ms ≤ f
        → parse_object strtod f seek_key start [] end
            (print_members dtoa [] ms ++ (b'}' ∷ []) ++ rest)
          ≡ parsed (load_members end ms) rest
    parse_object-print_members end zero start rest p c = absurd (omega arith)
    parse_object-print_members end (suc f) start rest p c = refl
    parse_object-print_members (member k v ms) f start rest p c =
        let g : ℕ = f - 3 in
        let e : suc (suc (suc g)) ≡ f = omega arith in
        subst
          (λ x.
            parse_object strtod f seek_key start [] end x
            ≡ parsed (load_members (set k v end) ms) rest)
          (sym (object_text k v ms rest))
          (subst
            (λ x.
              parse_object strtod x seek_key start [] end
                (34 ∷ (k ++ (34 ∷ b':' ∷ (print_value dtoa v ++ members_rest dtoa ms rest))))
              ≡ parsed (load_members (set k v end) ms) rest)
            e
            (member_round strtod dtoa g start [] end k v (members_rest dtoa ms rest) p.0
                (omega arith) p.1
                (λ s.
                  parse_value-print_value v g s (members_rest dtoa ms rest) p.1 (omega arith)
                    (stops-members_rest ms rest))
              ∙ parse_object-members_rest ms g start k (set k v end) rest p.2 (omega arith)))

    parse_array-values_rest :
        (vs : Values) (f : ℕ) (start : Str) (us : Values) (rest : Str)
        → AllPlain strtod dtoa vs
        → cost_values vs ≤ f
        → parse_array strtod f seek_comma start us (values_rest dtoa vs rest)
          ≡ parsed (load_values us vs) rest
    parse_array-values_rest nil zero start us rest p c = absurd (omega arith)
    parse_array-values_rest nil (suc f) start us rest p c = refl
    parse_array-values_rest (cons v vs) f start us rest p c =
        let g : ℕ = f - 2 in
        let e : suc (suc g) ≡ f = omega arith in
        subst
          (λ x.
            parse_array strtod x seek_comma start us (values_rest dtoa (cons v vs) rest)
            ≡ parsed (load_values (push_value us v) vs) rest)
          e
          (subst
            (λ t.
              parse_array strtod (suc (suc g)) seek_comma start us t
              ≡ parsed (load_values (push_value us v) vs) rest)
            (sym (values_rest-cons v vs rest))
            (item_round strtod dtoa g start us v (values_rest dtoa vs rest) p.0 (λ s.
                parse_value-print_value v g s (values_rest dtoa vs rest) p.0 (omega arith)
                  (stops-values_rest vs rest))
              ∙ parse_array-values_rest vs g start (push_value us v) rest p.1 (omega arith)))

    parse_object-members_rest :
        (ms : Members) (f : ℕ) (start key : Str) (ls : Members) (rest : Str)
        → Loads strtod dtoa ms
        → cost_members ms ≤ f
        → parse_object strtod f seek_end start key ls (members_rest dtoa ms rest)
          ≡ parsed (load_members ls ms) rest
    parse_object-members_rest end zero start key ls rest p c = absurd (omega arith)
    parse_object-members_rest end (suc f) start key ls rest p c = refl
    parse_object-members_rest (member k v ms) f start key ls rest p c =
        let g : ℕ = f - 4 in
        let e : suc (suc (suc (suc g))) ≡ f = omega arith in
        subst
          (λ x.
            parse_object strtod x seek_end start key ls (members_rest dtoa (member k v ms) rest)
            ≡ parsed (load_members (set k v ls) ms) rest)
          e
          (subst
            (λ t.
              parse_object strtod (suc (suc (suc (suc g)))) seek_end start key ls t
              ≡ parsed (load_members (set k v ls) ms) rest)
            (sym (members_rest-member k v ms rest))
            (member_round strtod dtoa g start key ls k v (members_rest dtoa ms rest) p.0
                (omega arith) p.1
                (λ s.
                  parse_value-print_value v g s (members_rest dtoa ms rest) p.1 (omega arith)
                    (stops-members_rest ms rest))
              ∙ parse_object-members_rest ms g start k (set k v ls) rest p.2 (omega arith)))

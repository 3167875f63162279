-- ===== src/Client/Numbers.antt =====
-- server/mqclient.cpp: `std::stoi` of what `std::to_string` writes.
use monitor_queue.Prelude.{
  ℕ, zero, suc, ◌+◌, ◌-◌, ◌*◌, ◌/◌, ◌%◌, ◌^◌, ◌<◌, ◌≡◌, refl, sym, ap, ◌∙◌, true, false, [], ◌∷◌,
  arith, Str, to_string, dec_digits, ltb, leb, ◌==◌, if_cases, Bool-cases, inl, inr,
}
use monitor_queue.Json.Value.{returns}
use monitor_queue.Client.Defs.{
  is_space, is_numeral, read_numerals, skip_spaces, stoi_digits, stoi_signed, stoi,
}

read_numerals-digit :
    (a d : ℕ) (cs : Str) → d < 10 → read_numerals a ((48 + d) ∷ cs) ≡ read_numerals (a * 10 + d) cs
unfolding read_numerals
read_numerals-digit a d cs lt =
    let t : is_numeral (48 + d) ≡ true = ground arith in
    let e : 48 + d - 48 ≡ d = omega arith in rw (t, e) refl

read_numerals-dec_digits :
    (f n : ℕ) (acc : Str) → n < f → read_numerals 0 (dec_digits f n acc) ≡ read_numerals n acc
unfolding dec_digits
read_numerals-dec_digits zero n acc lt = absurd (omega arith)
read_numerals-dec_digits (suc f) n acc lt = elim (Bool-cases (ltb n 10)) [
  | inl y ↦
      let e : 0 * 10 + n % 10 ≡ n = ground arith in
      rw y (read_numerals-digit 0 (n % 10) acc (omega arith) ∙ ap (λ k. read_numerals k acc) e)
  | inr y ↦
      let e : n / 10 * 10 + n % 10 ≡ n = omega arith in
      rw y (
        read_numerals-dec_digits f (n / 10) ((48 + n % 10) ∷ acc) (ground arith)
        ∙ read_numerals-digit (n / 10) (n % 10) acc (omega arith)
        ∙ ap (λ k. read_numerals k acc) e)
]

pub read_numerals-to_string : (n : ℕ) → read_numerals 0 (to_string n) ≡ n
unfolding to_string read_numerals
read_numerals-to_string n = read_numerals-dec_digits (suc n) n [] (omega arith)

-- Two numbers that are written alike are the same.
pub to_string_injective : (m n : ℕ) → to_string m ≡ to_string n → m ≡ n
to_string_injective m n e =
    sym (read_numerals-to_string m) ∙ ap (read_numerals 0) e ∙ read_numerals-to_string n

abbrev pub Leads : Str → Type 0
Leads [] = ⊥
Leads (c ∷ cs) = is_numeral c ≡ true

dec_digits-Leads : (f n : ℕ) (acc : Str) → Leads acc → Leads (dec_digits f n acc)
unfolding dec_digits
dec_digits-Leads zero n acc h = h
dec_digits-Leads (suc f) n acc h =
    let d : is_numeral (48 + n % 10) ≡ true = ground arith in
    if_cases Leads (ltb n 10) (λ _. d) (λ _. dec_digits-Leads f (n / 10) ((48 + n % 10) ∷ acc) d)

pub to_string-Leads : (n : ℕ) → Leads (to_string n)
unfolding to_string dec_digits
to_string-Leads n =
    let d : is_numeral (48 + n % 10) ≡ true = ground arith in
    if_cases Leads (ltb n 10) (λ _. d) (λ _. dec_digits-Leads n (n / 10) ((48 + n % 10) ∷ []) d)

stoi-Leads : (s : Str) → Leads s → read_numerals 0 s < 2 ^ 31 → stoi s ≡ returns (read_numerals 0 s)
unfolding stoi skip_spaces stoi_signed stoi_digits
stoi-Leads [] h lt = absurd h
stoi-Leads (c ∷ cs) h lt =
    let s : is_space c ≡ false = ground arith in
    let m : (c == b'-') ≡ false = ground arith in
    let p : (c == b'+') ≡ false = ground arith in
    let t : leb (read_numerals 0 (c ∷ cs)) (2 ^ 31 - 1) ≡ true = ground arith in
    rw (s, m, p, h, t) refl

pub stoi-to_string : (n : ℕ) → n < 2 ^ 31 → stoi (to_string n) ≡ returns n
stoi-to_string n lt =
    let e = read_numerals-to_string n in
    stoi-Leads (to_string n) (to_string-Leads n) (omega (arith, e)) ∙ ap returns e

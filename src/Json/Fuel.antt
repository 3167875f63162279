-- ===== src/Json/Fuel.antt =====
-- server/libjson.hpp: the fuel of the functions that read characters and strings.
use monitor_queue.Prelude.{ℕ, zero, suc, ◌+◌, ◌*◌, ◌≤◌, ◌<◌, [], ◌∷◌, ◌++◌, arith, Str, length}
use monitor_queue.Json.Chars.{
  Parsed, parsed, fails, out_of_fuel, bind, tail, to_hex, utf8, read_unicode, read_escape,
  parse_string, drop,
}

-- An end, with at most `n` characters left if it is a value.
abbrev pub Ends {ℓ} : {A : Type ℓ} → ℕ → Parsed A → Type 0
Ends n (parsed a rest) = length rest ≤ n
Ends n (fails msg at) = Unit
Ends n out_of_fuel = ⊥

pub bind-Ends {ℓ κ} :
    {A : Type ℓ} {B : Type κ} (n m : ℕ) (r : Parsed A) (f : A → Str → Parsed B)
    → Ends n r
    → ((a : A) (rest : Str) → length rest ≤ n → Ends m (f a rest))
    → Ends m (bind r f)
bind-Ends n m (parsed a rest) f h k = k a rest h
bind-Ends n m (fails msg at) f h k = tt
bind-Ends n m out_of_fuel f h k = absurd h

pub Ends-le {ℓ} : {A : Type ℓ} (n m : ℕ) (r : Parsed A) → n ≤ m → Ends n r → Ends m r
Ends-le n m (parsed a rest) h k = omega arith
Ends-le n m (fails msg at) h k = tt
Ends-le n m out_of_fuel h k = k

length-tail : (cs : Str) → length (tail cs) ≤ length cs
length-tail [] = omega arith
length-tail (c ∷ cs) = omega arith

pub length-drop : (n : ℕ) (cs : Str) → length (drop n cs) ≤ length cs
length-drop zero cs = omega arith
length-drop (suc n) [] = omega arith
length-drop (suc n) (c ∷ cs) = omega (arith, length-drop n cs)

to_hex-Ends : (cs : Str) → Ends (length cs) (to_hex cs)
unfolding to_hex
to_hex-Ends cs = ground (arith, length-tail cs)

utf8-Ends : (u : ℕ) (at rest : Str) → Ends (length rest) (utf8 u at rest)
unfolding utf8
utf8-Ends u at rest = ground arith

read_unicode-Ends : (at cs : Str) → Ends (length cs) (read_unicode at cs)
unfolding read_unicode
read_unicode-Ends at cs = bind-Ends (length cs) _ (to_hex cs) _ (to_hex-Ends cs) λ a cs1 h1.
    bind-Ends (length cs) _ (to_hex cs1) _ (Ends-le _ _ _ h1 (to_hex-Ends cs1)) λ b cs2 h2.
      bind-Ends (length cs) _ (to_hex cs2) _ (Ends-le _ _ _ h2 (to_hex-Ends cs2)) λ c cs3 h3.
        bind-Ends (length cs) _ (to_hex cs3) _ (Ends-le _ _ _ h3 (to_hex-Ends cs3))
          λ d cs4 h4. Ends-le _ _ _ h4 (utf8-Ends (a * 4096 + b * 256 + c * 16 + d) at cs4)

read_escape-Ends : (at cs : Str) → Ends (length cs) (read_escape at cs)
unfolding read_escape
read_escape-Ends at cs =
    let u =
      Ends-le _ (length cs) (read_unicode at (tail cs)) (length-tail cs)
        (read_unicode-Ends at (tail cs)) in
    ground (arith, u, length-tail cs)

pub parse_string-Ends :
    (f : ℕ) (start value cs : Str)
    → length cs < f
    → Ends (length cs) (parse_string f start value cs)
unfolding parse_string
parse_string-Ends zero start value cs h = absurd (omega arith)
parse_string-Ends (suc f) start value [] h = tt
parse_string-Ends (suc f) start value (c ∷ cs) h =
    let esc =
      bind-Ends (length cs) (suc (length cs)) (read_escape (c ∷ cs) cs)
        (λ b rest. parse_string f start (value ++ b) rest) (read_escape-Ends (c ∷ cs) cs)
        (λ b rest k.
          Ends-le _ _ (parse_string f start (value ++ b) rest) (omega arith)
            (parse_string-Ends f start (value ++ b) rest (omega arith))) in
    let more =
      Ends-le _ (suc (length cs)) (parse_string f start (value ++ c ∷ []) cs) (omega arith)
        (parse_string-Ends f start (value ++ c ∷ []) cs (omega arith)) in
    ground (arith, esc, more)

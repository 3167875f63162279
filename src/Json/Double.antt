-- ===== src/Json/Double.antt =====
-- server/libjson.hpp, Value: the conversions of integers to doubles, and the comparison of doubles.
-- A double is the number that its 64 bits make. An integer of up to 53 bits is exact, a longer one is
-- rounded to the nearest double, and to an even one between two.
use native.Mathlib.Nat.{div-eq_of_eq-mul_left, mul_assoc, mul_comm}
use monitor_queue.Prelude.{
  ℕ, zero, suc, ◌+◌, ◌-◌, ◌*◌, ◌/◌, ◌%◌, ◌^◌, ◌≤◌, ◌<◌, ◌≡◌, refl, sym, ap, ◌∙◌, if_cases, subst,
  Bool-cases, inl, inr, Bool, true, not, ◌&&◌, ◌||◌, arith, ltb, ◌==◌, if◌then◌else◌,
}
use monitor_queue.Json.Value.{integer_part}

-- A number that is doubled until it has 53 bits, and how often.
unfoldable pub normalize : ℕ → ℕ → ℕ × ℕ
normalize zero n = (n, 0)
normalize (suc f) n =
    let (m, k) = normalize f (2 * n) in if ltb n (2 ^ 52) then (m, suc k) else (n, 0)

-- A number that is halved until it has 53 bits: how often, which is at least `k`.
unfoldable pub excess : ℕ → ℕ → ℕ → ℕ
excess zero k n = k
excess (suc f) k n = let more = excess f (suc k) n in if ltb (n / 2 ^ k) (2 ^ 53) then k else more

-- The quotient of `n` by a power of two, rounded.
unfoldable pub round_off : ℕ → ℕ → ℕ
round_off n p =
    let r : ℕ = 2 * (n % p) in
    if ltb p r || ((r == p) && (n / p % 2 == 1)) then n / p + 1 else n / p

-- (double)n of a `size_t`
unfoldable pub to_double : ℕ → ℕ
unfolding normalize excess round_off
to_double n =
    let (m, k) = normalize 52 n in
    let j : ℕ = excess 11 1 n in
    if n == 0
    then 0
    else (if ltb n (2 ^ 53)
        then (1075 - k) * 2 ^ 52 + (m - 2 ^ 52)
        else (1075 + j) * 2 ^ 52 + (round_off n (2 ^ j) - 2 ^ 52))

-- (double)n of an `int`, from its sign and its absolute value
unfoldable pub int_to_double : Bool → ℕ → ℕ
unfolding to_double
int_to_double negative n = if negative && not (n == 0) then 2 ^ 63 + to_double n else to_double n

-- a == b of doubles: never for a NaN, and 0 is -0
unfoldable pub double_eq : ℕ → ℕ → Bool
double_eq a b =
    let magnitude : ℕ = a % 2 ^ 63 in
    not (ltb (2047 * 2 ^ 52) magnitude) && ((a == b) || ((magnitude == 0) && (b % 2 ^ 63 == 0)))

power_suc : (k : ℕ) → 2 ^ suc k ≡ 2 * 2 ^ k
power_suc k = omega arith

power_pos : (k : ℕ) → 0 < 2 ^ k
power_pos zero = omega arith
power_pos (suc k) = omega (arith, power_suc k, power_pos k)

shift_once : (n p q : ℕ) → q ≡ 2 * p → n * q ≡ 2 * n * p
shift_once n p q e = rw (e, sym (mul_assoc n 2 p)) (ap (λ x. x * p) (mul_comm n 2))

-- A number below 2⁵³ is only shifted, into the 53 bits if it gets that far.
normalize_lem :
    (f n : ℕ)
    → n < 2 ^ 53
    → let (m, k) = normalize f n in
      (m ≡ n * 2 ^ k) × (m < 2 ^ 53) × (k ≤ f) × (2 ^ 52 ≤ n * 2 ^ f → 2 ^ 52 ≤ m)
unfolding normalize
normalize_lem zero n h = (omega arith, h, omega arith, λ u. omega arith)
normalize_lem (suc f) n h =
    if_cases
      (λ (r : ℕ × ℕ).
        (r.0 ≡ n * 2 ^ r.1)
        × (r.0 < 2 ^ 53)
        × (r.1 ≤ suc f)
        × (2 ^ 52 ≤ n * 2 ^ suc f → 2 ^ 52 ≤ r.0))
      (ltb n (2 ^ 52))
      (λ t.
        let small : n < 2 ^ 52 = ground arith in
        let (e, lt, le, full) = normalize_lem f (2 * n) (omega arith) in
        let k : ℕ = (normalize f (2 * n)).1 in
        (
          e ∙ sym (shift_once n (2 ^ k) (2 ^ suc k) (power_suc k)),
          lt,
          omega arith,
          λ u. full (omega (arith, shift_once n (2 ^ f) (2 ^ suc f) (power_suc f))),
        ))
      (λ t. (omega arith, h, omega arith, λ u. ground arith))

abbrev small_bits : ℕ → ℕ
small_bits n = let (m, k) = normalize 52 n in (1075 - k) * 2 ^ 52 + (m - 2 ^ 52)

to_double-small : (i : ℕ) → suc i < 2 ^ 53 → to_double (suc i) ≡ small_bits (suc i)
unfolding to_double
to_double-small i h =
    if_cases (λ (x : ℕ). (if suc i == 0 then 0 else x) ≡ small_bits (suc i)) (ltb (suc i) (2 ^ 53))
      (λ t. ground arith) (λ t. absurd (ground arith))

integer_part_lem :
    (b k m : ℕ)
    → b / 2 ^ 52 % 2 ^ 11 ≡ 1075 - k
    → 2 ^ 52 + b % 2 ^ 52 ≡ m
    → k ≤ 52
    → integer_part b ≡ m / 2 ^ k
unfolding integer_part
integer_part_lem b zero m e f h = rw (e, f, integer_part) (omega arith)
integer_part_lem b (suc k) m e f h =
    let x : 1075 - (1075 - suc k) ≡ suc k = omega arith in
    rw (e, f, integer_part) (ground (arith, ap (λ (t : ℕ). m / 2 ^ t) x))

-- An integer of up to 53 bits that becomes a double, and an integer again, is itself.
pub integer_part-to_double : (n : ℕ) → n < 2 ^ 53 → integer_part (to_double n) ≡ n
unfolding to_double integer_part
integer_part-to_double zero h = refl
integer_part-to_double (suc i) h =
    let n : ℕ = suc i in
    let m : ℕ = (normalize 52 n).0 in
    let k : ℕ = (normalize 52 n).1 in
    let (e, lt, le, full) = normalize_lem 52 n h in
    let big : 2 ^ 52 ≤ m = full (omega arith) in
    let bits : ℕ = (1075 - k) * 2 ^ 52 + (m - 2 ^ 52) in
    let exponent : bits / 2 ^ 52 % 2 ^ 11 ≡ 1075 - k = omega arith in
    let mantissa : 2 ^ 52 + bits % 2 ^ 52 ≡ m = omega arith in
    let quotient : m / 2 ^ k ≡ n = div-eq_of_eq-mul_left (power_pos k) e in
    rw (to_double-small i h) (integer_part_lem bits k m exponent mantissa le ∙ quotient)

to_double-bound : (n : ℕ) → n < 2 ^ 53 → to_double n < 1076 * 2 ^ 52
unfolding to_double
to_double-bound zero h = omega arith
to_double-bound (suc i) h =
    let (e, lt, le, full) = normalize_lem 52 (suc i) h in omega (arith, to_double-small i h)

double_eq_refl : (b : ℕ) → b ≤ 2047 * 2 ^ 52 → double_eq b b ≡ true
unfolding double_eq
double_eq_refl b h = ground arith

double_eq-eq : (a b : ℕ) → a < 2 ^ 63 → b < 2 ^ 63 → double_eq a b ≡ true → a ≡ b
unfolding double_eq
double_eq-eq a b h k e = ground arith

-- Integers of up to 53 bits are equal as doubles exactly when they are.
pub double_eq-to_double :
    (m n : ℕ) → m < 2 ^ 53 → n < 2 ^ 53 → double_eq (to_double m) (to_double n) ≡ (m == n)
double_eq-to_double m n h k = elim (Bool-cases (m == n)) [
  | inl y ↦
      let e : m ≡ n = ground arith in
      subst (λ n. double_eq (to_double m) (to_double n) ≡ (m == n)) e
        (double_eq_refl (to_double m) (omega (arith, to_double-bound m h)) ∙ ground arith)
  | inr y ↦ elim (Bool-cases (double_eq (to_double m) (to_double n))) [
    | inl t ↦
        let same =
          double_eq-eq (to_double m) (to_double n) (omega (arith, to_double-bound m h))
            (omega (arith, to_double-bound n k)) t in
        let e : m ≡ n =
          sym (integer_part-to_double m h) ∙ ap integer_part same ∙ integer_part-to_double n k in
        absurd (ground (arith, e))
    | inr t ↦ t ∙ sym y
  ]
]

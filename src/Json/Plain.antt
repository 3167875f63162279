-- ===== src/Json/Plain.antt =====
-- server/libjson.hpp: the values whose text, as toString writes it, is read again as it was meant.
use monitor_queue.Prelude.{
  ℕ, ◌+◌, ◌≡◌, ◌≢◌, refl, sym, ap, ◌∙◌, Bool, true, false, ◌||◌, [], ◌∷◌, ◌++◌, arith, Str, length,
  All, ◌==◌, str_eq, str_lt, str_lt_trans, str_lt_irrefl, str_eq_iff,
}
use monitor_queue.Json.Value.{
  Value, null, object, array, string, number, bool, Values, nil, cons, Members, end, member, set,
}
use monitor_queue.Json.Chars.{numeric, kind, plain, string_kind, first}
use monitor_queue.Json.Parse.{push_value}
use monitor_queue.Json.Strings.{is_printed}

-- What stands behind a value in a text: the end, a comma or a closing bracket.
abbrev pub stops : Str → Bool
stops cs = (first cs == 0) || ((first cs == b',') || ((first cs == b']') || (first cs == b'}')))

-- A double that `strtod` reads back from what the printer writes of it, which begins like a number.
pub record ReadsBack (strtod : Str → ℕ × ℕ) (dtoa : ℕ → Str) (n : ℕ) : Type 0 where
  pub head : ℕ
  pub rest : Str
  pub prints : dtoa n ≡ head ∷ rest
  pub is_number : kind head ≡ numeric
  pub reads : (cs : Str) → stops cs ≡ true → strtod (dtoa n ++ cs) ≡ (n, length (dtoa n))

-- A key of at least one character, none of which the parser treats specially.
abbrev pub IsKey : Str → Type 0
IsKey k = (k ≢ []) × All (λ c. string_kind c ≡ plain) k

abbrev pub Below : Str → Members → Type 0
Below k end = Unit
Below k (member j v ms) = str_lt k j ≡ true

module _ (strtod : Str → ℕ × ℕ) (dtoa : ℕ → Str) where
  -- Strings of characters that are printed, keys in their order, and doubles that are read back.
  unfoldable mutual
    pub IsPlain : Value → Type 0
    IsPlain null = Unit
    IsPlain (object ms) = ArePlain ms
    IsPlain (array vs) = AllPlain vs
    IsPlain (string s) = All (λ c. is_printed c ≡ true) s
    IsPlain (number n) = ReadsBack strtod dtoa n
    IsPlain (bool b) = Unit

    pub AllPlain : Values → Type 0
    AllPlain nil = Unit
    AllPlain (cons v vs) = IsPlain v × AllPlain vs

    pub ArePlain : Members → Type 0
    ArePlain end = Unit
    ArePlain (member k v ms) = IsKey k × Below k ms × IsPlain v × ArePlain ms

  -- Members that are read back, in whatever order.
  unfoldable pub Loads : Members → Type 0
  Loads end = Unit
  Loads (member k v ms) = IsKey k × IsPlain v × Loads ms

  pub ArePlain-Loads : (ms : Members) → ArePlain ms → Loads ms
  unfolding IsPlain Loads
  ArePlain-Loads end p = tt
  ArePlain-Loads (member k v ms) p = (p.0, p.2, ArePlain-Loads ms p.3)

-- The fuel that a value takes.
unfoldable mutual
  pub cost : Value → ℕ
  cost null = 1
  cost (object ms) = 1 + cost_members ms
  cost (array vs) = 1 + cost_values vs
  cost (string s) = 2 + length s
  cost (number n) = 1
  cost (bool b) = 1

  pub cost_values : Values → ℕ
  cost_values nil = 1
  cost_values (cons v vs) = 2 + cost v + cost_values vs

  pub cost_members : Members → ℕ
  cost_members end = 1
  cost_members (member k v ms) = 5 + length k + cost v + cost_members ms

-- What the loops of `parseArray` and `parseObject` make of elements and members, one by one.
unfoldable pub load_values : Values → Values → Values
load_values us nil = us
load_values us (cons v vs) = load_values (push_value us v) vs

unfoldable pub load_members : Members → Members → Members
load_members ls end = ls
load_members ls (member k v ms) = load_members (set k v ls) ms

abbrev join_values : Values → Values → Values
join_values nil vs = vs
join_values (cons u us) vs = cons u (join_values us vs)

join-push_value :
    (us vs : Values) (v : Value) → join_values (push_value us v) vs ≡ join_values us (cons v vs)
unfolding push_value
join-push_value nil vs v = refl
join-push_value (cons u us) vs v = ap (cons u) (join-push_value us vs v)

join_values-nil : (us : Values) → join_values us nil ≡ us
join_values-nil nil = refl
join_values-nil (cons u us) = ap (cons u) (join_values-nil us)

load_values-join : (us vs : Values) → load_values us vs ≡ join_values us vs
unfolding load_values
load_values-join us nil = sym (join_values-nil us)
load_values-join us (cons v vs) = load_values-join (push_value us v) vs ∙ join-push_value us vs v

pub load_values-nil : (vs : Values) → load_values nil vs ≡ vs
load_values-nil vs = load_values-join nil vs

abbrev join_members : Members → Members → Members
join_members end ms = ms
join_members (member k v ls) ms = member k v (join_members ls ms)

-- All keys of the first list are below the key.
abbrev Under : Str → Members → Type 0
Under k end = Unit
Under k (member j v ls) = (str_lt j k ≡ true) × Under k ls

lt_excludes : (j k : Str) → str_lt j k ≡ true → (str_lt k j ≡ false) × (str_eq j k ≡ false)
lt_excludes j k h = (
  ground (arith, str_lt_irrefl j, str_lt_trans j k j h),
  ground (arith, str_lt_irrefl k, str_eq_iff j k),
)

join-set :
    (k : Str) (v : Value) (ls ms : Members)
    → Under k ls
    → join_members (set k v ls) ms ≡ join_members ls (member k v ms)
unfolding set
join-set k v end ms h = refl
join-set k v (member j w ls) ms h =
    let (a, b) = lt_excludes j k h.0 in rw (a, b) (ap (member j w) (join-set k v ls ms h.1))

set-Under :
    (k : Str) (v : Value) (i : Str) (ls : Members)
    → str_lt k i ≡ true
    → Under i ls
    → Under i (set k v ls)
unfolding set
set-Under k v i end l h = (l, tt)
set-Under k v i (member j w ls) l h = ground (arith, set-Under k v i ls l h.1)

Under-trans : (k i : Str) (ls : Members) → str_lt k i ≡ true → Under k ls → Under i ls
Under-trans k i end l h = tt
Under-trans k i (member j w ls) l h = (str_lt_trans j k i h.0 l, Under-trans k i ls l h.1)

join_members-end : (ls : Members) → join_members ls end ≡ ls
join_members-end end = refl
join_members-end (member k v ls) = ap (member k v) (join_members-end ls)

-- Keys in their order.
abbrev pub Ascending : Members → Type 0
Ascending end = Unit
Ascending (member k v ms) = Below k ms × Ascending ms

abbrev AllUnder : Members → Members → Type 0
AllUnder ls end = Unit
AllUnder ls (member k v ms) = Under k ls

load_members-join :
    (ms ls : Members) → Ascending ms → AllUnder ls ms → load_members ls ms ≡ join_members ls ms
unfolding load_members
load_members-join end ls a u = sym (join_members-end ls)
load_members-join (member k v end) ls a u =
    sym (join_members-end (set k v ls)) ∙ join-set k v ls end u
load_members-join (member k v (member i w ms)) ls a u =
    load_members-join (member i w ms) (set k v ls) a.1
      (set-Under k v i ls a.0 (Under-trans k i ls a.0 u))
    ∙ join-set k v ls (member i w ms) u

pub load_members-end : (ms : Members) → Ascending ms → load_members end ms ≡ ms
load_members-end end a = load_members-join end end a tt
load_members-end (member k v ms) a = load_members-join (member k v ms) end a tt

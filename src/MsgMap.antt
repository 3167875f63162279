-- ===== src/MsgMap.antt =====
-- `std::map<std::string, T>` (server/Queue.hpp, `msg_map_t`) as an association list in the order of
-- its keys. `find`, `insert` and `erase` are the map operations that the program calls.
pub mod Order
pub mod Pointers
pub mod Keys
use monitor_queue.Prelude.{
  ◌≡◌, refl, ◌⊎◌, inl, inr, Bool, true, false, Option, none, some, List, [], ◌∷◌, arith, Str,
  str_eq, str_lt, str_eq_iff, if◌then◌else◌,
}

abbrev pub StrMap {ℓ} : Type ℓ → Type ℓ
StrMap V = List (Str × V)

module _ {ℓ} {V : Type ℓ} where
  -- m.find(k), with `none` for end()
  unfoldable pub find : Str → StrMap V → Option V
  find k [] = none
  find k ((j, v) ∷ m) = if str_eq j k then some v else find k m

  -- m[k] = v
  unfoldable pub insert : Str → V → StrMap V → StrMap V
  insert k v [] = (k, v) ∷ []
  insert k v ((j, w) ∷ m) =
      let rest = insert k v m in
      if str_lt k j then (k, v) ∷ (j, w) ∷ m else (if str_eq j k then (j, v) ∷ m else (j, w) ∷ rest)

  -- m.erase(m.find(k))
  unfoldable pub erase : Str → StrMap V → StrMap V
  erase k [] = []
  erase k ((j, v) ∷ m) = let rest = erase k m in if str_eq j k then m else (j, v) ∷ rest

  pub find-insert :
      (k j : Str) (v : V) (m : StrMap V)
      → find j (insert k v m) ≡ (if str_eq k j then some v else find j m)
  unfolding find insert
  find-insert k j v [] = refl
  find-insert k j v ((i, w) ∷ m) =
      ground (arith, str_eq_iff k j, str_eq_iff i k, str_eq_iff i j, find-insert k j v m)

  pub find-insert_self : (k : Str) (v : V) (m : StrMap V) → find k (insert k v m) ≡ some v
  find-insert_self k v m = ground (arith, find-insert k k v m, str_eq_iff k k)

  -- Erasing one key leaves every other.
  pub find-erase_ne :
      (k j : Str) (m : StrMap V) → str_eq k j ≡ false → find j (erase k m) ≡ find j m
  unfolding find erase
  find-erase_ne k j [] h = refl
  find-erase_ne k j ((i, w) ∷ m) h =
      ground (arith, str_eq_iff k j, str_eq_iff i k, str_eq_iff i j, find-erase_ne k j m h)

-- ===== src/MsgMap/Order.antt =====
-- `std::map` (server/Queue.hpp, `msg_map_t`): the order of the keys of a map.
use monitor_queue.Prelude.{
  ◌≡◌, refl, true, none, [], ◌∷◌, arith, Str, str_lt, str_eq_iff, str_lt_irrefl, str_lt_trans,
  str_lt-total,
}
use monitor_queue.MsgMap.{StrMap, find, insert, erase}

module _ {ℓ} {V : Type ℓ} where
  -- Every key of `m` comes after `k`.
  abbrev pub Above : Str → StrMap V → Type 0
  Above k [] = Unit
  Above k ((j, v) ∷ m) = (str_lt k j ≡ true) × Above k m

  abbrev pub IsOrdered : StrMap V → Type 0
  IsOrdered [] = Unit
  IsOrdered ((k, v) ∷ m) = Above k m × IsOrdered m

  Above-trans : (k j : Str) (m : StrMap V) → str_lt k j ≡ true → Above j m → Above k m
  Above-trans k j [] h a = tt
  Above-trans k j ((i, v) ∷ m) h a = (str_lt_trans k j i h a.0, Above-trans k j m h a.1)

  Above-insert :
      (i k : Str) (v : V) (m : StrMap V) → str_lt i k ≡ true → Above i m → Above i (insert k v m)
  unfolding insert
  Above-insert i k v [] h a = (h, tt)
  Above-insert i k v ((j, w) ∷ m) h a = ground (arith, Above-insert i k v m h a.1)

  pub insert-IsOrdered : (k : Str) (v : V) (m : StrMap V) → IsOrdered m → IsOrdered (insert k v m)
  unfolding insert
  insert-IsOrdered k v [] o = (tt, tt)
  insert-IsOrdered k v ((j, w) ∷ m) o = ground (
    arith,
    Above-trans k j m,
    insert-IsOrdered k v m o.1,
    Above-insert j k v m,
    str_lt-total k j,
    str_eq_iff k j,
    str_eq_iff j k,
  )

  Above-erase : (i k : Str) (m : StrMap V) → Above i m → Above i (erase k m)
  unfolding erase
  Above-erase i k [] a = tt
  Above-erase i k ((j, w) ∷ m) a = ground (arith, Above-erase i k m a.1)

  pub erase-IsOrdered : (k : Str) (m : StrMap V) → IsOrdered m → IsOrdered (erase k m)
  unfolding erase
  erase-IsOrdered k [] o = tt
  erase-IsOrdered k ((j, w) ∷ m) o = ground (arith, erase-IsOrdered k m o.1, Above-erase j k m o.0)

  find-Above : (k : Str) (m : StrMap V) → Above k m → find k m ≡ none
  unfolding find
  find-Above k [] a = refl
  find-Above k ((j, v) ∷ m) a = ground (arith, find-Above k m a.1, str_eq_iff j k, str_lt_irrefl k)

  -- An erased key is gone.
  pub find-erase_self : (k : Str) (m : StrMap V) → IsOrdered m → find k (erase k m) ≡ none
  unfolding find erase
  find-erase_self k [] o = refl
  find-erase_self k ((j, v) ∷ m) o =
      ground (arith, find-erase_self k m o.1, find-Above j m o.0, str_eq_iff j k)

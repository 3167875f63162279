-- ===== src/MsgMap/Keys.antt =====
-- `std::map` (server/Queue.hpp, `msg_map_t`): the addresses of a map and its keys.
use monitor_queue.Prelude.{
  ℕ, ◌≤◌, ◌≡◌, false, some, [], ◌∷◌, arith, Str, str_eq, str_eq_iff, str_lt_irrefl, count, ◌==◌,
  inl, inr, Bool-cases,
}
use monitor_queue.MsgMap.{StrMap, find}
use monitor_queue.MsgMap.Order.{IsOrdered, Above}
use monitor_queue.MsgMap.Pointers.{ptrs}

-- A key that is found is not below the others.
Above-find : (k j : Str) (p : ℕ) (m : StrMap ℕ) → Above k m → find j m ≡ some p → str_eq k j ≡ false
unfolding find
Above-find k j p [] a f = absurd (cc)
Above-find k j p ((i, w) ∷ m) a f =
    ground (arith, Above-find k j p m a.1, str_eq_iff i j, str_eq_iff k j, str_lt_irrefl k)

pub key_of :
    (p : ℕ) (m : StrMap ℕ) → IsOrdered m → 1 ≤ count p (ptrs m) → (k : Str) × (find k m ≡ some p)
unfolding find ptrs count
key_of p [] o c = absurd (omega arith)
key_of p ((k, w) ∷ m) o c = elim (Bool-cases (p == w)) [
  | inl y ↦ (k, ground (arith, str_eq_iff k k))
  | inr n ↦
      let (j, f) = key_of p m o.1 (ground arith) in (j, ground (arith, f, Above-find k j p m o.0 f))
]

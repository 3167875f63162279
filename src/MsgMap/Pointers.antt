-- ===== src/MsgMap/Pointers.antt =====
-- The pointers that a map of pointers holds, and how often each stands there.
use monitor_queue.Prelude.{
  ℕ, suc, ◌+◌, ◌≤◌, ◌≡◌, refl, false, none, some, List, [], ◌∷◌, arith, Str, length, count, bit,
  ◌==◌, str_eq, str_eq_iff,
}
use monitor_queue.MsgMap.{StrMap, find, insert, erase}

unfoldable pub ptrs : StrMap ℕ → List ℕ
ptrs [] = []
ptrs ((k, p) ∷ m) = p ∷ ptrs m

pub length-insert :
    (k : Str) (v : ℕ) (m : StrMap ℕ) → find k m ≡ none → length (insert k v m) ≡ suc (length m)
unfolding find insert
length-insert k v [] h = refl
length-insert k v ((j, w) ∷ m) h = ground (arith, length-insert k v m)

pub length-erase :
    (k : Str) (v : ℕ) (m : StrMap ℕ) → find k m ≡ some v → suc (length (erase k m)) ≡ length m
unfolding find erase
length-erase k v [] h = absurd (cc)
length-erase k v ((j, w) ∷ m) h = ground (arith, length-erase k v m)

pub count-ptrs-insert :
    (p : ℕ) (k : Str) (v : ℕ) (m : StrMap ℕ)
    → find k m ≡ none
    → count p (ptrs (insert k v m)) ≡ bit (p == v) + count p (ptrs m)
unfolding find insert ptrs count
count-ptrs-insert p k v [] h = refl
count-ptrs-insert p k v ((j, w) ∷ m) h = ground (arith, count-ptrs-insert p k v m)

pub count-ptrs-erase :
    (p : ℕ) (k : Str) (v : ℕ) (m : StrMap ℕ)
    → find k m ≡ some v
    → bit (p == v) + count p (ptrs (erase k m)) ≡ count p (ptrs m)
unfolding find erase ptrs count
count-ptrs-erase p k v [] h = absurd (cc)
count-ptrs-erase p k v ((j, w) ∷ m) h = ground (arith, count-ptrs-erase p k v m)

-- A pointer that is found stands in the map.
pub find-count : (k : Str) (v : ℕ) (m : StrMap ℕ) → find k m ≡ some v → 1 ≤ count v (ptrs m)
unfolding find ptrs count
find-count k v [] h = absurd (cc)
find-count k v ((j, w) ∷ m) h = ground (arith, find-count k v m)

-- A pointer under two keys stands there twice.
pub find_two :
    (k j : Str) (v : ℕ) (m : StrMap ℕ)
    → str_eq k j ≡ false
    → find k m ≡ some v
    → find j m ≡ some v
    → 2 ≤ count v (ptrs m)
unfolding find ptrs count
find_two k j v [] n h g = absurd (cc)
find_two k j v ((i, w) ∷ m) n h g = ground (
  arith,
  find_two k j v m n,
  find-count k v m,
  find-count j v m,
  str_eq_iff k j,
  str_eq_iff i k,
  str_eq_iff i j,
)

pub length-ptrs : (m : StrMap ℕ) → length (ptrs m) ≡ length m
unfolding ptrs
length-ptrs [] = refl
length-ptrs ((k, p) ∷ m) = ground (arith, length-ptrs m)

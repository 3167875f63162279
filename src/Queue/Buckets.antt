-- ===== src/Queue/Buckets.antt =====
-- `m_queue_list` (server/Queue.hpp): one double-ended queue of addresses for each priority.
-- The head of a list is the front of its deque. An index past the end changes nothing; the
-- program's own indices are below the number of queues.
pub mod Counts
pub mod Order
use monitor_queue.Prelude.{
  ℕ, zero, suc, ◌+◌, ◌≤◌, ◌<◌, ◌≡◌, refl, Bool, true, false, Option, none, some, List, [], ◌∷◌,
  ◌++◌, arith, length, length-append, count, count-append, bit, ◌==◌, if◌then◌else◌,
}

-- m_queue_list[k]
unfoldable pub bucket : ℕ → List (List ℕ) → List ℕ
bucket k [] = []
bucket zero (q ∷ qs) = q
bucket (suc k) (q ∷ qs) = bucket k qs

-- m_queue_list[k].push_front( p )
unfoldable pub push_front : ℕ → ℕ → List (List ℕ) → List (List ℕ)
push_front k p [] = []
push_front zero p (q ∷ qs) = (p ∷ q) ∷ qs
push_front (suc k) p (q ∷ qs) = q ∷ push_front k p qs

-- m_queue_list[k].push_back( p )
unfoldable pub push_back : ℕ → ℕ → List (List ℕ) → List (List ℕ)
push_back k p [] = []
push_back zero p (q ∷ qs) = (q ++ p ∷ []) ∷ qs
push_back (suc k) p (q ∷ qs) = q ∷ push_back k p qs

-- q.erase( std::find( q.begin(), q.end(), p ))
unfoldable pub remove : ℕ → List ℕ → List ℕ
remove p [] = []
remove p (x ∷ xs) = let rest = remove p xs in if p == x then xs else x ∷ rest

-- std::find( q.begin(), q.end(), p ) != q.end()
unfoldable pub contains : ℕ → List ℕ → Bool
contains p [] = false
contains p (x ∷ xs) = if p == x then true else contains p xs

-- the same in m_queue_list[k]
unfoldable pub remove_at : ℕ → ℕ → List (List ℕ) → List (List ℕ)
unfolding remove
remove_at k p [] = []
remove_at zero p (q ∷ qs) = remove p q ∷ qs
remove_at (suc k) p (q ∷ qs) = q ∷ remove_at k p qs

-- q.back() and q.pop_back(), with `none` for an empty deque
unfoldable pub split_back : List ℕ → Option (ℕ × List ℕ)
split_back [] = none
split_back (x ∷ xs) = elim (split_back xs) [
  | none ↦ some (x, [])
  | some (y, rest) ↦ some (y, x ∷ rest)
]

-- A queue put back in front of the later ones.
abbrev keep_front : List ℕ → Option (ℕ × List (List ℕ)) → Option (ℕ × List (List ℕ))
keep_front q none = none
keep_front q (some (p, rest)) = some (p, q ∷ rest)

-- The loop of `popImpl`: the back of the first queue that is not empty.
unfoldable pub take_first : List (List ℕ) → Option (ℕ × List (List ℕ))
unfolding split_back
take_first [] = none
take_first (q ∷ qs) =
    let later = keep_front q (take_first qs) in
    elim (split_back q) [ none ↦ later | some (p, rest) ↦ some (p, rest ∷ qs) ]

-- How many addresses all queues hold, and how often one stands there.
unfoldable pub total : List (List ℕ) → ℕ
total [] = 0
total (q ∷ qs) = length q + total qs

unfoldable pub count_all : ℕ → List (List ℕ) → ℕ
count_all p [] = 0
count_all p (q ∷ qs) = count p q + count_all p qs

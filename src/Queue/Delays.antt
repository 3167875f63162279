-- ===== src/Queue/Delays.antt =====
-- `m_msg_delay` (server/Queue.hpp): a multiset of addresses in the order of their entries' times.
pub mod Order
use monitor_queue.Prelude.{
  ℕ, zero, suc, ◌+◌, ◌≤◌, ◌<◌, ◌≡◌, refl, Bool, true, false, List, [], ◌∷◌, arith, length, count,
  bit, ◌==◌, ltb, All, if◌then◌else◌,
}
use monitor_queue.Queue.State.{Heap, MsgEntry, store}

-- m_msg_delay.insert( p ), behind the entries whose time is not later.
unfoldable pub insert_delay : Heap → ℕ → List ℕ → List ℕ
insert_delay h p [] = p ∷ []
insert_delay h p (x ∷ xs) =
    let rest = insert_delay h p xs in
    if ltb (h p).state_ts (h x).state_ts then p ∷ x ∷ xs else x ∷ rest

-- *m_msg_delay.begin() == p
unfoldable pub is_first : ℕ → List ℕ → Bool
is_first p [] = false
is_first p (x ∷ xs) = x == p

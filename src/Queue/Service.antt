-- ===== src/Queue/Service.antt =====
-- The order in which the queued messages are handed out: queue by queue, each from its back.
pub mod Calls
use mathlib.Core.List.{reverse, reverse-append, reverse-cons, append_assoc, append-nil}
use monitor_queue.Prelude.{
  ℕ, zero, suc, ◌+◌, ◌-◌, ◌≤◌, ◌<◌, ◌≡◌, ◌≢◌, refl, sym, ap, ◌∙◌, subst, ◌⊎◌, inl, inr, Bool, true,
  false, Option, none, some, List, [], ◌∷◌, ◌++◌, arith, Str, length, length-append, ltb, ◌==◌,
  if◌then◌else◌, Option-cases, Bool-cases,
}
use monitor_queue.MsgMap.{find}
use monitor_queue.Queue.State.{Queue}
use monitor_queue.Queue.Buckets.{push_front, push_back, take_first, total}
use monitor_queue.Queue.Buckets.Order.{
  Takes, at, later, take_first-Takes, take_first-none, total-Takes,
}
use monitor_queue.Queue.Defs.{
  ok, push, Popped, blocked, popped, all_queues_empty, pop, pop_impl, get_msg_entry, admit, enqueue,
}
use monitor_queue.Queue.Invariant.{Inv}
use monitor_queue.Queue.Invariant.Bounds.{queued_bound}
use monitor_queue.Queue.Invariant.Methods.{pop_impl-Inv}

-- The addresses in the order of service.
pub service : List (List ℕ) → List ℕ
service [] = []
service (q ∷ qs) = reverse q ++ service qs

-- The part of that order that the queues up to priority `k` make, and the rest.
pub ahead : ℕ → List (List ℕ) → List ℕ
ahead k [] = []
ahead zero (q ∷ qs) = reverse q
ahead (suc k) (q ∷ qs) = reverse q ++ ahead k qs

pub behind : ℕ → List (List ℕ) → List ℕ
unfolding service
behind k [] = []
behind zero (q ∷ qs) = service qs
behind (suc k) (q ∷ qs) = behind k qs

-- The same split before the queue of priority `k`.
pub before : ℕ → List (List ℕ) → List ℕ
before k [] = []
before zero (q ∷ qs) = []
before (suc k) (q ∷ qs) = reverse q ++ before k qs

pub from : ℕ → List (List ℕ) → List ℕ
unfolding service
from k [] = []
from zero (q ∷ qs) = reverse q ++ service qs
from (suc k) (q ∷ qs) = from k qs

pub service-ahead : (k : ℕ) (qs : List (List ℕ)) → service qs ≡ ahead k qs ++ behind k qs
unfolding service ahead behind
service-ahead k [] = refl
service-ahead zero (q ∷ qs) = refl
service-ahead (suc k) (q ∷ qs) =
    ap (◌++◌ (reverse q)) (service-ahead k qs)
    ∙ sym (append_assoc (reverse q) (ahead k qs) (behind k qs))

pub service-before : (k : ℕ) (qs : List (List ℕ)) → service qs ≡ before k qs ++ from k qs
unfolding service before from
service-before k [] = refl
service-before zero (q ∷ qs) = refl
service-before (suc k) (q ∷ qs) =
    ap (◌++◌ (reverse q)) (service-before k qs)
    ∙ sym (append_assoc (reverse q) (before k qs) (from k qs))

pub service-push_front :
    (k p : ℕ) (qs : List (List ℕ))
    → k < length qs
    → service (push_front k p qs) ≡ ahead k qs ++ p ∷ behind k qs
unfolding service ahead behind push_front
service-push_front k p [] h = absurd (omega arith)
service-push_front zero p (q ∷ qs) h =
    rw (reverse-cons p q) (append_assoc (reverse q) (p ∷ []) (service qs))
service-push_front (suc k) p (q ∷ qs) h =
    ap (◌++◌ (reverse q)) (service-push_front k p qs (omega arith))
    ∙ sym (append_assoc (reverse q) (ahead k qs) (p ∷ behind k qs))

pub service-push_back :
    (k p : ℕ) (qs : List (List ℕ))
    → k < length qs
    → service (push_back k p qs) ≡ before k qs ++ p ∷ from k qs
unfolding service before from push_back
service-push_back k p [] h = absurd (omega arith)
service-push_back zero p (q ∷ qs) h = rw (reverse-append q (p ∷ []))
service-push_back (suc k) p (q ∷ qs) h =
    ap (◌++◌ (reverse q)) (service-push_back k p qs (omega arith))
    ∙ sym (append_assoc (reverse q) (before k qs) (p ∷ from k qs))

pub service-Takes :
    (p : ℕ) {qs rest : List (List ℕ)} → Takes p qs rest → service qs ≡ p ∷ service rest
unfolding service
service-Takes p (at {q = q} {r = r} {qs = qs} e) = rw (e, reverse-append r (p ∷ []))
service-Takes p (later {q = q} e t) = rw e (service-Takes p t)

length-reverse : (xs : List ℕ) → length (reverse xs) ≡ length xs
length-reverse [] = refl
length-reverse (x ∷ xs) =
    omega
      (arith, ap length (reverse-cons x xs), length-append (reverse xs) (x ∷ []), length-reverse xs)

pub length-service : (qs : List (List ℕ)) → length (service qs) ≡ total qs
unfolding service total
length-service [] = refl
length-service (q ∷ qs) =
    omega (arith, length-append (reverse q) (service qs), length-reverse q, length-service qs)

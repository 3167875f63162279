-- ===== src/Queue/Delays/Order.antt =====
-- server/Queue.hpp, DelaySetCompare: the order of the delay queue.
use monitor_queue.Prelude.{
  ℕ, suc, ◌+◌, ◌≤◌, ◌≡◌, refl, List, [], ◌∷◌, arith, length, count, bit, ◌==◌,
}
use monitor_queue.Queue.State.{Heap, MsgEntry, store}
use monitor_queue.Queue.Delays.{insert_delay}

pub count-insert_delay :
    (h : Heap) (p a : ℕ) (ds : List ℕ) → count a (insert_delay h p ds) ≡ bit (a == p) + count a ds
unfolding insert_delay count
count-insert_delay h p a [] = refl
count-insert_delay h p a (x ∷ xs) = ground (arith, count-insert_delay h p a xs)

pub length-insert_delay :
    (h : Heap) (p : ℕ) (ds : List ℕ) → length (insert_delay h p ds) ≡ suc (length ds)
unfolding insert_delay
length-insert_delay h p [] = refl
length-insert_delay h p (x ∷ xs) = ground (arith, length-insert_delay h p xs)

-- No entry of `ds` is due before time `t`.
abbrev pub NotBefore : Heap → ℕ → List ℕ → Type 0
NotBefore h t [] = Unit
NotBefore h t (x ∷ xs) = (t ≤ (h x).state_ts) × NotBefore h t xs

abbrev pub IsDueOrder : Heap → List ℕ → Type 0
IsDueOrder h [] = Unit
IsDueOrder h (x ∷ xs) = NotBefore h (h x).state_ts xs × IsDueOrder h xs

pub NotBefore-mono :
    (h : Heap) (s t : ℕ) (ds : List ℕ) → s ≤ t → NotBefore h t ds → NotBefore h s ds
NotBefore-mono h s t [] le n = tt
NotBefore-mono h s t (x ∷ xs) le n = (omega arith, NotBefore-mono h s t xs le n.1)

NotBefore-insert :
    (h : Heap) (t p : ℕ) (ds : List ℕ)
    → t ≤ (h p).state_ts
    → NotBefore h t ds
    → NotBefore h t (insert_delay h p ds)
unfolding insert_delay
NotBefore-insert h t p [] le n = (le, tt)
NotBefore-insert h t p (x ∷ xs) le n = ground (arith, NotBefore-insert h t p xs le n.1)

pub insert_delay-IsDueOrder :
    (h : Heap) (p : ℕ) (ds : List ℕ) → IsDueOrder h ds → IsDueOrder h (insert_delay h p ds)
unfolding insert_delay
insert_delay-IsDueOrder h p [] o = (tt, tt)
insert_delay-IsDueOrder h p (x ∷ xs) o = ground (
  arith,
  insert_delay-IsDueOrder h p xs o.1,
  NotBefore-insert h (h x).state_ts p xs,
  NotBefore-mono h (h p).state_ts (h x).state_ts xs,
)

-- A write to an entry that is not delayed changes nothing.
NotBefore-store :
    (h : Heap) (p : ℕ) (e : MsgEntry) (t : ℕ) (ds : List ℕ)
    → count p ds ≡ 0
    → NotBefore h t ds
    → NotBefore (store h p e) t ds
unfolding count
NotBefore-store h p e t [] c n = tt
NotBefore-store h p e t (x ∷ xs) c n = ground (arith, NotBefore-store h p e t xs)

pub IsDueOrder-store :
    (h : Heap) (p : ℕ) (e : MsgEntry) (ds : List ℕ)
    → count p ds ≡ 0
    → IsDueOrder h ds
    → IsDueOrder (store h p e) ds
unfolding count
IsDueOrder-store h p e [] c o = tt
IsDueOrder-store h p e (x ∷ xs) c o =
    ground (arith, IsDueOrder-store h p e xs, NotBefore-store h p e (h x).state_ts xs)

-- What stands in a list that is due from `t` on is due from `t` on.
pub NotBefore-count :
    (h : Heap) (t p : ℕ) (ds : List ℕ) → NotBefore h t ds → 1 ≤ count p ds → t ≤ (h p).state_ts
unfolding count
NotBefore-count h t p [] n c = absurd (omega arith)
NotBefore-count h t p (x ∷ xs) n c = ground (arith, NotBefore-count h t p xs n.1)

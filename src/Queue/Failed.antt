-- ===== src/Queue/Failed.antt =====
-- server/Queue.cpp, getFailed, eraseFailed and getCounts: what the monitoring process is told.
use monitor_queue.Prelude.{
  ℕ, ◌+◌, ◌≡◌, refl, sym, ap, ◌∙◌, inl, inr, Bool, true, false, ◌&&◌, Option, none, some, List, [],
  ◌∷◌, arith, Str, str_eq, str_eq_iff, str_lt_irrefl, length, bit, if◌then◌else◌, Option-cases,
  Bool-cases,
}
use monitor_queue.MsgMap.{StrMap, find}
use monitor_queue.MsgMap.Order.{IsOrdered, Above}
use monitor_queue.MsgMap.Pointers.{ptrs}
use monitor_queue.Queue.State.{Queue, Heap, MsgEntry, is_failed}
use monitor_queue.Queue.State.Tally.{tally}
use monitor_queue.Queue.Defs.{
  get_counts, get_capacity, failed_ids, get_failed, erase_one, erase_all, erase_failed,
}
use monitor_queue.Queue.Invariant.{Inv}
use monitor_queue.Queue.Invariant.Bounds.{failed_bound}
use monitor_queue.Queue.Invariant.Erasing.{settle, erase_one-Inv, erase_all-settle}
use monitor_queue.Queue.View.{Status, dead, status, view, view_found, view_missing, view_same}
use monitor_queue.Queue.View.Methods.{drop_msg-view}

-- Does an id stand in a list of ids?
pub mem_id : Str → List Str → Bool
mem_id id [] = false
mem_id id (j ∷ ids) = if str_eq j id then true else mem_id id ids

abbrev pub is_dead : Option Status → Bool
is_dead (some dead) = true
is_dead _ = false

abbrev at_dead : Heap → Option ℕ → Bool
at_dead h none = false
at_dead h (some p) = is_failed (h p).state

mem-Above : (h : Heap) (k : Str) (m : StrMap ℕ) → Above k m → mem_id k (failed_ids h m) ≡ false
unfolding failed_ids mem_id
mem-Above h k [] a = refl
mem-Above h k ((j, p) ∷ m) a = ground (arith, mem-Above h k m a.1, str_eq_iff j k, str_lt_irrefl k)

mem-failed_ids :
    (h : Heap) (id : Str) (m : StrMap ℕ)
    → IsOrdered m
    → mem_id id (failed_ids h m) ≡ at_dead h (find id m)
unfolding failed_ids mem_id find
mem-failed_ids h id [] o = refl
mem-failed_ids h id ((j, p) ∷ m) o =
    ground (arith, mem-failed_ids h id m o.1, mem-Above h j m o.0, str_eq_iff j id)

is_dead-status : (e : MsgEntry) → is_dead (some (status e)) ≡ is_failed e.state
is_dead-status e = ground arith

is_dead-view : (q : Queue) (id : Str) → is_dead (view q id) ≡ at_dead q.heap (find id q.msg_map)
is_dead-view q id = elim (Option-cases (find id q.msg_map)) [
  | inl n ↦ rw n (ap is_dead (view_missing q id n))
  | inr (p, f) ↦ rw f (ap is_dead (view_found q id p f) ∙ is_dead-status (q.heap p))
]

length-failed_ids : (h : Heap) (m : StrMap ℕ) → length (failed_ids h m) ≡ tally is_failed h (ptrs m)
unfolding failed_ids tally ptrs
length-failed_ids h [] = refl
length-failed_ids h ((j, p) ∷ m) = ground (arith, length-failed_ids h m)

-- On a queue with the invariant, `getFailed` lists exactly the ids whose message is dead, as
-- many as are counted.
pub get_failed-dead :
    (q : Queue) (id : Str)
    → Inv q
    → (mem_id id (get_failed q) ≡ is_dead (view q id)) × (length (get_failed q) ≡ q.count_failed)
unfolding get_failed
get_failed-dead q id v = (
  mem-failed_ids q.heap id q.msg_map v.ordered ∙ sym (is_dead-view q id),
  length-failed_ids q.heap q.msg_map ∙ sym v.tally_failed,
)

-- On a queue with the invariant, the three counts add up to the capacity, and each is what it
-- says: the failed messages are as many as `getFailed` lists, and with the active ones they
-- are the messages of the map.
pub get_counts-sum :
    (q : Queue)
    → Inv q
    → let c = get_counts q in
      (c.active + c.failed + c.free ≡ get_capacity q)
      × (c.failed ≡ length (get_failed q))
      × (c.active + c.failed ≡ length q.msg_map)
unfolding get_counts get_capacity get_failed
get_counts-sum q v =
    let f = length-failed_ids q.heap q.msg_map in
    (
      omega (arith, failed_bound v, v.within, v.sized),
      omega (arith, f, v.tally_failed),
      omega (arith, failed_bound v, v.within, v.sized),
    )

erase_one-view :
    (q : Queue) (id j : Str)
    → Inv q
    → ((erase_one q id).0 ≡ is_dead (view q id))
      × (view (erase_one q id).1 j
          ≡ (if str_eq id j && is_dead (view q id) then none else view q j))
unfolding erase_one
erase_one-view q id j v = elim (Option-cases (find id q.msg_map)) [
  | inl n ↦
      rw (n, erase_one) (ground (arith, view_missing q id n), ground (arith, view_missing q id n))
  | inr (p, f) ↦
      let s = is_dead-view q id in
      elim (Bool-cases (is_failed (q.heap p).state)) [
        | inl y ↦
            rw (f, erase_one)
              (rw y (ground (arith, s, f), drop_msg-view q id j p v f ∙ ground (arith, s, f)))
        | inr n ↦ rw (f, erase_one) (rw n (ground (arith, s, f), ground (arith, s, f)))
      ]
]

view-settle : (q : Queue) (n : ℕ) (j : Str) → view (settle q n) j ≡ view q j
view-settle q n j = view_same q (settle q n) j refl (λ p f. refl)

mem_id-if :
    (b : Bool) (j id : Str) (ids : List Str)
    → mem_id j (if b then id ∷ ids else ids) ≡ (if str_eq id j && b then true else mem_id j ids)
unfolding mem_id
mem_id-if b j id ids = ground arith

erase_all-view :
    (q : Queue) (ids : List Str) (j : Str)
    → Inv q
    → (mem_id j (erase_all q ids).0 ≡ (mem_id j ids && is_dead (view q j)))
      × (view (erase_all q ids).1 j
          ≡ (if mem_id j ids && is_dead (view q j) then none else view q j))
unfolding erase_all mem_id
erase_all-view q [] j v = (refl, refl)
erase_all-view q (id ∷ ids) j v =
    let (hit, q₁) = erase_one q id in
    let (erased, q₂) = erase_all q₁ ids in
    let (w, _, _) = erase_one-Inv q id v in
    let (m, u) = erase_all-view (settle q₁ (bit hit)) ids j w in
    let s = erase_all-settle q₁ (bit hit) ids in
    let m' : mem_id j erased ≡ (mem_id j ids && is_dead (view q₁ j)) =
      sym (ap (λ r. mem_id j r.0) s)
      ∙ m
      ∙ ap (λ o. mem_id j ids && is_dead o) (view-settle q₁ (bit hit) j) in
    let u' : view q₂ j ≡ (if mem_id j ids && is_dead (view q₁ j) then none else view q₁ j) =
      sym (view-settle q₂ (bit hit) j)
      ∙ sym (ap (λ r. view r.1 j) s)
      ∙ u
      ∙ ap (λ o. if mem_id j ids && is_dead o then none else o) (view-settle q₁ (bit hit) j) in
    let (h, one) = erase_one-view q id j v in
    let eq = str_eq_iff id j in
    (mem_id-if hit j id erased ∙ ground (arith, m', h, one, eq), u' ∙ ground (arith, h, one, eq))

-- On a queue with the invariant, `eraseFailed` removes exactly the messages that are dead and
-- asked for, and returns exactly their ids.
pub erase_failed-view :
    (q : Queue) (ids : List Str) (j : Str)
    → Inv q
    → let (erased, q') = erase_failed q ids in
      (mem_id j erased ≡ (mem_id j ids && is_dead (view q j)))
      × (view q' j ≡ (if mem_id j ids && is_dead (view q j) then none else view q j))
unfolding erase_failed
erase_failed-view q ids j v =
    let (m, u) = erase_all-view q ids j v in (m, view-settle (erase_all q ids).1 _ j ∙ u)

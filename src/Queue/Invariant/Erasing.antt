-- ===== src/Queue/Invariant/Erasing.antt =====
-- server/Queue.cpp, eraseFailed, and the invariant. The method corrects the count of failed messages
-- once, behind its loop; the proof corrects it in each round.
use monitor_queue.Prelude.{
  ℕ, ◌+◌, ◌^◌, ◌≤◌, ◌<◌, ◌≡◌, refl, ◌∙◌, subst, Bool, List, [], ◌∷◌, arith, Str, length, bit,
  if◌then◌else◌, inl, inr, Bool-cases, Option-cases,
}
use monitor_queue.MsgMap.{find}
use monitor_queue.MsgMap.Pointers.{ptrs, find-count, length-ptrs}
use monitor_queue.Queue.State.{Queue, is_failed, sub64}
use monitor_queue.Queue.State.Tally.{tally_pos, tally-le-length}
use monitor_queue.Queue.Defs.{drop_msg, erase_one, erase_all, erase_failed}
use monitor_queue.Queue.Invariant.{Inv}
use monitor_queue.Queue.Invariant.Renewing.{dropped_failed}

-- A queue whose count of failed messages is corrected by `n`.
abbrev pub settle : Queue → ℕ → Queue
settle q n = record q { count_failed = sub64 q.count_failed n }

failed_bound : (q : Queue) → Inv q → q.count_failed < 2 ^ 64
failed_bound q v = ground (
  arith,
  v.tally_failed,
  v.within,
  v.sized,
  tally-le-length is_failed q.heap (ptrs q.msg_map),
  length-ptrs q.msg_map,
)

settle_zero : (q : Queue) → Inv q → Inv (settle q 0)
settle_zero q v = subst Inv (ground (arith, failed_bound q v)) v

pub erase_one-Inv :
    (q : Queue) (id : Str)
    → Inv q
    → let (hit, q') = erase_one q id in
      Inv (settle q' (bit hit)) × (bit hit ≤ q.count_failed) × (q'.count_failed ≡ q.count_failed)
unfolding erase_one drop_msg
erase_one-Inv q id v = elim (Option-cases (find id q.msg_map)) [
  | inl n ↦ rw (n, erase_one) (settle_zero q v, omega arith, refl)
  | inr (p, f) ↦ elim (Bool-cases (is_failed (q.heap p).state)) [
    | inl y ↦
        rw (f, erase_one)
          (rw y (
            dropped_failed v id p f (ground arith),
            ground (
              arith,
              v.tally_failed,
              tally_pos is_failed q.heap p (ptrs q.msg_map) (find-count id p q.msg_map f) y,
            ),
            refl,
          ))
    | inr n ↦ rw (f, erase_one) (rw n (settle_zero q v, omega arith, refl))
  ]
]

-- The loop does not look at the count.
erase_one-settle :
    (q : Queue) (id : Str) (n : ℕ)
    → erase_one (settle q n) id ≡ ((erase_one q id).0, settle (erase_one q id).1 n)
unfolding erase_one drop_msg
erase_one-settle q id n = elim (Option-cases (find id q.msg_map)) [
  | inl e ↦ rw (e, erase_one)
  | inr (p, f) ↦ elim (Bool-cases (is_failed (q.heap p).state)) [
    | inl y ↦ rw (f, erase_one) (rw y)
    | inr m ↦ rw (f, erase_one) (rw m)
  ]
]

pub erase_all-settle :
    (q : Queue) (n : ℕ) (ids : List Str)
    → erase_all (settle q n) ids ≡ ((erase_all q ids).0, settle (erase_all q ids).1 n)
unfolding erase_all
erase_all-settle q n [] = refl
erase_all-settle q n (id ∷ ids) =
    rw (erase_one-settle q id n) (rw (erase_all-settle (erase_one q id).1 n ids))

erase_one-count : (q : Queue) (id : Str) → (erase_one q id).1.count_failed ≡ q.count_failed
unfolding erase_one drop_msg
erase_one-count q id = ground arith

erase_all-count : (q : Queue) (ids : List Str) → (erase_all q ids).1.count_failed ≡ q.count_failed
unfolding erase_all
erase_all-count q [] = refl
erase_all-count q (id ∷ ids) = erase_all-count (erase_one q id).1 ids ∙ erase_one-count q id

length_if :
    (b : Bool) (id : Str) (ids : List Str)
    → length (if b then id ∷ ids else ids) ≡ bit b + length ids
length_if b id ids = ground arith

erase_all-Inv :
    (q : Queue) (ids : List Str)
    → Inv q
    → let (erased, q') = erase_all q ids in
      Inv (settle q' (length erased)) × (length erased ≤ q.count_failed)
unfolding erase_all
erase_all-Inv q [] v = (settle_zero q v, omega arith)
erase_all-Inv q (id ∷ ids) v =
    let (hit, q₁) = erase_one q id in
    let (erased, q₂) = erase_all q₁ ids in
    let (w, le, same) = erase_one-Inv q id v in
    let (u, few) =
      rw (erase_all-settle q₁ (bit hit) ids) at (erase_all-Inv (settle q₁ (bit hit)) ids w) in
    let size = length_if hit id erased in
    let total_same = erase_all-count q₁ ids in
    let big = failed_bound q v in
    (
      subst Inv (ground (arith, size, total_same, few, same, big, le)) u,
      ground (arith, few, same, size, big, le),
    )

-- Erasing failed messages keeps the invariant.
pub erase_failed-Inv : (q : Queue) (ids : List Str) → Inv q → Inv (erase_failed q ids).1
unfolding erase_failed
erase_failed-Inv q ids v = (erase_all-Inv q ids v).0

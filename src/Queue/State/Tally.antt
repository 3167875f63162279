-- ===== src/Queue/State/Tally.antt =====
-- How many of the entries at a list of addresses are in a state of some kind.
use monitor_queue.Prelude.{
  ℕ, ◌+◌, ◌≤◌, ◌≡◌, refl, Bool, true, List, [], ◌∷◌, arith, length, count, bit, ◌==◌, inl, inr,
  Bool-cases, Str, none, some,
}
use monitor_queue.MsgMap.{StrMap, find, insert, erase}
use monitor_queue.MsgMap.Pointers.{ptrs}
use monitor_queue.Queue.State.{Heap, MsgEntry, MsgState, store}

unfoldable pub tally : (MsgState → Bool) → Heap → List ℕ → ℕ
tally f h [] = 0
tally f h (p ∷ ps) = bit (f (h p).state) + tally f h ps

module _ (f : MsgState → Bool) (h : Heap) where
  pub tally-le-length : (ps : List ℕ) → tally f h ps ≤ length ps
  unfolding tally
  tally-le-length [] = omega arith
  tally-le-length (p ∷ ps) = ground (arith, tally-le-length ps)

  -- One write moves the tally by the entry's own part.
  pub tally-store_other :
      (a : ℕ) (e : MsgEntry) (ps : List ℕ)
      → count a ps ≡ 0
      → tally f (store h a e) ps ≡ tally f h ps
  unfolding tally count
  tally-store_other a e [] c = refl
  tally-store_other a e (p ∷ ps) c = ground (arith, tally-store_other a e ps)

  pub tally-store :
      (a : ℕ) (e : MsgEntry) (ps : List ℕ)
      → count a ps ≡ 1
      → tally f (store h a e) ps + bit (f (h a).state) ≡ tally f h ps + bit (f e.state)
  unfolding tally count
  tally-store a e [] c = absurd (omega arith)
  tally-store a e (p ∷ ps) c = elim (Bool-cases (a == p)) [
    | inl y ↦ ground (arith, tally-store_other a e ps)
    | inr n ↦ ground (arith, tally-store a e ps)
  ]

  -- An entry that stands at an address is counted.
  pub tally_pos : (a : ℕ) (ps : List ℕ) → 1 ≤ count a ps → f (h a).state ≡ true → 1 ≤ tally f h ps
  unfolding tally count
  tally_pos a [] c s = absurd (omega arith)
  tally_pos a (p ∷ ps) c s = ground (arith, tally_pos a ps)

  pub tally-insert :
      (k : Str) (v : ℕ) (m : StrMap ℕ)
      → find k m ≡ none
      → tally f h (ptrs (insert k v m)) ≡ bit (f (h v).state) + tally f h (ptrs m)
  unfolding tally find insert ptrs
  tally-insert k v [] e = refl
  tally-insert k v ((j, w) ∷ m) e = ground (arith, tally-insert k v m)

  pub tally-erase :
      (k : Str) (v : ℕ) (m : StrMap ℕ)
      → find k m ≡ some v
      → bit (f (h v).state) + tally f h (ptrs (erase k m)) ≡ tally f h (ptrs m)
  unfolding tally find erase ptrs
  tally-erase k v [] e = absurd (cc)
  tally-erase k v ((j, w) ∷ m) e = ground (arith, tally-erase k v m)

-- ===== src/Queue/Buckets/Order.antt =====
-- What `take_first` takes: the back of the first queue that is not empty.
use monitor_queue.Prelude.{
  ℕ, zero, suc, ◌+◌, ◌<◌, ◌≡◌, refl, ap, false, none, some, List, [], ◌∷◌, ◌++◌, arith, length,
  length-append, count, count-append, bit, ◌==◌, Option-cases, subst, inl, inr, ◌≢◌,
}
use monitor_queue.Queue.Buckets.{bucket, split_back, take_first, total, count_all}

split_back-none : (q : List ℕ) → split_back q ≡ none → q ≡ []
unfolding split_back
split_back-none [] h = refl
split_back-none (x ∷ xs) h = elim (Option-cases (split_back xs)) [
  | inl e ↦ ground arith
  | inr ((y, r), e) ↦ ground arith
]

split_back-some : (p : ℕ) (q rest : List ℕ) → split_back q ≡ some (p, rest) → q ≡ rest ++ p ∷ []
unfolding split_back
split_back-some p [] rest h = absurd (cc)
split_back-some p (x ∷ xs) rest h = elim (Option-cases (split_back xs)) [
  | inl e ↦ ground (arith, split_back-none xs)
  | inr ((y, r), e) ↦ ground (arith, split_back-some p xs r)
]

-- The queues `rest` are `qs` without the address at the back of the first that is not empty.
pub data Takes (p : ℕ) : List (List ℕ) → List (List ℕ) → Type 0 where
  at : {q r : List ℕ} {qs : List (List ℕ)} → q ≡ r ++ p ∷ [] → Takes p (q ∷ qs) (r ∷ qs)
  later :
      {q : List ℕ} {qs rest : List (List ℕ)}
      → q ≡ []
      → Takes p qs rest
      → Takes p (q ∷ qs) (q ∷ rest)

pub take_first-Takes :
    (p : ℕ) (qs rest : List (List ℕ)) → take_first qs ≡ some (p, rest) → Takes p qs rest
unfolding take_first
take_first-Takes p [] rest h = absurd (cc)
take_first-Takes p (q ∷ qs) rest h = elim (Option-cases (split_back q)) [
  | inl e ↦ elim (Option-cases (take_first qs)) [
    | inl f ↦ absurd (ground arith)
    | inr ((y, r), f) ↦
        subst (λ s. Takes p (q ∷ qs) s) (ground arith)
          (later (split_back-none q e) (take_first-Takes p qs r (ground arith)))
  ]
  | inr ((y, r), e) ↦
      subst (λ s. Takes p (q ∷ qs) s) {x = r ∷ qs} (ground arith)
        (at (split_back-some p q r (ground arith)))
]

-- Nothing is taken from empty queues only.
pub take_first-none : (qs : List (List ℕ)) → take_first qs ≡ none → total qs ≡ 0
unfolding take_first total
take_first-none [] h = refl
take_first-none (q ∷ qs) h = elim (Option-cases (split_back q)) [
  | inl e ↦ elim (Option-cases (take_first qs)) [
    | inl f ↦ ground (arith, take_first-none qs f, split_back-none q e)
    | inr ((y, r), f) ↦ absurd (ground arith)
  ]
  | inr ((y, r), e) ↦ absurd (ground arith)
]

module _ (p : ℕ) where
  pub length-Takes : {qs rest : List (List ℕ)} → Takes p qs rest → length rest ≡ length qs
  length-Takes (at e) = refl
  length-Takes (later e t) = ap suc (length-Takes t)

  pub total-Takes : {qs rest : List (List ℕ)} → Takes p qs rest → total qs ≡ suc (total rest)
  unfolding total
  total-Takes (at {q = q} {r = r} e) = omega (arith, length-append r (p ∷ []), ap length e)
  total-Takes (later e t) = omega (arith, total-Takes t)

  pub count_all-Takes :
      (a : ℕ) {qs rest : List (List ℕ)}
      → Takes p qs rest
      → count_all a qs ≡ bit (a == p) + count_all a rest
  unfolding count_all count
  count_all-Takes a (at {q = q} {r = r} e) =
      omega (arith, count-append a r (p ∷ []), ap (count a) e)
  count_all-Takes a (later e t) = omega (arith, count_all-Takes a t)

  -- Other addresses stay where they are.
  pub count-bucket-Takes :
      (a j : ℕ) {qs rest : List (List ℕ)}
      → Takes p qs rest
      → (a == p) ≡ false
      → count a (bucket j rest) ≡ count a (bucket j qs)
  unfolding bucket count
  count-bucket-Takes a zero (at {q = q} {r = r} e) n =
      ground (arith, count-append a r (p ∷ []), ap (count a) e)
  count-bucket-Takes a (suc j) (at e) n = refl
  count-bucket-Takes a zero (later e t) n = refl
  count-bucket-Takes a (suc j) (later e t) n = count-bucket-Takes a j t n

  -- The queue from which the address is taken.
  pub level : {qs rest : List (List ℕ)} → Takes p qs rest → ℕ
  level (at e) = 0
  level (later e t) = suc (level t)

  pub Takes-back :
      {qs rest : List (List ℕ)} (t : Takes p qs rest)
      → bucket (level t) qs ≡ bucket (level t) rest ++ p ∷ []
  unfolding bucket level
  Takes-back (at e) = e
  Takes-back (later e t) = Takes-back t

  pub Takes-empty_before :
      {qs rest : List (List ℕ)} (t : Takes p qs rest) (j : ℕ) → j < level t → bucket j qs ≡ []
  unfolding bucket level
  Takes-empty_before (at e) j h = absurd (omega arith)
  Takes-empty_before (later e t) zero h = e
  Takes-empty_before (later e t) (suc j) h = Takes-empty_before t j (omega arith)

  pub Takes-other :
      {qs rest : List (List ℕ)} (t : Takes p qs rest) (j : ℕ)
      → j ≢ level t
      → bucket j rest ≡ bucket j qs
  unfolding bucket level
  Takes-other (at e) zero h = absurd (h refl)
  Takes-other (at e) (suc j) h = refl
  Takes-other (later e t) zero h = refl
  Takes-other (later e t) (suc j) h = Takes-other t j (λ e'. h (ap suc e'))

-- ===== src/Queue/Buckets/Counts.antt =====
-- What the operations on the priority queues do to their sizes and to the number of times that an
-- address stands in them.
use monitor_queue.Prelude.{
  ℕ, zero, suc, ◌+◌, ◌≤◌, ◌<◌, ◌≡◌, refl, true, false, List, [], ◌∷◌, arith, length, length-append,
  count, count-append, bit, ◌==◌, if◌then◌else◌,
}
use monitor_queue.Queue.Buckets.{
  bucket, push_front, push_back, remove, contains, remove_at, total, count_all,
}

pub count-bucket-le : (a k : ℕ) (qs : List (List ℕ)) → count a (bucket k qs) ≤ count_all a qs
unfolding bucket count_all count
count-bucket-le a k [] = omega arith
count-bucket-le a zero (q ∷ qs) = omega arith
count-bucket-le a (suc k) (q ∷ qs) = omega (arith, count-bucket-le a k qs)

module _ (p : ℕ) where
  pub length-push_front : (k : ℕ) (qs : List (List ℕ)) → length (push_front k p qs) ≡ length qs
  unfolding push_front
  length-push_front k [] = refl
  length-push_front zero (q ∷ qs) = refl
  length-push_front (suc k) (q ∷ qs) = omega (arith, length-push_front k qs)

  pub length-push_back : (k : ℕ) (qs : List (List ℕ)) → length (push_back k p qs) ≡ length qs
  unfolding push_back
  length-push_back k [] = refl
  length-push_back zero (q ∷ qs) = refl
  length-push_back (suc k) (q ∷ qs) = omega (arith, length-push_back k qs)

  pub total-push_front :
      (k : ℕ) (qs : List (List ℕ)) → k < length qs → total (push_front k p qs) ≡ suc (total qs)
  unfolding push_front total
  total-push_front k [] h = absurd (omega arith)
  total-push_front zero (q ∷ qs) h = omega arith
  total-push_front (suc k) (q ∷ qs) h = omega (arith, total-push_front k qs)

  pub total-push_back :
      (k : ℕ) (qs : List (List ℕ)) → k < length qs → total (push_back k p qs) ≡ suc (total qs)
  unfolding push_back total
  total-push_back k [] h = absurd (omega arith)
  total-push_back zero (q ∷ qs) h = omega (arith, length-append q (p ∷ []))
  total-push_back (suc k) (q ∷ qs) h = omega (arith, total-push_back k qs)

  pub count_all-push_front :
      (a k : ℕ) (qs : List (List ℕ))
      → k < length qs
      → count_all a (push_front k p qs) ≡ bit (a == p) + count_all a qs
  unfolding push_front count_all count
  count_all-push_front a k [] h = absurd (omega arith)
  count_all-push_front a zero (q ∷ qs) h = omega arith
  count_all-push_front a (suc k) (q ∷ qs) h = omega (arith, count_all-push_front a k qs)

  pub count_all-push_back :
      (a k : ℕ) (qs : List (List ℕ))
      → k < length qs
      → count_all a (push_back k p qs) ≡ bit (a == p) + count_all a qs
  unfolding push_back count_all count
  count_all-push_back a k [] h = absurd (omega arith)
  count_all-push_back a zero (q ∷ qs) h = omega (arith, count-append a q (p ∷ []))
  count_all-push_back a (suc k) (q ∷ qs) h = omega (arith, count_all-push_back a k qs)

  pub count-bucket-push_front :
      (a j k : ℕ) (qs : List (List ℕ))
      → k < length qs
      → count a (bucket j (push_front k p qs))
        ≡ (if k == j then bit (a == p) else 0) + count a (bucket j qs)
  unfolding push_front bucket count
  count-bucket-push_front a j k [] h = absurd (omega arith)
  count-bucket-push_front a zero zero (q ∷ qs) h = refl
  count-bucket-push_front a (suc j) zero (q ∷ qs) h = ground arith
  count-bucket-push_front a zero (suc k) (q ∷ qs) h = ground arith
  count-bucket-push_front a (suc j) (suc k) (q ∷ qs) h =
      ground (arith, count-bucket-push_front a j k qs)

  pub count-bucket-push_back :
      (a j k : ℕ) (qs : List (List ℕ))
      → k < length qs
      → count a (bucket j (push_back k p qs))
        ≡ (if k == j then bit (a == p) else 0) + count a (bucket j qs)
  unfolding push_back bucket count
  count-bucket-push_back a j k [] h = absurd (omega arith)
  count-bucket-push_back a zero zero (q ∷ qs) h = ground (arith, count-append a q (p ∷ []))
  count-bucket-push_back a (suc j) zero (q ∷ qs) h = ground arith
  count-bucket-push_back a zero (suc k) (q ∷ qs) h = ground arith
  count-bucket-push_back a (suc j) (suc k) (q ∷ qs) h =
      ground (arith, count-bucket-push_back a j k qs)

  pub contains_of_count : (xs : List ℕ) → 1 ≤ count p xs → contains p xs ≡ true
  unfolding contains count
  contains_of_count [] h = absurd (omega arith)
  contains_of_count (x ∷ xs) h = ground (arith, contains_of_count xs)

  pub count-remove :
      (a : ℕ) (xs : List ℕ)
      → contains p xs ≡ true
      → bit (a == p) + count a (remove p xs) ≡ count a xs
  unfolding contains count remove
  count-remove a [] h = absurd (cc)
  count-remove a (x ∷ xs) h = ground (arith, count-remove a xs)

  pub length-remove : (xs : List ℕ) → contains p xs ≡ true → suc (length (remove p xs)) ≡ length xs
  unfolding contains remove
  length-remove [] h = absurd (cc)
  length-remove (x ∷ xs) h = ground (arith, length-remove xs)

  pub length-remove_at : (k : ℕ) (qs : List (List ℕ)) → length (remove_at k p qs) ≡ length qs
  unfolding remove_at
  length-remove_at k [] = refl
  length-remove_at zero (q ∷ qs) = refl
  length-remove_at (suc k) (q ∷ qs) = omega (arith, length-remove_at k qs)

  pub total-remove_at :
      (k : ℕ) (qs : List (List ℕ))
      → contains p (bucket k qs) ≡ true
      → suc (total (remove_at k p qs)) ≡ total qs
  unfolding remove_at total bucket
  total-remove_at k [] h = absurd (unfold contains in cc)
  total-remove_at zero (q ∷ qs) h = omega (arith, length-remove q h)
  total-remove_at (suc k) (q ∷ qs) h = omega (arith, total-remove_at k qs h)

  pub count_all-remove_at :
      (a k : ℕ) (qs : List (List ℕ))
      → contains p (bucket k qs) ≡ true
      → bit (a == p) + count_all a (remove_at k p qs) ≡ count_all a qs
  unfolding remove_at count_all bucket
  count_all-remove_at a k [] h = absurd (unfold contains in cc)
  count_all-remove_at a zero (q ∷ qs) h = omega (arith, count-remove a q h)
  count_all-remove_at a (suc k) (q ∷ qs) h = omega (arith, count_all-remove_at a k qs h)

  -- Other addresses stay where they are.
  pub count-bucket-remove_at :
      (a j k : ℕ) (qs : List (List ℕ))
      → contains p (bucket k qs) ≡ true
      → (a == p) ≡ false
      → count a (bucket j (remove_at k p qs)) ≡ count a (bucket j qs)
  unfolding remove_at bucket
  count-bucket-remove_at a j k [] h n = refl
  count-bucket-remove_at a zero zero (q ∷ qs) h n = ground (arith, count-remove a q h)
  count-bucket-remove_at a (suc j) zero (q ∷ qs) h n = refl
  count-bucket-remove_at a zero (suc k) (q ∷ qs) h n = refl
  count-bucket-remove_at a (suc j) (suc k) (q ∷ qs) h n = count-bucket-remove_at a j k qs h n

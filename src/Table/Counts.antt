-- ===== src/Table/Counts.antt =====
-- How many rows meet a condition after an INSERT, a DELETE and an UPDATE of other rows.
use agent_os_backend.Prelude.{
  suc, ◌+◌, ◌≤◌, Bool, true, false, ◌≡◌, refl, inl, inr, some, List, [], ◌∷◌, ◌++◌, arith,
  Bool-cases,
}
use agent_os_backend.Table.{find, any, filter, update, delete, count}

module _ {A : Type 0} (p : A → Bool) where
  pub count-append_true :
      (xs : List A) (a : A) → p a ≡ true → count p (xs ++ a ∷ []) ≡ suc (count p xs)
  unfolding count
  count-append_true [] a h = ground arith
  count-append_true (x ∷ xs) a h = ground (arith, count-append_true xs a h)

  pub count-append_false : (xs : List A) (a : A) → p a ≡ false → count p (xs ++ a ∷ []) ≡ count p xs
  unfolding count
  count-append_false [] a h = ground arith
  count-append_false (x ∷ xs) a h = ground (arith, count-append_false xs a h)

  pub count-append-le : (xs : List A) (a : A) → count p xs ≤ count p (xs ++ a ∷ [])
  unfolding count
  count-append-le [] a = ground arith
  count-append-le (x ∷ xs) a = ground (arith, count-append-le xs a)

  pub any-false-count : (xs : List A) → any p xs ≡ false → count p xs ≡ 0
  unfolding any count
  any-false-count [] h = refl
  any-false-count (x ∷ xs) h = ground (arith, any-false-count xs)

  pub count-delete-le : (m : A → Bool) (xs : List A) → count p (delete m xs) ≤ count p xs
  unfolding count delete filter
  count-delete-le m [] = omega arith
  count-delete-le m (x ∷ xs) = ground (arith, count-delete-le m xs)

  pub count_le-delete :
      (m : A → Bool) (xs : List A) → count p xs ≤ count p (delete m xs) + count m xs
  unfolding count delete filter
  count_le-delete m [] = omega arith
  count_le-delete m (x ∷ xs) = ground (arith, count_le-delete m xs)

  -- The one row that is deleted does not meet the condition.
  pub count-delete_other :
      (m : A → Bool) (xs : List A) (r : A)
      → find m xs ≡ some r
      → p r ≡ false
      → count m xs ≤ 1
      → count p xs ≤ count p (delete m xs)
  unfolding count delete filter find
  count-delete_other m [] r h k l = cc
  count-delete_other m (x ∷ xs) r h k l = elim (Bool-cases (m x)) [
    | inl e ↦
        let s : x ≡ r = ground arith in
        let none_left : count m xs ≤ 0 = ground arith in
        let same : p x ≡ false = rw s k in ground (arith, count_le-delete m xs)
    | inr e ↦ ground (arith, count-delete_other m xs r)
  ]

  -- The same for an UPDATE that sets rows to `b`.
  pub count_le-update :
      (m : A → Bool) (b : A) (xs : List A)
      → count p xs ≤ count p (update m (λ _. b) xs) + count m xs
  unfolding count update
  count_le-update m b [] = omega arith
  count_le-update m b (x ∷ xs) = ground (arith, count_le-update m b xs)

  pub count-update_other :
      (m : A → Bool) (b : A) (xs : List A) (r : A)
      → find m xs ≡ some r
      → p r ≡ false
      → count m xs ≤ 1
      → count p xs ≤ count p (update m (λ _. b) xs)
  unfolding count update find
  count-update_other m b [] r h k l = cc
  count-update_other m b (x ∷ xs) r h k l = elim (Bool-cases (m x)) [
    | inl e ↦
        let s : x ≡ r = ground arith in
        let none_left : count m xs ≤ 0 = ground arith in
        let same : p x ≡ false = rw s k in ground (arith, count_le-update m b xs)
    | inr e ↦ ground (arith, count-update_other m b xs r)
  ]

  pub count-update_hit :
      (m : A → Bool) (b : A) (xs : List A)
      → p b ≡ true
      → count p xs ≤ count p (update m (λ _. b) xs)
  unfolding count update
  count-update_hit m b [] h = omega arith
  count-update_hit m b (x ∷ xs) h = ground (arith, count-update_hit m b xs h)

  pub count-update_same :
      (m : A → Bool) (b : A) (xs : List A)
      → ((x : A) → m x ≡ true → p x ≡ p b)
      → count p (update m (λ _. b) xs) ≡ count p xs
  unfolding count update
  count-update_same m b [] h = refl
  count-update_same m b (x ∷ xs) h = ground (arith, h x, count-update_same m b xs h)

-- ===== src/Table/Members.antt =====
-- Which rows are in a table after a filter, a sort, an INSERT and an UPDATE.
use agent_os_backend.Prelude.{
  Bool, true, false, ◌≡◌, ◌⊎◌, refl, List, [], ◌∷◌, ◌++◌, arith, All, In, Bool-cases, inl, inr,
}
use agent_os_backend.Table.{filter, update, insert_by, sort_by, delete}

module _ {A : Type 0} where
  pub All-In : (P : A → Type 0) (xs : List A) (a : A) → All P xs → In a xs → P a
  All-In P [] a h k = elim k [ ]
  All-In P (x ∷ xs) a h (inl e) = rw e h.0
  All-In P (x ∷ xs) a h (inr k) = All-In P xs a h.1 k

  pub In-filter : (p : A → Bool) (xs : List A) (a : A) → In a xs → p a ≡ true → In a (filter p xs)
  unfolding filter
  In-filter p [] a h k = elim h [ ]
  In-filter p (x ∷ xs) a (inl e) k = rw (← e, k, filter) (inl refl)
  In-filter p (x ∷ xs) a (inr h) k = elim (Bool-cases (p x)) [
    | inl e ↦ rw (e, filter) (inr (In-filter p xs a h k))
    | inr e ↦ rw (e, filter) (In-filter p xs a h k)
  ]

  pub filter-In : (p : A → Bool) (xs : List A) (a : A) → In a (filter p xs) → In a xs × (p a ≡ true)
  unfolding filter
  filter-In p [] a h = elim h [ ]
  filter-In p (x ∷ xs) a h = elim (Bool-cases (p x)) [
    | inl e ↦ elim (rw (e, filter) at h) [
      | inl s ↦ (inl s, rw s e)
      | inr r ↦ let k = filter-In p xs a r in (inr k.0, k.1)
    ]
    | inr e ↦ let k = filter-In p xs a (rw (e, filter) at h) in (inr k.0, k.1)
  ]

  pub delete-In : (p : A → Bool) (xs : List A) (a : A) → In a (delete p xs) → In a xs
  unfolding delete
  delete-In p xs a h = (filter-In _ xs a h).0

  pub In-insert_by :
      (le : A → A → Bool) (x : A) (xs : List A) (a : A)
      → (a ≡ x) ⊎ In a xs
      → In a (insert_by le x xs)
  unfolding insert_by
  In-insert_by le x [] a h = h
  In-insert_by le x (y ∷ ys) a h = elim (Bool-cases (le x y)) [
    | inl e ↦ rw (e, insert_by) h
    | inr e ↦
        rw (e, insert_by)
          (elim h [
            | inl k ↦ inr (In-insert_by le x ys a (inl k))
            | inr (inl k) ↦ inl k
            | inr (inr k) ↦ inr (In-insert_by le x ys a (inr k))
          ])
  ]

  pub In-sort_by : (le : A → A → Bool) (xs : List A) (a : A) → In a xs → In a (sort_by le xs)
  unfolding sort_by
  In-sort_by le [] a h = h
  In-sort_by le (x ∷ xs) a (inl e) = In-insert_by le x (sort_by le xs) a (inl e)
  In-sort_by le (x ∷ xs) a (inr h) =
      In-insert_by le x (sort_by le xs) a (inr (In-sort_by le xs a h))

  insert_by-In :
      (le : A → A → Bool) (x : A) (xs : List A) (a : A)
      → In a (insert_by le x xs)
      → (a ≡ x) ⊎ In a xs
  unfolding insert_by
  insert_by-In le x [] a h = h
  insert_by-In le x (y ∷ ys) a h = elim (Bool-cases (le x y)) [
    | inl e ↦ rw (e, insert_by) at h
    | inr e ↦ elim (rw (e, insert_by) at h) [
      | inl k ↦ inr (inl k)
      | inr k ↦ elim (insert_by-In le x ys a k) [ inl s ↦ inl s | inr s ↦ inr (inr s) ]
    ]
  ]

  pub sort_by-In : (le : A → A → Bool) (xs : List A) (a : A) → In a (sort_by le xs) → In a xs
  unfolding sort_by
  sort_by-In le [] a h = h
  sort_by-In le (x ∷ xs) a h = elim (insert_by-In le x (sort_by le xs) a h) [
    | inl e ↦ inl e
    | inr k ↦ inr (sort_by-In le xs a k)
  ]

  -- Membership after an INSERT and after a Save.
  pub append-In : (xs : List A) (y a : A) → In a (xs ++ y ∷ []) → In a xs ⊎ (a ≡ y)
  append-In [] y a (inl e) = inr e
  append-In [] y a (inr h) = elim h [ ]
  append-In (x ∷ xs) y a (inl e) = inl (inl e)
  append-In (x ∷ xs) y a (inr h) = elim (append-In xs y a h) [ inl k ↦ inl (inr k) | inr e ↦ inr e ]

  pub In-append_left : (xs ys : List A) (a : A) → In a xs → In a (xs ++ ys)
  In-append_left [] ys a h = elim h [ ]
  In-append_left (x ∷ xs) ys a (inl e) = inl e
  In-append_left (x ∷ xs) ys a (inr h) = inr (In-append_left xs ys a h)

  pub In-append_last : (xs : List A) (a : A) → In a (xs ++ a ∷ [])
  In-append_last [] a = inl refl
  In-append_last (x ∷ xs) a = inr (In-append_last xs a)

  pub update-In :
      (q : A → Bool) (b : A) (xs : List A) (a : A)
      → In a (update q (λ _. b) xs)
      → (a ≡ b) ⊎ (In a xs × (q a ≡ false))
  unfolding update
  update-In q b [] a h = elim h [ ]
  update-In q b (x ∷ xs) a (inl e) = elim (Bool-cases (q x)) [
    | inl k ↦ inl (ground arith)
    | inr k ↦ let s : a ≡ x = ground arith in inr (inl s, rw s k)
  ]
  update-In q b (x ∷ xs) a (inr h) = elim (update-In q b xs a h) [
    | inl e ↦ inl e
    | inr k ↦ inr (inr k.0, k.1)
  ]

  pub In-update_ne :
      (q : A → Bool) (f : A → A) (xs : List A) (a : A)
      → In a xs
      → q a ≡ false
      → In a (update q f xs)
  unfolding update
  In-update_ne q f [] a h k = elim h [ ]
  In-update_ne q f (x ∷ xs) a (inl e) k = inl (ground arith)
  In-update_ne q f (x ∷ xs) a (inr h) k = inr (In-update_ne q f xs a h k)

  pub In-update_self :
      (q : A → Bool) (b : A) (xs : List A) (a : A)
      → In a xs
      → q a ≡ true
      → In b (update q (λ _. b) xs)
  unfolding update
  In-update_self q b [] a h k = elim h [ ]
  In-update_self q b (x ∷ xs) a (inl e) k = inl (rw (← e, k))
  In-update_self q b (x ∷ xs) a (inr h) k = inr (In-update_self q b xs a h k)

  pub In-update_map :
      (q : A → Bool) (f : A → A) (xs : List A) (a : A)
      → In a xs
      → q a ≡ true
      → In (f a) (update q f xs)
  unfolding update
  In-update_map q f [] a h k = elim h [ ]
  In-update_map q f (x ∷ xs) a (inl e) k = inl (rw (← e, k))
  In-update_map q f (x ∷ xs) a (inr h) k = inr (In-update_map q f xs a h k)

  pub update_map-In :
      (q : A → Bool) (f : A → A) (xs : List A) (b : A)
      → In b (update q f xs)
      → (a : A) × In a xs × (((q a ≡ true) × (b ≡ f a)) ⊎ ((q a ≡ false) × (b ≡ a)))
  unfolding update
  update_map-In q f [] b h = elim h [ ]
  update_map-In q f (x ∷ xs) b (inl e) = elim (Bool-cases (q x)) [
    | inl k ↦ (x, inl refl, inl (k, ground arith))
    | inr k ↦ (x, inl refl, inr (k, ground arith))
  ]
  update_map-In q f (x ∷ xs) b (inr h) = let (a, i, c) = update_map-In q f xs b h in (a, inr i, c)

-- ===== src/Table/Laws.antt =====
-- The first row of a sorted table, and predicates of every row.
use agent_os_backend.Prelude.{
  Bool, true, false, ◌≡◌, refl, List, [], ◌∷◌, ◌++◌, arith, All, Bool-cases, inl, inr, All-mono,
  subst, All-append,
}
use agent_os_backend.Table.{any, update, insert_by, sort_by, upsert}

-- An order that may be sorted by.
pub record IsOrder {A : Type 0} (le : A → A → Bool) : Type 0 where
  pub total : (a b : A) → le a b ≡ false → le b a ≡ true
  pub trans : (a b c : A) → le a b ≡ true → le b c ≡ true → le a c ≡ true

module _ {A : Type 0} (le : A → A → Bool) (o : IsOrder le) where
  le_refl : (a : A) → le a a ≡ true
  le_refl a = elim (Bool-cases (le a a)) [ inl e ↦ e | inr e ↦ o.total a a e ]

  insert_by-IsSorted_head :
      (x : A) (xs : List A) (y : A) (ys : List A)
      → insert_by le x xs ≡ y ∷ ys
      → ((z : A) (zs : List A) → xs ≡ z ∷ zs → All (λ a. le z a ≡ true) xs)
      → (le y x ≡ true) × All (λ a. le y a ≡ true) xs
  unfolding insert_by
  insert_by-IsSorted_head x [] y ys h k = (ground (arith, le_refl x), tt)
  insert_by-IsSorted_head x (z ∷ zs) y ys h k = elim (Bool-cases (le x z)) [
    | inl e ↦
        let s : x ≡ y = ground arith in
        (
          rw (← s) (le_refl x),
          subst (λ t. All (λ a. le t a ≡ true) (z ∷ zs)) s
              (All-mono (λ a. le z a ≡ true) (λ a. le x a ≡ true) (z ∷ zs)
                (λ a t. o.trans x z a e t) (k z zs refl)),
        )
    | inr e ↦
        let s : z ≡ y = ground arith in
        (rw (← s) (o.total x z e), subst (λ t. All (λ a. le t a ≡ true) (z ∷ zs)) s (k z zs refl))
  ]

  All-insert_by :
      (P : A → Type 0) (x : A) (xs : List A) → P x → All P xs → All P (insert_by le x xs)
  unfolding insert_by
  All-insert_by P x [] h k = (h, tt)
  All-insert_by P x (y ∷ ys) h k = elim (Bool-cases (le x y)) [
    | inl e ↦ rw (e, insert_by) (h, k)
    | inr e ↦ rw (e, insert_by) (k.0, All-insert_by P x ys h k.1)
  ]

  -- The first row of a sorted list stands before every row.
  pub sort_by-head-le :
      (xs : List A) (y : A) (ys : List A)
      → sort_by le xs ≡ y ∷ ys
      → All (λ a. le y a ≡ true) (sort_by le xs)
  unfolding sort_by
  sort_by-head-le [] y ys h = tt
  sort_by-head-le (x ∷ xs) y ys h =
      let k =
        insert_by-IsSorted_head x (sort_by le xs) y ys h (λ z zs e. sort_by-head-le xs z zs e) in
      All-insert_by (λ a. le y a ≡ true) x (sort_by le xs) k.0 k.1

-- A predicate of every row, after an INSERT, an UPDATE and a Save.
module _ {ℓ} {A : Type 0} (P : A → Type ℓ) where
  pub All-insert : (xs : List A) (a : A) → All P xs → P a → All P (xs ++ a ∷ [])
  All-insert xs a h k = All-append P xs (a ∷ []) h (k, tt)

  pub All-update :
      (q : A → Bool) (f : A → A) (xs : List A)
      → ((a : A) → P a → P (f a))
      → All P xs
      → All P (update q f xs)
  unfolding update
  All-update q f [] keeps h = tt
  All-update q f (x ∷ xs) keeps h = (
    elim (Bool-cases (q x)) [ inl e ↦ rw e (keeps x h.0) | inr e ↦ rw e h.0 ],
    All-update q f xs keeps h.1,
  )

  pub All-upsert : (q : A → Bool) (a : A) (xs : List A) → P a → All P xs → All P (upsert q a xs)
  unfolding upsert
  All-upsert q a xs k h = elim (Bool-cases (any q xs)) [
    | inl e ↦ rw e (All-update q (λ _. a) xs (λ _ _. k) h)
    | inr e ↦ rw e (All-insert xs a h k)
  ]

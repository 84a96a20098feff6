-- ===== src/Table/Order.antt =====
-- ORDER BY with LIMIT: a sorted table and its first rows.
use agent_os_backend.Prelude.{
  ℕ, zero, suc, Bool, true, false, ◌≡◌, List, [], ◌∷◌, All, In, All-mono, Bool-cases, inl, inr,
  take, subst,
}
use agent_os_backend.Table.{insert_by, sort_by}
use agent_os_backend.Table.Members.{All-In}
use agent_os_backend.Table.Laws.{IsOrder}

module _ {A : Type 0} (le : A → A → Bool) where
  abbrev pub IsSorted : List A → Type 0
  IsSorted [] = Unit
  IsSorted (x ∷ xs) = All (λ a. le x a ≡ true) xs × IsSorted xs

  All-insert_by :
      (P : A → Type 0) (x : A) (xs : List A) → P x → All P xs → All P (insert_by le x xs)
  unfolding insert_by
  All-insert_by P x [] h k = (h, tt)
  All-insert_by P x (y ∷ ys) h k = elim (Bool-cases (le x y)) [
    | inl e ↦ rw (e, insert_by) (h, k)
    | inr e ↦ rw (e, insert_by) (k.0, All-insert_by P x ys h k.1)
  ]

  insert_by-IsSorted :
      IsOrder le → (x : A) (xs : List A) → IsSorted xs → IsSorted (insert_by le x xs)
  unfolding insert_by
  insert_by-IsSorted o x [] s = (tt, tt)
  insert_by-IsSorted o x (y ∷ ys) s = elim (Bool-cases (le x y)) [
    | inl e ↦
        rw (e, insert_by)
          (
            (
              e,
              All-mono (λ a. le y a ≡ true) (λ a. le x a ≡ true) ys (λ a t. o.trans x y a e t) s.0,
            ),
            s,
          )
    | inr e ↦
        rw (e, insert_by)
          (
            All-insert_by (λ a. le y a ≡ true) x ys (o.total x y e) s.0,
            insert_by-IsSorted o x ys s.1,
          )
  ]

  pub sort_by-IsSorted : IsOrder le → (xs : List A) → IsSorted (sort_by le xs)
  unfolding sort_by
  sort_by-IsSorted o [] = tt
  sort_by-IsSorted o (x ∷ xs) = insert_by-IsSorted o x (sort_by le xs) (sort_by-IsSorted o xs)

  -- A row that does not stand behind one of the first rows is one of them.
  pub take_complete :
      (n : ℕ) (xs : List A) (e a : A)
      → IsSorted xs
      → In e (take n xs)
      → In a xs
      → le e a ≡ false
      → In a (take n xs)
  take_complete zero xs e a s h k l = elim h [ ]
  take_complete (suc n) [] e a s h k l = elim h [ ]
  take_complete (suc n) (x ∷ xs) e a s h (inl q) l = inl q
  take_complete (suc n) (x ∷ xs) e a s (inl q) (inr k) l = absurd (
      let t = All-In (λ b. le x b ≡ true) xs a s.0 k in
      let l' : le x a ≡ false = subst (λ c. le c a ≡ false) q l in cc (t, l'))
  take_complete (suc n) (x ∷ xs) e a s (inr h) (inr k) l = inr (take_complete n xs e a s.1 h k l)

  pub take-In : (n : ℕ) (xs : List A) (a : A) → In a (take n xs) → In a xs
  take-In zero xs a h = elim h [ ]
  take-In (suc n) [] a h = elim h [ ]
  take-In (suc n) (x ∷ xs) a (inl e) = inl e
  take-In (suc n) (x ∷ xs) a (inr h) = inr (take-In n xs a h)

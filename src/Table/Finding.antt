-- ===== src/Table/Finding.antt =====
-- What a look-up finds, before and after an UPDATE.
use agent_os_backend.Prelude.{
  Bool, true, false, ◌≡◌, refl, none, some, List, [], ◌∷◌, ◌++◌, arith, All, In, Bool-cases, inl,
  inr, sym, Option,
}
use agent_os_backend.Errors.{Error, ok, err, record_not_found}
use agent_os_backend.Table.{find, any, update, or_not_found, first}

module _ {A : Type 0} where
  pub find_sound :
      (p : A → Bool) (xs : List A) (a : A) → find p xs ≡ some a → In a xs × (p a ≡ true)
  unfolding find
  find_sound p [] a h = cc
  find_sound p (x ∷ xs) a h = elim (Bool-cases (p x)) [
    | inl e ↦ let k : x ≡ a = ground arith in (inl (sym k), rw (← k) e)
    | inr e ↦ let r = find_sound p xs a (ground arith) in (inr r.0, r.1)
  ]

  pub or_not_found-ok : (o : Option A) (a : A) → or_not_found o ≡ ok a → o ≡ some a
  or_not_found-ok none a h = cc
  or_not_found-ok (some b) a h = cc

  pub or_not_found-err :
      (o : Option A) (e : Error) → or_not_found o ≡ err e → (o ≡ none) × (e ≡ record_not_found)
  or_not_found-err none e h = (refl, ground arith)
  or_not_found-err (some b) e h = cc

  pub first-ok : (p : A → Bool) (xs : List A) (a : A) → first p xs ≡ ok a → In a xs × (p a ≡ true)
  first-ok p xs a h = find_sound p xs a (or_not_found-ok (find p xs) a h)

  pub find_complete :
      (p : A → Bool) (xs : List A) (a : A) → In a xs → p a ≡ true → (b : A) × (find p xs ≡ some b)
  unfolding find
  find_complete p [] a h k = elim h [ ]
  find_complete p (x ∷ xs) a (inl e) k = (x, rw (← e) (ground arith))
  find_complete p (x ∷ xs) a (inr h) k = elim (Bool-cases (p x)) [
    | inl e ↦ (x, rw (e, find))
    | inr e ↦ let r = find_complete p xs a h k in (r.0, rw (e, find) r.1)
  ]

  -- `First` finds nothing exactly where no row meets the condition.
  pub find-none : (p : A → Bool) (xs : List A) → find p xs ≡ none → All (λ a. p a ≡ false) xs
  unfolding find
  find-none p [] h = tt
  find-none p (x ∷ xs) h = elim (Bool-cases (p x)) [
    | inl e ↦ absurd (ground arith)
    | inr e ↦ (e, find-none p xs (ground arith))
  ]

  -- The row that a condition finds is found again after it has been replaced.
  pub find-update_self :
      (p q : A → Bool) (xs : List A) (a b : A)
      → find p xs ≡ some a
      → q a ≡ true
      → p b ≡ true
      → find p (update q (λ _. b) xs) ≡ some b
  unfolding find update
  find-update_self p q [] a b h k l = cc
  find-update_self p q (x ∷ xs) a b h k l = elim (Bool-cases (p x)) [
    | inl e ↦ let s : x ≡ a = ground arith in rw s (ground arith)
    | inr e ↦ ground (arith, find-update_self p q xs a b)
  ]

  -- An UPDATE of other rows does not change what a condition finds.
  pub find-update_ne :
      (p q : A → Bool) (f : A → A) (xs : List A)
      → ((x : A) → q x ≡ true → (p x ≡ false) × (p (f x) ≡ false))
      → find p (update q f xs) ≡ find p xs
  unfolding find update
  find-update_ne p q f [] h = refl
  find-update_ne p q f (x ∷ xs) h = ground (arith, h x, find-update_ne p q f xs h)

  pub find-append_some :
      (p : A → Bool) (xs ys : List A) (a : A) → find p xs ≡ some a → find p (xs ++ ys) ≡ some a
  unfolding find
  find-append_some p [] ys a h = cc
  find-append_some p (x ∷ xs) ys a h = ground (arith, find-append_some p xs ys a)

  pub any-false : (p : A → Bool) (xs : List A) → any p xs ≡ false → All (λ a. p a ≡ false) xs
  unfolding any
  any-false p [] h = tt
  any-false p (x ∷ xs) h = elim (Bool-cases (p x)) [
    | inl e ↦ absurd (ground arith)
    | inr e ↦ (e, any-false p xs (ground arith))
  ]

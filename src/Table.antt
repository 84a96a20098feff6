-- ===== src/Table.antt =====
-- A database table: the list of its rows in the order of their insertion, with the parts of the
-- statements that the repositories issue. `First` looks rows up by a unique key, so that its order
-- does not matter.
pub mod Finding
pub mod Members
pub mod Laws
pub mod Order
pub mod Counts
use agent_os_backend.Prelude.{
  ℕ, suc, Bool, true, false, ◌&&◌, not, Option, none, some, List, [], ◌∷◌, ◌++◌, if◌then◌else◌,
}
use agent_os_backend.Errors.{Result, ok, err, Error, record_not_found}

module _ {ℓ} {A : Type ℓ} where
  -- SELECT … WHERE p LIMIT 1
  unfoldable pub find : (A → Bool) → List A → Option A
  find p [] = none
  find p (x ∷ xs) = if p x then some x else find p xs

  -- SELECT … WHERE p
  unfoldable pub filter : (A → Bool) → List A → List A
  filter p [] = []
  filter p (x ∷ xs) = let rest = filter p xs in if p x then x ∷ rest else rest

  unfoldable pub any : (A → Bool) → List A → Bool
  any p [] = false
  any p (x ∷ xs) = if p x then true else any p xs

  -- UPDATE … SET f WHERE p
  unfoldable pub update : (A → Bool) → (A → A) → List A → List A
  update p f [] = []
  update p f (x ∷ xs) = (if p x then f x else x) ∷ update p f xs

  -- DELETE … WHERE p
  unfoldable pub delete : (A → Bool) → List A → List A
  unfolding filter
  delete p xs = filter (λ x. not (p x)) xs

  -- SELECT count(*) … WHERE p, also the rows affected by an UPDATE or DELETE
  unfoldable pub count : (A → Bool) → List A → ℕ
  count p [] = 0
  count p (x ∷ xs) = let rest = count p xs in if p x then suc rest else rest

  -- Save: the row of the same key is replaced, and inserted if there is none.
  unfoldable pub upsert : (A → Bool) → A → List A → List A
  unfolding any update
  upsert p a xs = if any p xs then update p (λ _. a) xs else xs ++ a ∷ []

  -- ORDER BY, stable; `le` says that the first row may stand before the second.
  unfoldable pub insert_by : (A → A → Bool) → A → List A → List A
  insert_by le a [] = a ∷ []
  insert_by le a (x ∷ xs) = if le a x then a ∷ x ∷ xs else x ∷ insert_by le a xs

  unfoldable pub sort_by : (A → A → Bool) → List A → List A
  unfolding insert_by
  sort_by le [] = []
  sort_by le (x ∷ xs) = insert_by le x (sort_by le xs)

  abbrev pub or_not_found : Option A → Result A
  or_not_found none = err record_not_found
  or_not_found (some a) = ok a

  abbrev pub first : (A → Bool) → List A → Result A
  first p xs = or_not_found (find p xs)

-- ===== src/Db/Keeps.antt =====
-- Invariants of the rows, one rule for each way to build a call: it keeps one, however it ends, where
-- each of its statements does.
use agent_os_backend.Prelude.{
  ◌≡◌, refl, Bool, true, false, inl, inr, Bool-cases, String, if◌then◌else◌,
}
use agent_os_backend.Errors.{Error, Result, ok, err}
use agent_os_backend.Db.{
  Db, Exec, select, statement, store_rows, settle, transaction, next, attempt, raise, lift, pure,
  fail_if, continue, ◌>>=◌, wrapping, zoom, database,
}
use agent_os_backend.Db.Laws.{tables-select}

pub record Keeps {ℓ} {S A : Type 0} (P : S → Type ℓ) (m : Exec S A) : Type ℓ where
  pub after : (d : Db S) → P d.tables → P (m d).1.tables

module _ {ℓ} {S A : Type 0} (P : S → Type ℓ) where
  -- what a statement asks of the rows that it leaves
  abbrev pub Holds : Result (A × S) → Type ℓ
  Holds (ok (a, s)) = P s
  Holds (err e) = Unit

  store_rows-Holds :
      (r : Result (A × S)) (d : Db S) → P d.tables → Holds r → P (store_rows r d).1.tables
  store_rows-Holds (ok (a, s)) d h k = k
  store_rows-Holds (err e) d h k = h

  settle-Holds : (s : S) (p : Result A × Db S) → P s → P p.1.tables → P (settle s p).1.tables
  settle-Holds s (err e, d) h k = h
  settle-Holds s (ok a, d) h k = elim (Bool-cases (d.refuses d.issued)) [
    | inl e ↦ rw e h
    | inr e ↦ rw e k
  ]

module _ {ℓ} {S A : Type 0} {P : S → Type ℓ} where
  pub pure-Keeps : (a : A) → Keeps P (pure a)
  pure-Keeps a = record { after = λ d h. h }

  pub raise-Keeps : (e : Error) → Keeps P (raise {A = A} e)
  raise-Keeps e = record { after = λ d h. h }

  pub lift-Keeps : (r : Result A) → Keeps P (lift r)
  lift-Keeps r = record { after = λ d h. h }

  pub select-Keeps : (q : S → Result A) → Keeps P (select q)
  select-Keeps q = record { after = λ d h. rw (tables-select q d) h }

  pub statement-Keeps :
      (q : S → Result (A × S)) → ((s : S) → P s → Holds P (q s)) → Keeps P (statement q)
  unfolding statement
  statement-Keeps q keeps = record {
    after = λ d h. elim (Bool-cases (d.refuses d.issued)) [
      | inl e ↦ rw e h
      | inr e ↦ rw e (store_rows-Holds P (q d.tables) (next d) h (keeps d.tables h))
    ];
  }

  -- an INSERT that an index may refuse
  pub insert-Keeps :
      (c : S → Bool) (e : Error) (a : A) (f : S → S)
      → ((s : S) → c s ≡ false → P s → P (f s))
      → Keeps P (statement λ s. if c s then err e else ok (a, f s))
  insert-Keeps c e a f keeps =
      statement-Keeps (λ s. if c s then err e else ok (a, f s))
        λ s h. elim (Bool-cases (c s)) [ inl t ↦ rw t tt | inr t ↦ rw t (keeps s t h) ]

  -- an UPDATE or DELETE
  pub write-Keeps :
      (a : A) (f : S → S) → ((s : S) → P s → P (f s)) → Keeps P (statement λ s. ok (a, f s))
  write-Keeps a f keeps = statement-Keeps (λ s. ok (a, f s)) keeps

  pub transaction-Keeps : (m : Exec S A) → Keeps P m → Keeps P (transaction m)
  unfolding transaction
  transaction-Keeps m keeps = record {
    after = λ d h. elim (Bool-cases (d.refuses d.issued)) [
      | inl e ↦ rw e h
      | inr e ↦ rw e (settle-Holds P d.tables (m (next d)) h (keeps.after (next d) h))
    ];
  }

  pub if-Keeps : (b : Bool) (m k : Exec S A) → Keeps P m → Keeps P k → Keeps P (if b then m else k)
  if-Keeps true m k h g = h
  if-Keeps false m k h g = g

  pub attempt-Keeps : (m : Exec S A) → Keeps P m → Keeps P (attempt m)
  attempt-Keeps m keeps = record { after = keeps.after }

pub wrapping-Keeps {ℓ} :
    {S A : Type 0} {P : S → Type ℓ} (text : String) (m : Exec S A)
    → Keeps P m
    → Keeps P (wrapping text m)
wrapping-Keeps text m keeps = record { after = keeps.after }

pub fail_if-Keeps {ℓ} :
    {S : Type 0} {P : S → Type ℓ} (b : Bool) (e : Error) → Keeps P (fail_if {S = S} b e)
fail_if-Keeps true e = record { after = λ d h. h }
fail_if-Keeps false e = record { after = λ d h. h }

module _ {ℓ} {S A B : Type 0} {P : S → Type ℓ} where
  pub bind-Keeps :
      (m : Exec S A) (f : A → Exec S B) → Keeps P m → ((a : A) → Keeps P (f a)) → Keeps P (m >>= f)
  bind-Keeps m f keeps more = record { after = λ d h. go (m d).0 (m d).1 (keeps.after d h) }
    where
      go : (r : Result A) (d' : Db S) → P d'.tables → P (continue f r d').1.tables
      go (ok a) d' k = (more a).after d' k
      go (err e) d' k = k

pub ruleset keeps_rules = (
  pure-Keeps, raise-Keeps, lift-Keeps, select-Keeps, if-Keeps, attempt-Keeps, wrapping-Keeps,
  fail_if-Keeps, bind-Keeps,
)

-- A call that goes on with a row that it has looked up: what the invariant says of such a row holds of
-- the row that it goes on with.
module _ {ℓ} {S A B : Type 0} {P : S → Type ℓ} (Q : A → Type ℓ) where
  pub found_or_not-Keeps :
      (q : S → Result A) (f : Result A → Exec S B)
      → ((s : S) (a : A) → P s → q s ≡ ok a → Q a)
      → ((a : A) → Q a → Keeps P (f (ok a)))
      → ((e : Error) → Keeps P (f (err e)))
      → Keeps P (attempt (select q) >>= f)
  unfolding select
  found_or_not-Keeps q f sound found missing = record {
    after = λ d h. elim (Bool-cases (d.refuses d.issued)) [
      | inl e ↦ rw e ((missing database).after (next d) h)
      | inr e ↦ rw e (go d.tables (next d) h (q d.tables) refl h)
    ];
  }
    where
      go : (s : S) (d : Db S) → P s → (r : Result A) → q s ≡ r → P d.tables → P (f r d).1.tables
      go s d h (ok a) e k = (found a (sound s a h e)).after d k
      go s d h (err x) e k = (missing x).after d k

  pub found-Keeps :
      (q : S → Result A) (f : A → Exec S B)
      → ((s : S) (a : A) → P s → q s ≡ ok a → Q a)
      → ((a : A) → Q a → Keeps P (f a))
      → Keeps P (select q >>= f)
  unfolding select
  found-Keeps q f sound found = record {
    after = λ d h. elim (Bool-cases (d.refuses d.issued)) [
      | inl e ↦ rw e h
      | inr e ↦ rw e (go d.tables (next d) h (q d.tables) refl h)
    ];
  }
    where
      go :
          (s : S) (d : Db S)
          → P s
          → (r : Result A) → q s ≡ r
          → P d.tables
          → P (continue f r d).1.tables
      go s d h (ok a) e k = (found a (sound s a h e)).after d k
      go s d h (err x) e k = k

-- The same where what is known of the row is read off the rows that it was found in.
module _ {ℓ} {S A B : Type 0} {P : S → Type ℓ} (Q : A → S → Type ℓ) where
  pub looked-Keeps :
      (q : S → Result A) (f : A → Exec S B)
      → ((s : S) (a : A) → P s → q s ≡ ok a → Q a s)
      → ((a : A) → Keeps (λ s. P s × Q a s) (f a))
      → Keeps P (select q >>= f)
  unfolding select
  looked-Keeps q f sound more = record {
    after = λ d h. elim (Bool-cases (d.refuses d.issued)) [
      | inl e ↦ rw e h
      | inr e ↦ rw e (go (next d) h (q d.tables) refl)
    ];
  }
    where
      go : (d : Db S) → P d.tables → (r : Result A) → q d.tables ≡ r → P (continue f r d).1.tables
      go d h (ok a) e = ((more a).after d (h, sound d.tables a h e)).0
      go d h (err x) e = h

-- `if b { return err }`: the rest runs where b is false.
pub guard-Keeps {ℓ} :
    {S B : Type 0} {P : S → Type ℓ} (b : Bool) (e : Error) (f : Unit {0} → Exec S B)
    → (b ≡ false → (u : Unit {0}) → Keeps P (f u))
    → Keeps P (fail_if b e >>= f)
guard-Keeps true e f k = record { after = λ d h. h }
guard-Keeps false e f k = record { after = (k refl tt).after }

-- A call that leads from one invariant to a weaker one.
pub record Leads {ℓ} {S A : Type 0} (P R : S → Type ℓ) (m : Exec S A) : Type ℓ where
  pub after : (d : Db S) → P d.tables → R (m d).1.tables

module _ {ℓ} {S : Type 0} {P R : S → Type ℓ} where
  pub insert-Leads :
      {A : Type 0} (c : S → Bool) (e : Error) (a : A) (f : S → S)
      → ((s : S) → P s → R s)
      → ((s : S) → P s → R (f s))
      → Leads P R (statement λ s. if c s then err e else ok (a, f s))
  unfolding statement
  insert-Leads c e a f weaker made = record {
    after = λ d h. elim (Bool-cases (d.refuses d.issued)) [
      | inl k ↦ rw k (weaker d.tables h)
      | inr k ↦ rw k (elim (Bool-cases (c d.tables)) [
        | inl t ↦ rw t (weaker d.tables h)
        | inr t ↦ rw t (made d.tables h)
      ])
    ];
  }

  -- an UPDATE that makes `P` of `R`, then a call that keeps `R` given `P`
  pub write-then-Keeps :
      {A B : Type 0} (a : A) (w : S → S) (f : A → Exec S B)
      → ((s : S) → R s → P (w s))
      → Leads P R (f a)
      → Keeps R (statement (λ s. ok (a, w s)) >>= f)
  unfolding statement
  write-then-Keeps a w f made rest = record {
    after = λ d h. elim (Bool-cases (d.refuses d.issued)) [
      | inl k ↦ rw k h
      | inr k ↦ rw k (rest.after (record (next d) { tables = w d.tables }) (made d.tables h))
    ];
  }

module _ {ℓ} {S A B : Type 0} {P R : S → Type ℓ} where
  pub pure_after-Leads : (m : Exec S A) (b : B) → Leads P R m → Leads P R (m >>= λ _. pure b)
  pure_after-Leads m b k = record { after = λ d h. go (m d).0 (m d).1 (k.after d h) }
    where
      go : (r : Result A) (d : Db S) → R d.tables → R (continue (λ _. pure b) r d).1.tables
      go (ok a) d h = h
      go (err e) d h = h

-- a call of another component, whose tables the invariant does not read
pub zoom-Keeps {ℓ} :
    {S T A : Type 0} {P : S → Type ℓ} (get : S → T) (put : T → S → S) (m : Exec T A)
    → ((s : S) (part : T) → P s → P (put part s))
    → Keeps P (zoom get put m)
unfolding zoom
zoom-Keeps get put m keeps = record {
  after = λ d h.
      keeps d.tables
        (m (record { tables = get d.tables; issued = d.issued; refuses = d.refuses })).1.tables h;
}

-- The same for a call that keeps what the condition says of the part.
pub zoom_within-Keeps {ℓ} :
    {S T A : Type 0} {P : S → Type ℓ} (get : S → T) (put : T → S → S) (m : Exec T A)
    → ((s : S) → P s → P (put (get s) s))
    → ((s : S) → P s → Keeps (λ part. P (put part s)) m)
    → Keeps P (zoom get put m)
unfolding zoom
zoom_within-Keeps get put m same keeps = record {
  after = λ d h.
      (keeps d.tables h).after
        (record { tables = get d.tables; issued = d.issued; refuses = d.refuses })
        (same d.tables h);
}

-- ===== src/Db/Triples.antt =====
-- What a call leads to: a condition on the rows before, one on the value and the rows where the call
-- returns, and one on the rows where it fails. One rule for each way to build a call.
use agent_os_backend.Prelude.{
  ◌≡◌, refl, Bool, true, false, inl, inr, Bool-cases, String, if◌then◌else◌,
}
use agent_os_backend.Errors.{Error, Result, ok, err, database}
use agent_os_backend.Db.{
  Db, Exec, select, statement, attempt, raise, pure, fail_if, continue, ◌>>=◌, wrapping, wrap,
  transaction, settle, next,
}
use agent_os_backend.Db.Keeps.{Keeps}

abbrev pub Ends {ℓ} : {S A : Type 0} → (A → S → Type ℓ) → (S → Type ℓ) → Result A → S → Type ℓ
Ends R E (ok a) s = R a s
Ends R E (err e) s = E s

pub record Triple {ℓ} {S A : Type 0} (P : S → Type ℓ) (R : A → S → Type ℓ) (E : S → Type ℓ)
    (m : Exec S A) : Type ℓ where
  pub after : (d : Db S) → P d.tables → Ends R E (m d).0 (m d).1.tables

module _ {ℓ} {S A : Type 0} {P : S → Type ℓ} {R : A → S → Type ℓ} {E : S → Type ℓ} where
  pub Triple-Keeps :
      (m : Exec S A)
      → ((a : A) (s : S) → R a s → P s)
      → ((s : S) → E s → P s)
      → Triple P R E m
      → Keeps P m
  Triple-Keeps m f g t = record { after = λ d h. go (m d).0 (m d).1.tables (t.after d h) }
    where
      go : (r : Result A) (s : S) → Ends R E r s → P s
      go (ok a) s h = f a s h
      go (err e) s h = g s h

  pub pure-Triple : (a : A) → ((s : S) → P s → R a s) → Triple P R E (pure a)
  pure-Triple a f = record { after = λ d h. f d.tables h }

  pub raise-Triple : (e : Error) → ((s : S) → P s → E s) → Triple P R E (raise {A = A} e)
  raise-Triple e f = record { after = λ d h. f d.tables h }

  pub select-Triple :
      (q : S → Result A)
      → ((s : S) (a : A) → P s → q s ≡ ok a → R a s)
      → ((s : S) → P s → E s)
      → Triple P R E (select q)
  unfolding select
  select-Triple q f g = record {
    after = λ d h. elim (Bool-cases (d.refuses d.issued)) [
      | inl e ↦ rw e (g d.tables h)
      | inr e ↦ rw e (go d.tables h (q d.tables) refl)
    ];
  }
    where
      go : (s : S) → P s → (r : Result A) → q s ≡ r → Ends R E r s
      go s h (ok a) e = f s a h e
      go s h (err x) e = g s h

  -- an INSERT that an index may refuse
  pub insert-Triple :
      (c : S → Bool) (e : Error) (a : A) (f : S → S)
      → ((s : S) → c s ≡ false → P s → R a (f s))
      → ((s : S) → P s → E s)
      → Triple P R E (statement λ s. if c s then err e else ok (a, f s))
  unfolding statement
  insert-Triple c e a f made kept = record {
    after = λ d h. elim (Bool-cases (d.refuses d.issued)) [
      | inl k ↦ rw k (kept d.tables h)
      | inr k ↦ rw k (elim (Bool-cases (c d.tables)) [
        | inl t ↦ rw t (kept d.tables h)
        | inr t ↦ rw t (made d.tables t h)
      ])
    ];
  }

  -- an UPDATE or DELETE
  pub write-Triple :
      (a : A) (f : S → S)
      → ((s : S) → P s → R a (f s))
      → ((s : S) → P s → E s)
      → Triple P R E (statement λ s. ok (a, f s))
  unfolding statement
  write-Triple a f made kept = record {
    after = λ d h. elim (Bool-cases (d.refuses d.issued)) [
      | inl k ↦ rw k (kept d.tables h)
      | inr k ↦ rw k (made d.tables h)
    ];
  }

  -- A call that fails in a transaction leaves the rows from before it.
  pub transaction-Triple :
      (m : Exec S A)
      → Triple P R (λ _. Unit) m
      → ((s : S) → P s → E s)
      → Triple P R E (transaction m)
  unfolding transaction
  transaction-Triple m t kept = record {
    after = λ d h. elim (Bool-cases (d.refuses d.issued)) [
      | inl e ↦ rw e (kept d.tables h)
      | inr e ↦ rw e (go d.tables h (m (next d)).0 (m (next d)).1 (t.after (next d) h))
    ];
  }
    where
      go :
          (s : S)
          → P s
          → (r : Result A) (d : Db S) → Ends R (λ _. Unit) r d.tables
          → Ends R E (settle s (r, d)).0 (settle s (r, d)).1.tables
      go s h (err e) d k = kept s h
      go s h (ok a) d k = elim (Bool-cases (d.refuses d.issued)) [
        | inl e ↦ rw e (kept s h)
        | inr e ↦ rw e k
      ]

  pub if-Triple :
      (b : Bool) (m k : Exec S A)
      → (b ≡ true → Triple P R E m)
      → (b ≡ false → Triple P R E k)
      → Triple P R E (if b then m else k)
  if-Triple true m k f g = f refl
  if-Triple false m k f g = g refl

  pub wrapping-Triple :
      (text : String) (m : Exec S A) → Triple P R E m → Triple P R E (wrapping text m)
  wrapping-Triple text m t = record { after = λ d h. go (m d).0 (m d).1.tables (t.after d h) }
    where
      go : (r : Result A) (s : S) → Ends R E r s → Ends R E (wrap text r) s
      go (ok a) s h = h
      go (err e) s h = h

  -- a call that keeps the condition before it
  pub Keeps-Triple :
      (m : Exec S A)
      → Keeps P m
      → ((a : A) (s : S) → P s → R a s)
      → ((s : S) → P s → E s)
      → Triple P R E m
  Keeps-Triple m k f g = record { after = λ d h. go (m d).0 (m d).1.tables (k.after d h) }
    where
      go : (r : Result A) (s : S) → P s → Ends R E r s
      go (ok a) s h = f a s h
      go (err e) s h = g s h

-- a SELECT whose error the caller looks at
module _ {ℓ} {S A : Type 0} {P : S → Type ℓ} {R : Result A → S → Type ℓ} {E : S → Type ℓ} where
  pub attempt-Triple :
      (q : S → Result A)
      → ((s : S) (a : A) → P s → q s ≡ ok a → R (ok a) s)
      → ((s : S) (e : Error) → P s → R (err e) s)
      → Triple P R E (attempt (select q))
  unfolding select
  attempt-Triple q f g = record {
    after = λ d h. elim (Bool-cases (d.refuses d.issued)) [
      | inl e ↦ rw e (g d.tables database h)
      | inr e ↦ rw e (go d.tables h (q d.tables) refl)
    ];
  }
    where
      go : (s : S) → P s → (r : Result A) → q s ≡ r → R r s
      go s h (ok a) e = f s a h e
      go s h (err x) e = g s x h

  -- an UPDATE whose error and rows affected the caller looks at
  pub attempt_write-Triple :
      (g : S → A) (f : S → S)
      → ((s : S) → P s → R (ok (g s)) (f s))
      → ((s : S) (e : Error) → P s → R (err e) s)
      → Triple P R E (attempt (statement λ s. ok (g s, f s)))
  unfolding statement
  attempt_write-Triple g f made kept = record {
    after = λ d h. elim (Bool-cases (d.refuses d.issued)) [
      | inl k ↦ rw k (kept d.tables database h)
      | inr k ↦ rw k (made d.tables h)
    ];
  }

-- A call of which only the rows that it leaves matter.
pub attempted-Triple {ℓ} :
    {S A : Type 0} {P Q E : S → Type ℓ} (m : Exec S A)
    → Triple P (λ _. Q) Q m
    → Triple P (λ _. Q) E (attempt m)
attempted-Triple {S = S} {A = A} {Q = Q} m t = record {
  after = λ d h. go (m d).0 (m d).1.tables (t.after d h);
}
  where
    go : (r : Result A) (s : S) → Ends (λ _. Q) Q r s → Q s
    go (ok a) s h = h
    go (err e) s h = h

pub fail_if-Triple {ℓ} :
    {S : Type 0} {P : S → Type ℓ} {R : Unit {0} → S → Type ℓ} {E : S → Type ℓ} (b : Bool)
    (e : Error)
    → (b ≡ false → (s : S) → P s → R tt s)
    → ((s : S) → P s → E s)
    → Triple P R E (fail_if {S = S} b e)
fail_if-Triple true e f g = record { after = λ d h. g d.tables h }
fail_if-Triple false e f g = record { after = λ d h. f refl d.tables h }

module _ {ℓ} {S A B : Type 0} {P : S → Type ℓ} {R : B → S → Type ℓ} {E : S → Type ℓ}
    (Q : A → S → Type ℓ) where
  pub bind-Triple :
      (m : Exec S A) (f : A → Exec S B)
      → Triple P Q E m
      → ((a : A) → Triple (Q a) R E (f a))
      → Triple P R E (m >>= f)
  bind-Triple m f t more = record { after = λ d h. go (m d).0 (m d).1 (t.after d h) }
    where
      go :
          (r : Result A) (d' : Db S)
          → Ends Q E r d'.tables
          → Ends R E (continue f r d').0 (continue f r d').1.tables
      go (ok a) d' h = (more a).after d' h
      go (err e) d' h = h

-- A fact that follows from the condition before a call may be used for the call.
pub given-Triple {ℓ κ} :
    {S A : Type 0} {P : S → Type ℓ} {R : A → S → Type ℓ} {E : S → Type ℓ} (F : Type κ)
    (m : Exec S A)
    → ((s : S) → P s → F)
    → (F → Triple P R E m)
    → Triple P R E m
given-Triple F m f t = record { after = λ d h. (t (f d.tables h)).after d h }

pub weaken-Triple {ℓ} :
    {S A : Type 0} {P : S → Type ℓ} {E : S → Type ℓ} (Q R : A → S → Type ℓ) (m : Exec S A)
    → ((a : A) (s : S) → Q a s → R a s)
    → Triple P Q E m
    → Triple P R E m
weaken-Triple {S = S} {A = A} {E = E} Q R m f t = record {
  after = λ d h. go (m d).0 (m d).1.tables (t.after d h);
}
  where
    go : (r : Result A) (s : S) → Ends Q E r s → Ends R E r s
    go (ok a) s h = f a s h
    go (err e) s h = h

-- A call that is never reached.
pub never-Triple {ℓ} :
    {S A : Type 0} {P : S → Type ℓ} {R : A → S → Type ℓ} {E : S → Type ℓ} (m : Exec S A)
    → ((s : S) → P s → ⊥)
    → Triple P R E m
never-Triple m f = record { after = λ d h. absurd (f d.tables h) }

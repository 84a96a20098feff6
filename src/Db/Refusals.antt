-- ===== src/Db/Refusals.antt =====
-- Which statements the database refuses is not up to the calls: they leave `refuses` as it is. One rule
-- for each way to build a call.
use agent_os_backend.Prelude.{
  ◌≡◌, refl, ◌∙◌, Bool, true, false, inl, inr, Bool-cases, if◌then◌else◌,
}
use agent_os_backend.Errors.{Result, ok, err}
use agent_os_backend.Db.{
  Db, Exec, select, statement, store_rows, settle, transaction, next, lift, pure, continue, ◌>>=◌,
}

pub record Sound {S A : Type 0} (m : Exec S A) : Type 0 where
  pub after : (d : Db S) → (m d).1.refuses ≡ d.refuses

module _ {S A : Type 0} where
  pub pure-Sound : (a : A) → Sound {S = S} (pure a)
  pure-Sound a = record { after = λ d. refl }

  pub lift-Sound : (r : Result A) → Sound {S = S} (lift r)
  lift-Sound r = record { after = λ d. refl }

  pub select-Sound : (q : S → Result A) → Sound (select q)
  unfolding select
  select-Sound q = record {
    after = λ d. elim (Bool-cases (d.refuses d.issued)) [ inl e ↦ rw e refl | inr e ↦ rw e refl ];
  }

  stored : (r : Result (A × S)) (d : Db S) → (store_rows r d).1.refuses ≡ d.refuses
  stored (ok (a, s)) d = refl
  stored (err e) d = refl

  pub statement-Sound : (q : S → Result (A × S)) → Sound (statement q)
  unfolding statement
  statement-Sound q = record {
    after = λ d. elim (Bool-cases (d.refuses d.issued)) [
      | inl e ↦ rw e refl
      | inr e ↦ rw e (stored (q d.tables) (next d))
    ];
  }

  settled : (s : S) (p : Result A × Db S) → (settle s p).1.refuses ≡ p.1.refuses
  settled s (err e, d) = refl
  settled s (ok a, d) = elim (Bool-cases (d.refuses d.issued)) [
    | inl e ↦ rw e refl
    | inr e ↦ rw e refl
  ]

  pub transaction-Sound : (m : Exec S A) → Sound m → Sound (transaction m)
  unfolding transaction
  transaction-Sound m k = record {
    after = λ d. elim (Bool-cases (d.refuses d.issued)) [
      | inl e ↦ rw e refl
      | inr e ↦ rw e (settled d.tables (m (next d)) ∙ k.after (next d))
    ];
  }

  pub if-Sound : (b : Bool) (m k : Exec S A) → Sound m → Sound k → Sound (if b then m else k)
  if-Sound true m k h g = h
  if-Sound false m k h g = g

pub bind-Sound :
    {S A B : Type 0} (m : Exec S A) (f : A → Exec S B)
    → Sound m
    → ((a : A) → Sound (f a))
    → Sound (m >>= f)
bind-Sound {S = S} {A = A} m f k more = record { after = λ d. go (m d).0 (m d).1 ∙ k.after d }
  where
    go : (r : Result A) (d : Db S) → (continue f r d).1.refuses ≡ d.refuses
    go (ok a) d = (more a).after d
    go (err e) d = refl

pub ruleset sound_rules =
    (pure-Sound, lift-Sound, select-Sound, statement-Sound, transaction-Sound, if-Sound, bind-Sound)

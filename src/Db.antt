-- ===== src/Db.antt =====
-- The database session of a service call. A statement may be refused by the database, so a call
-- returns a `Result` beside the state that it leaves. Which statements are refused is an arbitrary
-- function of how many were issued, so a theorem holds however the database fails.
pub mod Laws
pub mod Keeps
pub mod Triples
pub mod Refusals
use agent_os_backend.Prelude.{ℕ, suc, Bool, true, false, String, if◌then◌else◌}
use agent_os_backend.Errors.{Error, Result, ok, err, database, wrapped}

pub record Db (S : Type 0) : Type 0 where
  pub tables : S
  pub issued : ℕ
  pub refuses : ℕ → Bool

abbrev pub Exec : Type 0 → Type 0 → Type 0
Exec S A = Db S → Result A × Db S

abbrev pub next : {S : Type 0} → Db S → Db S
next d = record d { issued = suc d.issued }

-- fmt.Errorf("…: %w", err)
abbrev pub wrap : {A : Type 0} → String → Result A → Result A
wrap text (ok a) = ok a
wrap text (err e) = err (wrapped text e)

module _ {S A : Type 0} where
  abbrev pub pure : A → Exec S A
  pure a d = (ok a, d)

  abbrev pub raise : Error → Exec S A
  raise e d = (err e, d)

  abbrev pub lift : Result A → Exec S A
  lift r d = (r, d)

  -- a SELECT
  unfoldable pub select : (S → Result A) → Exec S A
  select q d = if d.refuses d.issued then (err database, next d) else (q d.tables, next d)

  abbrev pub store_rows : Result (A × S) → Db S → Result A × Db S
  store_rows (ok (a, s)) d = (ok a, record d { tables = s })
  store_rows (err e) d = (err e, d)

  -- an INSERT, UPDATE or DELETE
  unfoldable pub statement : (S → Result (A × S)) → Exec S A
  statement q d =
      if d.refuses d.issued then (err database, next d) else store_rows (q d.tables) (next d)

  -- COMMIT after a body that returned, ROLLBACK after one that failed
  abbrev pub settle : S → Result A × Db S → Result A × Db S
  settle before (err e, d) = (err e, record d { tables = before })
  settle before (ok a, d) =
      if d.refuses d.issued
      then (err database, record (next d) { tables = before })
      else (ok a, next d)

  -- db.Transaction
  unfoldable pub transaction : Exec S A → Exec S A
  transaction body d =
      if d.refuses d.issued then (err database, next d) else settle d.tables (body (next d))

  -- A caller that looks at the error itself.
  abbrev pub attempt : Exec S A → Exec S (Result A)
  attempt m d = let (r, d') = m d in (ok r, d')

  abbrev pub wrapping : String → Exec S A → Exec S A
  wrapping text m d = let (r, d') = m d in (wrap text r, d')

module _ {S A B : Type 0} where
  infixl 5 ◌>>=◌ ◌>>◌
  abbrev pub continue : (A → Exec S B) → Result A → Db S → Result B × Db S
  continue f (ok a) d = f a d
  continue f (err e) d = (err e, d)

  abbrev pub ◌>>=◌ : Exec S A → (A → Exec S B) → Exec S B
  ◌>>=◌ m f d = let (r, d') = m d in continue f r d'

  abbrev pub ◌>>◌ : Exec S A → Exec S B → Exec S B
  m >> k = m >>= λ _. k

-- if c { return err }
abbrev pub fail_if : {S : Type 0} → Bool → Error → Exec S (Unit {0})
fail_if true e d = (err e, d)
fail_if false e d = (ok tt, d)

-- A call of another component in the same session: it works on its part `T` of the tables.
unfoldable pub zoom : {S T A : Type 0} → (S → T) → (T → S → S) → Exec T A → Exec S A
zoom get put m d =
    let (r, a) = m (record { tables = get d.tables; issued = d.issued; refuses = d.refuses }) in
    (r, record { tables = put a.tables d.tables; issued = a.issued; refuses = a.refuses })

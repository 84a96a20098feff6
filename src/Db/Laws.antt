-- ===== src/Db/Laws.antt =====
-- What a statement and a transaction leave behind.
use agent_os_backend.Prelude.{◌≡◌, Bool, true, false, ◌⊎◌, refl, arith, if◌then◌else◌}
use agent_os_backend.Errors.{Error, Result, ok, err, database}
use agent_os_backend.Db.{
  Db, Exec, select, statement, settle, transaction, next, store_rows, ◌>>=◌, raise, pure, String,
  continue, wrap,
}

module _ {S A : Type 0} where
  pub tables-select : (q : S → Result A) (d : Db S) → (select q d).1.tables ≡ d.tables
  unfolding select
  tables-select q d = ground arith

  store_rows-err :
      (r : Result (A × S)) (d : Db S) (e : Error)
      → (store_rows r d).0 ≡ err e
      → (store_rows r d).1.tables ≡ d.tables
  store_rows-err (ok (a, s)) d e h = cc
  store_rows-err (err x) d e h = refl

  -- A statement that fails has changed no row.
  pub statement-err :
      (q : S → Result (A × S)) (d : Db S) (e : Error)
      → (statement q d).0 ≡ err e
      → (statement q d).1.tables ≡ d.tables
  unfolding statement
  statement-err q d e h = ground (arith, store_rows-err (q d.tables) (next d) e)

  settle-err :
      (s : S) (p : Result A × Db S) (e : Error) → (settle s p).0 ≡ err e → (settle s p).1.tables ≡ s
  settle-err s (err x, d) e h = refl
  settle-err s (ok a, d) e h = ground arith

  -- A transaction that fails leaves the rows as they were, whatever its body wrote.
  pub transaction-err :
      (body : Exec S A) (d : Db S) (e : Error)
      → (transaction body d).0 ≡ err e
      → (transaction body d).1.tables ≡ d.tables
  unfolding transaction
  transaction-err body d e h = ground (arith, settle-err d.tables (body (next d)) e)

  -- What a call that succeeded has done.
  pub select-ok : (q : S → Result A) (d : Db S) (a : A) → (select q d).0 ≡ ok a → q d.tables ≡ ok a
  unfolding select
  select-ok q d a h = ground arith

  pub select-err :
      (q : S → Result A) (d : Db S) (e : Error)
      → (select q d).0 ≡ err e
      → (q d.tables ≡ err e) ⊎ (e ≡ database)
  unfolding select
  select-err q d e h = ground arith

  store_rows-ok :
      (r : Result (A × S)) (d : Db S) (a : A)
      → (store_rows r d).0 ≡ ok a
      → r ≡ ok (a, (store_rows r d).1.tables)
  store_rows-ok (ok (b, s)) d a h = cc
  store_rows-ok (err e) d a h = cc

  pub statement-ok :
      (q : S → Result (A × S)) (d : Db S) (a : A)
      → (statement q d).0 ≡ ok a
      → q d.tables ≡ ok (a, (statement q d).1.tables)
  unfolding statement
  statement-ok q d a h = ground (arith, store_rows-ok (q d.tables) (next d) a)

  settle-ok :
      (s : S) (p : Result A × Db S) (a : A)
      → (settle s p).0 ≡ ok a
      → (p.0 ≡ ok a) × ((settle s p).1.tables ≡ p.1.tables)
  settle-ok s (err x, d) a h = cc
  settle-ok s (ok b, d) a h = ground arith

  pub transaction-ok :
      (body : Exec S A) (d : Db S) (a : A)
      → (transaction body d).0 ≡ ok a
      → ((body (next d)).0 ≡ ok a) × ((transaction body d).1.tables ≡ (body (next d)).1.tables)
  unfolding transaction
  transaction-ok body d a h = ground (arith, settle-ok d.tables (body (next d)) a)

  -- Where the database refuses nothing, a call does what its rows allow.
  pub select-served :
      (q : S → Result A) (d : Db S) → d.refuses d.issued ≡ false → select q d ≡ (q d.tables, next d)
  unfolding select
  select-served q d h = rw h

  pub statement-served :
      (q : S → Result (A × S)) (d : Db S)
      → d.refuses d.issued ≡ false
      → statement q d ≡ store_rows (q d.tables) (next d)
  unfolding statement
  statement-served q d h = rw h

  -- `if b { return err }` before the rest
  pub raise-ok :
      (b : Bool) (e : Error) (m : Exec S A) (d : Db S) (a : A)
      → ((if b then raise e else m) d).0 ≡ ok a
      → (b ≡ false) × ((if b then raise e else m) d ≡ m d)
  raise-ok true e m d a h = cc
  raise-ok false e m d a h = (refl, refl)

module _ {S A B : Type 0} where
  pub >>=-ok :
      (m : Exec S A) (f : A → Exec S B) (d : Db S) (b : B)
      → ((m >>= f) d).0 ≡ ok b
      → (a : A) × ((m d).0 ≡ ok a) × ((m >>= f) d ≡ f a (m d).1)
  >>=-ok m f d b h = go (m d).0 refl
    where
      go : (r : Result A) → (m d).0 ≡ r → (a : A) × ((m d).0 ≡ ok a) × ((m >>= f) d ≡ f a (m d).1)
      go (ok a) e = (a, e, rw e)
      go (err x) e = absurd (let k : ◌≡◌ {A = Result B} (err x) (ok b) = rw (e) at h in cc)

  -- A call whose last step only makes up the result.
  pub map-ok :
      (m : Exec S A) (g : A → B) (d : Db S) (b : B)
      → ((m >>= λ a. pure (g a)) d).0 ≡ ok b
      → (a : A) × ((m d).0 ≡ ok a) × (b ≡ g a)
  map-ok m g d b h = let (a, e, k) = >>=-ok m (λ a'. pure (g a')) d b h in (a, e, ground arith)

  -- The state after two calls, by cases on the first.
  pub after-bind {ℓ} :
      (Q : Db S → Type ℓ) (m : Exec S A) (f : A → Exec S B) (d : Db S)
      → ((e : Error) → (m d).0 ≡ err e → Q (m d).1)
      → ((a : A) → (m d).0 ≡ ok a → Q (f a (m d).1).1)
      → Q ((m >>= f) d).1
  after-bind Q m f d failed went_on = go (m d).0 refl
    where
      go : (r : Result A) → (m d).0 ≡ r → Q (continue f r (m d).1).1
      go (ok a) e = went_on a e
      go (err x) e = failed x e

pub wrap-ok : {A : Type 0} (text : String) (r : Result A) (a : A) → wrap text r ≡ ok a → r ≡ ok a
wrap-ok text (ok b) a h = h
wrap-ok text (err e) a h = cc

pub wrap-err :
    {A : Type 0} (text : String) (r : Result A) (e : Error)
    → wrap text r ≡ err e
    → (x : Error) × (r ≡ err x)
wrap-err text (ok b) e h = cc
wrap-err text (err x) e h = (x, refl)

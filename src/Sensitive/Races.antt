-- ===== src/Sensitive/Races.antt =====
-- Two calls of ConsumeConfirmation (internal/service/sensitive_operation.go) that run at once: each looks the
-- token up before either marks it.
use agent_os_backend.Prelude.{
  ℕ, String, true, false, ◌≡◌, refl, sym, ap, ◌∙◌, In, ◌==◌, nat_eq, string_eq, List, [], ◌∷◌,
  Bool-cases, inl, inr, trim_space, if◌then◌else◌, Bool,
}
use agent_os_backend.Json.{member, text, empty}
use agent_os_backend.Errors.{Result, ok, message}
use agent_os_backend.Db.{Db, Exec, ◌>>=◌, attempt, pure, raise, next}
use agent_os_backend.Db.Laws.{select-served, statement-served}
use agent_os_backend.Table.{update}
use agent_os_backend.Table.Finding.{find_complete, find_sound}
use agent_os_backend.Sensitive.Rows.{SensitiveOperationConfirmation, Tables}
use agent_os_backend.Sensitive.Repo.{get_usable_confirmation, mark_used, usable, unused}
use agent_os_backend.Sensitive.Service.{Externals, Noted, after_lookup, record_audit}
use agent_os_backend.Sensitive.Notes.{record_audit-Sound}
use agent_os_backend.Sensitive.Lookups.{IsKeyed, usable_iff, marked}

-- what one of the calls takes: its readings of the clock, its note in the audit log, and who consumes
pub record Consumer : Type 0 where
  pub noted : Noted
  pub looked : ℕ
  pub now : ℕ
  pub by : String

-- The steps of two calls with one token in this order: both look it up, then one after the other goes on.
unfoldable pub race :
    Externals
    → ℕ
    → String
    → String
    → Consumer
    → Consumer
    → Exec Tables (Result (Unit {0}) × Result (Unit {0}))
race x user_id token operation a b =
    if trim_space token == "" then raise (message "confirmation token is required") else do
      found ← attempt (get_usable_confirmation user_id (x.sha256_hex token) operation a.looked)
      found' ← attempt (get_usable_confirmation user_id (x.sha256_hex token) operation b.looked)
      done ← attempt (after_lookup x a.noted a.now user_id operation a.by found)
      done' ← attempt (after_lookup x b.noted b.now user_id operation b.by found')
      pure (done, done')

-- The database serves every statement.
abbrev Serves : Db Tables → Type 0
Serves d = (n : ℕ) → d.refuses n ≡ false

-- Where a look-up is served, it finds the one confirmation with the hash, if it may be used.
look-served :
    (user_id : ℕ) (hash operation : String) (now : ℕ) (c : SensitiveOperationConfirmation)
    (d : Db Tables)
    → Serves d
    → IsKeyed d.tables.confirmations
    → In c d.tables.confirmations
    → usable user_id hash operation now c ≡ true
    → get_usable_confirmation user_id hash operation now d ≡ (ok c, next d)
unfolding get_usable_confirmation
look-served user_id hash operation now c d serves keyed stored right =
    let (b, found) =
      find_complete (usable user_id hash operation now) d.tables.confirmations c stored right in
    let (there, hit) =
      find_sound (usable user_id hash operation now) d.tables.confirmations b found in
    let one : b ≡ c = keyed b c there stored (
      (usable_iff user_id hash operation now b hit).0
      ∙ sym (usable_iff user_id hash operation now c right).0) in
    select-served _ d (serves d.issued) ∙ rw (found, one) refl

-- A second UPDATE of rows that the first has made miss the condition changes no row.
update_twice :
    {A : Type 0} (q : A → Bool) (f g : A → A) (xs : List A)
    → ((a : A) → q a ≡ true → q (f a) ≡ false)
    → update q g (update q f xs) ≡ update q f xs
unfolding update
update_twice q f g [] miss = refl
update_twice q f g (x ∷ xs) miss = elim (Bool-cases (q x)) [
  | inl e ↦ rw (e, miss x e) (ap (λ l. f x ∷ l) (update_twice q f g xs miss))
  | inr e ↦ rw (e, e) (ap (λ l. x ∷ l) (update_twice q f g xs miss))
]

marked_again :
    (id : ℕ) (by by' : String) (now now' : ℕ) (cs : List SensitiveOperationConfirmation)
    → marked id by' now' (marked id by now cs) ≡ marked id by now cs
unfolding unused
marked_again id by by' now now' cs =
    update_twice (unused id) _ _ cs
      λ c h. elim (Bool-cases (c.id == id)) [ inl e ↦ rw e refl | inr e ↦ rw e refl ]

-- What is left of a call that has found the confirmation, where the database serves it.
after_lookup-served :
    (x : Externals) (n : Noted) (now user_id : ℕ) (operation by : String)
    (c : SensitiveOperationConfirmation) (d : Db Tables)
    → Serves d
    → let r = after_lookup x n now user_id operation by (ok c) d in
      (r.0 ≡ ok tt)
      × (r.1.tables.confirmations ≡ marked c.id by now d.tables.confirmations)
      × (r.1.refuses ≡ d.refuses)
unfolding after_lookup mark_used record_audit
after_lookup-served x n now user_id operation by c d serves =
    rw (statement-served _ d (serves d.issued)) (
      refl,
      refl,
      (record_audit-Sound x n user_id c.device_id "sensitive_operation.confirmation.consumed"
            operation "success" (member "consumed_by" (text by) empty)).after
          (record (next d) {
            tables = record d.tables { confirmations = marked c.id by now d.tables.confirmations };
          }),
    )

-- Two calls of ConsumeConfirmation with one token that each look it up before either marks it both
-- succeed, where the database serves every statement, the token is not blank, no two confirmations share
-- a hash, and a confirmation for it is stored that both look-ups may use. The rows are then those that
-- the first mark leaves: the second changes no row, and the call does not ask how many it changed.
pub consume_confirmation-races :
    (x : Externals) (user_id : ℕ) (token operation : String) (a b : Consumer)
    (c : SensitiveOperationConfirmation) (d : Db Tables)
    → (trim_space token == "") ≡ false
    → ((n : ℕ) → d.refuses n ≡ false)
    → IsKeyed d.tables.confirmations
    → In c d.tables.confirmations
    → usable user_id (x.sha256_hex token) operation a.looked c ≡ true
    → usable user_id (x.sha256_hex token) operation b.looked c ≡ true
    → ((race x user_id token operation a b d).0 ≡ ok (ok tt, ok tt))
      × ((race x user_id token operation a b d).1.tables.confirmations
          ≡ marked c.id a.by a.now d.tables.confirmations)
unfolding race
consume_confirmation-races x user_id token operation a b c d filled serves keyed stored right
      right' =
    let hash = x.sha256_hex token in
    let found = look-served user_id hash operation a.looked c d serves keyed stored right in
    let found' =
      look-served user_id hash operation b.looked c (next d) serves keyed stored right' in
    let looked = next (next d) in
    let (done, rows, open_still) =
      after_lookup-served x a.noted a.now user_id operation a.by c looked serves in
    let between = (after_lookup x a.noted a.now user_id operation a.by (ok c) looked).1 in
    let (done', rows', _) =
      after_lookup-served x b.noted b.now user_id operation b.by c between
        (λ n. ap (λ f. f n) open_still ∙ serves n) in
    rw (filled, found, found', done, done')
      (
        refl,
        rows'
            ∙ ap (marked c.id b.by b.now) rows
            ∙ marked_again c.id a.by b.by a.now b.now d.tables.confirmations,
      )

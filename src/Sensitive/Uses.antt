-- ===== src/Sensitive/Uses.antt =====
-- How often a confirmation token is good (internal/service/sensitive_operation.go), through any calls of
-- the service on confirmations, one after the other.
use agent_os_backend.Prelude.{
  ℕ, String, Bool, true, false, ◌≡◌, ◌≢◌, refl, sym, ap, ◌∙◌, subst, Option, none, some, List, [],
  ◌∷◌, ◌++◌, arith, In, All, inl, inr, ◌==◌, ◌||◌, nat_eq, string_eq, eq_iff, trim_space, ◌⊎◌,
}
use agent_os_backend.Errors.{Result, ok, err}
use agent_os_backend.Db.{Db}
use agent_os_backend.Db.Keeps.{
  Keeps, keeps_rules, insert-Keeps, write-Keeps, statement-Keeps, bind-Keeps, if-Keeps, raise-Keeps,
}
use agent_os_backend.Table.{any, delete}
use agent_os_backend.Table.Finding.{any-false}
use agent_os_backend.Table.Members.{All-In, append-In, update_map-In, delete-In}
use agent_os_backend.Sensitive.Rows.{SensitiveOperationConfirmation, Tables}
use agent_os_backend.Sensitive.Repo.{
  get_user, create_confirmation, get_usable_confirmation, mark_used, delete_expired, unused,
}
use agent_os_backend.Sensitive.Service.{
  Externals, Noted, issue_confirmation, verify_password, issue_or_deny, issue_verified,
  issue_denied, after_lookup, consume_confirmation, cleanup_expired_confirmations,
  random_sensitive_token, record_audit,
}
use agent_os_backend.Sensitive.Notes.{record_audit-Keeps}
use agent_os_backend.Sensitive.Lookups.{IsKeyed, consume_confirmation-ok, marked, marked-usable}

-- the calls of the service on confirmations, each with what it takes from outside
pub data Call : Type 0 where
  issues : ℕ → Noted → ℕ → Option String → ℕ → String → String → String → Call
  consumes : Noted → ℕ → ℕ → ℕ → String → String → String → Call
  cleans : ℕ → ℕ → Call

module _ (x : Externals) where
  -- the rows after one call, whether it returned a value or an error
  unfoldable pub perform : Call → Db Tables → Db Tables
  perform (issues id n now random user_id device_id password operation) d =
      (issue_confirmation x id n now random user_id device_id password operation d).1
  perform (consumes n looked now user_id token operation by) d =
      (consume_confirmation x n looked now user_id token operation by d).1
  perform (cleans clock now) d = (cleanup_expired_confirmations clock now d).1

  unfoldable pub perform_all : List Call → Db Tables → Db Tables
  unfolding perform
  perform_all [] d = d
  perform_all (k ∷ ks) d = perform_all ks (perform k d)

-- the token that a call draws at random
abbrev pub drawn : Call → Option String
drawn (issues id n now random user_id device_id password operation) = random
drawn (consumes n looked now user_id token operation by) = none
drawn (cleans clock now) = none

-- What every statement of the service on confirmations keeps.
record Kept (P : List SensitiveOperationConfirmation → Type 0) : Type 0 where
  marking :
      (id : ℕ) (by : String) (now : ℕ) (cs : List SensitiveOperationConfirmation)
      → P cs
      → P (marked id by now cs)
  deleting :
      (old : SensitiveOperationConfirmation → Bool) (cs : List SensitiveOperationConfirmation)
      → P cs
      → P (delete old cs)

-- … and an INSERT of a row with a token's hash, which the indexes let pass.
abbrev Inserts : (List SensitiveOperationConfirmation → Type 0) → String → Type 0
Inserts P hash =
    (c : SensitiveOperationConfirmation) (cs : List SensitiveOperationConfirmation)
    → c.token_hash ≡ hash
    → any (λ y. y.id == c.id || y.token_hash == c.token_hash) cs ≡ false
    → P cs
    → P (cs ++ c ∷ [])

module _ (x : Externals) (P : List SensitiveOperationConfirmation → Type 0) (kept : Kept P) where
  abbrev Held : Tables → Type 0
  Held t = P t.confirmations

  noted-Keeps :
      (n : Noted) (user_id : ℕ) (device_id action operation outcome : String) (m : _)
      → Keeps Held (record_audit x n user_id device_id action operation outcome m)
  noted-Keeps n user_id device_id action operation outcome m =
      record_audit-Keeps x n user_id device_id action operation outcome m Held λ t a h. h

  issue_verified-Keeps :
      (id : ℕ) (n : Noted) (now : ℕ) (random : Option String) (user_id : ℕ)
      (device_id operation : String)
      → ((token : String) → random ≡ some token → Inserts P (x.sha256_hex token))
      → Keeps Held (issue_verified x id n now random user_id device_id operation)
  unfolding issue_verified random_sensitive_token create_confirmation
  issue_verified-Keeps id n now none user_id device_id operation inserts = search keeps_rules
  issue_verified-Keeps id n now (some token) user_id device_id operation inserts =
      bind-Keeps _ _
        (insert-Keeps _ _ _ _ λ t fresh h. inserts token refl _ t.confirmations refl fresh h)
        λ _. search (keeps_rules, noted-Keeps)

  issue_denied-Keeps :
      (n : Noted) (user_id : ℕ) (device_id operation : String)
      → Keeps Held (issue_denied x n user_id device_id operation)
  unfolding issue_denied
  issue_denied-Keeps n user_id device_id operation = search (keeps_rules, noted-Keeps)

  issue_or_deny-Keeps :
      (id : ℕ) (n : Noted) (now : ℕ) (random : Option String) (user_id : ℕ)
      (device_id operation : String) (right : Bool)
      → ((token : String) → random ≡ some token → Inserts P (x.sha256_hex token))
      → Keeps Held (issue_or_deny x id n now random user_id device_id operation right)
  unfolding issue_or_deny
  issue_or_deny-Keeps id n now random user_id device_id operation true inserts =
      issue_verified-Keeps id n now random user_id device_id operation inserts
  issue_or_deny-Keeps id n now random user_id device_id operation false inserts =
      issue_denied-Keeps n user_id device_id operation

  verify_password-Keeps :
      (user_id : ℕ) (password : String) → Keeps Held (verify_password x user_id password)
  unfolding verify_password get_user
  verify_password-Keeps user_id password = search keeps_rules

  issue-Keeps :
      (id : ℕ) (n : Noted) (now : ℕ) (random : Option String) (user_id : ℕ)
      (device_id password operation : String)
      → ((token : String) → random ≡ some token → Inserts P (x.sha256_hex token))
      → Keeps Held (issue_confirmation x id n now random user_id device_id password operation)
  unfolding issue_confirmation
  issue-Keeps id n now random user_id device_id password operation inserts =
      if-Keeps (trim_space operation == "") _ _ (raise-Keeps _) (
        bind-Keeps _ _ (verify_password-Keeps user_id password) λ right.
          issue_or_deny-Keeps id n now random user_id device_id (trim_space operation) right
            inserts)

  mark_used-Keeps : (id : ℕ) (by : String) (now : ℕ) → Keeps Held (mark_used id by now)
  unfolding mark_used
  mark_used-Keeps id by now = write-Keeps _ _ λ t h. kept.marking id by now t.confirmations h

  after_lookup-Keeps :
      (n : Noted) (now user_id : ℕ) (operation by : String)
      (r : Result SensitiveOperationConfirmation)
      → Keeps Held (after_lookup x n now user_id operation by r)
  unfolding after_lookup
  after_lookup-Keeps n now user_id operation by (ok c) =
      search (keeps_rules, mark_used-Keeps, noted-Keeps)
  after_lookup-Keeps n now user_id operation by (err e) = search keeps_rules

  consume-Keeps :
      (n : Noted) (looked now user_id : ℕ) (token operation by : String)
      → Keeps Held (consume_confirmation x n looked now user_id token operation by)
  unfolding consume_confirmation get_usable_confirmation
  consume-Keeps n looked now user_id token operation by =
      search (keeps_rules, after_lookup-Keeps) depth 10

  cleanup-Keeps : (clock now : ℕ) → Keeps Held (cleanup_expired_confirmations clock now)
  unfolding cleanup_expired_confirmations delete_expired
  cleanup-Keeps clock now = statement-Keeps _ λ t h. kept.deleting _ t.confirmations h

  perform-keeps :
      (k : Call) (d : Db Tables)
      → ((token : String) → drawn k ≡ some token → Inserts P (x.sha256_hex token))
      → P d.tables.confirmations
      → P (perform x k d).tables.confirmations
  unfolding perform
  perform-keeps (issues id n now random user_id device_id password operation) d inserts h =
      (issue-Keeps id n now random user_id device_id password operation inserts).after d h
  perform-keeps (consumes n looked now user_id token operation by) d inserts h =
      (consume-Keeps n looked now user_id token operation by).after d h
  perform-keeps (cleans clock now) d inserts h = (cleanup-Keeps clock now).after d h

-- A row after a mark, and the row that it was.
abbrev Marked :
    ℕ → String → ℕ → SensitiveOperationConfirmation → SensitiveOperationConfirmation → Type 0
Marked id by now old c =
    ((unused id old ≡ true) × (c ≡ record old { used_at = some now; consumed_by = by }))
    ⊎ ((unused id old ≡ false) × (c ≡ old))

Marked-hash :
    (id : ℕ) (by : String) (now : ℕ) (old c : SensitiveOperationConfirmation)
    → Marked id by now old c
    → c.token_hash ≡ old.token_hash
Marked-hash id by now old c (inl (_, e)) = ap (λ b. b.token_hash) e
Marked-hash id by now old c (inr (_, e)) = ap (λ b. b.token_hash) e

Marked-unique :
    (id : ℕ) (by : String) (now : ℕ) (o o' c c' : SensitiveOperationConfirmation)
    → o ≡ o'
    → Marked id by now o c
    → Marked id by now o' c'
    → c ≡ c'
Marked-unique id by now o o' c c' same (inl (_, e)) (inl (_, e')) =
    e
    ∙ ap {A = SensitiveOperationConfirmation} {B = SensitiveOperationConfirmation}
        (λ b. record b { used_at = some now; consumed_by = by }) same
    ∙ sym e'
Marked-unique id by now o o' c c' same (inl (t, e)) (inr (f, e')) =
    let k = ap (unused id) same in cc
Marked-unique id by now o o' c c' same (inr (f, e)) (inl (t, e')) =
    let k = ap (unused id) same in cc
Marked-unique id by now o o' c c' same (inr (_, e)) (inr (_, e')) = e ∙ same ∙ sym e'

-- No two confirmations share a token's hash.
IsKeyed-Kept : Kept IsKeyed
IsKeyed-Kept = record {
  marking = λ id by now cs keyed a b i j h.
      let (a', ia, ha) = update_map-In _ _ cs a i in
      let (b', ib, hb) = update_map-In _ _ cs b j in
      let one : a' ≡ b' =
        keyed a' b' ia ib
          (sym (Marked-hash id by now a' a ha) ∙ h ∙ Marked-hash id by now b' b hb) in
      Marked-unique id by now a' b' a b one ha hb;
  deleting = λ old cs keyed a b i j h. keyed a b (delete-In old cs a i) (delete-In old cs b j) h;
}

IsKeyed-Inserts : (hash : String) → Inserts IsKeyed hash
IsKeyed-Inserts hash c cs same fresh keyed a b i j h =
    let other : (y : SensitiveOperationConfirmation) → In y cs → y.token_hash ≡ c.token_hash → ⊥ =
      λ y there q.
        let n = All-In _ cs y (any-false _ cs fresh) there in
        ground (arith, eq_iff y.token_hash c.token_hash) in
    elim (append-In cs c a i) [
      | inl there ↦ elim (append-In cs c b j) [
        | inl there' ↦ keyed a b there there' h
        | inr e' ↦ absurd (other a there (h ∙ ap (λ y. y.token_hash) e'))
      ]
      | inr e ↦ elim (append-In cs c b j) [
        | inl there' ↦ absurd (other b there' (sym h ∙ ap (λ y. y.token_hash) e))
        | inr e' ↦ e ∙ sym e'
      ]
    ]

-- Every confirmation with the hash has been used.
abbrev Spent : String → List SensitiveOperationConfirmation → Type 0
Spent hash cs =
    (c : SensitiveOperationConfirmation) → In c cs → c.token_hash ≡ hash → c.used_at ≢ none

Spent-Kept : (hash : String) → Kept (Spent hash)
Spent-Kept hash = record {
  marking = λ id by now cs spent c i h.
      let (c', ic, how) = update_map-In _ _ cs c i in
      elim how [
        | inl (_, e) ↦ λ free.
            let z : ◌≡◌ {A = Option ℕ} (some now) none = ap (λ b. b.used_at) (sym e) ∙ free in cc
        | inr (_, e) ↦ λ free.
            spent c' ic (ap (λ b. b.token_hash) (sym e) ∙ h) (ap (λ b. b.used_at) (sym e) ∙ free)
      ];
  deleting = λ old cs spent c i h. spent c (delete-In old cs c i) h;
}

Spent-Inserts : (hash other : String) → other ≢ hash → Inserts (Spent hash) other
Spent-Inserts hash other differs c cs same fresh spent a i h = elim (append-In cs c a i) [
  | inl old ↦ spent a old h
  | inr e ↦ absurd (differs (sym same ∙ ap (λ b. b.token_hash) (sym e) ∙ h))
]

module _ (x : Externals) where
  perform_all-IsKeyed :
      (ks : List Call) (d : Db Tables)
      → IsKeyed d.tables.confirmations
      → IsKeyed (perform_all x ks d).tables.confirmations
  unfolding perform_all
  perform_all-IsKeyed [] d h = h
  perform_all-IsKeyed (k ∷ ks) d h =
      perform_all-IsKeyed ks (perform x k d)
        (perform-keeps x IsKeyed IsKeyed-Kept k d (λ token e. IsKeyed-Inserts _) h)

  -- A token that the call draws has another hash.
  abbrev pub DrawsOther : String → Call → Type 0
  DrawsOther hash k = (token : String) → drawn k ≡ some token → x.sha256_hex token ≢ hash

  perform_all-Spent :
      (hash : String) (ks : List Call) (d : Db Tables)
      → All (DrawsOther hash) ks
      → Spent hash d.tables.confirmations
      → Spent hash (perform_all x ks d).tables.confirmations
  unfolding perform_all
  perform_all-Spent hash [] d others h = h
  perform_all-Spent hash (k ∷ ks) d others h = perform_all-Spent hash ks (perform x k d) others.1 (
      perform-keeps x (Spent hash) (Spent-Kept hash) k d
        (λ token e. Spent-Inserts hash _ (others.0 token e)) h)

-- A token is good for one use. From tables in which no two confirmations share the hash of a token, after
-- any calls of the service on confirmations, a call that consumed a token, and any further calls, no call
-- with the same token succeeds, for whichever user and operation and however the database fails in all of
-- these. The further calls draw no token at random with the hash of the consumed one, which matters only
-- once its row has been cleaned up.
pub consume_confirmation-once :
    (x : Externals) (earlier later : List Call) (n n' : Noted)
    (looked now user_id looked' now' user_id' : ℕ) (token operation operation' by by' : String)
    (d : Db Tables) (u u' : Unit {0})
    → IsKeyed d.tables.confirmations
    → All (DrawsOther x (x.sha256_hex token)) later
    → (consume_confirmation x n looked now user_id token operation by (perform_all x earlier d)).0
      ≡ ok u
    → let used =
        (consume_confirmation x n looked now user_id token operation by
          (perform_all x earlier d)).1 in
      (consume_confirmation x n' looked' now' user_id' token operation' by'
        (perform_all x later used)).0
      ≢ ok u'
consume_confirmation-once x earlier later n n' looked now user_id looked' now' user_id' token
      operation operation' by by' d u u' keyed others h again =
    let before = perform_all x earlier d in
    let cs = before.tables.confirmations in
    let used = (consume_confirmation x n looked now user_id token operation by before).1 in
    let (c, stored, hash, fresh, left) =
      consume_confirmation-ok x user_id token operation n looked now by before u h in
    let spent : Spent (x.sha256_hex token) used.tables.confirmations = λ y there same.
      marked-usable c y by now cs (perform_all-IsKeyed x earlier d keyed) stored fresh
        (subst (In y) left there) (same ∙ sym hash) in
    let (y, there, hash', free, _) =
      consume_confirmation-ok x user_id' token operation' n' looked' now' by'
        (perform_all x later used) u' again in
    perform_all-Spent x (x.sha256_hex token) later used others spent y there hash' free

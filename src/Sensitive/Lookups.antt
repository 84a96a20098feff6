-- ===== src/Sensitive/Lookups.antt =====
-- The steps of ConsumeConfirmation (internal/service/sensitive_operation.go): its look-up, the mark, and
-- what a call that succeeded did.
use agent_os_backend.Prelude.{
  ℕ, String, true, ◌≡◌, ◌≢◌, refl, sym, ap, ◌∙◌, subst, Option, none, some, List, arith, In, inl,
  inr, ◌==◌, nat_eq, string_eq, option_eq, nat_beq_iff, eq_iff, trim_space,
}
use agent_os_backend.Json.{member, text, empty}
use agent_os_backend.Errors.{Result, ok, err, message}
use agent_os_backend.Db.{Db, Exec, ◌>>=◌, attempt}
use agent_os_backend.Db.Laws.{>>=-ok, raise-ok, select-ok, tables-select, statement-ok}
use agent_os_backend.Table.{first, update}
use agent_os_backend.Table.Finding.{first-ok}
use agent_os_backend.Table.Members.{update_map-In}
use agent_os_backend.Sensitive.Rows.{SensitiveOperationConfirmation, Tables}
use agent_os_backend.Sensitive.Repo.{get_usable_confirmation, mark_used, usable, unused}
use agent_os_backend.Sensitive.Service.{
  Externals, Noted, after_lookup, consume_confirmation, record_audit,
}

-- No two confirmations share the hash of a token.
abbrev pub IsKeyed : List SensitiveOperationConfirmation → Type 0
IsKeyed cs =
    (a b : SensitiveOperationConfirmation) → In a cs → In b cs → a.token_hash ≡ b.token_hash → a ≡ b

pub usable_iff :
    (user_id : ℕ) (hash operation : String) (now : ℕ) (c : SensitiveOperationConfirmation)
    → usable user_id hash operation now c ≡ true
    → (c.token_hash ≡ hash) × (c.used_at ≡ none)
unfolding usable
usable_iff user_id hash operation now c h = (ground (arith, eq_iff c.token_hash hash), ground arith)

pub lookup-ok :
    (user_id : ℕ) (hash operation : String) (now : ℕ) (d : Db Tables)
    (c : SensitiveOperationConfirmation)
    → (get_usable_confirmation user_id hash operation now d).0 ≡ ok c
    → In c d.tables.confirmations × (c.token_hash ≡ hash) × (c.used_at ≡ none)
unfolding get_usable_confirmation
lookup-ok user_id hash operation now d c h =
    let (stored, meets) =
      first-ok (usable user_id hash operation now) d.tables.confirmations c (select-ok _ d c h) in
    let (hashed, fresh) = usable_iff user_id hash operation now c meets in (stored, hashed, fresh)

pub lookup-tables :
    (user_id : ℕ) (hash operation : String) (now : ℕ) (d : Db Tables)
    → (get_usable_confirmation user_id hash operation now d).1.tables ≡ d.tables
unfolding get_usable_confirmation
lookup-tables user_id hash operation now d =
    tables-select (λ t. first (usable user_id hash operation now) t.confirmations) d

-- the rows once a confirmation is marked
abbrev pub marked :
    ℕ → String → ℕ → List SensitiveOperationConfirmation → List SensitiveOperationConfirmation
marked id by now cs = update (unused id) (λ c. record c { used_at = some now; consumed_by = by }) cs

pub mark_used-ok :
    (id : ℕ) (by : String) (now : ℕ) (d : Db Tables) (u : Unit {0})
    → (mark_used id by now d).0 ≡ ok u
    → (mark_used id by now d).1.tables.confirmations ≡ marked id by now d.tables.confirmations
unfolding mark_used
mark_used-ok id by now d u h = let k = statement-ok _ d u h in ground arith

module _ (x : Externals) (n : Noted) (now user_id : ℕ) (operation by : String)
    (c : SensitiveOperationConfirmation) (d : Db Tables) where
  abbrev note : Exec Tables (Unit {0})
  note =
      record_audit x n user_id c.device_id "sensitive_operation.confirmation.consumed" operation
        "success" (member "consumed_by" (text by) empty)

  after_lookup-ok :
      (u : Unit {0})
      → (after_lookup x n now user_id operation by (ok c) d).0 ≡ ok u
      → (after_lookup x n now user_id operation by (ok c) d).1.tables.confirmations
        ≡ marked c.id by now d.tables.confirmations
  unfolding after_lookup record_audit
  after_lookup-ok u h =
      let (v, written, k) = >>=-ok (mark_used c.id by now) (λ _. note) d u h in
      ap (λ r. r.1.tables.confirmations) k ∙ mark_used-ok c.id by now d v written

-- What a confirmation that is still usable was before the mark.
pub marked-usable :
    (c y : SensitiveOperationConfirmation) (by : String) (now : ℕ)
    (cs : List SensitiveOperationConfirmation)
    → IsKeyed cs
    → In c cs
    → c.used_at ≡ none
    → In y (marked c.id by now cs)
    → y.token_hash ≡ c.token_hash
    → y.used_at ≢ none
unfolding unused
marked-usable c y by now cs keyed stored fresh h hash free =
    let (a, i, how) =
      update_map-In (unused c.id) (λ b. record b { used_at = some now; consumed_by = by }) cs y h in
    elim how [
      | inl (_, e) ↦
          let z : ◌≡◌ {A = Option ℕ} (some now) none = ap (λ b. b.used_at) (sym e) ∙ free in cc
      | inr (t, e) ↦
          let one : a ≡ c = keyed a c i stored (ap (λ b. b.token_hash) (sym e) ∙ hash) in
          let hit : unused c.id c ≡ true = ground (arith, nat_beq_iff c.id c.id) in
          cc (ap (unused c.id) one, t, hit)
    ]

module _ (x : Externals) (user_id : ℕ) (token operation : String) where
  abbrev look : ℕ → Exec Tables SensitiveOperationConfirmation
  look at = get_usable_confirmation user_id (x.sha256_hex token) operation at

  -- What a call that succeeded has found, and the rows that it left.
  pub consume_confirmation-ok :
      (n : Noted) (looked now : ℕ) (by : String) (d : Db Tables) (u : Unit {0})
      → (consume_confirmation x n looked now user_id token operation by d).0 ≡ ok u
      → (c : SensitiveOperationConfirmation) × In c d.tables.confirmations
        × (c.token_hash ≡ x.sha256_hex token)
        × (c.used_at ≡ none)
        × ((consume_confirmation x n looked now user_id token operation by d).1.tables.confirmations
            ≡ marked c.id by now d.tables.confirmations)
  unfolding consume_confirmation after_lookup
  consume_confirmation-ok n looked now by d u h =
      let (_, same) =
        raise-ok (trim_space token == "") (message "confirmation token is required")
          (attempt (look looked) >>= after_lookup x n now user_id operation by) d u h in
      go (look looked d).0 refl same (subst (λ r. r.0 ≡ ok u) same h)
    where
      go :
          (r : Result SensitiveOperationConfirmation)
          → (look looked d).0 ≡ r
          → consume_confirmation x n looked now user_id token operation by d
            ≡ after_lookup x n now user_id operation by (look looked d).0 (look looked d).1
          → (after_lookup x n now user_id operation by (look looked d).0 (look looked d).1).0 ≡ ok u
          → (c : SensitiveOperationConfirmation) × In c d.tables.confirmations
            × (c.token_hash ≡ x.sha256_hex token)
            × (c.used_at ≡ none)
            × ((consume_confirmation x n looked now user_id token operation by
                  d).1.tables.confirmations
                ≡ marked c.id by now d.tables.confirmations)
      go (ok c) q same k =
          let same' =
            same ∙ ap (λ z. after_lookup x n now user_id operation by z (look looked d).1) q in
          let k' =
            subst (λ z. (after_lookup x n now user_id operation by z (look looked d).1).0 ≡ ok u) q
              k in
          let (stored, hash, fresh) =
            lookup-ok user_id (x.sha256_hex token) operation looked d c q in
          (
            c,
            stored,
            hash,
            fresh,
            ap (λ r. r.1.tables.confirmations) same'
                ∙ after_lookup-ok x n now user_id operation by c (look looked d).1 u k'
                ∙ ap (λ t. marked c.id by now t.confirmations)
                    (lookup-tables user_id (x.sha256_hex token) operation looked d),
          )
      go (err e) q same k =
          let k' : ◌≡◌ {A = Result (Unit {0})}
              (err (message "invalid or expired confirmation token")) (ok u) =
            subst (λ z. (after_lookup x n now user_id operation by z (look looked d).1).0 ≡ ok u) q
              k in
          cc

-- ===== src/Sensitive/Repo.antt =====
-- internal/repository/sensitive_operation_repo.go, with the look-up of a user by its key.
use agent_os_backend.Prelude.{
  ℕ, String, Bool, ◌&&◌, ◌||◌, none, some, [], ◌∷◌, ◌++◌, leb, ltb, ◌==◌, nat_eq, string_eq,
  option_eq, if◌then◌else◌,
}
use agent_os_backend.Errors.{ok, err, duplicate_key}
use agent_os_backend.Db.{Exec, select, statement}
use agent_os_backend.Table.{any, first, update, delete, count}
use agent_os_backend.Sensitive.Rows.{User, SensitiveOperationConfirmation, Tables}

unfoldable pub get_user : ℕ → Exec Tables User
get_user id = select λ t. first (λ u. u.id == id) t.users

unfoldable pub create_confirmation : SensitiveOperationConfirmation → Exec Tables (Unit {0})
create_confirmation c = statement λ t.
    if any (λ x. x.id == c.id || x.token_hash == c.token_hash) t.confirmations
    then err duplicate_key
    else ok (tt, record t { confirmations = t.confirmations ++ c ∷ [] })

unfoldable pub usable : ℕ → String → String → ℕ → SensitiveOperationConfirmation → Bool
usable user_id token_hash operation now c =
    c.user_id == user_id
    && c.token_hash == token_hash
    && c.operation == operation
    && c.used_at == none
    && ltb now c.expires_at

unfoldable pub get_usable_confirmation :
    ℕ → String → String → ℕ → Exec Tables SensitiveOperationConfirmation
get_usable_confirmation user_id token_hash operation now =
    select λ t. first (usable user_id token_hash operation now) t.confirmations

unfoldable pub unused : ℕ → SensitiveOperationConfirmation → Bool
unused id c = c.id == id && c.used_at == none

-- How many rows the UPDATE affects is not asked.
unfoldable pub mark_used : ℕ → String → ℕ → Exec Tables (Unit {0})
unfolding unused
mark_used id consumed_by now = statement λ t. ok (
  tt,
  record t {
    confirmations =
        update (unused id) (λ c. record c { used_at = some now; consumed_by = consumed_by })
          t.confirmations;
  },
)

unfoldable pub delete_expired : ℕ → Exec Tables ℕ
delete_expired before = statement λ t.
    let old = λ (c : SensitiveOperationConfirmation). leb c.expires_at before in
    ok (count old t.confirmations, record t { confirmations = delete old t.confirmations })

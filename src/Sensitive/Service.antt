-- ===== src/Sensitive/Service.antt =====
-- internal/service/sensitive_operation.go: issuing and consuming a confirmation. bcrypt, SHA-256 and
-- the audit log's functions are parameters; the random token is an argument, `none` where crypto/rand
-- fails. The audit service is configured.
use agent_os_backend.Prelude.{
  ℕ, ◌+◌, ◌*◌, String, Bool, true, false, Option, none, some, ◌==◌, string_eq, nat_eq,
  if◌then◌else◌, trim_space,
}
use agent_os_backend.Errors.{Result, ok, err, message, entropy}
use agent_os_backend.Db.{Exec, ◌>>=◌, ◌>>◌, pure, raise, attempt, lift, wrapping}
use agent_os_backend.Json.{JsonMap, Json, empty, member, text}
use agent_os_backend.Audit.Rows
use agent_os_backend.Audit.Service
use agent_os_backend.Audit.Service.{RecordAuditEventInput}
use agent_os_backend.Sensitive.Rows.{User, SensitiveOperationConfirmation, Tables}
use agent_os_backend.Sensitive.Repo.{
  get_user, create_confirmation, get_usable_confirmation, mark_used, delete_expired,
}

pub record Externals : Type 0 where
  pub sha256_hex : String → String
  pub bcrypt_matches : String → String → Bool
  pub audit : Service.Externals

-- what one call of the audit log takes from outside
pub record Noted : Type 0 where
  pub id : ℕ
  pub now : ℕ

-- the time-to-live of a confirmation, and Unix seconds
abbrev pub default_ttl : ℕ
default_ttl = 5 * 60 * 1000000000

pub record SensitiveConfirmationResponse : Type 0 where
  pub confirmation_token : String
  pub operation : String
  pub expires_at : ℕ

-- A call of the audit log on the same database session.
abbrev pub on_audit : {A : Type 0} → Exec Rows.Tables A → Exec Tables A
on_audit m d =
    let (r, a) = m (record { tables = d.tables.audit; issued = d.issued; refuses = d.refuses }) in
    (
      r,
      record {
        tables = record d.tables { audit = a.tables };
        issued = a.issued;
        refuses = a.refuses;
      },
    )

module _ (x : Externals) where
  -- An error of the audit log is ignored.
  unfoldable pub record_audit :
      Noted → ℕ → String → String → String → String → JsonMap → Exec Tables (Unit {0})
  record_audit n user_id device_id action operation outcome metadata = do
    attempt (
        on_audit (
          Service.record_event x.audit n.id n.now (record {
            actor_user_id = some user_id;
            actor_device_id = device_id;
            action = action;
            resource_type = "sensitive_operation";
            resource_id = operation;
            outcome = outcome;
            ip_address = "";
            user_agent = "";
            metadata = some metadata;
          })))
    pure tt

  unfoldable pub compare_password : User → String → Result Bool
  compare_password user password =
      if user.password_hash == ""
      then err (message "no password set")
      else ok (x.bcrypt_matches user.password_hash password)

  unfoldable pub verify_password : ℕ → String → Exec Tables Bool
  unfolding compare_password
  verify_password user_id password = do
    user ← wrapping "user not found" (get_user user_id)
    lift (compare_password user password)

  unfoldable pub random_sensitive_token : Option String → Result String
  random_sensitive_token none = err entropy
  random_sensitive_token (some token) = ok token

  unfoldable pub issue_verified :
      ℕ
      → Noted
      → ℕ
      → Option String
      → ℕ
      → String
      → String
      → Exec Tables SensitiveConfirmationResponse
  unfolding random_sensitive_token record_audit
  issue_verified id n now random user_id device_id operation = do
    token ← lift (random_sensitive_token random)
    let expires = now + default_ttl
    create_confirmation (record {
      id = id;
      user_id = user_id;
      device_id = device_id;
      operation = operation;
      token_hash = x.sha256_hex token;
      expires_at = expires;
      used_at = none;
      consumed_by = "";
    })
    record_audit n user_id device_id "sensitive_operation.confirmation.issued" operation "success"
        (member "expires_at" (Json.instant expires) empty)
    pure (record { confirmation_token = token; operation = operation; expires_at = expires })

  unfoldable pub issue_denied :
      Noted → ℕ → String → String → Exec Tables SensitiveConfirmationResponse
  unfolding record_audit
  issue_denied n user_id device_id operation = do
    record_audit n user_id device_id "sensitive_operation.confirmation.issued" operation "denied"
        (member "reason" (text "invalid_password") empty)
    raise (message "invalid password")

  unfoldable pub issue_or_deny :
      ℕ
      → Noted
      → ℕ
      → Option String
      → ℕ
      → String
      → String
      → Bool
      → Exec Tables SensitiveConfirmationResponse
  unfolding issue_verified issue_denied
  issue_or_deny id n now random user_id device_id operation true =
      issue_verified id n now random user_id device_id operation
  issue_or_deny id n now random user_id device_id operation false =
      issue_denied n user_id device_id operation

  unfoldable pub issue_confirmation :
      ℕ
      → Noted
      → ℕ
      → Option String
      → ℕ
      → String
      → String
      → String
      → Exec Tables SensitiveConfirmationResponse
  unfolding verify_password issue_or_deny
  issue_confirmation id n now random user_id device_id password operation =
      let trimmed = trim_space operation in
      if trimmed == ""
      then raise (message "operation is required")
      else verify_password user_id password
        >>= issue_or_deny id n now random user_id device_id trimmed

  -- ConsumeConfirmation after the look-up
  unfoldable pub after_lookup :
      Noted
      → ℕ
      → ℕ
      → String
      → String
      → Result SensitiveOperationConfirmation
      → Exec Tables (Unit {0})
  unfolding record_audit
  after_lookup n now user_id operation consumed_by (err e) =
      raise (message "invalid or expired confirmation token")
  after_lookup n now user_id operation consumed_by (ok confirmation) = do
    mark_used confirmation.id consumed_by now
    record_audit n user_id confirmation.device_id "sensitive_operation.confirmation.consumed"
        operation "success" (member "consumed_by" (text consumed_by) empty)

  -- `looked` and `now` are the two readings of the clock.
  unfoldable pub consume_confirmation :
      Noted → ℕ → ℕ → ℕ → String → String → String → Exec Tables (Unit {0})
  unfolding after_lookup
  consume_confirmation n looked now user_id token operation consumed_by =
      if trim_space token == "" then raise (message "confirmation token is required") else do
        found ← attempt (get_usable_confirmation user_id (x.sha256_hex token) operation looked)
        after_lookup n now user_id operation consumed_by found

-- `clock` stands in for a zero time.
unfoldable pub cleanup_expired_confirmations : ℕ → ℕ → Exec Tables ℕ
cleanup_expired_confirmations clock now = delete_expired (if now == 0 then clock else now)

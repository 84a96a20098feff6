-- ===== src/Examples/Sensitive.antt =====
-- The theorems on confirmation tokens at concrete inputs.
use agent_os_backend.Prelude.{
  false, true, none, [], ◌∷◌, ◌≡◌, ◌≢◌, refl, inl, inr, ◌∙◌, sym, trim_space, All, List, some,
  arith, eq_iff,
}
use agent_os_backend.Errors.{ok}
use agent_os_backend.Db.{Db, select, statement}
use agent_os_backend.Table.{find, update, delete, filter}
use agent_os_backend.Audit.Rows
use agent_os_backend.Sensitive.Rows.{SensitiveOperationConfirmation, Tables}
use agent_os_backend.Sensitive.Repo.{
  get_usable_confirmation, mark_used, usable, unused, delete_expired,
}
use agent_os_backend.Sensitive.Service.{
  Externals, Noted, after_lookup, consume_confirmation, record_audit, cleanup_expired_confirmations,
}
use agent_os_backend.Sensitive.Races.{Consumer, race, consume_confirmation-races}
use agent_os_backend.Sensitive.Lookups.{IsKeyed, marked}
use agent_os_backend.Sensitive.Uses.{
  Call, DrawsOther, cleans, issues, consumes, perform, perform_all, consume_confirmation-once,
}
use agent_os_backend.Examples.Audit.{plain as audit_plain}

abbrev plain : Externals
plain = record { sha256_hex = λ s. s; bcrypt_matches = λ hash password. true; audit = audit_plain }

abbrev revocation : SensitiveOperationConfirmation
revocation = record {
  id = 3;
  user_id = 1;
  device_id = "phone";
  operation = "device.revoke";
  token_hash = "token";
  expires_at = 90;
  used_at = none;
  consumed_by = "";
}

abbrev issued_db : Db Tables
issued_db = record {
  tables = record { users = []; confirmations = revocation ∷ []; audit = Rows.no_rows };
  issued = 0;
  refuses = λ _. false;
}

abbrev noted : Noted
noted = record { id = 40; now = 10 }

revocation-IsKeyed : IsKeyed (revocation ∷ [])
revocation-IsKeyed a b (inl e) (inl k) h = e ∙ sym k
revocation-IsKeyed a b (inl e) (inr k) h = elim k [ ]
revocation-IsKeyed a b (inr e) k h = elim e [ ]

abbrev earlier_calls : List Call
earlier_calls = cleans 5 5 ∷ []

abbrev later_calls : List Call
later_calls =
    cleans 95 95
    ∷ issues 8 noted 96 (some "other") 1 "phone" "secret" "device.revoke"
    ∷ consumes noted 97 97 1 "other" "device.revoke" "phone"
    ∷ []

later-DrawsOther : All (DrawsOther plain "token") later_calls
later-DrawsOther = (
  λ t e. cc,
  (
    λ t e q.
        let z : "other" ≡ t = cc in
        let k : "other" ≡ "token" = z ∙ q in ground (arith, eq_iff "other" "token"),
    (λ t e. cc, tt),
  ),
)

consume_confirmation-once_example :
    let used =
      (consume_confirmation plain noted 10 11 1 "token" "device.revoke" "phone"
        (perform_all plain earlier_calls issued_db)).1 in
    (consume_confirmation plain noted 98 98 1 "token" "device.revoke" "laptop"
      (perform_all plain later_calls used)).0
    ≢ ok tt
unfolding consume_confirmation get_usable_confirmation after_lookup mark_used record_audit select
    statement find update usable unused trim_space perform_all perform cleanup_expired_confirmations
    delete_expired delete filter
consume_confirmation-once_example =
    consume_confirmation-once plain earlier_calls later_calls noted noted 10 11 1 98 98 1 "token"
      "device.revoke" "device.revoke" "phone" "laptop" issued_db tt tt revocation-IsKeyed
      later-DrawsOther refl

abbrev on_phone : Consumer
on_phone = record { noted = noted; looked = 10; now = 12; by = "phone" }

abbrev on_laptop : Consumer
on_laptop = record { noted = noted; looked = 11; now = 13; by = "laptop" }

consume_confirmation-races_example :
    ((race plain 1 "token" "device.revoke" on_phone on_laptop issued_db).0 ≡ ok (ok tt, ok tt))
    × ((race plain 1 "token" "device.revoke" on_phone on_laptop issued_db).1.tables.confirmations
        ≡ marked 3 "phone" 12 (revocation ∷ []))
unfolding trim_space usable
consume_confirmation-races_example =
    consume_confirmation-races plain 1 "token" "device.revoke" on_phone on_laptop revocation
      issued_db refl (λ n. refl) revocation-IsKeyed (inl refl) refl refl

-- ===== src/Billing/Usage.antt =====
-- RecordUsage of internal/service/kb_billing.go: a usage record, then for a positive amount the
-- account, a transaction, and the owner's earning, in statements that no transaction holds together.
-- The call returns what it has made so far beside its error.
use agent_os_backend.Prelude.{
  ℕ, String, Bool, ◌&&◌, ◌||◌, Option, none, some, ◌==◌, ◌!=◌, nat_eq, string_eq, if◌then◌else◌,
  trim_space, concat,
}
use agent_os_backend.Prelude.Int64.{Int64, ◌*ᵢ◌, ◌-ᵢ◌, negate, is_negative, is_positive, tenth}
use agent_os_backend.Errors.{Error, Result, ok, err, kb_invalid, wrapped}
use agent_os_backend.Db.{Exec, ◌>>=◌, pure, attempt}
use agent_os_backend.Billing.Rows.{
  KbUsageRecord, BillingAccount, BillingTransaction, ContributorEarning, Tables, Stamp,
}
use agent_os_backend.Billing.Repo.{get_or_create_account, create_usage_record, create_transaction}
use agent_os_backend.Billing.Payouts.{Share, Fresh, add_contributor_earning}

-- UUID.String, and Format("2006-01") of a time in UTC
pub record Externals : Type 0 where
  pub uuid_text : ℕ → String
  pub billing_period : ℕ → String

pub record RecordKbUsageInput : Type 0 where
  pub user_id : ℕ
  pub owner_id : ℕ
  pub collection_id : ℕ
  pub snapshot_id : ℕ
  pub snapshot_entry_id : Option ℕ
  pub operation_type : String
  pub tokens_used : Int64
  pub is_free : Bool
  pub unit_price : Int64
  pub currency : String

-- what the INSERTs of one call take from outside
pub record Stamps : Type 0 where
  pub usage : Stamp
  pub account : Stamp
  pub transaction : Stamp
  pub shares : Fresh

-- the four results
pub record UsageOutcome : Type 0 where
  pub record_made : Option KbUsageRecord
  pub transaction_made : Option BillingTransaction
  pub earning_made : Option ContributorEarning
  pub error : Option Error

unfoldable pub refused : Error → UsageOutcome
refused e = record {
  record_made = none;
  transaction_made = none;
  earning_made = none;
  error = some e;
}

unfoldable pub or_cny : String → String
or_cny currency = let trimmed = trim_space currency in if trimmed == "" then "CNY" else trimmed

unfoldable pub unit_price_of : RecordKbUsageInput → Int64
unit_price_of input = if input.is_free then 0 else input.unit_price

unfoldable pub amount_of : RecordKbUsageInput → Int64
unfolding unit_price_of
amount_of input = input.tokens_used *ᵢ unit_price_of input

-- the contributor's share of an amount, a tenth of which is the platform's
unfoldable pub share_of : Int64 → Share
share_of amount =
    let fee = tenth amount in record { gross = amount; fee = fee; net = amount -ᵢ fee }

module _ (x : Externals) (s : Stamps) (now : ℕ) (input : RecordKbUsageInput) where
  unfoldable pub usage_record : KbUsageRecord
  unfolding amount_of unit_price_of or_cny
  usage_record = record {
    id = s.usage.id;
    created_at = s.usage.at;
    user_id = input.user_id;
    collection_id = input.collection_id;
    snapshot_id = input.snapshot_id;
    snapshot_entry_id = input.snapshot_entry_id;
    operation_type = trim_space input.operation_type;
    tokens_used = input.tokens_used;
    unit_price = unit_price_of input;
    amount = amount_of input;
    currency = or_cny input.currency;
    billed_at = now;
  }

  unfoldable pub usage_transaction : BillingTransaction
  unfolding amount_of
  usage_transaction = record {
    id = s.transaction.id;
    created_at = s.transaction.at;
    user_id = input.user_id;
    type = "kb_usage";
    amount = negate (amount_of input);
    description = concat "KB usage " (
        concat (trim_space input.operation_type)
          (concat " for collection " (x.uuid_text input.collection_id)));
    related_id = x.uuid_text s.usage.id;
  }

  abbrev recorded : UsageOutcome
  recorded = record {
    record_made = some usage_record;
    transaction_made = none;
    earning_made = none;
    error = none;
  }

  unfoldable pub after_earning : Result ContributorEarning → UsageOutcome
  unfolding usage_record usage_transaction
  after_earning (err e) = record recorded {
    transaction_made = some usage_transaction;
    error = some e;
  }
  after_earning (ok earning) = record recorded {
    transaction_made = some usage_transaction;
    earning_made = some earning;
  }

  unfoldable pub pay_owner : Exec Tables UsageOutcome
  unfolding after_earning amount_of share_of
  pay_owner = do
    earned ← attempt (
        add_contributor_earning s.shares input.owner_id input.collection_id (x.billing_period now)
          (share_of (amount_of input)))
    pure (after_earning earned)

  unfoldable pub after_transaction : Result (Unit {0}) → Exec Tables UsageOutcome
  unfolding pay_owner usage_record usage_transaction
  after_transaction (err e) = pure (record recorded { error = some e })
  after_transaction (ok u) =
      if input.owner_id != 0
      then pay_owner
      else pure (record recorded { transaction_made = some usage_transaction })

  unfoldable pub after_account : Result BillingAccount → Exec Tables UsageOutcome
  unfolding after_transaction usage_record usage_transaction
  after_account (err e) = pure (record recorded { error = some e })
  after_account (ok account) = attempt (create_transaction usage_transaction) >>= after_transaction

  unfoldable pub after_record : Result (Unit {0}) → Exec Tables UsageOutcome
  unfolding after_account usage_record amount_of or_cny
  after_record (err e) = pure (refused e)
  after_record (ok u) =
      if is_positive (amount_of input) && input.user_id != 0
      then attempt (get_or_create_account s.account input.user_id (or_cny input.currency))
        >>= after_account
      else pure recorded

  unfoldable pub record_usage : Exec Tables UsageOutcome
  unfolding after_record usage_record refused
  record_usage =
      if input.collection_id == 0 || input.snapshot_id == 0
      then pure (refused (wrapped "collection_id and snapshot_id are required" kb_invalid))
      else if trim_space input.operation_type == ""
      then pure (refused (wrapped "operation_type is required" kb_invalid))
      else if is_negative input.tokens_used
      then pure (refused (wrapped "tokens_used must be non-negative" kb_invalid))
      else attempt (create_usage_record usage_record) >>= after_record

-- ===== src/Billing/Rows.antt =====
-- The tables of internal/model/models.go for usage, plans, invoices, payouts, refunds, disputes and
-- accounts. An int or int64 column is its bit pattern. The columns that no code writes (voided_at, and
-- the metadata of payouts, refunds and disputes) are left out, and so is updated_at.
use agent_os_backend.Prelude.{ℕ, String, Option, List, []}
use agent_os_backend.Prelude.Int64.{Int64}
use agent_os_backend.Json.{JsonMap}

pub record KbUsageRecord : Type 0 where
  pub id : ℕ
  pub created_at : ℕ
  pub user_id : ℕ
  pub collection_id : ℕ
  pub snapshot_id : ℕ
  pub snapshot_entry_id : Option ℕ
  pub operation_type : String
  pub tokens_used : Int64
  pub unit_price : Int64
  pub amount : Int64
  pub currency : String
  pub billed_at : ℕ

pub record KbBillingPlan : Type 0 where
  pub id : ℕ
  pub created_at : ℕ
  pub collection_id : ℕ
  pub version : ℕ
  pub entitlement_type : String
  pub billing_interval : String
  pub price : Int64
  pub currency : String
  pub trial_days : Int64
  pub status : String
  pub effective_at : ℕ
  pub metadata : Option JsonMap

pub record KbInvoice : Type 0 where
  pub id : ℕ
  pub created_at : ℕ
  pub user_id : ℕ
  pub collection_id : Option ℕ
  pub subscription_id : Option ℕ
  pub status : String
  pub currency : String
  pub subtotal : Int64
  pub platform_fee : Int64
  pub total : Int64
  pub period_start : Option ℕ
  pub period_end : Option ℕ
  pub issued_at : Option ℕ
  pub paid_at : Option ℕ
  pub metadata : Option JsonMap

pub record KbInvoiceItem : Type 0 where
  pub id : ℕ
  pub created_at : ℕ
  pub invoice_id : ℕ
  pub usage_record_id : Option ℕ
  pub description : String
  pub quantity : Int64
  pub unit_price : Int64
  pub amount : Int64
  pub metadata : Option JsonMap

pub record ContributorPayoutPeriod : Type 0 where
  pub id : ℕ
  pub created_at : ℕ
  pub contributor_id : ℕ
  pub period : String
  pub status : String
  pub gross_amount : Int64
  pub platform_fee : Int64
  pub net_amount : Int64
  pub paid_at : Option ℕ

pub record KbRefund : Type 0 where
  pub id : ℕ
  pub created_at : ℕ
  pub invoice_id : ℕ
  pub user_id : ℕ
  pub amount : Int64
  pub reason : String
  pub status : String
  pub processed_by : Option ℕ
  pub processed_at : Option ℕ

pub record KbBillingDispute : Type 0 where
  pub id : ℕ
  pub created_at : ℕ
  pub invoice_id : ℕ
  pub user_id : ℕ
  pub reason : String
  pub detail : String
  pub status : String
  pub resolved_by : Option ℕ
  pub resolved_at : Option ℕ
  pub resolution : String

pub record BillingAccount : Type 0 where
  pub id : ℕ
  pub created_at : ℕ
  pub user_id : ℕ
  pub balance : Int64
  pub currency : String

pub record BillingTransaction : Type 0 where
  pub id : ℕ
  pub created_at : ℕ
  pub user_id : ℕ
  pub type : String
  pub amount : Int64
  pub description : String
  pub related_id : String

pub record ContributorEarning : Type 0 where
  pub id : ℕ
  pub created_at : ℕ
  pub contributor_id : ℕ
  pub collection_id : ℕ
  pub period : String
  pub gross_amount : Int64
  pub platform_fee : Int64
  pub net_amount : Int64

pub record Tables : Type 0 where
  pub usage : List KbUsageRecord
  pub plans : List KbBillingPlan
  pub invoices : List KbInvoice
  pub items : List KbInvoiceItem
  pub payouts : List ContributorPayoutPeriod
  pub refunds : List KbRefund
  pub disputes : List KbBillingDispute
  pub accounts : List BillingAccount
  pub transactions : List BillingTransaction
  pub earnings : List ContributorEarning

abbrev pub no_rows : Tables
no_rows = record {
  usage = [];
  plans = [];
  invoices = [];
  items = [];
  payouts = [];
  refunds = [];
  disputes = [];
  accounts = [];
  transactions = [];
  earnings = [];
}

-- what an INSERT takes from outside: uuid.New() of the hook BeforeCreate, and the time
pub record Stamp : Type 0 where
  pub id : ℕ
  pub at : ℕ

-- ===== src/Billing/Plans.antt =====
-- Billing plans of internal/service/kb_billing.go: UpsertBillingPlan. `now` is time.Now() of a call.
use agent_os_backend.Prelude.{
  ℕ, String, Bool, ◌||◌, Option, none, some, ◌==◌, nat_eq, string_eq, if◌then◌else◌, trim_space,
}
use agent_os_backend.Prelude.Int64.{Int64, is_negative}
use agent_os_backend.Errors.{Result, ok, err, kb_invalid, wrapped}
use agent_os_backend.Db.{Exec, ◌>>=◌, ◌>>◌, pure, lift}
use agent_os_backend.Json.{JsonMap}
use agent_os_backend.Billing.Rows.{KbBillingPlan, Tables, Stamp}
use agent_os_backend.Billing.Usage.{or_cny}
use agent_os_backend.Billing.Repo.{next_plan_version, archive_active_plans, create_billing_plan}

-- `none` where the code returns ""
unfoldable pub normalize_entitlement : String → Option String
normalize_entitlement value =
    let v = trim_space value in
    if v == "" || v == "free"
    then some "free"
    else if v == "paid" || v == "trial" || v == "granted"
    then some v
    else none

unfoldable pub is_unpriced : String → Bool
is_unpriced entitlement = entitlement == "free" || entitlement == "granted"

unfoldable pub normalize_billing_interval : String → String → Option String
unfolding is_unpriced
normalize_billing_interval value entitlement =
    let v = trim_space value in
    if is_unpriced entitlement
    then (if v == "" || v == "none" then some "none" else none)
    else if v == ""
    then some "month"
    else if v == "none"
    then (if entitlement == "trial" then some "none" else none)
    else if v == "month" || v == "year"
    then some v
    else none

pub record UpsertKbBillingPlanInput : Type 0 where
  pub collection_id : ℕ
  pub entitlement_type : String
  pub billing_interval : String
  pub price : Int64
  pub currency : String
  pub trial_days : Int64
  pub metadata : Option JsonMap

-- the terms of a plan once the input is checked: entitlement, interval and price
pub record Terms : Type 0 where
  pub entitlement : String
  pub interval : String
  pub price : Int64

abbrev pub or_invalid : {A : Type 0} → String → Option A → Result A
or_invalid text none = err (wrapped text kb_invalid)
or_invalid text (some a) = ok a

abbrev checked_price : UpsertKbBillingPlanInput → String → String → Result Terms
checked_price input entitlement interval =
    if is_negative input.price
    then err (wrapped "price must be non-negative" kb_invalid)
    else if is_negative input.trial_days
    then err (wrapped "trial_days must be non-negative" kb_invalid)
    else ok (record {
      entitlement = entitlement;
      interval = if is_unpriced entitlement then "none" else interval;
      price = if is_unpriced entitlement then 0 else input.price;
    })

abbrev checked_interval : UpsertKbBillingPlanInput → String → Option String → Result Terms
checked_interval input entitlement none = err (wrapped "invalid billing_interval" kb_invalid)
checked_interval input entitlement (some interval) = checked_price input entitlement interval

abbrev checked_entitlement : UpsertKbBillingPlanInput → Option String → Result Terms
checked_entitlement input none = err (wrapped "invalid entitlement_type" kb_invalid)
checked_entitlement input (some entitlement) =
    checked_interval input entitlement
      (normalize_billing_interval input.billing_interval entitlement)

-- UpsertBillingPlan up to its first statement
unfoldable pub check_terms : UpsertKbBillingPlanInput → Result Terms
unfolding is_unpriced normalize_entitlement normalize_billing_interval
check_terms input =
    if input.collection_id == 0
    then err (wrapped "collection_id is required" kb_invalid)
    else checked_entitlement input (normalize_entitlement input.entitlement_type)

unfoldable pub new_plan : Stamp → ℕ → UpsertKbBillingPlanInput → Terms → ℕ → KbBillingPlan
new_plan s now input terms version = record {
  id = s.id;
  created_at = s.at;
  collection_id = input.collection_id;
  version = version;
  entitlement_type = terms.entitlement;
  billing_interval = terms.interval;
  price = terms.price;
  currency = or_cny input.currency;
  trial_days = input.trial_days;
  status = "active";
  effective_at = now;
  metadata = input.metadata;
}

unfoldable pub replace_plan :
    Stamp → ℕ → UpsertKbBillingPlanInput → Terms → Exec Tables KbBillingPlan
unfolding new_plan
replace_plan s now input terms = do
  version ← next_plan_version input.collection_id
  archive_active_plans input.collection_id
  let plan = new_plan s now input terms version
  create_billing_plan plan
  pure plan

unfoldable pub upsert_billing_plan :
    Stamp → ℕ → UpsertKbBillingPlanInput → Exec Tables KbBillingPlan
unfolding check_terms replace_plan
upsert_billing_plan s now input = lift (check_terms input) >>= replace_plan s now input

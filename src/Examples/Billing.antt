-- ===== src/Examples/Billing.antt =====
-- The theorems on billing at concrete inputs.
use agent_os_backend.Prelude.{false, none, some, [], ◌∷◌, nat_eq, arith, List, ℕ, ◌+◌}
use agent_os_backend.Db.{Db}
use agent_os_backend.Billing.Rows.{Tables, Stamp, no_rows}
use agent_os_backend.Billing.Usage.{Externals, Stamps, RecordKbUsageInput}
use agent_os_backend.Billing.Plans.{UpsertKbBillingPlanInput}
use agent_os_backend.Billing.Invoices.{CreateKbInvoiceInput, create_invoice_detail, KbInvoiceDetail}
use agent_os_backend.Billing.Service.{RequestKbRefundInput}
use agent_os_backend.Billing.Operations.{
  Operation, perform_all, use_base, set_plan, invoice, pay_invoice, ask_refund,
}
use agent_os_backend.Billing.Balance.{IsBalanced, perform_all-IsBalanced}
use agent_os_backend.Billing.Refunds.{IsCovered, perform_all-IsCovered}
use agent_os_backend.Billing.Versions.{IsSingle, perform_all-IsSingle}
use agent_os_backend.Billing.Totals.{Outcome, create_invoice_detail-Outcome}
use agent_os_backend.Table.{count}
use agent_os_backend.Errors.{Result}

abbrev plain : Externals
plain = record { uuid_text = λ id. "id"; billing_period = λ t. "2026-05" }

abbrev open_db : Db Tables
open_db = record { tables = no_rows; issued = 0; refuses = λ _. false }

abbrev at : ℕ → Stamp
at n = record { id = n; at = n }

abbrev search_use : RecordKbUsageInput
search_use = record {
  user_id = 1;
  owner_id = 2;
  collection_id = 7;
  snapshot_id = 8;
  snapshot_entry_id = none;
  operation_type = "search.lexical";
  tokens_used = 15;
  is_free = false;
  unit_price = 3;
  currency = "";
}

abbrev use_stamps : Stamps
use_stamps = record {
  usage = at 20;
  account = at 21;
  transaction = at 22;
  shares = record { payout = at 23; earning = at 24 };
}

abbrev month_plan : UpsertKbBillingPlanInput
month_plan = record {
  collection_id = 7;
  entitlement_type = "paid";
  billing_interval = "";
  price = 900;
  currency = "CNY";
  trial_days = 0;
  metadata = none;
}

abbrev two_items : CreateKbInvoiceInput
two_items = record {
  user_id = 1;
  collection_id = some 7;
  subscription_id = none;
  currency = "";
  period_start = none;
  period_end = none;
  items =
      record {
        usage_record_id = none;
        description = "searches";
        quantity = 3;
        unit_price = 15;
        amount = 0;
        metadata = none;
      }
      ∷ record {
        usage_record_id = none;
        description = "month";
        quantity = 0;
        unit_price = 0;
        amount = 900;
        metadata = none;
      }
      ∷ [];
  metadata = none;
}

abbrev asked : RequestKbRefundInput
asked = record { invoice_id = 30; amount = 45; reason = "unused" }

abbrev month : List Operation
month =
    use_base use_stamps 9 search_use
    ∷ set_plan (at 40) 10 month_plan
    ∷ set_plan (at 41) 11 month_plan
    ∷ invoice (at 30) (λ n. at (31 + n)) 12 two_items
    ∷ ask_refund (at 50) 1 asked
    ∷ pay_invoice 13 30
    ∷ []

perform_all-IsBalanced_example : IsBalanced (perform_all plain month open_db).tables
perform_all-IsBalanced_example =
    perform_all-IsBalanced plain month open_db (record { payouts = tt; earnings = tt })

perform_all-IsCovered_example : IsCovered (perform_all plain month open_db).tables
perform_all-IsCovered_example = perform_all-IsCovered plain month open_db tt

none_active : IsSingle no_rows
unfolding count
none_active c = omega arith

perform_all-IsSingle_example : IsSingle (perform_all plain month open_db).tables
perform_all-IsSingle_example = perform_all-IsSingle plain month open_db none_active

abbrev issued : Result KbInvoiceDetail × Db Tables
issued = create_invoice_detail (at 30) (λ n. at (31 + n)) 12 two_items open_db

create_invoice_detail-Outcome_example : Outcome no_rows issued.1.tables issued.0
create_invoice_detail-Outcome_example =
    create_invoice_detail-Outcome (at 30) (λ n. at (31 + n)) 12 two_items open_db

-- ===== src/Billing/Claims.antt =====
-- Refunds and disputes of internal/repository/billing_repo.go.
use agent_os_backend.Prelude.{
  ℕ, String, some, List, [], ◌∷◌, ◌++◌, leb, ◌==◌, nat_eq, if◌then◌else◌,
}
use agent_os_backend.Prelude.Int.{ℤ}
use agent_os_backend.Errors.{ok, err, duplicate_key}
use agent_os_backend.Db.{Exec, select, statement, ◌>>◌}
use agent_os_backend.Table.{filter, any, update, first}
use agent_os_backend.Billing.Rows.{KbRefund, KbBillingDispute, Tables}
use agent_os_backend.Billing.Repo.{page_of}

unfoldable pub create_refund : KbRefund → Exec Tables (Unit {0})
create_refund refund = statement λ t.
    if any (λ r. r.id == refund.id) t.refunds
    then err duplicate_key
    else ok (tt, record t { refunds = t.refunds ++ refund ∷ [] })

unfoldable pub list_refunds : ℕ → ℤ → ℤ → Exec Tables (List KbRefund)
unfolding page_of
list_refunds user_id limit offset = select λ t. ok (
    page_of (λ a b. leb b.created_at a.created_at) limit offset
      (filter (λ r. r.user_id == user_id) t.refunds))

-- ResolveRefund: the UPDATE, then the SELECT of the row
unfoldable pub set_refund_status : ℕ → ℕ → String → ℕ → Exec Tables (Unit {0})
set_refund_status refund_id admin_id status now = statement λ t. ok (
  tt,
  record t {
    refunds =
        update (λ r. r.id == refund_id)
          (λ r. record r { status = status; processed_by = some admin_id; processed_at = some now })
          t.refunds;
  },
)

unfoldable pub get_refund : ℕ → Exec Tables KbRefund
get_refund refund_id = select λ t. first (λ r. r.id == refund_id) t.refunds

unfoldable pub resolve_refund_row : ℕ → ℕ → String → ℕ → Exec Tables KbRefund
unfolding set_refund_status get_refund
resolve_refund_row refund_id admin_id status now = do
  set_refund_status refund_id admin_id status now
  get_refund refund_id

unfoldable pub create_dispute : KbBillingDispute → Exec Tables (Unit {0})
create_dispute dispute = statement λ t.
    if any (λ r. r.id == dispute.id) t.disputes
    then err duplicate_key
    else ok (tt, record t { disputes = t.disputes ++ dispute ∷ [] })

unfoldable pub list_disputes : ℕ → ℤ → ℤ → Exec Tables (List KbBillingDispute)
unfolding page_of
list_disputes user_id limit offset = select λ t. ok (
    page_of (λ a b. leb b.created_at a.created_at) limit offset
      (filter (λ r. r.user_id == user_id) t.disputes))

unfoldable pub set_dispute_status : ℕ → ℕ → String → String → ℕ → Exec Tables (Unit {0})
set_dispute_status dispute_id admin_id status resolution now = statement λ t. ok (
  tt,
  record t {
    disputes =
        update (λ r. r.id == dispute_id)
          (λ r. record r {
            status = status;
            resolution = resolution;
            resolved_by = some admin_id;
            resolved_at = some now;
          })
          t.disputes;
  },
)

unfoldable pub resolve_dispute_row : ℕ → ℕ → String → String → ℕ → Exec Tables KbBillingDispute
unfolding set_dispute_status
resolve_dispute_row dispute_id admin_id status resolution now = do
  set_dispute_status dispute_id admin_id status resolution now
  select λ t. first (λ r. r.id == dispute_id) t.disputes

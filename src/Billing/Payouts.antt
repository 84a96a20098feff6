-- ===== src/Billing/Payouts.antt =====
-- What a contributor earns: UpsertPayoutPeriod, AddContributorEarning, the lists and
-- MarkPayoutPeriodPaid of internal/repository/billing_repo.go. `Save` of a row writes all its columns.
use agent_os_backend.Prelude.{
  ℕ, String, Bool, true, ◌&&◌, ◌||◌, Option, none, some, List, [], ◌∷◌, ◌++◌, leb, ◌==◌, nat_eq,
  string_eq, if◌then◌else◌, not,
}
use agent_os_backend.Prelude.Int.{ℤ}
use agent_os_backend.Prelude.Int64.{Int64, ◌+ᵢ◌}
use agent_os_backend.Prelude.Text.{text_before}
use agent_os_backend.Errors.{Result, ok, err, duplicate_key, record_not_found}
use agent_os_backend.Db.{Exec, select, statement, attempt, raise, ◌>>=◌, ◌>>◌}
use agent_os_backend.Table.{filter, any, update, upsert, sort_by, first}
use agent_os_backend.Billing.Rows.{ContributorPayoutPeriod, ContributorEarning, Tables, Stamp}
use agent_os_backend.Billing.Repo.{page_of}

-- the three amounts that a usage adds
pub record Share : Type 0 where
  pub gross : Int64
  pub fee : Int64
  pub net : Int64

abbrev pub of_period : ℕ → String → ContributorPayoutPeriod → Bool
of_period contributor_id period p = p.contributor_id == contributor_id && p.period == period

unfoldable pub create_payout : ContributorPayoutPeriod → Exec Tables (Unit {0})
create_payout p = statement λ t.
    if any (λ r. r.id == p.id || of_period p.contributor_id p.period r) t.payouts
    then err duplicate_key
    else ok (tt, record t { payouts = t.payouts ++ p ∷ [] })

unfoldable pub save_payout : ContributorPayoutPeriod → Exec Tables (Unit {0})
save_payout p =
    statement λ t. ok (tt, record t { payouts = upsert (λ r. r.id == p.id) p t.payouts })

unfoldable pub raise_payout : Share → ContributorPayoutPeriod → ContributorPayoutPeriod
raise_payout s p = record p {
  gross_amount = p.gross_amount +ᵢ s.gross;
  platform_fee = p.platform_fee +ᵢ s.fee;
  net_amount = p.net_amount +ᵢ s.net;
}

unfoldable pub new_payout : Stamp → ℕ → String → ContributorPayoutPeriod
new_payout stamp contributor_id period = record {
  id = stamp.id;
  created_at = stamp.at;
  contributor_id = contributor_id;
  period = period;
  status = "open";
  gross_amount = 0;
  platform_fee = 0;
  net_amount = 0;
  paid_at = none;
}

-- UpsertPayoutPeriod once the SELECT has returned: a row that is found has an id.
unfoldable pub put_payout :
    Stamp → ℕ → String → Share → Result ContributorPayoutPeriod → Exec Tables (Unit {0})
unfolding create_payout save_payout raise_payout new_payout
put_payout stamp contributor_id period share (ok payout) = save_payout (raise_payout share payout)
put_payout stamp contributor_id period share (err record_not_found) =
    create_payout (raise_payout share (new_payout stamp contributor_id period))
put_payout stamp contributor_id period share (err e) = raise e

unfoldable pub upsert_payout_period : Stamp → ℕ → String → Share → Exec Tables (Unit {0})
unfolding put_payout
upsert_payout_period stamp contributor_id period share = do
  found ← attempt (select λ t. first (of_period contributor_id period) t.payouts)
  put_payout stamp contributor_id period share found

unfoldable pub earned_in : ℕ → ℕ → String → ContributorEarning → Bool
earned_in contributor_id collection_id period e =
    e.contributor_id == contributor_id && e.collection_id == collection_id && e.period == period

-- No index keeps these rows apart: `First` takes the one of the least id.
unfoldable pub get_earning : ℕ → ℕ → String → Exec Tables ContributorEarning
unfolding earned_in
get_earning contributor_id collection_id period = select λ t.
    first (earned_in contributor_id collection_id period)
      (sort_by (λ a b. leb a.id b.id) t.earnings)

unfoldable pub create_earning : ContributorEarning → Exec Tables ContributorEarning
create_earning e = statement λ t.
    if any (λ r. r.id == e.id) t.earnings
    then err duplicate_key
    else ok (e, record t { earnings = t.earnings ++ e ∷ [] })

unfoldable pub save_earning : ContributorEarning → Exec Tables ContributorEarning
save_earning e =
    statement λ t. ok (e, record t { earnings = upsert (λ r. r.id == e.id) e t.earnings })

unfoldable pub raise_earning : Share → ContributorEarning → ContributorEarning
raise_earning s e = record e {
  gross_amount = e.gross_amount +ᵢ s.gross;
  platform_fee = e.platform_fee +ᵢ s.fee;
  net_amount = e.net_amount +ᵢ s.net;
}

unfoldable pub new_earning : Stamp → ℕ → ℕ → String → ContributorEarning
new_earning stamp contributor_id collection_id period = record {
  id = stamp.id;
  created_at = stamp.at;
  contributor_id = contributor_id;
  collection_id = collection_id;
  period = period;
  gross_amount = 0;
  platform_fee = 0;
  net_amount = 0;
}

-- the fresh ids of one call: a payout period's and an earning's
pub record Fresh : Type 0 where
  pub payout : Stamp
  pub earning : Stamp

-- AddContributorEarning once the SELECT has returned: the payout period is written first.
unfoldable pub put_earning :
    Fresh → ℕ → ℕ → String → Share → Result ContributorEarning → Exec Tables ContributorEarning
unfolding create_earning save_earning raise_earning new_earning upsert_payout_period
put_earning fresh contributor_id collection_id period share (ok earning) = do
  upsert_payout_period fresh.payout contributor_id period share
  save_earning (raise_earning share earning)
put_earning fresh contributor_id collection_id period share (err record_not_found) = do
  upsert_payout_period fresh.payout contributor_id period share
  create_earning
      (raise_earning share (new_earning fresh.earning contributor_id collection_id period))
put_earning fresh contributor_id collection_id period share (err e) = raise e

unfoldable pub add_contributor_earning :
    Fresh → ℕ → ℕ → String → Share → Exec Tables ContributorEarning
unfolding put_earning get_earning
add_contributor_earning fresh contributor_id collection_id period share = do
  found ← attempt (get_earning contributor_id collection_id period)
  put_earning fresh contributor_id collection_id period share found

-- MarkPayoutPeriodPaid: the UPDATE, then the SELECT of the row
unfoldable pub set_payout_paid : ℕ → ℕ → Exec Tables (Unit {0})
set_payout_paid payout_id paid_at = statement λ t. ok (
  tt,
  record t {
    payouts =
        update (λ p. p.id == payout_id) (λ p. record p { status = "paid"; paid_at = some paid_at })
          t.payouts;
  },
)

unfoldable pub mark_payout_period_paid : ℕ → ℕ → Exec Tables ContributorPayoutPeriod
unfolding set_payout_paid
mark_payout_period_paid payout_id paid_at = do
  set_payout_paid payout_id paid_at
  select λ t. first (λ p. p.id == payout_id) t.payouts

-- ORDER BY period DESC; periods are texts, compared by code point
unfoldable pub list_payout_periods : ℕ → ℤ → ℤ → Exec Tables (List ContributorPayoutPeriod)
unfolding page_of
list_payout_periods contributor_id limit offset = select λ t. ok (
    page_of (λ a b. not (text_before a.period b.period)) limit offset
      (filter (λ p. p.contributor_id == contributor_id) t.payouts))

-- a collection is asked for where the pointer is neither nil nor uuid.Nil
unfoldable pub of_collection : Option ℕ → ℕ → Bool
of_collection none collection_id = true
of_collection (some wanted) collection_id = wanted == 0 || collection_id == wanted

unfoldable pub list_contributor_earnings :
    ℕ → Option ℕ → ℤ → ℤ → Exec Tables (List ContributorEarning)
unfolding page_of of_collection
list_contributor_earnings contributor_id collection_id limit offset = select λ t. ok (
    page_of (λ a b. not (text_before a.period b.period)) limit offset
      (filter
        (λ e. e.contributor_id == contributor_id && of_collection collection_id e.collection_id)
        t.earnings))

-- ===== src/Billing/Balance.antt =====
-- That the amounts of contributors balance: a fee and a net amount make up the gross amount, in every
-- earning and payout period.
use agent_os_backend.Prelude.{ℕ, String, ◌≡◌, refl, List, All, arith, nat_eq, ◌==◌}
use agent_os_backend.Prelude.Int64.{◌+ᵢ◌, tenth_split, sums_add}
use agent_os_backend.Errors.{err, record_not_found, Error}
use agent_os_backend.Db.{Db}
use agent_os_backend.Db.Keeps.{
  Keeps, keeps_rules, insert-Keeps, write-Keeps, bind-Keeps, found_or_not-Keeps, select-Keeps,
}
use agent_os_backend.Table.Finding.{first-ok}
use agent_os_backend.Table.Members.{All-In, sort_by-In}
use agent_os_backend.Table.Laws.{All-insert, All-update, All-upsert}
use agent_os_backend.Billing.Rows.{Tables, ContributorPayoutPeriod, ContributorEarning, Stamp}
use agent_os_backend.Billing.Payouts.{
  Share, Fresh, create_payout, save_payout, raise_payout, new_payout, put_payout,
  upsert_payout_period, create_earning, save_earning, raise_earning, new_earning, put_earning,
  get_earning, add_contributor_earning, set_payout_paid, mark_payout_period_paid,
}
use agent_os_backend.Billing.Usage.{Externals, RecordKbUsageInput, amount_of, share_of}
use agent_os_backend.Billing.Operations.{Operation, perform_all}
use agent_os_backend.Billing.Frame.{Ignores, Kept, all-Keeps}
use agent_os_backend.Table.{sort_by}
use agent_os_backend.Billing.Apart.{
  replace_plan-Keeps, create_invoice-Keeps, set_invoice_status-Keeps, request_refund-Keeps,
  resolve_refund_row-Keeps,
}

abbrev pub PayoutBalanced : ContributorPayoutPeriod → Type 0
PayoutBalanced p = p.platform_fee +ᵢ p.net_amount ≡ p.gross_amount

abbrev pub EarningBalanced : ContributorEarning → Type 0
EarningBalanced e = e.platform_fee +ᵢ e.net_amount ≡ e.gross_amount

pub record IsBalanced (t : Tables) : Type 0 where
  pub payouts : All PayoutBalanced t.payouts
  pub earnings : All EarningBalanced t.earnings

share_balanced :
    (input : RecordKbUsageInput) → let s = share_of (amount_of input) in s.fee +ᵢ s.net ≡ s.gross
unfolding share_of amount_of
share_balanced input = tenth_split (amount_of input) (omega arith)

raise_payout_balanced :
    (s : Share) (p : ContributorPayoutPeriod)
    → s.fee +ᵢ s.net ≡ s.gross
    → PayoutBalanced p
    → PayoutBalanced (raise_payout s p)
unfolding raise_payout
raise_payout_balanced s p h k =
    sums_add p.platform_fee p.net_amount p.gross_amount s.fee s.net s.gross k h

raise_earning_balanced :
    (s : Share) (e : ContributorEarning)
    → s.fee +ᵢ s.net ≡ s.gross
    → EarningBalanced e
    → EarningBalanced (raise_earning s e)
unfolding raise_earning
raise_earning_balanced s e h k =
    sums_add e.platform_fee e.net_amount e.gross_amount s.fee s.net s.gross k h

create_payout-IsBalanced :
    (p : ContributorPayoutPeriod) → PayoutBalanced p → Keeps IsBalanced (create_payout p)
unfolding create_payout
create_payout-IsBalanced p k = insert-Keeps _ _ _ _ λ t _ h. record {
  payouts = All-insert PayoutBalanced t.payouts p h.payouts k;
  earnings = h.earnings;
}

save_payout-IsBalanced :
    (p : ContributorPayoutPeriod) → PayoutBalanced p → Keeps IsBalanced (save_payout p)
unfolding save_payout
save_payout-IsBalanced p k = write-Keeps _ _ λ t h. record {
  payouts = All-upsert PayoutBalanced (λ r. r.id == p.id) p t.payouts k h.payouts;
  earnings = h.earnings;
}

create_earning-IsBalanced :
    (e : ContributorEarning) → EarningBalanced e → Keeps IsBalanced (create_earning e)
unfolding create_earning
create_earning-IsBalanced e k = insert-Keeps _ _ _ _ λ t _ h. record {
  payouts = h.payouts;
  earnings = All-insert EarningBalanced t.earnings e h.earnings k;
}

save_earning-IsBalanced :
    (e : ContributorEarning) → EarningBalanced e → Keeps IsBalanced (save_earning e)
unfolding save_earning
save_earning-IsBalanced e k = write-Keeps _ _ λ t h. record {
  payouts = h.payouts;
  earnings = All-upsert EarningBalanced (λ r. r.id == e.id) e t.earnings k h.earnings;
}

module _ (s : Share) (balanced : s.fee +ᵢ s.net ≡ s.gross) where
  put_payout-missing :
      (stamp : Stamp) (c : ℕ) (period : String) (e : Error)
      → Keeps IsBalanced (put_payout stamp c period s (err e))
  unfolding put_payout
  put_payout-missing stamp c period record_not_found =
      create_payout-IsBalanced (raise_payout s (new_payout stamp c period))
        (raise_payout_balanced s (new_payout stamp c period) balanced refl)
  put_payout-missing stamp c period _ = search keeps_rules

  upsert_payout_period-IsBalanced :
      (stamp : Stamp) (c : ℕ) (period : String)
      → Keeps IsBalanced (upsert_payout_period stamp c period s)
  unfolding upsert_payout_period put_payout
  upsert_payout_period-IsBalanced stamp c period =
      found_or_not-Keeps PayoutBalanced _ (put_payout stamp c period s)
        (λ t p h e. All-In PayoutBalanced t.payouts p h.payouts (first-ok _ t.payouts p e).0)
        (λ p k. save_payout-IsBalanced (raise_payout s p) (raise_payout_balanced s p balanced k))
        (put_payout-missing stamp c period)

  put_earning-missing :
      (f : Fresh) (c col : ℕ) (period : String) (e : Error)
      → Keeps IsBalanced (put_earning f c col period s (err e))
  unfolding put_earning
  put_earning-missing f c col period record_not_found =
      bind-Keeps _ _ (upsert_payout_period-IsBalanced f.payout c period) λ _.
        create_earning-IsBalanced (raise_earning s (new_earning f.earning c col period))
          (raise_earning_balanced s (new_earning f.earning c col period) balanced refl)
  put_earning-missing f c col period _ = search keeps_rules

  add_contributor_earning-IsBalanced :
      (f : Fresh) (c col : ℕ) (period : String)
      → Keeps IsBalanced (add_contributor_earning f c col period s)
  unfolding add_contributor_earning put_earning get_earning
  add_contributor_earning-IsBalanced f c col period =
      found_or_not-Keeps EarningBalanced _ (put_earning f c col period s)
        (λ t e h k.
          All-In EarningBalanced t.earnings e h.earnings
            (sort_by-In _ t.earnings e (first-ok _ (sort_by _ t.earnings) e k).0))
        (λ e k.
          bind-Keeps _ _ (upsert_payout_period-IsBalanced f.payout c period) λ _.
            save_earning-IsBalanced (raise_earning s e) (raise_earning_balanced s e balanced k))
        (put_earning-missing f c col period)

mark_payout_period_paid-IsBalanced : (id at : ℕ) → Keeps IsBalanced (mark_payout_period_paid id at)
unfolding mark_payout_period_paid set_payout_paid
mark_payout_period_paid-IsBalanced id at =
    bind-Keeps _ _
      (write-Keeps _ _ λ t h. record {
        payouts = All-update PayoutBalanced _ _ t.payouts (λ p k. k) h.payouts;
        earnings = h.earnings;
      })
      (λ _. select-Keeps _)

abbrev ignores : Ignores IsBalanced
ignores = record {
  usage = λ t h _. record { payouts = h.payouts; earnings = h.earnings };
  items = λ t h _. record { payouts = h.payouts; earnings = h.earnings };
  disputes = λ t h _. record { payouts = h.payouts; earnings = h.earnings };
  accounts = λ t h _. record { payouts = h.payouts; earnings = h.earnings };
  transactions = λ t h _. record { payouts = h.payouts; earnings = h.earnings };
}

writes-IsBalanced : Kept IsBalanced
writes-IsBalanced = record {
  ignores = ignores;
  plan =
      replace_plan-Keeps IsBalanced
        (λ t h _. record { payouts = h.payouts; earnings = h.earnings });
  invoice =
      create_invoice-Keeps IsBalanced
        (λ t h _. record { payouts = h.payouts; earnings = h.earnings });
  paid =
      set_invoice_status-Keeps IsBalanced
        (λ t h _. record { payouts = h.payouts; earnings = h.earnings });
  refund =
      request_refund-Keeps IsBalanced
        (λ t h _. record { payouts = h.payouts; earnings = h.earnings });
  refund_settled =
      resolve_refund_row-Keeps IsBalanced
        (λ t h _. record { payouts = h.payouts; earnings = h.earnings });
  earning = λ f owner collection period input.
      add_contributor_earning-IsBalanced (share_of (amount_of input)) (share_balanced input) f owner
        collection period;
  paid_out = mark_payout_period_paid-IsBalanced;
}

-- Whatever calls of the billing service are made, and however the database fails in them, a fee and a
-- net amount still make up the gross amount in every payout period and every earning, in the
-- wrapping sum of int64, where they did before.
pub perform_all-IsBalanced :
    (x : Externals) (os : List Operation) (d : Db Tables)
    → IsBalanced d.tables
    → IsBalanced (perform_all x os d).tables
perform_all-IsBalanced = all-Keeps IsBalanced writes-IsBalanced

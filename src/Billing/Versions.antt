-- ===== src/Billing/Versions.antt =====
-- That a collection has at most one active plan, and what a new plan replaces.
use agent_os_backend.Prelude.{
  ℕ, suc, ◌≤◌, Bool, false, ◌≡◌, refl, List, [], ◌∷◌, ◌++◌, arith, ◌==◌, nat_eq, string_eq,
  nat_beq_iff, inl, inr, Bool-cases,
}
use agent_os_backend.Db.{Db}
use agent_os_backend.Db.Keeps.{
  Keeps, insert-Leads, pure_after-Leads, write-then-Keeps, bind-Keeps, select-Keeps,
}
use agent_os_backend.Table.{count, update}
use agent_os_backend.Billing.Rows.{Tables, Stamp, KbBillingPlan}
use agent_os_backend.Billing.Repo
use agent_os_backend.Billing.Repo.{is_active, max_version}
use agent_os_backend.Billing.Usage.{Externals, amount_of, share_of}
use agent_os_backend.Billing.Plans.{UpsertKbBillingPlanInput, Terms, new_plan, replace_plan}
use agent_os_backend.Billing.Operations.{Operation, perform_all}
use agent_os_backend.Billing.Frame.{Kept, all-Keeps}
use agent_os_backend.Billing.Apart.{
  create_invoice-Keeps, set_invoice_status-Keeps, request_refund-Keeps, resolve_refund_row-Keeps,
  add_earning-Keeps, pay_out-Keeps,
}

abbrev pub IsSingle : Tables → Type 0
IsSingle t = (collection_id : ℕ) → count (is_active collection_id) t.plans ≤ 1

abbrev archived : KbBillingPlan → KbBillingPlan
archived p = record p { status = "archived" }

archived-count :
    (c k : ℕ) (ps : List KbBillingPlan)
    → count (is_active k) (update (is_active c) archived ps) ≤ count (is_active k) ps
unfolding count update is_active
archived-count c k [] = omega arith
archived-count c k (p ∷ ps) = ground (arith, archived-count c k ps)

archived_inactive : (c : ℕ) (p : KbBillingPlan) → is_active c (archived p) ≡ false
unfolding is_active
archived_inactive c p = elim (Bool-cases (p.collection_id == c)) [ inl e ↦ rw e | inr e ↦ rw e ]

archived_none :
    (c : ℕ) (ps : List KbBillingPlan) → count (is_active c) (update (is_active c) archived ps) ≡ 0
unfolding count update
archived_none c [] = refl
archived_none c (p ∷ ps) = elim (Bool-cases (is_active c p)) [
  | inl e ↦ rw (e, archived_inactive c p) (archived_none c ps)
  | inr e ↦ rw (e, e) (archived_none c ps)
]

count-append :
    {A : Type 0} (q : A → Bool) (xs : List A) (a : A) → count q (xs ++ a ∷ []) ≤ suc (count q xs)
unfolding count
count-append q [] a = ground arith
count-append q (x ∷ xs) a = ground (arith, count-append q xs a)

count-append_other :
    {A : Type 0} (q : A → Bool) (xs : List A) (a : A)
    → q a ≡ false
    → count q (xs ++ a ∷ []) ≡ count q xs
unfolding count
count-append_other q [] a h = ground arith
count-append_other q (x ∷ xs) a h = ground (arith, count-append_other q xs a)

-- the plans after the UPDATE
record Cleared (c : ℕ) (t : Tables) : Type 0 where
  single : IsSingle t
  none_active : count (is_active c) t.plans ≡ 0

appended-IsSingle :
    (t : Tables) (p : KbBillingPlan)
    → Cleared p.collection_id t
    → IsSingle (record t { plans = t.plans ++ p ∷ [] })
unfolding is_active
appended-IsSingle t p h k = elim (Bool-cases (p.collection_id == k)) [
  | inl e ↦
      let s : p.collection_id ≡ k = (nat_beq_iff p.collection_id k).0 e in
      rw (← s) (omega (arith, h.none_active, count-append (is_active p.collection_id) t.plans p))
  | inr e ↦ rw (count-append_other (is_active k) t.plans p (ground arith)) (h.single k)
]

replace_plan-IsSingle :
    (s : Stamp) (now : ℕ) (input : UpsertKbBillingPlanInput) (terms : Terms)
    → Keeps IsSingle (replace_plan s now input terms)
unfolding replace_plan new_plan Repo.next_plan_version Repo.archive_active_plans
    Repo.create_billing_plan
replace_plan-IsSingle s now input terms = bind-Keeps _ _ (select-Keeps _) λ version.
    write-then-Keeps {P = Cleared input.collection_id} _ _ _
      (λ t h. record {
        single = λ k. omega (arith, h k, archived-count input.collection_id k t.plans);
        none_active = archived_none input.collection_id t.plans;
      })
      (pure_after-Leads _ _ (
        insert-Leads _ _ _ _ (λ t h. h.single)
          (λ t h. appended-IsSingle t (new_plan s now input terms version) h)))

writes-IsSingle : Kept IsSingle
writes-IsSingle = record {
  ignores = record {
    usage = λ t h _. h;
    items = λ t h _. h;
    disputes = λ t h _. h;
    accounts = λ t h _. h;
    transactions = λ t h _. h;
  };
  plan = replace_plan-IsSingle;
  invoice = create_invoice-Keeps IsSingle (λ t h _. h);
  paid = set_invoice_status-Keeps IsSingle (λ t h _. h);
  refund = request_refund-Keeps IsSingle (λ t h _. h);
  refund_settled = resolve_refund_row-Keeps IsSingle (λ t h _. h);
  earning = λ f owner collection period input.
      add_earning-Keeps IsSingle (λ t h _. h) (λ t h _. h) f owner collection period
        (share_of (amount_of input));
  paid_out = pay_out-Keeps IsSingle (λ t h _. h) (λ t h _. h);
}

-- Whatever calls of the billing service are made one after the other, and however the database fails in
-- them, no collection has more than one active plan where none had more before.
pub perform_all-IsSingle :
    (x : Externals) (os : List Operation) (d : Db Tables)
    → IsSingle d.tables
    → IsSingle (perform_all x os d).tables
perform_all-IsSingle = all-Keeps IsSingle writes-IsSingle

-- ===== src/Governance/Pages.antt =====
-- What a page of an administrators' list holds (internal/service/governance.go).
use agent_os_backend.Prelude.{
  ℕ, ◌≤◌, Bool, true, ◌≡◌, List, [], ◌∷◌, arith, suc, zero, take, drop, length, length-take-le, In,
  inl, inr, subst, sym, ap, ◌∙◌,
}
use agent_os_backend.Prelude.Int.{ℤ, pos, pos_part}
use agent_os_backend.Errors.{ok}
use agent_os_backend.Db.{Db, Exec, ◌>>=◌, pure, select}
use agent_os_backend.Db.Laws.{>>=-ok, select-ok, tables-select, map-ok}
use agent_os_backend.Table.{filter, count, sort_by}
use agent_os_backend.Table.Members.{filter-In, sort_by-In}
use agent_os_backend.Governance.Rows.{PolicyDecision, Tables}
use agent_os_backend.Governance.Policies.{normalize_page}
use agent_os_backend.Governance.Listing.{
  Page, slice, list_rows, list_page, list_policy_decisions, ListPolicyDecisionsInput,
  decision_listed, decided_before,
}

module _ {A : Type 0} where
  take-In : (n : ℕ) (xs : List A) (a : A) → In a (take n xs) → In a xs
  take-In zero xs a h = elim h [ ]
  take-In (suc n) [] a h = elim h [ ]
  take-In (suc n) (x ∷ xs) a (inl e) = inl e
  take-In (suc n) (x ∷ xs) a (inr h) = inr (take-In n xs a h)

  drop-In : (n : ℕ) (xs : List A) (a : A) → In a (drop n xs) → In a xs
  drop-In zero xs a h = h
  drop-In (suc n) [] a h = elim h [ ]
  drop-In (suc n) (x ∷ xs) a h = inr (drop-In n xs a h)

normalize_page-bounds : (limit offset : ℤ) → pos_part (normalize_page limit offset).0 ≤ 100
unfolding normalize_page
normalize_page-bounds (pos n) offset = ground arith
normalize_page-bounds (ℤ.negsuc n) offset = ground arith

module _ {A : Type 0} (rows : Tables → List A) (p : A → Bool) (before : A → A → Bool) (l o : ℤ)
    (d : Db Tables) where
  list_rows-ok :
      (found : List A × ℕ)
      → (list_rows rows p before l o d).0 ≡ ok found
      → (found.0 ≡ slice l o (sort_by before (filter p (rows d.tables))))
        × (found.1 ≡ count p (rows d.tables))
  unfolding list_rows
  list_rows-ok found h =
      let tally : Exec Tables ℕ = select (λ t. ok (count p (rows t))) in
      let fetch : Exec Tables (List A) =
        select (λ t. ok (slice l o (sort_by before (filter p (rows t))))) in
      let (n, counted, k) = >>=-ok tally (λ n. fetch >>= λ items. pure (items, n)) d found h in
      let mid = (tally d).1 in
      let (items, fetched, made) =
        map-ok fetch (λ items. (items, n)) mid found (subst (λ c. c.0 ≡ ok found) k h) in
      let same : mid.tables ≡ d.tables = tables-select (λ t. ok (count p (rows t))) d in
      let total : count p (rows d.tables) ≡ n = ground (arith, select-ok _ d n counted) in
      let page : slice l o (sort_by before (filter p (rows mid.tables))) ≡ items =
        ground (arith, select-ok _ mid items fetched) in
      (
        ap (λ f. f.0) made
            ∙ sym page
            ∙ ap (λ t. slice l o (sort_by before (filter p (rows t)))) same,
        ap (λ f. f.1) made ∙ sym total,
      )

  slice-In :
      (a : A)
      → In a (slice l o (sort_by before (filter p (rows d.tables))))
      → In a (rows d.tables) × (p a ≡ true)
  unfolding slice
  slice-In a h =
      filter-In p (rows d.tables) a
        (sort_by-In before _ a (drop-In (pos_part o) _ a (take-In (pos_part l) _ a h)))

-- A page that ListPolicyDecisions returns has at most 100 decisions, each of which is stored and
-- meets every filter that the request does not leave empty, and its total counts all such decisions.
pub list_policy_decisions-ok :
    (input : ListPolicyDecisionsInput) (limit offset : ℤ) (d : Db Tables)
    (page : Page PolicyDecision)
    → (list_policy_decisions input limit offset d).0 ≡ ok page
    → (length page.items ≤ 100)
      × ((p : PolicyDecision)
          → In p page.items
          → In p d.tables.decisions × (decision_listed input p ≡ true))
      × (page.total ≡ count (decision_listed input) d.tables.decisions)
unfolding list_policy_decisions list_page slice
list_policy_decisions-ok input limit offset d page h =
    let (l, o) = normalize_page limit offset in
    let p = decision_listed input in
    let (found, listed, made) =
      map-ok (list_rows (λ t. t.decisions) p decided_before l o)
        (λ f. record { items = f.0; limit = l; offset = o; total = f.1 }) d page h in
    let (rows, total) = list_rows-ok (λ t. t.decisions) p decided_before l o d found listed in
    let items : page.items ≡ slice l o (sort_by decided_before (filter p d.tables.decisions)) =
      ap (λ q. q.items) made ∙ rows in
    let few =
      length-take-le (pos_part l)
        (drop (pos_part o) (sort_by decided_before (filter p d.tables.decisions))) in
    (
      subst (λ r. length r ≤ 100) (sym items)
          (omega (arith, few, normalize_page-bounds limit offset)),
      λ a i. slice-In (λ t. t.decisions) p decided_before l o d a (subst (In a) items i),
      ap (λ q. q.total) made ∙ total,
    )

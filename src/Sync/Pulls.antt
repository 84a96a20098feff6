-- ===== src/Sync/Pulls.antt =====
-- What a device pulls and acknowledges (GetEventsAfter and AckEvents of internal/service/sync.go).
use agent_os_backend.Prelude.{
  ℕ, ◌<◌, ◌≤◌, true, false, ◌≡◌, sym, ◌∙◌, subst, List, arith, ◌==◌, nat_eq, string_eq, In, inl,
  inr, take, length, length-take-le, nat_beq_iff, Bool-cases,
}
use agent_os_backend.Prelude.Int.{ℤ, pos, negsuc}
use agent_os_backend.Errors.{ok}
use agent_os_backend.Db.{Db}
use agent_os_backend.Db.Laws.{select-ok}
use agent_os_backend.Table.{filter, sort_by}
use agent_os_backend.Table.Members.{In-filter, filter-In, In-sort_by, sort_by-In}
use agent_os_backend.Table.Laws.{IsOrder}
use agent_os_backend.Table.Order.{sort_by-IsSorted, take_complete, take-In}
use agent_os_backend.Sync.Rows.{SyncEvent, Tables}
use agent_os_backend.Sync.Repo.{get_events_since, since, event_before}
use agent_os_backend.Sync.Service.{page_limit, get_events_after}
use agent_os_backend.Sync.Numbers.{IsSequenced}

event_before-IsOrder : IsOrder event_before
unfolding event_before
event_before-IsOrder = record { total = λ a b h. ground arith; trans = λ a b c h k. ground arith }

page_limit-le : (limit : ℤ) → page_limit limit ≤ 500
unfolding page_limit
page_limit-le (pos n) = ground arith
page_limit-le (negsuc n) = ground arith

since_iff :
    (user_id after : ℕ) (e : SyncEvent)
    → since user_id after e ≡ true
    → (e.user_id ≡ user_id) × (after < e.sequence)
unfolding since
since_iff user_id after e h = ground (arith, nat_beq_iff e.user_id user_id)

since-holds :
    (user_id after : ℕ) (e : SyncEvent)
    → e.user_id ≡ user_id
    → after < e.sequence
    → since user_id after e ≡ true
unfolding since
since-holds user_id after e u s = ground (arith, nat_beq_iff e.user_id user_id)

later-before : (e a : SyncEvent) → a.sequence < e.sequence → event_before e a ≡ false
unfolding event_before
later-before e a h = ground arith

-- A pull returns at most 500 events, all of the user, from the log, and behind the given sequence. It
-- leaves no gap: it has every event of the user behind that sequence that does not come after one
-- that it returns.
pub get_events_after-exact :
    (user_id after : ℕ) (limit : ℤ) (d : Db Tables) (es : List SyncEvent)
    → IsSequenced d.tables
    → (get_events_after user_id after limit d).0 ≡ ok es
    → (length es ≤ 500)
      × ((e : SyncEvent)
          → In e es
          → In e d.tables.events × (e.user_id ≡ user_id) × (after < e.sequence))
      × ((e a : SyncEvent)
          → In e es
          → In a d.tables.events
          → a.user_id ≡ user_id
          → after < a.sequence
          → a.sequence ≤ e.sequence
          → In a es)
unfolding get_events_after get_events_since
get_events_after-exact user_id after limit d es inv h =
    let found = filter (since user_id after) d.tables.events in
    let rows = sort_by event_before found in
    let n = page_limit limit in
    let page : take n rows ≡ es = ground (arith, select-ok _ d es h) in
    let seen : (e : SyncEvent)
        → In e es
        → In e d.tables.events × (e.user_id ≡ user_id) × (after < e.sequence) =
      λ e i.
        let (stored, meets) = filter-In (since user_id after) d.tables.events e (
          sort_by-In event_before found e
            (take-In event_before n rows e (subst (In e) (sym page) i))) in
        let (owner, behind) = since_iff user_id after e meets in (stored, owner, behind) in
    (
      subst (λ l. length l ≤ 500) page (omega (arith, length-take-le n rows, page_limit-le limit)),
      seen,
      λ e a i stored mine behind upto. elim (Bool-cases (a.sequence == e.sequence)) [
        | inl s ↦
            let (there, owner, _) = seen e i in
            let one = inv.distinct a e stored there (mine ∙ sym owner) ((nat_beq_iff _ _).0 s) in
            subst (λ c. In c es) (sym one) i
        | inr s ↦
            let less : a.sequence < e.sequence =
              ground (arith, nat_beq_iff a.sequence e.sequence) in
            let row = In-sort_by event_before found a (
              In-filter (since user_id after) d.tables.events a stored
                (since-holds user_id after a mine behind)) in
            subst (In a) page (
              take_complete event_before n rows e a
                (sort_by-IsSorted event_before event_before-IsOrder found)
                (subst (In e) (sym page) i) row (later-before e a less))
      ],
    )

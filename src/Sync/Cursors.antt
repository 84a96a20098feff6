-- ===== src/Sync/Cursors.antt =====
-- The cursor of a device (AckEvents of internal/service/sync.go, UpdateCursor of
-- internal/repository/sync_repo.go).
use agent_os_backend.Prelude.{
  ℕ, String, Bool, true, false, ◌≡◌, refl, sym, ap, ◌∙◌, subst, Option, none, some, List, [], ◌∷◌,
  ◌++◌, arith, ltb, ◌==◌, ◌&&◌, nat_eq, string_eq, if◌then◌else◌, inl, inr, nat_beq_iff, eq_iff,
  Bool-cases, and-eq-true, ap₂,
}
use agent_os_backend.Errors.{ok}
use agent_os_backend.Db.{Db}
use agent_os_backend.Db.Laws.{select-ok, statement-ok, tables-select, >>=-ok}
use agent_os_backend.Table.{find, upsert, any, update}
use agent_os_backend.Table.Finding.{find_sound}
use agent_os_backend.Sync.Rows.{SyncCursor, Tables}
use agent_os_backend.Sync.Repo.{get_cursor, save_cursor, update_cursor, cursor_at, or_start}
use agent_os_backend.Sync.Service.{ack_events}

module _ {A : Type 0} where
  find-update-any :
      (p : A → Bool) (a : A) (xs : List A)
      → p a ≡ true
      → any p xs ≡ true
      → find p (update p (λ _. a) xs) ≡ some a
  unfolding find update any
  find-update-any p a [] h k = cc
  find-update-any p a (x ∷ xs) h k = ground (arith, find-update-any p a xs h)

  find_appended :
      (p : A → Bool) (a : A) (xs : List A)
      → p a ≡ true
      → any p xs ≡ false
      → find p (xs ++ a ∷ []) ≡ some a
  unfolding find any
  find_appended p a [] h k = rw h refl
  find_appended p a (x ∷ xs) h k = ground (arith, find_appended p a xs h)

  find-upsert_self :
      (p : A → Bool) (a : A) (xs : List A) → p a ≡ true → find p (upsert p a xs) ≡ some a
  unfolding upsert
  find-upsert_self p a xs h = elim (Bool-cases (any p xs)) [
    | inl e ↦ rw (e, upsert) (find-update-any p a xs h e)
    | inr e ↦ rw (e, upsert) (find_appended p a xs h e)
  ]

  find-update_other :
      (p q : A → Bool) (a : A) (xs : List A)
      → p a ≡ false
      → ((x : A) → q x ≡ true → p x ≡ false)
      → find p (update q (λ _. a) xs) ≡ find p xs
  unfolding find update
  find-update_other p q a [] h k = refl
  find-update_other p q a (x ∷ xs) h k = ground (arith, k x, find-update_other p q a xs h k)

  find-append_other :
      (p : A → Bool) (a : A) (xs : List A) → p a ≡ false → find p (xs ++ a ∷ []) ≡ find p xs
  unfolding find
  find-append_other p a [] h = rw h refl
  find-append_other p a (x ∷ xs) h = ground (arith, find-append_other p a xs h)

  find-upsert_other :
      (p q : A → Bool) (a : A) (xs : List A)
      → p a ≡ false
      → ((x : A) → q x ≡ true → p x ≡ false)
      → find p (upsert q a xs) ≡ find p xs
  unfolding upsert
  find-upsert_other p q a xs h k = elim (Bool-cases (any q xs)) [
    | inl e ↦ rw (e, upsert) (find-update_other p q a xs h k)
    | inr e ↦ rw (e, upsert) (find-append_other p a xs h)
  ]

-- The sequence up to which a device has acknowledged, 0 for a device without a cursor.
abbrev pub position : Tables → ℕ → String → ℕ
position t user_id device_id =
    (or_start user_id device_id (find (cursor_at user_id device_id) t.cursors)).last_synced_sequence

abbrev pub later_of : ℕ → ℕ → ℕ
later_of a b = if ltb a b then b else a

or_start-keys :
    (user_id : ℕ) (device_id : String) (cs : List SyncCursor) (o : Option SyncCursor)
    → find (cursor_at user_id device_id) cs ≡ o
    → ((or_start user_id device_id o).user_id ≡ user_id)
      × ((or_start user_id device_id o).device_id ≡ device_id)
unfolding or_start cursor_at
or_start-keys user_id device_id cs none h = (refl, refl)
or_start-keys user_id device_id cs (some c) h =
    let (_, k) = find_sound (cursor_at user_id device_id) cs c h in
    let (u, v) = and-eq-true (c.user_id == user_id) (c.device_id == device_id) k in
    ((nat_beq_iff _ _).0 u, (eq_iff _ _).0 v)

save_cursor-ok :
    (c : SyncCursor) (d : Db Tables) (u : Unit {0})
    → (save_cursor c d).0 ≡ ok u
    → (save_cursor c d).1.tables.cursors
      ≡ upsert (cursor_at c.user_id c.device_id) c d.tables.cursors
unfolding save_cursor
save_cursor-ok c d u h = let k = statement-ok _ d u h in ground arith

cursor_at_self : (c : SyncCursor) → cursor_at c.user_id c.device_id c ≡ true
unfolding cursor_at
cursor_at_self c = ground (arith, nat_beq_iff c.user_id c.user_id, eq_iff c.device_id c.device_id)

cursor_at-other :
    (user_id other : ℕ) (device_id device : String) (c : SyncCursor)
    → (other == user_id && device == device_id) ≡ false
    → cursor_at user_id device_id c ≡ true
    → cursor_at other device c ≡ false
unfolding cursor_at
cursor_at-other user_id other device_id device c n h = ground (
  arith,
  nat_beq_iff c.user_id user_id,
  nat_beq_iff c.user_id other,
  nat_beq_iff other user_id,
  eq_iff c.device_id device_id,
  eq_iff c.device_id device,
  eq_iff device device_id,
)

-- The position of a device once the cursor `c` has been saved among `cs`.
saved-position :
    (c : SyncCursor) (cs : List SyncCursor) (other : ℕ) (device : String)
    → (or_start other device (
        find
          (cursor_at other device)
          (upsert (cursor_at c.user_id c.device_id) c cs))).last_synced_sequence
      ≡ (if other == c.user_id && device == c.device_id
          then c.last_synced_sequence
          else (or_start other device (find (cursor_at other device) cs)).last_synced_sequence)
unfolding or_start
saved-position c cs other device = elim (Bool-cases (other == c.user_id && device == c.device_id)) [
  | inl t ↦
      let (u, v) = and-eq-true (other == c.user_id) (device == c.device_id) t in
      let q : other ≡ c.user_id = (nat_beq_iff _ _).0 u in
      let w : device ≡ c.device_id = (eq_iff _ _).0 v in
      rw t (
        subst
          (λ o.
            (or_start o device (
              find (cursor_at o device)
                (upsert (cursor_at c.user_id c.device_id) c cs))).last_synced_sequence
            ≡ c.last_synced_sequence)
          (sym q)
          (subst
            (λ y.
              (or_start c.user_id y (
                find (cursor_at c.user_id y)
                  (upsert (cursor_at c.user_id c.device_id) c cs))).last_synced_sequence
              ≡ c.last_synced_sequence)
            (sym w)
            (ap (λ f. (or_start c.user_id c.device_id f).last_synced_sequence)
              (find-upsert_self (cursor_at c.user_id c.device_id) c cs (cursor_at_self c)))))
  | inr t ↦ rw t (
      ap (λ f. (or_start other device f).last_synced_sequence)
        (find-upsert_other (cursor_at other device) (cursor_at c.user_id c.device_id) c cs
          (cursor_at-other c.user_id other c.device_id device c t (cursor_at_self c))
          (λ x m. cursor_at-other c.user_id other c.device_id device x t m)))
]

-- An acknowledgement moves the device's position to the acknowledged sequence, unless it was behind
-- that already, so that a position never goes back. No other device's position changes.
pub ack_events-position :
    (now user_id : ℕ) (device_id : String) (n : ℕ) (d : Db Tables) (u : Unit {0}) (other : ℕ)
    (device : String)
    → (ack_events now user_id device_id n d).0 ≡ ok u
    → position (ack_events now user_id device_id n d).1.tables other device ≡ (
        if other == user_id && device == device_id
        then later_of n (position d.tables user_id device_id)
        else position d.tables other device)
unfolding ack_events update_cursor get_cursor
ack_events-position now user_id device_id n d u other device h =
    let moved = λ (c : SyncCursor). record c {
      last_synced_sequence = later_of n c.last_synced_sequence;
      updated_at = now;
    } in
    let look = get_cursor user_id device_id in
    let (c, found, k) = >>=-ok look (λ c. save_cursor (moved c)) d u h in
    let mid = (look d).1 in
    let before = find (cursor_at user_id device_id) d.tables.cursors in
    let read : or_start user_id device_id before ≡ c = ground (arith, select-ok _ d c found) in
    let (owner, its) = or_start-keys user_id device_id d.tables.cursors before refl in
    let saved = save_cursor-ok (moved c) mid u (subst (λ r. r.0 ≡ ok u) k h) in
    let same : mid.tables ≡ d.tables =
      tables-select
        (λ t. ok (or_start user_id device_id (find (cursor_at user_id device_id) t.cursors))) d in
    let after : (ack_events now user_id device_id n d).1.tables.cursors
        ≡ upsert (cursor_at c.user_id c.device_id) (moved c) d.tables.cursors =
      ap (λ r. r.1.tables.cursors) k
      ∙ saved
      ∙ ap (λ t. upsert (cursor_at c.user_id c.device_id) (moved c) t.cursors) same in
    let q : c.user_id ≡ user_id = ap (λ r. r.user_id) (sym read) ∙ owner in
    let w : c.device_id ≡ device_id = ap (λ r. r.device_id) (sym read) ∙ its in
    ap (λ cs. (or_start other device (find (cursor_at other device) cs)).last_synced_sequence) after
    ∙ saved-position (moved c) d.tables.cursors other device
    ∙ ap₂
        (λ a b.
          if other == a && device == b
          then (moved c).last_synced_sequence
          else position d.tables other device)
        q w
    ∙ ap
        (λ r.
          if other == user_id && device == device_id
          then later_of n r.last_synced_sequence
          else position d.tables other device)
        (sym read)

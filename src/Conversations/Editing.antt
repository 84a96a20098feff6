-- ===== src/Conversations/Editing.antt =====
-- That a user changes no message of another: UpdateMessage and DeleteMessage of
-- internal/service/message.go.
use agent_os_backend.Prelude.{
  ℕ, String, false, ◌≡◌, ◌≢◌, sym, ap, ◌∙◌, inl, inr, List, [], ◌∷◌, arith, In, ◌==◌, ◌!=◌, nat_eq,
  string_eq, nat_beq_iff, Bool-cases,
}
use agent_os_backend.Errors.{Result, ok, err, message}
use agent_os_backend.Db.{Db, Exec, wrapping, ◌>>=◌, ◌>>◌, pure}
use agent_os_backend.Db.Keeps.{Keeps, keeps_rules, select-Keeps}
use agent_os_backend.Db.Triples.{
  Triple, bind-Triple, attempt-Triple, raise-Triple, if-Triple, pure-Triple, write-Triple,
  wrapping-Triple, fail_if-Triple, Keeps-Triple, Ends,
}
use agent_os_backend.Table.{any, upsert}
use agent_os_backend.Table.Finding.{first-ok}
use agent_os_backend.Table.Members.{In-append_left, In-update_ne}
use agent_os_backend.Conversations.Rows.{Message, Tables}
use agent_os_backend.Conversations.Repo.{get_participants}
use agent_os_backend.Conversations.MessageRepo.{
  get_message_by_id, save_message, set_deleted, soft_delete_message,
}
use agent_os_backend.Conversations.Events.{Externals, Times, record_message_sync_events}
use agent_os_backend.Conversations.Service.{or_message}
use agent_os_backend.Conversations.Messages.{
  UpdateMessageRequest, message_of, update_message, delete_message, delete_stored,
}
use agent_os_backend.Conversations.Apart.{message_events-Keeps}

-- No two messages share an id.
abbrev pub IsKeyed : List Message → Type 0
IsKeyed ms = (a b : Message) → In a ms → In b ms → a.id ≡ b.id → a ≡ b

any_end :
    {A : Type 0} {P Q : Tables → Type 0} (m : Exec Tables A) (d : Db Tables)
    → Triple P (λ _. Q) Q m
    → P d.tables
    → Q (m d).1.tables
any_end {A = A} {Q = Q} m d t h = go (m d).0 (t.after d h)
  where
    go : (r : Result A) → Ends (λ _. Q) Q r (m d).1.tables → Q (m d).1.tables
    go (ok a) k = k
    go (err e) k = k

module _ (x : Externals) (times : Times) (now actor conv id : ℕ) (r : Message)
    (foreign : r.sender_id ≢ actor) where
  abbrev Kept : Tables → Type 0
  Kept t = In r t.messages

  record Before (t : Tables) : Type 0 where
    keyed : IsKeyed t.messages
    kept : In r t.messages

  record Looked (m : Message) (t : Tables) : Type 0 where
    before : Before t
    stored : In m t.messages
    same : m.id ≡ id

  abbrev Found : Result Message → Tables → Type 0
  Found (ok m) t = Looked m t
  Found (err e) t = Before t

  or_message-Looked :
      (text : String) (q : Result Message) → Triple (Found q) Looked Kept (or_message text q)
  unfolding or_message
  or_message-Looked text (ok m) = pure-Triple m λ t h. h
  or_message-Looked text (err e) = raise-Triple _ λ t h. h.kept

  message_of-Looked : Triple Before Looked Kept (message_of conv id)
  unfolding message_of get_message_by_id
  message_of-Looked =
      bind-Triple Found _ _
        (attempt-Triple _
          (λ t m h e.
            let (stored, k) = first-ok (λ y. y.id == id) t.messages m e in
            record { before = h; stored = stored; same = (nat_beq_iff m.id id).0 k })
          (λ t e h. h))
        λ q. bind-Triple Looked _ _ (or_message-Looked "message not found" q) λ m.
          bind-Triple (λ _. Looked m) _ _
            (fail_if-Triple (m.conversation_id != conv)
              (message "message is not in the conversation") (λ _ t h. h) (λ t h. h.before.kept))
            λ _. pure-Triple m λ t h. h

  -- The message of another is not the one that was looked up.
  other_id :
      (m : Message) (t : Tables)
      → Looked m t
      → (m.sender_id != actor) ≡ false
      → (r.id == id) ≡ false
  other_id m t h mine = elim (Bool-cases (r.id == id)) [
    | inr e ↦ e
    | inl e ↦ absurd (
        let k : r.id ≡ id = (nat_beq_iff r.id id).0 e in
        let one : r ≡ m = h.before.keyed r m h.before.kept h.stored (k ∙ sym h.same) in
        let sent : m.sender_id ≡ actor = ground (arith, nat_beq_iff m.sender_id actor) in
        foreign (ap (λ y. y.sender_id) one ∙ sent))
  ]

  upsert-Kept :
      (m : Message) (ms : List Message)
      → In r ms
      → (r.id == m.id) ≡ false
      → In r (upsert (λ y. y.id == m.id) m ms)
  unfolding upsert
  upsert-Kept m ms h k = elim (Bool-cases (any (λ y. y.id == m.id) ms)) [
    | inl e ↦ rw e (In-update_ne (λ y. y.id == m.id) (λ _. m) ms r h k)
    | inr e ↦ rw e (In-append_left ms (m ∷ []) r h)
  ]

  announce-Kept :
      (m : Message) (operation client : String)
      → Keeps Kept (
          wrapping "get participants" (get_participants conv) >>= λ ps.
          record_message_sync_events x times ps m operation client >> pure m)
  unfolding get_participants
  announce-Kept m operation client =
      search (keeps_rules, message_events-Keeps Kept (λ t s h. h) x times) depth 10

  settled : {A : Type 0} (k : Exec Tables A) → Keeps Kept k → Triple Kept (λ _. Kept) Kept k
  settled k h = Keeps-Triple k h (λ _ t g. g) (λ t g. g)

  update_message-Kept :
      (req : UpdateMessageRequest)
      → Triple Before (λ _. Kept) Kept (update_message x times now actor conv id req)
  unfolding update_message save_message
  update_message-Kept req = bind-Triple Looked _ _ message_of-Looked λ m.
      bind-Triple (λ _ t. Looked m t × ((m.sender_id != actor) ≡ false)) _ _
        (fail_if-Triple (m.sender_id != actor)
          (message "access denied: only sender can edit message") (λ e t h. (h, e))
          (λ t h. h.before.kept))
        λ _.
          bind-Triple (λ _ t. Looked m t × ((m.sender_id != actor) ≡ false)) _ _
            (fail_if-Triple (m.status == "deleted") (message "message is deleted") (λ _ t h. h)
              (λ t h. h.0.before.kept))
            λ _.
              bind-Triple (λ _. Kept) _ _
                (wrapping-Triple _ _ (
                  write-Triple _ _
                    (λ t h.
                      upsert-Kept _ t.messages h.0.before.kept (rw h.0.same (other_id m t h.0 h.1)))
                    (λ t h. h.0.before.kept)))
                λ _. settled _ (announce-Kept _ "updated" req.client_event_id)

  delete_stored-Kept :
      (m : Message) (client : String)
      → Triple
          (λ t. Looked m t × ((m.sender_id != actor) ≡ false))
          (λ _. Kept)
          Kept
          (delete_stored x times now actor conv id client)
  unfolding delete_stored soft_delete_message set_deleted get_message_by_id
  delete_stored-Kept m client =
      bind-Triple (λ _. Kept) _ _
        (wrapping-Triple _ _ (
          bind-Triple (λ _. Kept) _ _
            (write-Triple _ _
              (λ t h.
                In-update_ne (λ y. y.id == id) _ t.messages r h.0.before.kept
                  (other_id m t h.0 h.1))
              (λ t h. h.0.before.kept))
            (λ _. settled _ (select-Keeps _))))
        λ deleted. settled _ (announce-Kept deleted "deleted" client)

  delete_message-Kept :
      (client : String)
      → Triple Before (λ _. Kept) Kept (delete_message x times now actor conv id client)
  unfolding delete_message
  delete_message-Kept client = bind-Triple Looked _ _ message_of-Looked λ m.
      bind-Triple (λ _ t. Looked m t × ((m.sender_id != actor) ≡ false)) _ _
        (fail_if-Triple (m.sender_id != actor)
          (message "access denied: only sender can delete message") (λ e t h. (h, e))
          (λ t h. h.before.kept))
        λ _.
          if-Triple (m.status == "deleted") _ _ (λ _. pure-Triple m λ t h. h.0.before.kept)
            (λ _. delete_stored-Kept m client)

-- Where no two messages share an id, UpdateMessage and DeleteMessage leave every message that another
-- user sent as it was, whether they return or fail, and however the database fails.
pub foreign-message-Kept :
    (x : Externals) (times : Times) (now actor conv id : ℕ) (r : Message) (d : Db Tables)
    → IsKeyed d.tables.messages
    → In r d.tables.messages
    → r.sender_id ≢ actor
    → ((req : UpdateMessageRequest)
        → In r (update_message x times now actor conv id req d).1.tables.messages)
      × ((client : String)
          → In r (delete_message x times now actor conv id client d).1.tables.messages)
foreign-message-Kept x times now actor conv id r d keyed stored foreign =
    let before : Before x times now actor conv id r foreign d.tables = record {
      keyed = keyed;
      kept = stored;
    } in
    (
      λ req. any_end _ d (update_message-Kept x times now actor conv id r foreign req) before,
      λ client. any_end _ d (delete_message-Kept x times now actor conv id r foreign client) before,
    )

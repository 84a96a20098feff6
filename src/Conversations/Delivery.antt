-- ===== src/Conversations/Delivery.antt =====
-- Retries of SendMessage, and who changes a message (internal/service/message.go).
use agent_os_backend.Prelude.{
  ℕ, String, Bool, true, false, ◌&&◌, ◌||◌, ◌≡◌, refl, ap, inl, inr, Option, none, some, List, [],
  ◌∷◌, arith, ◌==◌, ◌!=◌, nat_eq, string_eq, Bool-cases,
}
use agent_os_backend.Errors.{Result, ok, err}
use agent_os_backend.Db.{Db, Exec}
use agent_os_backend.Db.Keeps.{Keeps, keeps_rules, lift-Keeps, attempt-Keeps, select-Keeps}
use agent_os_backend.Db.Triples.{
  Triple, bind-Triple, attempt-Triple, select-Triple, never-Triple, if-Triple, pure-Triple,
  insert-Triple, wrapping-Triple, Keeps-Triple, Ends,
}
use agent_os_backend.Table.{find, first, any}
use agent_os_backend.Table.Finding.{or_not_found-ok}
use agent_os_backend.Conversations.Rows.{Message, Tables, Stamp}
use agent_os_backend.Conversations.Repo.{is_participant, get_participants}
use agent_os_backend.Conversations.MessageRepo.{
  sent_as, create_message, find_message_by_client_event_id, get_message_by_id,
}
use agent_os_backend.Conversations.Events.{Externals, Times}
use agent_os_backend.Conversations.Service.{if_participant, or_message}
use agent_os_backend.Conversations.Messages.{
  SendMessageRequest, MessageDelivery, send_message, replay_or_send, send_new, new_message,
  reply_thread,
}

any-of-find :
    {A : Type 0} (p q : A → Bool) (xs : List A) (a : A)
    → find p xs ≡ some a
    → ((x : A) → p x ≡ true → q x ≡ true)
    → any q xs ≡ true
unfolding find any
any-of-find p q [] a h k = cc
any-of-find p q (x ∷ xs) a h k = elim (Bool-cases (p x)) [
  | inl e ↦ rw (k x e)
  | inr e ↦ ground (arith, any-of-find p q xs a)
]

or_message-Keeps :
    {P : Tables → Type 0} {A : Type 0} (text : String) (r : Result A) → Keeps P (or_message text r)
unfolding or_message
or_message-Keeps text (ok a) = search keeps_rules
or_message-Keeps text (err e) = search keeps_rules

if_participant-Keeps :
    (P : Tables → Type 0) (text : String) (r : Result Bool) → Keeps P (if_participant text r)
unfolding if_participant
if_participant-Keeps P text (ok true) = search keeps_rules
if_participant-Keeps P text _ = search keeps_rules

module _ (x : Externals) (times : Times) (s : Stamp) (sender : ℕ) (req : SendMessageRequest)
    (m : Message) (ms : List Message)
    (stored : find (sent_as sender req.client_event_id) ms ≡ some m)
    (named : (req.client_event_id == "") ≡ false) where
  abbrev Same : Tables → Type 0
  Same t = t.messages ≡ ms

  abbrev Answered : MessageDelivery → Tables → Type 0
  Answered delivery t = Same t × (delivery.message ≡ m)

  abbrev Never : {A : Type 0} → A → Tables → Type 0
  Never _ _ = ⊥

  abbrev clashing : String → Message → Bool
  clashing thread y =
      y.id == (new_message s sender req thread).id
      || (new_message s sender req thread).client_event_id != ""
        && sent_as (new_message s sender req thread).sender_id
            (new_message s sender req thread).client_event_id y

  clash : (t : Tables) (thread : String) → Same t → any (clashing thread) t.messages ≡ false → ⊥
  unfolding new_message
  clash t thread h fresh =
      let hit =
        any-of-find (sent_as sender req.client_event_id) (clashing thread) ms m stored
          (λ y e. ground (arith, named, e)) in
      cc (ap (any (clashing thread)) h, hit, fresh)

  create-Never :
      (thread : String) → Triple Same Never Same (create_message (new_message s sender req thread))
  unfolding create_message new_message
  create-Never thread = insert-Triple _ _ _ _ (λ t fresh h. clash t thread h fresh) (λ t h. h)

  reads-Same : {A : Type 0} (k : Exec Tables A) → Keeps Same k → Triple Same (λ _. Same) Same k
  reads-Same k h = Keeps-Triple k h (λ _ t g. g) (λ t g. g)

  reply_thread-Keeps : (r : Option ℕ) → Keeps Same (reply_thread x req r)
  unfolding reply_thread get_message_by_id
  reply_thread-Keeps none = search keeps_rules
  reply_thread-Keeps (some id) = search (keeps_rules, or_message-Keeps) depth 10

  send_new-Answered : Triple Same Answered Same (send_new x times s sender req)
  unfolding send_new
  send_new-Answered =
      bind-Triple (λ _. Same) _ _ (reads-Same _ (lift-Keeps _))
        λ _.
          bind-Triple (λ _. Same) _ _ (reads-Same _ (reply_thread-Keeps req.reply_to))
            λ thread.
              bind-Triple Never _ _ (wrapping-Triple _ _ (create-Never thread))
                λ _. never-Triple _ λ t h. h

  -- the message that the look-up gave
  abbrev Looked : Result Message → Tables → Type 0
  Looked (ok found) t = Same t × (found ≡ m)
  Looked (err e) t = Same t

  replay-Answered :
      (r : Result Message) → Triple (Looked r) Answered Same (replay_or_send x times s sender req r)
  unfolding replay_or_send get_participants
  replay-Answered (err e) = send_new-Answered
  replay-Answered (ok found) =
      bind-Triple (λ _. Looked (ok found)) _ _
        (wrapping-Triple _ _ (select-Triple _ (λ t a h e. h) (λ t h. h.0)))
        λ ps. pure-Triple _ λ t h. (h.0, h.1)

  found_is :
      (t : Tables) (found : Message)
      → Same t
      → first (sent_as sender req.client_event_id) t.messages ≡ ok found
      → found ≡ m
  found_is t found h e =
      let k = or_not_found-ok (find (sent_as sender req.client_event_id) t.messages) found e in
      let l = ap (find (sent_as sender req.client_event_id)) h in cc (k, l, stored)

  send_message-Answered : Triple Same Answered Same (send_message x times s sender req)
  unfolding send_message is_participant find_message_by_client_event_id
  send_message-Answered =
      bind-Triple (λ _. Same) _ _ (reads-Same _ (attempt-Keeps _ (select-Keeps _)))
        λ joined.
          bind-Triple (λ _. Same) _ _
            (reads-Same _ (if_participant-Keeps Same "access denied: not a participant" joined))
            λ _.
              if-Triple (req.client_event_id != "") _ (send_new x times s sender req)
                (λ _.
                  bind-Triple Looked _ _
                    (attempt-Triple _ (λ t found h e. (h, found_is t found h e)) (λ t e h. h))
                    replay-Answered)
                (λ other. absurd (ground (arith, named, other)))

-- Where a message that the sender sent with a client event id is stored, SendMessage for the same sender
-- and client event id leaves the messages as they are, however the database fails, and what it returns,
-- if it does not fail, is the stored message, whatever the request says otherwise.
pub send_message-Replays :
    (x : Externals) (times : Times) (s : Stamp) (sender : ℕ) (req : SendMessageRequest)
    (m : Message) (d : Db Tables)
    → find (sent_as sender req.client_event_id) d.tables.messages ≡ some m
    → (req.client_event_id == "") ≡ false
    → Ends
        (λ delivery t. (t.messages ≡ d.tables.messages) × (delivery.message ≡ m))
        (λ t. t.messages ≡ d.tables.messages)
        (send_message x times s sender req d).0
        (send_message x times s sender req d).1.tables
send_message-Replays x times s sender req m d stored named =
    (send_message-Answered x times s sender req m d.tables.messages stored named).after d refl

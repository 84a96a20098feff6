-- ===== src/Conversations/MessageRepo.antt =====
-- Messages, reactions and offline messages of internal/repository/conversation_repo.go, with the
-- unique index of migrations/027_im_message_core_contract.sql and the look-up of a user's devices.
use agent_os_backend.Prelude.{
  ℕ, String, Bool, true, ◌&&◌, ◌||◌, Option, none, some, List, [], ◌∷◌, ◌++◌, leb, ltb, take, ◌==◌,
  ◌!=◌, nat_eq, string_eq, if◌then◌else◌, not,
}
use agent_os_backend.Errors.{ok, err, duplicate_key}
use agent_os_backend.Db.{Exec, select, statement, pure, ◌>>=◌, ◌>>◌}
use agent_os_backend.Table.{filter, any, update, upsert, delete, count, sort_by, first, find}
use agent_os_backend.Conversations.Rows.{Message, MessageReaction, OfflineMessage, Device, Tables}

unfoldable pub sent_as : ℕ → String → Message → Bool
sent_as sender_id client_event_id m =
    m.sender_id == sender_id && m.client_event_id == client_event_id

unfoldable pub create_message : Message → Exec Tables (Unit {0})
unfolding sent_as
create_message m = statement λ t.
    if any (λ x. x.id == m.id || m.client_event_id != "" && sent_as m.sender_id m.client_event_id x)
      t.messages
    then err duplicate_key
    else ok (tt, record t { messages = t.messages ++ m ∷ [] })

unfoldable pub get_message_by_id : ℕ → Exec Tables Message
get_message_by_id id = select λ t. first (λ m. m.id == id) t.messages

unfoldable pub find_message_by_client_event_id : ℕ → String → Exec Tables Message
unfolding sent_as
find_message_by_client_event_id sender_id client_event_id =
    select λ t. first (sent_as sender_id client_event_id) t.messages

-- Save, which sets updated_at
unfoldable pub save_message : ℕ → Message → Exec Tables (Unit {0})
save_message now m = statement λ t. ok (
  tt,
  record t { messages = upsert (λ x. x.id == m.id) (record m { updated_at = now }) t.messages },
)

unfoldable pub mark_deleted : ℕ → ℕ → Message → Message
mark_deleted actor_id deleted_at m = record m {
  status = "deleted";
  deleted_at = some deleted_at;
  deleted_by = some actor_id;
  updated_at = deleted_at;
}

unfoldable pub set_deleted : ℕ → ℕ → ℕ → Exec Tables (Unit {0})
unfolding mark_deleted
set_deleted message_id actor_id deleted_at = statement λ t. ok (
  tt,
  record t {
    messages = update (λ m. m.id == message_id) (mark_deleted actor_id deleted_at) t.messages;
  },
)

unfoldable pub soft_delete_message : ℕ → ℕ → ℕ → Exec Tables Message
unfolding set_deleted get_message_by_id
soft_delete_message message_id actor_id deleted_at = do
  set_deleted message_id actor_id deleted_at
  get_message_by_id message_id

unfoldable pub sent_before : Option ℕ → Message → Bool
sent_before none m = true
sent_before (some before) m = ltb m.created_at before

unfoldable pub get_messages_of : ℕ → ℕ → Option ℕ → Exec Tables (List Message)
unfolding sent_before
get_messages_of conversation_id limit before = select λ t. ok (
    take limit (
      sort_by (λ a b. leb b.created_at a.created_at)
        (filter (λ m. m.conversation_id == conversation_id && sent_before before m) t.messages)))

unfoldable pub is_reaction : ℕ → ℕ → String → MessageReaction → Bool
is_reaction message_id user_id emoji r =
    r.message_id == message_id && r.user_id == user_id && r.emoji == emoji

unfoldable pub get_reaction : ℕ → ℕ → String → Exec Tables MessageReaction
unfolding is_reaction
get_reaction message_id user_id emoji =
    select λ t. first (is_reaction message_id user_id emoji) t.reactions

unfoldable pub create_reaction : MessageReaction → Exec Tables (Unit {0})
unfolding is_reaction
create_reaction r = statement λ t.
    if any (λ x. x.id == r.id || is_reaction r.message_id r.user_id r.emoji x) t.reactions
    then err duplicate_key
    else ok (tt, record t { reactions = t.reactions ++ r ∷ [] })

unfoldable pub remove_reaction_row : ℕ → ℕ → String → Exec Tables (Unit {0})
unfolding is_reaction
remove_reaction_row message_id user_id emoji =
    statement λ t.
      ok (tt, record t { reactions = delete (is_reaction message_id user_id emoji) t.reactions })

unfoldable pub save_offline_message : OfflineMessage → Exec Tables (Unit {0})
save_offline_message om = statement λ t.
    if any (λ x. x.id == om.id) t.offline
    then err duplicate_key
    else ok (tt, record t { offline = t.offline ++ om ∷ [] })

-- a row with the message that `Preload` fills in, where there is one
unfoldable pub preload : List Message → List OfflineMessage → List (OfflineMessage × Option Message)
preload found [] = []
preload found (o ∷ os) = (o, find (λ m. m.id == o.message_id) found) ∷ preload found os

-- the second SELECT of `Preload`, which is issued only for rows
unfoldable pub with_messages :
    List OfflineMessage → Exec Tables (List (OfflineMessage × Option Message))
unfolding preload
with_messages [] = pure []
with_messages (o ∷ os) = do
  let wanted = o ∷ os
  found ← select (λ t. ok (filter (λ m. any (λ w. w.message_id == m.id) wanted) t.messages))
  pure (preload found wanted)

unfoldable pub get_undelivered_messages :
    ℕ → String → ℕ → Exec Tables (List (OfflineMessage × Option Message))
unfolding with_messages
get_undelivered_messages user_id device_id limit =
    select (λ t. ok (
      take limit (
        sort_by (λ a b. leb a.created_at b.created_at)
          (filter (λ o. o.user_id == user_id && o.device_id == device_id && not o.delivered)
            t.offline))))
    >>= with_messages

unfoldable pub mark_offline_delivered : List ℕ → Exec Tables (Unit {0})
mark_offline_delivered ids = statement λ t. ok (
  tt,
  record t {
    offline =
        update (λ o. any (λ id. o.id == id) ids) (λ o. record o { delivered = true }) t.offline;
  },
)

unfoldable pub cleanup_expired_offline_rows : ℕ → Exec Tables ℕ
cleanup_expired_offline_rows before = statement λ t.
    let old = λ (o : OfflineMessage). ltb o.created_at before in
    ok (count old t.offline, record t { offline = delete old t.offline })

-- GetUserDevices of internal/repository/user_repo.go
unfoldable pub get_user_devices : ℕ → Exec Tables (List Device)
get_user_devices user_id = select λ t.
    ok (sort_by (λ a b. leb b.paired_at a.paired_at) (filter (λ d. d.user_id == user_id) t.devices))

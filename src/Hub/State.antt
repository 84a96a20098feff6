-- ===== src/Hub/State.antt =====
-- The state of the hub and its operations (internal/ws/hub.go). A client is its pointer with the
-- fields that never change. An operation that panics is an error. The hub's locks make each
-- operation one step, and a range over a Go map does not visit an entry that was deleted before it
-- was reached.
use agent_os_backend.Prelude.{
  ℕ, String, Bool, true, false, ◌&&◌, List, [], ◌∷◌, ◌++◌, ltb, ◌==◌, ◌!=◌, nat_eq, string_eq,
  if◌then◌else◌, length, drop,
}
use agent_os_backend.Errors.{Error, Result, ok, err, message}
use agent_os_backend.Table.{any, filter, delete}

pub record Client : Type 0 where
  pub ptr : ℕ
  pub user_id : ℕ
  pub device_id : String

-- a Go channel with a buffer
pub record Channel : Type 0 where
  pub closed : Bool
  pub queue : List String

-- `user_devices` is a map of maps by its entries, each of which stands under the user and the
-- device of its client; an inner map without entries is deleted by the code.
pub record Hub : Type 0 where
  pub clients : List Client
  pub user_devices : List Client
  pub channels : ℕ → Channel

abbrev pub capacity : ℕ
capacity = 256

abbrev pub send_on_closed : Error
send_on_closed = message "panic: send on closed channel"

abbrev pub close_of_closed : Error
close_of_closed = message "panic: close of closed channel"

abbrev pub new_channel : Channel
new_channel = record { closed = false; queue = [] }

abbrev pub new_hub : Hub
new_hub = record { clients = []; user_devices = []; channels = λ _. new_channel }

abbrev pub is_client : Client → Client → Bool
is_client c x = x.ptr == c.ptr

abbrev pub at_device : ℕ → String → Client → Bool
at_device user_id device_id x = x.user_id == user_id && x.device_id == device_id

unfoldable pub set_channel : Client → Channel → Hub → Hub
set_channel c ch h = record h { channels = λ p. if p == c.ptr then ch else h.channels p }

unfoldable pub close : Client → Hub → Result Hub
unfolding set_channel
close c h =
    let ch = h.channels c.ptr in
    if ch.closed then err close_of_closed else ok (set_channel c (record ch { closed = true }) h)

-- delete(h.clients, c)
unfoldable pub forget : Client → Hub → Hub
forget c h = record h { clients = delete (is_client c) h.clients }

-- select { case c.Send <- text: …; default: otherwise }
unfoldable pub offer : Client → String → (Hub → Result Hub) → Hub → Result Hub
unfolding set_channel
offer c text otherwise h =
    let ch = h.channels c.ptr in
    if ch.closed
    then err send_on_closed
    else if ltb (length ch.queue) capacity
    then ok (set_channel c (record ch { queue = ch.queue ++ text ∷ [] }) h)
    else otherwise h

-- close(client.Send); delete(h.clients, client)
unfoldable pub drop_client : Client → Hub → Result Hub
unfolding close forget
drop_client c h = elim (close c h) [ ok h' ↦ ok (forget c h') | err e ↦ err e ]

-- the loop of broadcastToAll over the clients that are left
unfoldable pub broadcast_from : List Client → String → Hub → Result Hub
unfolding offer drop_client
broadcast_from [] text h = ok h
broadcast_from (c ∷ cs) text h = elim (any (is_client c) h.clients) [
  | false ↦ broadcast_from cs text h
  | true ↦ elim (offer c text (drop_client c) h) [
    | ok h' ↦ broadcast_from cs text h'
    | err e ↦ err e
  ]
]

unfoldable pub broadcast_to_all : String → Hub → Result Hub
unfolding broadcast_from
broadcast_to_all text h = broadcast_from h.clients text h

unfoldable pub remember : Client → Hub → Hub
remember c h = record h {
  clients = if any (is_client c) h.clients then h.clients else h.clients ++ c ∷ [];
  user_devices = delete (at_device c.user_id c.device_id) h.user_devices ++ c ∷ [];
}

-- if _, ok := h.clients[c]; ok { delete(h.clients, c); close(c.Send) }
unfoldable pub disconnect : Client → Hub → Result Hub
unfolding close forget
disconnect c h = if any (is_client c) h.clients then close c (forget c h) else ok h

unfoldable pub forget_device : Client → Hub → Hub
forget_device c h = record h {
  user_devices = delete (at_device c.user_id c.device_id) h.user_devices;
}

unfoldable pub is_device_online : ℕ → String → Hub → Bool
is_device_online user_id device_id h = any (at_device user_id device_id) h.user_devices

unfoldable pub is_user_online : ℕ → Hub → Bool
is_user_online user_id h = any (λ x. x.user_id == user_id) h.user_devices

-- SendMessage: a full buffer drops the message.
unfoldable pub send_message : String → Client → Hub → Result Hub
unfolding offer
send_message text c h = offer c text ok h

unfoldable pub send_to : List Client → String → Hub → Result Hub
unfolding send_message
send_to [] text h = ok h
send_to (c ∷ cs) text h = elim (send_message text c h) [
  | ok h' ↦ send_to cs text h'
  | err e ↦ err e
]

unfoldable pub send_to_user : ℕ → String → Hub → Result Hub
unfolding send_to
send_to_user user_id text h = send_to (filter (λ x. x.user_id == user_id) h.user_devices) text h

unfoldable pub send_to_user_except_device : ℕ → String → String → Hub → Result Hub
unfolding send_to
send_to_user_except_device user_id device_id text h =
    send_to (filter (λ x. x.user_id == user_id && x.device_id != device_id) h.user_devices) text h

unfoldable pub send_to_user_device : ℕ → String → String → Hub → Result Hub
unfolding send_to
send_to_user_device user_id device_id text h =
    send_to (filter (at_device user_id device_id) h.user_devices) text h

-- `presence` encodes the presence message (encoding/json).
module _ (presence : ℕ → String → String → String) where
  unfoldable pub register : Client → Hub → Result Hub
  unfolding remember broadcast_to_all
  register c h = broadcast_to_all (presence c.user_id c.device_id "online") (remember c h)

  unfoldable pub unregister : Client → Hub → Result Hub
  unfolding disconnect forget_device broadcast_to_all
  unregister c h = elim (disconnect c h) [
    | ok h' ↦ broadcast_to_all (presence c.user_id c.device_id "offline") (forget_device c h')
    | err e ↦ err e
  ]

  -- What the loop receives, and the WritePump of a client taking a message from its channel. A
  -- connection makes a client with a channel of its own and registers it.
  pub data Event : Type 0 where
    connects : Client → Event
    leaves : Client → Event
    broadcasts : String → Event
    writes : Client → Event

  unfoldable pub step : Event → Hub → Result Hub
  unfolding register unregister set_channel
  step (connects c) h = register c (set_channel c new_channel h)
  step (leaves c) h = unregister c h
  step (broadcasts text) h = broadcast_to_all text h
  step (writes c) h =
      let ch = h.channels c.ptr in ok (set_channel c (record ch { queue = drop 1 ch.queue }) h)

  -- Run, on the events in the order of their arrival
  unfoldable pub run : List Event → Hub → Result Hub
  unfolding step
  run [] h = ok h
  run (e ∷ es) h = elim (step e h) [ ok h' ↦ run es h' | err error ↦ err error ]

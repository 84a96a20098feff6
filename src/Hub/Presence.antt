-- ===== src/Hub/Presence.antt =====
-- Which devices the hub calls online (internal/ws/hub.go), and what a message to a device meets.
use agent_os_backend.Prelude.{
  ℕ, String, true, not, ◌&&◌, ◌≡◌, refl, sym, ap, ◌∙◌, subst, List, [], ◌∷◌, ◌++◌, arith, ◌==◌,
  nat_eq, string_eq, Bool-cases, inl, inr, nat_beq_iff, eq_iff, In, ◌||◌,
}
use agent_os_backend.Errors.{Error, Result, ok, err}
use agent_os_backend.Table.{any, filter, delete}
use agent_os_backend.Hub.State.{
  Client, Hub, is_client, set_channel, close, forget, offer, drop_client, broadcast_from,
  broadcast_to_all, remember, disconnect, forget_device, register, unregister, at_device,
  is_device_online, send_to, send_to_user, send_message, send_on_closed,
}
use agent_os_backend.Table.Members.{In-filter}

abbrev pub Keeps : Hub → Result Hub → Type 0
Keeps h r = (h' : Hub) → r ≡ ok h' → h'.user_devices ≡ h.user_devices

close-Keeps : (c : Client) (h : Hub) → Keeps h (close c h)
unfolding close set_channel
close-Keeps c h h' e = ground arith

drop_client-Keeps : (c : Client) (h : Hub) → Keeps h (drop_client c h)
unfolding drop_client forget
drop_client-Keeps c h h' e = go (close c h) refl e
  where
    go :
        (r : Result Hub)
        → close c h ≡ r
        → elim r [ ok k ↦ ok (forget c k) | err x ↦ err x ] ≡ ok h'
        → h'.user_devices ≡ h.user_devices
    go (ok k) q z =
        let s : forget c k ≡ h' = ground arith in
        ap (λ a. a.user_devices) (sym s) ∙ close-Keeps c h k q
    go (err x) q z = cc

offer-Keeps :
    (c : Client) (text : String) (otherwise : Hub → Result Hub) (h : Hub)
    → Keeps h (otherwise h)
    → Keeps h (offer c text otherwise h)
unfolding offer set_channel
offer-Keeps c text otherwise h k h' e = ground (arith, k h')

pub broadcast_from-Keeps :
    (cs : List Client) (text : String) (h : Hub) → Keeps h (broadcast_from cs text h)
unfolding broadcast_from
broadcast_from-Keeps [] text h h' e = ground arith
broadcast_from-Keeps (c ∷ cs) text h h' e = elim (Bool-cases (any (is_client c) h.clients)) [
  | inl there ↦
      next_client (offer c text (drop_client c) h)
        (offer-Keeps c text (drop_client c) h (drop_client-Keeps c h))
        (λ k. broadcast_from-Keeps cs text k h') (rw (there, broadcast_from) at e)
  | inr gone ↦ broadcast_from-Keeps cs text h h' (rw (gone, broadcast_from) at e)
]
  where
    next_client :
        (r : Result Hub)
        → Keeps h r
        → ((k : Hub) → broadcast_from cs text k ≡ ok h' → h'.user_devices ≡ k.user_devices)
        → elim r [ ok k ↦ broadcast_from cs text k | err x ↦ err x ] ≡ ok h'
        → h'.user_devices ≡ h.user_devices
    next_client (ok k) q rest z = rest k z ∙ q k refl
    next_client (err x) q rest z = cc

disconnect-Keeps : (c : Client) (h : Hub) → Keeps h (disconnect c h)
unfolding disconnect forget
disconnect-Keeps c h h' e = elim (Bool-cases (any (is_client c) h.clients)) [
  | inl there ↦ close-Keeps c (forget c h) h' (rw (there, disconnect) at e)
  | inr gone ↦
      let z : ◌≡◌ {A = Result Hub} (ok h) (ok h') = rw (gone, disconnect) at e in ground arith
]

any-delete_device :
    (user_id u : ℕ) (device_id v : String) (cs : List Client)
    → any (at_device u v) (delete (at_device user_id device_id) cs)
      ≡ (not (u == user_id && v == device_id) && any (at_device u v) cs)
unfolding any delete filter
any-delete_device user_id u device_id v [] = ground arith
any-delete_device user_id u device_id v (x ∷ xs) = ground (
  arith,
  any-delete_device user_id u device_id v xs,
  nat_beq_iff x.user_id user_id,
  nat_beq_iff x.user_id u,
  nat_beq_iff u user_id,
  eq_iff x.device_id device_id,
  eq_iff x.device_id v,
  eq_iff v device_id,
)

any-append_device :
    (u : ℕ) (v : String) (c : Client) (cs : List Client)
    → any (at_device u v) (cs ++ c ∷ []) ≡ (any (at_device u v) cs || at_device u v c)
unfolding any
any-append_device u v c [] = ground arith
any-append_device u v c (x ∷ xs) = ground (arith, any-append_device u v c xs)

module _ (presence : ℕ → String → String → String) (c : Client) (h h' : Hub) (u : ℕ)
    (v : String) where
  -- After a registration the client's device is online, and the state of every other device is what
  -- it was.
  pub register-presence :
      register presence c h ≡ ok h'
      → is_device_online u v h' ≡ (at_device u v c || is_device_online u v h)
  unfolding register broadcast_to_all remember is_device_online
  register-presence e =
      let kept = broadcast_from-Keeps _ _ (remember c h) h' e in
      rw kept (
        any-append_device u v c (delete (at_device c.user_id c.device_id) h.user_devices)
        ∙ ap (λ b. b || at_device u v c)
            (any-delete_device c.user_id u c.device_id v h.user_devices)
        ∙ ground (
          arith,
          nat_beq_iff c.user_id u,
          nat_beq_iff u c.user_id,
          eq_iff c.device_id v,
          eq_iff v c.device_id,
        ))

  -- After an unregistration no device of the client's user with the client's device id is online,
  -- also if another client has registered for it meanwhile, and the state of every other device is
  -- what it was.
  pub unregister-presence :
      unregister presence c h ≡ ok h'
      → is_device_online u v h'
        ≡ (not (u == c.user_id && v == c.device_id) && is_device_online u v h)
  unfolding unregister broadcast_to_all forget_device is_device_online
  unregister-presence e = go (disconnect c h) refl e
    where
      go :
          (r : Result Hub)
          → disconnect c h ≡ r
          → elim r [
            | ok k ↦
                broadcast_from
                  (forget_device c k).clients
                  (presence c.user_id c.device_id "offline")
                  (forget_device c k)
            | err x ↦ err x
          ]
            ≡ ok h'
          → any (at_device u v) h'.user_devices
            ≡ (not (u == c.user_id && v == c.device_id) && any (at_device u v) h.user_devices)
      go (ok k) q z =
          ap (any (at_device u v)) (
            broadcast_from-Keeps _ _ (forget_device c k) h' z
            ∙ ap (delete (at_device c.user_id c.device_id)) (disconnect-Keeps c h k q))
          ∙ any-delete_device c.user_id u c.device_id v h.user_devices
      go (err x) q z = cc

-- A closed channel stays closed.
send_message-closed :
    (text : String) (y x : Client) (h h' : Hub)
    → (h.channels x.ptr).closed ≡ true
    → send_message text y h ≡ ok h'
    → (h'.channels x.ptr).closed ≡ true
unfolding send_message offer set_channel
send_message-closed text y x h h' shut e =
    let same : x.ptr ≡ y.ptr → (h.channels x.ptr).closed ≡ (h.channels y.ptr).closed =
      λ q. ap (λ n. (h.channels n).closed) q in
    ground (arith, nat_beq_iff x.ptr y.ptr, same)

send_message-shut :
    (text : String) (y : Client) (h : Hub)
    → (h.channels y.ptr).closed ≡ true
    → send_message text y h ≡ err send_on_closed
unfolding send_message offer
send_message-shut text y h e = rw e refl

send_message-err :
    (text : String) (y : Client) (h : Hub) (e : Error)
    → send_message text y h ≡ err e
    → e ≡ send_on_closed
unfolding send_message offer set_channel
send_message-err text y h e k = ground arith

-- A message for a list of clients of which one has a closed channel.
send_to-panics :
    (cs : List Client) (text : String) (x : Client) (h : Hub)
    → In x cs
    → (h.channels x.ptr).closed ≡ true
    → send_to cs text h ≡ err send_on_closed
unfolding send_to
send_to-panics [] text x h there shut = elim there [ ]
send_to-panics (y ∷ ys) text x h there shut = go (send_message text y h) refl (λ k q. elim there [
  | inl e ↦
      let shut' : (h.channels y.ptr).closed ≡ true =
        subst (λ a. (h.channels a.ptr).closed ≡ true) e shut in
      let z : ◌≡◌ {A = Result Hub} (err send_on_closed) (ok k) =
        sym (send_message-shut text y h shut') ∙ q in
      cc
  | inr i ↦ send_to-panics ys text x k i (send_message-closed text y x h k shut q)
])
  where
    go :
        (r : Result Hub)
        → send_message text y h ≡ r
        → ((k : Hub) → send_message text y h ≡ ok k → send_to ys text k ≡ err send_on_closed)
        → elim r [ ok k ↦ send_to ys text k | err e ↦ err e ] ≡ err send_on_closed
    go (ok k) q rest = rest k q
    go (err e) q rest = ap err (send_message-err text y h e q)

-- A message for a user of whose devices one has a closed channel.
pub send_to_user-panics :
    (text : String) (x : Client) (h : Hub)
    → In x h.user_devices
    → (h.channels x.ptr).closed ≡ true
    → send_to_user x.user_id text h ≡ err send_on_closed
unfolding send_to_user
send_to_user-panics text x h there shut =
    send_to-panics _ text x h
      (In-filter (λ y. y.user_id == x.user_id) h.user_devices x there ((nat_beq_iff _ _).1 refl))
      shut

-- ===== src/Hub/Loop.antt =====
-- The hub's loop (Run of internal/ws/hub.go) never panics.
use agent_os_backend.Prelude.{
  ℕ, String, true, false, ◌≡◌, ◌≢◌, refl, sym, ap, ◌∙◌, List, [], ◌∷◌, ◌++◌, arith, ltb, ◌==◌,
  nat_eq, Bool-cases, inl, inr, nat_beq_iff, length, drop,
}
use agent_os_backend.Errors.{Result, ok}
use agent_os_backend.Table.{any, filter, delete}
use agent_os_backend.Hub.State.{
  Client, Channel, Hub, is_client, set_channel, close, forget, offer, drop_client, broadcast_from,
  broadcast_to_all, remember, disconnect, forget_device, register, unregister, step, run, Event,
  connects, leaves, broadcasts, writes, new_channel, capacity,
}

-- The channel of every registered client is open.
abbrev pub IsOpen : Hub → Type 0
IsOpen h = (c : Client) → any (is_client c) h.clients ≡ true → (h.channels c.ptr).closed ≡ false

-- The operation returns, and leaves the channels open.
abbrev pub Returns : Result Hub → Type 0
Returns r = (h : Hub) × (r ≡ ok h) × IsOpen h

any-delete :
    (a c : Client) (cs : List Client)
    → any (is_client a) (delete (is_client c) cs) ≡ true
    → (any (is_client a) cs ≡ true) × (a.ptr ≢ c.ptr)
unfolding any delete filter
any-delete a c [] h = cc
any-delete a c (x ∷ xs) h =
    ground (arith, nat_beq_iff x.ptr a.ptr, nat_beq_iff x.ptr c.ptr, any-delete a c xs)

any-append :
    (a c : Client) (cs : List Client)
    → any (is_client a) (cs ++ c ∷ []) ≡ true
    → a.ptr ≢ c.ptr
    → any (is_client a) cs ≡ true
unfolding any
any-append a c [] h n = absurd (n (ground (arith, nat_beq_iff c.ptr a.ptr)))
any-append a c (x ∷ xs) h n = ground (arith, any-append a c xs)

set_channel-IsOpen :
    (c : Client) (ch : Channel) (h : Hub)
    → ch.closed ≡ false
    → IsOpen h
    → IsOpen (set_channel c ch h)
unfolding set_channel
set_channel-IsOpen c ch h e o a there = ground (arith, o a)

-- Closing the channel of a client that is taken off the list.
drop-IsOpen :
    (c : Client) (ch : Channel) (h : Hub) → IsOpen h → IsOpen (forget c (set_channel c ch h))
unfolding forget set_channel
drop-IsOpen c ch h o a there =
    let (kept, other) = any-delete a c h.clients there in
    ground (arith, o a, nat_beq_iff a.ptr c.ptr)

drop_client-Returns :
    (c : Client) (h : Hub)
    → IsOpen h
    → any (is_client c) h.clients ≡ true
    → Returns (drop_client c h)
unfolding drop_client close
drop_client-Returns c h o there =
    let ch = h.channels c.ptr in
    (
      forget c (set_channel c (record ch { closed = true }) h),
      rw (o c there, drop_client) refl,
      drop-IsOpen c (record ch { closed = true }) h o,
    )

offer-Returns :
    (c : Client) (text : String) (otherwise : Hub → Result Hub) (h : Hub)
    → IsOpen h
    → any (is_client c) h.clients ≡ true
    → Returns (otherwise h)
    → Returns (offer c text otherwise h)
unfolding offer
offer-Returns c text otherwise h o there (h', e, o') =
    let ch = h.channels c.ptr in
    elim (Bool-cases (ltb (length ch.queue) capacity)) [
      | inl room ↦ (
        set_channel c (record ch { queue = ch.queue ++ text ∷ [] }) h,
        rw (o c there, room) refl,
        set_channel-IsOpen c (record ch { queue = ch.queue ++ text ∷ [] }) h (o c there) o,
      )
      | inr full ↦ (h', rw (o c there, full) e, o')
    ]

broadcast_from-Returns :
    (cs : List Client) (text : String) (h : Hub) → IsOpen h → Returns (broadcast_from cs text h)
unfolding broadcast_from
broadcast_from-Returns [] text h o = (h, refl, o)
broadcast_from-Returns (c ∷ cs) text h o = elim (Bool-cases (any (is_client c) h.clients)) [
  | inl there ↦
      let (h', e, o') =
        offer-Returns c text (drop_client c) h o there (drop_client-Returns c h o there) in
      let (h'', e', o'') = broadcast_from-Returns cs text h' o' in
      (h'', rw (there, e, broadcast_from) e', o'')
  | inr gone ↦
      let (h', e, o') = broadcast_from-Returns cs text h o in (h', rw (gone, broadcast_from) e, o')
]

remember-IsOpen :
    (c : Client) (h : Hub) → IsOpen h → (h.channels c.ptr).closed ≡ false → IsOpen (remember c h)
unfolding remember
remember-IsOpen c h o fresh a there = elim (Bool-cases (any (is_client c) h.clients)) [
  | inl e ↦ o a (rw e at there)
  | inr e ↦ elim (Bool-cases (a.ptr == c.ptr)) [
    | inl s ↦ rw ((nat_beq_iff a.ptr c.ptr).0 s) fresh
    | inr s ↦
        o a
          (any-append a c h.clients (rw e at there) (λ z. ground (arith, nat_beq_iff a.ptr c.ptr)))
  ]
]

disconnect-Returns : (c : Client) (h : Hub) → IsOpen h → Returns (disconnect c h)
unfolding disconnect close forget set_channel
disconnect-Returns c h o = elim (Bool-cases (any (is_client c) h.clients)) [
  | inl there ↦
      let ch = h.channels c.ptr in
      (
        forget c (set_channel c (record ch { closed = true }) h),
        rw (there, o c there) refl,
        drop-IsOpen c (record ch { closed = true }) h o,
      )
  | inr gone ↦ (h, rw gone refl, o)
]

module _ (presence : ℕ → String → String → String) where
  step-Returns : (e : Event presence) (h : Hub) → IsOpen h → Returns (step presence e h)
  unfolding step register unregister broadcast_to_all forget_device set_channel
  step-Returns (connects c) h o =
      let h' = set_channel c new_channel h in
      let o' =
        remember-IsOpen c h' (set_channel-IsOpen c new_channel h refl o)
          (ground (arith, nat_beq_iff c.ptr c.ptr)) in
      broadcast_from-Returns _ (presence c.user_id c.device_id "online") (remember c h') o'
  step-Returns (leaves c) h o =
      let (h', e, o') = disconnect-Returns c h o in
      let (h'', e', o'') =
        broadcast_from-Returns h'.clients (presence c.user_id c.device_id "offline")
          (forget_device c h') o' in
      (h'', rw (e, unregister) e', o'')
  step-Returns (broadcasts text) h o = broadcast_from-Returns _ text h o
  step-Returns (writes c) h o =
      let ch = h.channels c.ptr in
      (
        set_channel c (record ch { queue = drop 1 ch.queue }) h,
        refl,
        λ a there. elim (Bool-cases (a.ptr == c.ptr)) [
          | inl s ↦
              let q = (nat_beq_iff a.ptr c.ptr).0 s in
              let k : (h.channels c.ptr).closed ≡ false =
                ap (λ n. (h.channels n).closed) (sym q) ∙ o a there in
              rw s k
          | inr s ↦ rw s (o a there)
        ],
      )

  -- From a hub whose registered clients have open channels, as a new hub's, no event makes the loop
  -- panic: whatever connections, departures and broadcasts arrive, it never sends on a closed
  -- channel and never closes a channel twice, and it leaves the registered clients' channels open.
  pub run-Returns : (es : List (Event presence)) (h : Hub) → IsOpen h → Returns (run presence es h)
  unfolding run
  run-Returns [] h o = (h, refl, o)
  run-Returns (e ∷ es) h o =
      let (h', k, o') = step-Returns e h o in
      let (h'', k', o'') = run-Returns es h' o' in (h'', rw (k, run) k', o'')

-- ===== src/Hub/Slow.antt =====
-- A client whose WritePump takes no message while the hub broadcasts (broadcastToAll of
-- internal/ws/hub.go): its buffer fills, and the hub drops it.
use agent_os_backend.Prelude.{
  ℕ, suc, String, true, false, ◌≡◌, ◌⊎◌, ◌≤◌, ◌<◌, ◌+◌, refl, sym, ap, ◌∙◌, subst, List, [], ◌∷◌,
  ◌++◌, arith, ltb, ◌==◌, nat_eq, Bool-cases, inl, inr, nat_beq_iff, In, length, map,
}
use agent_os_backend.Errors.{Result, ok, err}
use agent_os_backend.Table.{any, filter, delete}
use agent_os_backend.Hub.State.{
  Client, Hub, is_client, set_channel, close, forget, offer, drop_client, broadcast_from,
  broadcast_to_all, send_to_user, send_on_closed, capacity, run, step, broadcasts,
}
use agent_os_backend.Hub.Loop.{IsOpen, run-Returns}
use agent_os_backend.Hub.Presence.{send_to_user-panics, broadcast_from-Keeps}

length-append : (xs : List String) (a : String) → length (xs ++ a ∷ []) ≡ suc (length xs)
length-append [] a = refl
length-append (x ∷ xs) a = ap suc (length-append xs a)

any-delete_other :
    (x y : Client) (cs : List Client)
    → any (is_client x) cs ≡ true
    → (y.ptr == x.ptr) ≡ false
    → any (is_client x) (delete (is_client y) cs) ≡ true
unfolding any delete filter
any-delete_other x y [] h n = cc
any-delete_other x y (z ∷ zs) h n = ground (
  arith,
  nat_beq_iff z.ptr x.ptr,
  nat_beq_iff z.ptr y.ptr,
  nat_beq_iff y.ptr x.ptr,
  any-delete_other x y zs,
)

-- A step that succeeded in a row of steps that did.
step-ok :
    (r : Result Hub) (f : Hub → Result Hub) (h' : Hub)
    → elim r [ ok k ↦ f k | err z ↦ err z ] ≡ ok h'
    → (k : Hub) × (r ≡ ok k) × (f k ≡ ok h')
step-ok (ok k) f h' e = (k, refl, e)
step-ok (err z) f h' e = cc

-- What one client's turn in broadcastToAll does where it does not panic.
abbrev kept : Client → String → Hub → Hub
kept y text h =
    set_channel y (record { closed = false; queue = (h.channels y.ptr).queue ++ text ∷ [] }) h

abbrev dropped : Client → Hub → Hub
dropped y h = forget y (set_channel y (record (h.channels y.ptr) { closed = true }) h)

turn :
    (y : Client) (text : String) (h h' : Hub)
    → offer y text (drop_client y) h ≡ ok h'
    → ((h.channels y.ptr).closed ≡ false)
      × (((ltb (length (h.channels y.ptr).queue) capacity ≡ true) × (kept y text h ≡ h'))
          ⊎ (dropped y h ≡ h'))
unfolding offer drop_client close
turn y text h h' e = elim (Bool-cases (h.channels y.ptr).closed) [
  | inl shut ↦
      absurd
        (let k : ◌≡◌ {A = Result Hub} (err send_on_closed) (ok h') = rw (shut, offer) at e in cc)
  | inr opened ↦ elim (Bool-cases (ltb (length (h.channels y.ptr).queue) capacity)) [
    | inl room ↦
        let k : ◌≡◌ {A = Result Hub} (ok (kept y text h)) (ok h') = rw (opened, room, offer) at e in
        (opened, inl (room, ground arith))
    | inr full ↦
        let k : ◌≡◌ {A = Result Hub} (ok (dropped y h)) (ok h') =
          rw (opened, full, offer, drop_client, close) at e in
        (opened, inr (ground arith))
  ]
]

module _ (x : Client) where
  -- The channel of `x` is closed, or `x` is registered and at least `n` messages wait in it.
  abbrev pub Fed : ℕ → Hub → Type 0
  Fed n h =
      ((h.channels x.ptr).closed ≡ true)
      ⊎ ((any (is_client x) h.clients ≡ true)
          × (n ≤ length (h.channels x.ptr).queue)
          × (n ≤ capacity))

  kept-other :
      (n : ℕ) (y : Client) (text : String) (h : Hub)
      → (x.ptr == y.ptr) ≡ false
      → Fed n h
      → Fed n (kept y text h)
  unfolding set_channel
  kept-other n y text h other fed = rw other fed

  dropped-other :
      (n : ℕ) (y : Client) (h : Hub) → (x.ptr == y.ptr) ≡ false → Fed n h → Fed n (dropped y h)
  unfolding set_channel forget
  dropped-other n y h other (inl shut) = rw other (inl shut)
  dropped-other n y h other (inr (there, waiting, few)) = rw other (
      inr (
        any-delete_other x y h.clients there
            (ground (arith, nat_beq_iff x.ptr y.ptr, nat_beq_iff y.ptr x.ptr)),
        waiting,
        few,
      ))

  kept-own :
      (n : ℕ) (y : Client) (text : String) (h : Hub)
      → x.ptr ≡ y.ptr
      → (h.channels y.ptr).closed ≡ false
      → ltb (length (h.channels y.ptr).queue) capacity ≡ true
      → Fed n h
      → Fed (suc n) (kept y text h)
  unfolding set_channel
  kept-own n y text h own opened room (inl shut) =
      let same : (h.channels x.ptr).closed ≡ (h.channels y.ptr).closed =
        ap (λ p. (h.channels p).closed) own in
      cc
  kept-own n y text h own opened room (inr (there, waiting, few)) =
      let same : length (h.channels x.ptr).queue ≡ length (h.channels y.ptr).queue =
        ap (λ p. length (h.channels p).queue) own in
      let more = length-append (h.channels y.ptr).queue text in
      let hit : (x.ptr == y.ptr) ≡ true = (nat_beq_iff x.ptr y.ptr).1 own in
      rw hit (inr (there, ground arith, ground arith))

  dropped-own : (n : ℕ) (y : Client) (h : Hub) → x.ptr ≡ y.ptr → Fed n (dropped y h)
  unfolding set_channel forget
  dropped-own n y h own =
      let hit : (x.ptr == y.ptr) ≡ true = (nat_beq_iff x.ptr y.ptr).1 own in rw hit (inl refl)

  Fed-less : (n : ℕ) (h : Hub) → Fed (suc n) h → Fed n h
  Fed-less n h (inl shut) = inl shut
  Fed-less n h (inr (there, waiting, few)) = inr (there, ground arith, ground arith)

  turn-own :
      (n : ℕ) (y : Client) (text : String) (h h' : Hub)
      → x.ptr ≡ y.ptr
      → offer y text (drop_client y) h ≡ ok h'
      → Fed n h
      → Fed (suc n) h'
  turn-own n y text h h' own e fed =
      let (opened, how) = turn y text h h' e in
      elim how [
        | inl (room, same) ↦ subst (Fed (suc n)) same (kept-own n y text h own opened room fed)
        | inr same ↦ subst (Fed (suc n)) same (dropped-own (suc n) y h own)
      ]

  turn-keeps :
      (n : ℕ) (y : Client) (text : String) (h h' : Hub)
      → offer y text (drop_client y) h ≡ ok h'
      → Fed n h
      → Fed n h'
  turn-keeps n y text h h' e fed = elim (Bool-cases (x.ptr == y.ptr)) [
    | inl own ↦ Fed-less n h' (turn-own n y text h h' ((nat_beq_iff x.ptr y.ptr).0 own) e fed)
    | inr other ↦ elim (turn y text h h' e).1 [
      | inl (room, same) ↦ subst (Fed n) same (kept-other n y text h other fed)
      | inr same ↦ subst (Fed n) same (dropped-other n y h other fed)
    ]
  ]

  -- the clients that are left, of which `x` may be one
  rest-keeps :
      (n : ℕ) (cs : List Client) (text : String) (h h' : Hub)
      → broadcast_from cs text h ≡ ok h'
      → Fed n h
      → Fed n h'
  unfolding broadcast_from
  rest-keeps n [] text h h' e fed = let same : h ≡ h' = ground arith in subst (Fed n) same fed
  rest-keeps n (y ∷ ys) text h h' e fed = elim (Bool-cases (any (is_client y) h.clients)) [
    | inl there ↦
        let (k, q, z) =
          step-ok (offer y text (drop_client y) h) (broadcast_from ys text) h'
            (rw (there, broadcast_from) at e) in
        rest-keeps n ys text k h' z (turn-keeps n y text h k q fed)
    | inr gone ↦ rest-keeps n ys text h h' (rw (gone, broadcast_from) at e) fed
  ]

  broadcast-feeds :
      (n : ℕ) (cs : List Client) (text : String) (h h' : Hub)
      → any (is_client x) cs ≡ true
      → broadcast_from cs text h ≡ ok h'
      → Fed n h
      → Fed (suc n) h'
  unfolding broadcast_from any
  broadcast-feeds n [] text h h' there e fed = cc
  broadcast-feeds n (y ∷ ys) text h h' there e (inl shut) =
      rest-keeps (suc n) (y ∷ ys) text h h' e (inl shut)
  broadcast-feeds n (y ∷ ys) text h h' there e (inr (known, waiting, few)) =
      elim (Bool-cases (y.ptr == x.ptr)) [
        | inl own ↦
            let s = (nat_beq_iff y.ptr x.ptr).0 own in
            let k' : any (is_client y) h.clients ≡ true =
              subst (λ p. any (λ c. c.ptr == p) h.clients ≡ true) (sym s) known in
            let (k, q, z) =
              step-ok (offer y text (drop_client y) h) (broadcast_from ys text) h'
                (rw (k', broadcast_from) at e) in
            rest-keeps (suc n) ys text k h' z
              (turn-own n y text h k (sym s) q (inr (known, waiting, few)))
        | inr other ↦ elim (Bool-cases (any (is_client y) h.clients)) [
          | inl also ↦
              let (k, q, z) =
                step-ok (offer y text (drop_client y) h) (broadcast_from ys text) h'
                  (rw (also, broadcast_from) at e) in
              broadcast-feeds n ys text k h' (ground arith) z
                (turn-keeps n y text h k q (inr (known, waiting, few)))
          | inr gone ↦
              broadcast-feeds n ys text h h' (ground arith) (rw (gone, broadcast_from) at e)
                (inr (known, waiting, few))
        ]
      ]

  -- broadcastToAll on the registered clients, of which `x` is one unless it was dropped
  all-feeds :
      (n : ℕ) (text : String) (h h' : Hub)
      → broadcast_to_all text h ≡ ok h'
      → Fed n h
      → Fed (suc n) h'
  unfolding broadcast_to_all
  all-feeds n text h h' e (inl shut) = rest-keeps (suc n) h.clients text h h' e (inl shut)
  all-feeds n text h h' e (inr (there, waiting, few)) =
      broadcast-feeds n h.clients text h h' there e (inr (there, waiting, few))

  module _ (presence : ℕ → String → String → String) where
    run-feeds :
        (texts : List String) (n : ℕ) (h h' : Hub)
        → run presence (map broadcasts texts) h ≡ ok h'
        → Fed n h
        → Fed (n + length texts) h' × (h'.user_devices ≡ h.user_devices)
    unfolding run step broadcast_to_all
    run-feeds [] n h h' e fed =
        let same : h ≡ h' = ground arith in
        (
          subst (Fed (n + 0)) same (subst (λ m. Fed m h) (ground arith) fed),
          ap (λ k. k.user_devices) (sym same),
        )
    run-feeds (text ∷ texts) n h h' e fed =
        let (k, q, z) =
          step-ok (broadcast_to_all text h) (run presence (map broadcasts texts)) h' e in
        let (fed', same) = run-feeds texts (suc n) k h' z (all-feeds n text h k q fed) in
        (
          subst (λ m. Fed m h') (ground arith) fed',
          same ∙ broadcast_from-Keeps h.clients text h k q,
        )

    Fed-closed : (n : ℕ) (h : Hub) → capacity < n → Fed n h → (h.channels x.ptr).closed ≡ true
    Fed-closed n h many (inl shut) = shut
    Fed-closed n h many (inr (there, waiting, few)) = absurd (ground arith)

    -- A client that the hub has registered and keeps as its user's device, and whose WritePump takes
    -- nothing while the hub broadcasts more than 256 messages: Run returns from all the broadcasts, which
    -- close the client's channel and leave the client among the user's devices, and SendToUser for that
    -- user panics then, whatever the message. Registered clients have open channels before.
    pub slow_client-panics :
        (texts : List String) (text : String) (h : Hub)
        → IsOpen h
        → any (is_client x) h.clients ≡ true
        → In x h.user_devices
        → capacity < length texts
        → (h' : Hub) × (run presence (map broadcasts texts) h ≡ ok h')
          × ((h'.channels x.ptr).closed ≡ true)
          × In x h'.user_devices
          × (send_to_user x.user_id text h' ≡ err send_on_closed)
    slow_client-panics texts text h o there device many =
        let (h', e, _) = run-Returns presence (map broadcasts texts) h o in
        let (fed, same) = run-feeds texts 0 h h' e (inr (there, ground arith, ground arith)) in
        let shut = Fed-closed (0 + length texts) h' (ground arith) fed in
        let still = subst (In x) (sym same) device in
        (h', e, shut, still, send_to_user-panics text x h' still shut)

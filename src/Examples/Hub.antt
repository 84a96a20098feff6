-- ===== src/Examples/Hub.antt =====
-- The theorems on the hub at concrete inputs.
use agent_os_backend.Prelude.{
  ℕ, zero, suc, ap, String, false, true, not, List, [], ◌∷◌, ◌≡◌, refl, inl, ◌&&◌, ◌||◌, length,
  map, In, arith,
}
use agent_os_backend.Errors.{ok, err}
use agent_os_backend.Hub.State.{
  Client, Hub, Event, connects, leaves, broadcasts, writes, run, register, unregister, new_hub,
  new_channel, send_to_user, send_on_closed, is_device_online, forget_device, remember,
  broadcast_to_all, set_channel, offer,
}
use agent_os_backend.Table.{any, delete, filter}
use agent_os_backend.Hub.Loop.{Returns, run-Returns}
use agent_os_backend.Hub.Presence.{register-presence, unregister-presence}
use agent_os_backend.Hub.Slow.{slow_client-panics}

abbrev told : ℕ → String → String → String
told user_id device_id status = status

-- the first connection of a phone, and the one after it has reconnected
abbrev first : Client
first = record { ptr = 1; user_id = 5; device_id = "phone" }

abbrev second : Client
second = record { ptr = 2; user_id = 5; device_id = "phone" }

abbrev arrivals : List (Event told)
arrivals = connects first ∷ connects second ∷ broadcasts "news" ∷ writes second ∷ leaves first ∷ []

run-Returns_example : Returns (run told arrivals new_hub)
run-Returns_example = run-Returns told arrivals new_hub (λ c h. refl)

abbrev both : Hub
both = record {
  clients = first ∷ second ∷ [];
  user_devices = second ∷ [];
  channels = λ _. new_channel;
}

abbrev after_register : Hub
after_register = elim (register told first new_hub) [ ok h ↦ h | err e ↦ new_hub ]

abbrev after_unregister : Hub
after_unregister = elim (unregister told first both) [ ok h ↦ h | err e ↦ new_hub ]

register-presence_example : is_device_online 5 "phone" after_register ≡ (true || false)
unfolding register remember broadcast_to_all any
register-presence_example = register-presence told first new_hub after_register 5 "phone" refl

unregister-presence_example : is_device_online 5 "phone" after_unregister ≡ (not true && true)
unfolding unregister forget_device broadcast_to_all any delete
unregister-presence_example = unregister-presence told first both after_unregister 5 "phone" refl

abbrev news : ℕ → List String
news zero = []
news (suc n) = "news" ∷ news n

length-news : (n : ℕ) → length (news n) ≡ n
length-news zero = refl
length-news (suc n) = ap suc (length-news n)

slow_client-panics_example :
    (h : Hub) × (run told (map broadcasts (news 257)) after_register ≡ ok h)
    × ((h.channels 1).closed ≡ true)
    × In first h.user_devices
    × (send_to_user 5 "hello" h ≡ err send_on_closed)
unfolding register remember broadcast_to_all any set_channel offer delete filter
slow_client-panics_example =
    slow_client-panics first told (news 257) "hello" after_register (λ c h. ground arith) refl
      (inl refl) (omega (arith, length-news 257))

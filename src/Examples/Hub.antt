-- ===== src/Examples/Hub.antt =====
-- The theorems on the websocket hub, at two clients of which one leaves.
use project_constellation.Prelude.{ℕ, zero, suc, ◌≡◌, refl, List, [], ◌∷◌, ◌++◌, some, none}
use project_constellation.Api.Hub.{
  WebSocketHub, next, new_hub, Action, opens, greets, leaves, drains, emits, delivers, act, run_hub,
  connect, new_client, at_client, with_found, changed, set_client, greet, leave, take_first, drain,
  offer, both, offer_all, served, deliver_first, deliver, broadcast_event, taken_or,
}
use project_constellation.Api.Hub.Streams.{
  IsSound, IsLate, run_hub-IsSound, run_hub-delivers, act-panics,
}

abbrev chatter : List Action
chatter =
    opens 1
    ∷ emits (some "a")
    ∷ greets 1
    ∷ delivers
    ∷ opens 2
    ∷ greets 2
    ∷ emits (some "b")
    ∷ leaves 1
    ∷ drains 2
    ∷ emits none
    ∷ emits (some "c")
    ∷ delivers
    ∷ []

run_hub-IsSound_example : IsSound (run_hub chatter new_hub)
run_hub-IsSound_example = run_hub-IsSound chatter

run_hub-delivers_example :
    (h : WebSocketHub) × (act delivers (run_hub chatter new_hub) ≡ next h)
    × (h.broadcast ≡ [])
    × (h.delivered ≡ (run_hub chatter new_hub).delivered ++ "c" ∷ [])
unfolding run_hub act connect new_client at_client with_found changed set_client greet leave
    take_first drain offer both offer_all served deliver_first deliver broadcast_event taken_or
run_hub-delivers_example = run_hub-delivers chatter "c" [] refl

-- A client that is given up before its greeting: the channel fills up first.
abbrev rounds : ℕ → List Action
rounds zero = []
rounds (suc n) = emits (some "x") ∷ delivers ∷ rounds n

abbrev flood : List Action
flood = opens 1 ∷ rounds 257

act-panics_example : IsLate (greets 1) (run_hub flood new_hub)
unfolding run_hub act connect new_client at_client with_found changed set_client greet leave
    take_first drain offer both offer_all served deliver_first deliver broadcast_event taken_or
act-panics_example = act-panics flood (greets 1) refl

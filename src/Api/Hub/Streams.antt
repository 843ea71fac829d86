-- ===== src/Api/Hub/Streams.antt =====
-- What the websocket hub promises, whatever the order of the steps of its goroutines.
use project_constellation.Prelude.{
  ℕ, ◌≤◌, ◌≡◌, refl, sym, ap, subst, ◌∙◌, Bool, true, String, List, [], ◌∷◌, ◌++◌, Option, none,
  some, some_inj, length, any, find?, All, length-append, ltb, eqb, arith, Bool-cases, ltb→lt, ◌⊎◌,
  inl, inr,
}
use project_constellation.Prelude.Rows.{All-update_where}
use project_constellation.Api.Hub.{
  WsClient, WebSocketHub, capacity, new_hub, Outcome, next, waits, panics, new_client, set_client,
  at_client, greet, leave, drain, changed, with_found, served, deliver_first, both, offer_all,
  deliver, broadcast_event, connect, Action, opens, greets, leaves, drains, emits, delivers, act,
  taken_or, run_hub,
}
use project_constellation.Api.Hub.Clients.{
  IsServed, Fine, greet-Fine, leave-Fine, drain-Fine, offer-IsServed, of_if, since_then, seen,
  events, drop-length,
}

-- Every client is served, and the broadcast channel is within its capacity.
pub record IsSound (h : WebSocketHub) : Type 0 where
  pub clients_served : All (IsServed h.delivered) h.clients
  pub posts_small : length h.broadcast ≤ capacity

-- The step panics for a client that the hub has given up before its greeting.
pub record IsLate (a : Action) (h : WebSocketHub) : Type 0 where
  pub who : ℕ
  pub client : WsClient
  pub greeting : a ≡ greets who
  pub known : find? (λ d. eqb d.id who) h.clients ≡ some client
  pub given_up : client.send_closed ≡ true

find?-All :
    {A : Type 0} (P : A → Type 0) (p : A → Bool) (xs : List A) (x : A)
    → find? p xs ≡ some x
    → All P xs
    → P x
find?-All P p [] x e h = absurd (cc e)
find?-All P p (y ∷ ys) x e h = elim (Bool-cases (p y)) [
  | inl b ↦ subst P (some_inj (rw b at e)) h.0
  | inr b ↦ find?-All P p ys x (rw b at e) h.1
]

set_client-IsSound :
    (i : ℕ) (c : WsClient) (h : WebSocketHub)
    → IsServed h.delivered c
    → IsSound h
    → IsSound (set_client i c h)
unfolding set_client
set_client-IsSound i c h s ok = record {
  clients_served =
      All-update_where (IsServed h.delivered) (λ d. eqb d.id i) (λ d. c) h.clients (λ d k. s)
        ok.clients_served;
  posts_small = ok.posts_small;
}

at_client-Fine :
    (i : ℕ) (f : WsClient → Outcome WsClient) (h : WebSocketHub)
    → ((c : WsClient) → IsServed h.delivered c → Fine (IsServed h.delivered) (f c))
    → IsSound h
    → Fine IsSound (at_client i f h)
unfolding at_client
at_client-Fine i f h keep ok = found (find? (λ d. eqb d.id i) h.clients) refl
  where
    result : (o : Outcome WsClient) → Fine (IsServed h.delivered) o → Fine IsSound (changed i h o)
    result (next c) s = unfold changed in set_client-IsSound i c h s ok
    result waits s = unfold changed in tt
    result panics s = absurd s

    found :
        (o : Option WsClient)
        → find? (λ d. eqb d.id i) h.clients ≡ o
        → Fine IsSound (with_found i f h o)
    found none e = unfold with_found in tt
    found (some c) e =
        unfold with_found in
        result (f c) (keep c (find?-All (IsServed h.delivered) _ h.clients c e ok.clients_served))

greets-Fine :
    (i : ℕ) (h : WebSocketHub)
    → IsSound h
    → ((at_client i greet h ≡ panics) × IsLate (greets i) h) ⊎ Fine IsSound (at_client i greet h)
unfolding at_client
greets-Fine i h ok = found (find? (λ d. eqb d.id i) h.clients) refl
  where
    result :
        (c : WsClient) (o : Outcome WsClient)
        → find? (λ d. eqb d.id i) h.clients ≡ some c
        → ((o ≡ panics) × (c.send_closed ≡ true)) ⊎ Fine (IsServed h.delivered) o
        → ((changed i h o ≡ panics) × IsLate (greets i) h) ⊎ Fine IsSound (changed i h o)
    result c o e (inl (p, k)) = inl (
      ap (changed i h) p ∙ unfold changed in refl,
      record { who = i; client = c; greeting = refl; known = e; given_up = k },
    )
    result c (next c') e (inr s) = inr (unfold changed in set_client-IsSound i c' h s ok)
    result c waits e (inr s) = inr (unfold changed in tt)
    result c panics e (inr s) = absurd s

    found :
        (o : Option WsClient)
        → find? (λ d. eqb d.id i) h.clients ≡ o
        → ((with_found i greet h o ≡ panics) × IsLate (greets i) h)
          ⊎ Fine IsSound (with_found i greet h o)
    found none e = inr (unfold with_found in tt)
    found (some c) e =
        unfold with_found in
        result c (greet c) e (
          greet-Fine h.delivered c
            (find?-All (IsServed h.delivered) _ h.clients c e ok.clients_served))

offer_all-IsServed :
    (d : List String) (m : String) (cs : List WsClient)
    → All (IsServed d) cs
    → (cs' : List WsClient) × (offer_all m cs ≡ next cs') × All (IsServed (d ++ m ∷ [])) cs'
unfolding offer_all both
offer_all-IsServed d m [] h = ([], refl, tt)
offer_all-IsServed d m (c ∷ cs) h =
    let (c', e, s) = offer-IsServed d m c h.0 in
    let (cs', es, ss) = offer_all-IsServed d m cs h.1 in (c' ∷ cs', rw (e, es) refl, (s, ss))

deliver-next :
    (h : WebSocketHub) (m : String) (ms : List String)
    → h.broadcast ≡ m ∷ ms
    → IsSound h
    → (cs : List WsClient) × (deliver h
        ≡ next (record { clients = cs; broadcast = ms; delivered = h.delivered ++ m ∷ [] }))
      × All (IsServed (h.delivered ++ m ∷ [])) cs
unfolding deliver deliver_first served
deliver-next h m ms e ok =
    let (cs, es, ss) = offer_all-IsServed h.delivered m h.clients ok.clients_served in
    (cs, rw (e, es) refl, ss)

deliver-Fine : (h : WebSocketHub) → IsSound h → Fine IsSound (deliver h)
deliver-Fine h ok = on h.broadcast refl
  where
    on : (ms : List String) → h.broadcast ≡ ms → Fine IsSound (deliver h)
    on [] e = unfold deliver in unfold deliver_first in rw e tt
    on (m ∷ ms) e =
        let (cs, es, ss) = deliver-next h m ms e ok in
        rw es
          (record { clients_served = ss; posts_small = omega (arith, ok.posts_small, ap length e) })

emit-Fine : (m : Option String) (h : WebSocketHub) → IsSound h → Fine IsSound (broadcast_event m h)
unfolding broadcast_event
emit-Fine none h ok = ok
emit-Fine (some m) h ok =
    of_if (Fine IsSound) (ltb (length h.broadcast) capacity)
      (λ r. record {
        clients_served = ok.clients_served;
        posts_small = omega (arith, ltb→lt _ _ r, length-append h.broadcast (m ∷ []));
      })
      (λ r. tt)

new_client-IsServed : (i : ℕ) (h : WebSocketHub) → IsServed h.delivered (new_client i h)
unfolding new_client seen since_then events
new_client-IsServed i h = record {
  alive = λ r. refl;
  small = omega arith;
  begun = omega arith;
  missed = [];
  stream = sym (drop-length h.delivered);
  current = λ r. refl;
}

connect-Fine : (i : ℕ) (h : WebSocketHub) → IsSound h → Fine IsSound (connect i h)
unfolding connect
connect-Fine i h ok =
    of_if (Fine IsSound) (any (λ d. eqb d.id i) h.clients) (λ r. tt)
      (λ r. record {
        clients_served = (new_client-IsServed i h, ok.clients_served);
        posts_small = ok.posts_small;
      })

act-Fine :
    (a : Action) (h : WebSocketHub)
    → IsSound h
    → ((act a h ≡ panics) × IsLate a h) ⊎ Fine IsSound (act a h)
unfolding act
act-Fine (opens i) h ok = inr (connect-Fine i h ok)
act-Fine (greets i) h ok = greets-Fine i h ok
act-Fine (leaves i) h ok = inr (at_client-Fine i leave h (leave-Fine h.delivered) ok)
act-Fine (drains i) h ok = inr (at_client-Fine i drain h (drain-Fine h.delivered) ok)
act-Fine (emits m) h ok = inr (emit-Fine m h ok)
act-Fine delivers h ok = inr (deliver-Fine h ok)

taken_or-IsSound :
    (h : WebSocketHub) (o : Outcome WebSocketHub)
    → IsSound h
    → Fine IsSound o
    → IsSound (taken_or h o)
unfolding taken_or
taken_or-IsSound h (next h') ok s = s
taken_or-IsSound h waits ok s = ok
taken_or-IsSound h panics ok s = ok

step-IsSound : (a : Action) (h : WebSocketHub) → IsSound h → IsSound (taken_or h (act a h))
step-IsSound a h ok = elim (act-Fine a h ok) [
  | inl p ↦ rw p.0 (unfold taken_or in ok)
  | inr f ↦ taken_or-IsSound h (act a h) ok f
]

run_hub_from : (steps : List Action) (h : WebSocketHub) → IsSound h → IsSound (run_hub steps h)
unfolding run_hub
run_hub_from [] h ok = ok
run_hub_from (a ∷ rest) h ok = run_hub_from rest _ (step-IsSound a h ok)

-- After any steps of the hub and of its connections, what a client has taken or has in its channel
-- are the events delivered since its registration, in order and without a gap, up to some last ones,
-- and all of them while it is registered; then its channel is open; and no channel holds more than
-- 256 messages.
pub run_hub-IsSound : (steps : List Action) → IsSound (run_hub steps new_hub)
run_hub-IsSound steps =
    run_hub_from steps new_hub (record { clients_served = tt; posts_small = omega arith })

-- No step of a reachable hub panics, so no channel is closed twice and Run never sends on a closed
-- one, but for the greeting of a client that Run has given up.
pub act-panics :
    (steps : List Action) (a : Action)
    → act a (run_hub steps new_hub) ≡ panics
    → IsLate a (run_hub steps new_hub)
act-panics steps a e = elim (act-Fine a _ (run_hub-IsSound steps)) [
  | inl p ↦ p.1
  | inr f ↦ absurd (rw e at f)
]

-- Whatever its clients do, a reachable hub that has an event can deliver it at once.
pub run_hub-delivers :
    (steps : List Action) (m : String) (ms : List String)
    → (run_hub steps new_hub).broadcast ≡ m ∷ ms
    → (h : WebSocketHub) × (act delivers (run_hub steps new_hub) ≡ next h)
      × (h.broadcast ≡ ms)
      × (h.delivered ≡ (run_hub steps new_hub).delivered ++ m ∷ [])
unfolding act
run_hub-delivers steps m ms e =
    let (cs, es, ss) = deliver-next _ m ms e (run_hub-IsSound steps) in (_, es, refl, refl)

-- ===== src/Api/Hub/Clients.antt =====
-- The steps of one client of the websocket hub.
use project_constellation.Prelude.{
  ℕ, zero, suc, ◌≤◌, ◌<◌, ◌≡◌, refl, sym, ap, ◌∙◌, Bool, true, false, not, String, List, [], ◌∷◌,
  ◌++◌, length, drop, length-append, if◌then◌else◌, ltb, arith, Bool-cases, ltb→lt, ◌⊎◌, inl, inr,
}
use mathlib.Core.List.{append-nil, append_assoc}
use project_constellation.Api.Hub.{
  Frame, connected, event, WsClient, capacity, Outcome, next, waits, panics, greet, leave,
  take_first, drain, offer,
}

-- The events among the messages of a client.
unfoldable pub events : List Frame → List String
events [] = []
events (connected ∷ ms) = events ms
events (event s ∷ ms) = s ∷ events ms

-- The events that came while the client was there, and those that it has or had in its channel.
unfoldable pub since_then : List String → WsClient → List String
since_then delivered c = drop c.since delivered

unfoldable pub seen : WsClient → List String
unfolding events
seen c = events (c.taken ++ c.send)

-- A client has seen the events in order from its registration on, without a gap, and all of them as
-- long as it is registered.
pub record IsServed (delivered : List String) (c : WsClient) : Type 0 where
  pub alive : c.registered ≡ true → c.send_closed ≡ false
  pub small : length c.send ≤ capacity
  pub begun : c.since ≤ length delivered
  pub missed : List String
  pub stream : seen c ++ missed ≡ since_then delivered c
  pub current : c.registered ≡ true → missed ≡ []

events-append : (xs ys : List Frame) → events (xs ++ ys) ≡ events xs ++ events ys
unfolding events
events-append [] ys = refl
events-append (connected ∷ xs) ys = events-append xs ys
events-append (event s ∷ xs) ys = ap (λ r. s ∷ r) (events-append xs ys)

pub drop-append :
    {A : Type 0} (n : ℕ) (xs ys : List A) → n ≤ length xs → drop n (xs ++ ys) ≡ drop n xs ++ ys
drop-append zero xs ys h = refl
drop-append (suc n) [] ys h = absurd (omega (arith, h))
drop-append (suc n) (x ∷ xs) ys h = drop-append n xs ys (omega (arith, h))

pub drop-length : {A : Type 0} (xs : List A) → drop (length xs) xs ≡ []
drop-length [] = refl
drop-length (x ∷ xs) = drop-length xs

-- The result of a step that does not panic has a property.
abbrev pub Fine : {A : Type 0} → (A → Type 0) → Outcome A → Type 0
Fine P (next a) = P a
Fine P waits = Unit
Fine P panics = ⊥

-- A conditional has a property that both its branches have.
pub of_if :
    {A : Type 0} (Q : A → Type 0) (b : Bool) {x y : A}
    → (b ≡ true → Q x)
    → (b ≡ false → Q y)
    → Q (if b then x else y)
of_if Q true t f = t refl
of_if Q false t f = f refl

seen-put :
    (c : WsClient) (m : Frame)
    → events (c.taken ++ (c.send ++ m ∷ [])) ≡ events (c.taken ++ c.send) ++ events (m ∷ [])
seen-put c m =
    ap events (sym (append_assoc c.taken c.send (m ∷ [])))
    ∙ events-append (c.taken ++ c.send) (m ∷ [])

greeted-IsServed :
    (d : List String) (c : WsClient)
    → length c.send < capacity
    → IsServed d c
    → IsServed d (record c { send = c.send ++ connected ∷ []; greeted = true })
unfolding seen since_then
greeted-IsServed d c room h = record {
  alive = h.alive;
  small = omega (arith, room, length-append c.send (connected ∷ []));
  begun = h.begun;
  missed = h.missed;
  stream = rw (seen-put c connected) (unfold events in rw append-nil h.stream);
  current = h.current;
}

drained-IsServed :
    (d : List String) (c : WsClient) (m : Frame) (ms : List Frame)
    → c.send ≡ m ∷ ms
    → IsServed d c
    → IsServed d (record c { send = ms; taken = c.taken ++ m ∷ [] })
unfolding seen since_then
drained-IsServed d c m ms e h = record {
  alive = h.alive;
  small = omega (arith, h.small, ap length e);
  begun = h.begun;
  missed = h.missed;
  stream = rw (append_assoc c.taken (m ∷ []) ms) (rw (← e) h.stream);
  current = h.current;
}

dropped-IsServed :
    (d : List String) (c : WsClient)
    → IsServed d c
    → IsServed d (record c { registered = false; send_closed = true })
unfolding seen since_then
dropped-IsServed d c h = record {
  alive = λ r. absurd (cc r);
  small = h.small;
  begun = h.begun;
  missed = h.missed;
  stream = h.stream;
  current = λ r. absurd (cc r);
}

pub greet-Fine :
    (d : List String) (c : WsClient)
    → IsServed d c
    → ((greet c ≡ panics) × (c.send_closed ≡ true)) ⊎ Fine (IsServed d) (greet c)
unfolding greet
greet-Fine d c h =
    let Q : Outcome WsClient → Type 0 =
      λ o. ((o ≡ panics) × (c.send_closed ≡ true)) ⊎ Fine (IsServed d) o in
    of_if Q c.greeted (λ g. inr tt)
      (λ g.
        of_if Q c.send_closed (λ k. inl (refl, k))
          (λ k.
            of_if Q (ltb (length c.send) capacity)
              (λ r. inr (greeted-IsServed d c (ltb→lt _ _ r) h)) (λ r. inr tt)))

pub leave-Fine : (d : List String) (c : WsClient) → IsServed d c → Fine (IsServed d) (leave c)
unfolding leave
leave-Fine d c h =
    of_if (Fine (IsServed d)) (not c.greeted) (λ g. tt)
      (λ g. elim (Bool-cases c.registered) [
        | inr r ↦ of_if (Fine (IsServed d)) (not c.registered) (λ n. h) (λ n. absurd (cc (r, n)))
        | inl r ↦
            of_if (Fine (IsServed d)) (not c.registered) (λ n. h)
              (λ n.
                of_if (Fine (IsServed d)) c.send_closed (λ k. absurd (cc (k, h.alive r)))
                  (λ k. dropped-IsServed d c h))
      ])

pub drain-Fine : (d : List String) (c : WsClient) → IsServed d c → Fine (IsServed d) (drain c)
unfolding drain
drain-Fine d c h = of_if (Fine (IsServed d)) c.greeted (λ g. taken c.send refl) (λ g. tt)
  where
    taken : (ms : List Frame) → c.send ≡ ms → Fine (IsServed d) (take_first c ms)
    taken [] e = unfold take_first in of_if (Fine (IsServed d)) c.send_closed (λ k. h) (λ k. tt)
    taken (m ∷ ms) e = unfold take_first in drained-IsServed d c m ms e h

later :
    (d : List String) (c : WsClient) (m : String)
    → c.since ≤ length d
    → since_then (d ++ m ∷ []) c ≡ since_then d c ++ m ∷ []
unfolding since_then
later d c m b = drop-append c.since d (m ∷ []) b

-- A client that misses an event has missed it from then on.
missed-IsServed :
    (d : List String) (m : String) (c : WsClient)
    → c.registered ≡ false
    → IsServed d c
    → IsServed (d ++ m ∷ []) c
missed-IsServed d m c gone h = record {
  alive = h.alive;
  small = h.small;
  begun = omega (arith, h.begun, length-append d (m ∷ []));
  missed = h.missed ++ m ∷ [];
  stream = rw (later d c m h.begun, ← h.stream) (sym (append_assoc (seen c) h.missed (m ∷ [])));
  current = λ r. absurd (cc (r, gone));
}

offered-IsServed :
    (d : List String) (m : String) (c : WsClient)
    → c.registered ≡ true
    → length c.send < capacity
    → IsServed d c
    → IsServed (d ++ m ∷ []) (record c { send = c.send ++ event m ∷ [] })
unfolding seen since_then
offered-IsServed d m c here room h = record {
  alive = h.alive;
  small = omega (arith, room, length-append c.send (event m ∷ []));
  begun = omega (arith, h.begun, length-append d (m ∷ []));
  missed = [];
  stream =
      rw (append-nil, seen-put c (event m), whole, later d c m h.begun) (unfold events in refl);
  current = λ r. refl;
}
  where
    whole : events (c.taken ++ c.send) ≡ since_then d c
    whole =
        sym (append-nil _) ∙ ap (events (c.taken ++ c.send) ++◌) (sym (h.current here)) ∙ h.stream

pub offer-IsServed :
    (d : List String) (m : String) (c : WsClient)
    → IsServed d c
    → (c' : WsClient) × (offer m c ≡ next c') × IsServed (d ++ m ∷ []) c'
unfolding offer
offer-IsServed d m c h =
    let Q : Outcome WsClient → Type 0 =
      λ o. (c' : WsClient) × (o ≡ next c') × IsServed (d ++ m ∷ []) c' in
    elim (Bool-cases c.registered) [
      | inr r ↦
          of_if Q (not c.registered) (λ n. (c, refl, missed-IsServed d m c r h))
            (λ n. absurd (cc (r, n)))
      | inl r ↦
          of_if Q (not c.registered) (λ n. absurd (cc (r, n)))
            (λ n.
              of_if Q c.send_closed (λ k. absurd (cc (k, h.alive r)))
                (λ k.
                  of_if Q (ltb (length c.send) capacity)
                    (λ f. (_, refl, offered-IsServed d m c r (ltb→lt _ _ f) h))
                    (λ f. (_, refl, missed-IsServed d m _ refl (dropped-IsServed d c h)))))
    ]

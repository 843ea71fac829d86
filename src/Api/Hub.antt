-- ===== src/Api/Hub.antt =====
-- The websocket hub of controller/api/websocket.go: the goroutine of Run, the calls of BroadcastEvent
-- and the connections' goroutines, each as steps on the channels that they share. A step waits where
-- its channel operation would wait. JSON and the connections themselves are their libraries'.
pub mod Clients
pub mod Streams
use project_constellation.Prelude.{
  ℕ, ◌+◌, Bool, true, false, not, String, List, [], ◌∷◌, ◌++◌, Option, none, some, length, any,
  find?, update_where, if◌then◌else◌, ltb, leb, eqb,
}

-- A marshalled event, or the greeting of a new connection.
pub data Frame : Type 0 where
  connected : Frame
  event : String → Frame

-- A client with its channel `send`: what is in it, and whether it is closed. `registered` says that
-- the hub's map has the client, and `greeted` that the goroutines of the connection are started.
-- `taken` is what its writePump has taken, and `since` how many events the hub had delivered when
-- it came.
pub record WsClient : Type 0 where
  pub id : ℕ
  pub registered : Bool
  pub greeted : Bool
  pub send_closed : Bool
  pub send : List Frame
  pub taken : List Frame
  pub since : ℕ

-- The clients, the channel `broadcast`, and the events taken from it so far.
pub record WebSocketHub : Type 0 where
  pub clients : List WsClient
  pub broadcast : List String
  pub delivered : List String

-- Both channels have this capacity.
abbrev pub capacity : ℕ
capacity = 256

abbrev pub new_hub : WebSocketHub
new_hub = record { clients = []; broadcast = []; delivered = [] }

pub data Outcome {ℓ} (A : Type ℓ) : Type ℓ where
  next : A → Outcome A
  waits panics : Outcome A

-- The client of HandleWebSocket, registered.
unfoldable pub new_client : ℕ → WebSocketHub → WsClient
new_client i h = record {
  id = i;
  registered = true;
  greeted = false;
  send_closed = false;
  send = [];
  taken = [];
  since = length h.delivered;
}

unfoldable pub set_client : ℕ → WsClient → WebSocketHub → WebSocketHub
set_client i c h = record h { clients = update_where (λ d. eqb d.id i) (λ d. c) h.clients }

unfoldable pub changed : ℕ → WebSocketHub → Outcome WsClient → Outcome WebSocketHub
changed i h (next c) = next (set_client i c h)
changed i h waits = waits
changed i h panics = panics

unfoldable pub with_found :
    ℕ → (WsClient → Outcome WsClient) → WebSocketHub → Option WsClient → Outcome WebSocketHub
with_found i f h none = waits
with_found i f h (some c) = changed i h (f c)

-- A step of one client. There is none for a client that is not there.
unfoldable pub at_client : ℕ → (WsClient → Outcome WsClient) → WebSocketHub → Outcome WebSocketHub
at_client i f h = with_found i f h (find? (λ d. eqb d.id i) h.clients)

-- HandleWebSocket sends the greeting, and starts the two goroutines.
unfoldable pub greet : WsClient → Outcome WsClient
greet c =
    if c.greeted
    then waits
    else if c.send_closed
    then panics
    else if ltb (length c.send) capacity
    then next (record c { send = c.send ++ connected ∷ []; greeted = true })
    else waits

-- readPump ends and unregisters the client.
unfoldable pub leave : WsClient → Outcome WsClient
leave c =
    if not c.greeted
    then waits
    else if not c.registered
    then next c
    else if c.send_closed
    then panics
    else next (record c { registered = false; send_closed = true })

-- writePump takes a message. It ends once the channel is closed and empty.
unfoldable pub take_first : WsClient → List Frame → Outcome WsClient
take_first c [] = if c.send_closed then next c else waits
take_first c (m ∷ ms) = next (record c { send = ms; taken = c.taken ++ m ∷ [] })

unfoldable pub drain : WsClient → Outcome WsClient
drain c = if c.greeted then take_first c c.send else waits

-- Run offers an event to a client, and gives up the client whose channel is full.
unfoldable pub offer : String → WsClient → Outcome WsClient
offer m c =
    if not c.registered
    then next c
    else if c.send_closed
    then panics
    else if ltb (length c.send) capacity
    then next (record c { send = c.send ++ event m ∷ [] })
    else next (record c { registered = false; send_closed = true })

unfoldable pub both : Outcome WsClient → Outcome (List WsClient) → Outcome (List WsClient)
both (next c) (next cs) = next (c ∷ cs)
both (next c) waits = waits
both (next c) panics = panics
both waits r = waits
both panics r = panics

unfoldable pub offer_all : String → List WsClient → Outcome (List WsClient)
offer_all m [] = next []
offer_all m (c ∷ cs) = both (offer m c) (offer_all m cs)

-- Run takes an event and offers it to each client.
unfoldable pub served :
    WebSocketHub → String → List String → Outcome (List WsClient) → Outcome WebSocketHub
served h m ms (next cs) =
    next (record { clients = cs; broadcast = ms; delivered = h.delivered ++ m ∷ [] })
served h m ms waits = waits
served h m ms panics = panics

unfoldable pub deliver_first : WebSocketHub → List String → Outcome WebSocketHub
deliver_first h [] = waits
deliver_first h (m ∷ ms) = served h m ms (offer_all m h.clients)

unfoldable pub deliver : WebSocketHub → Outcome WebSocketHub
deliver h = deliver_first h h.broadcast

-- BroadcastEvent, for what marshalling gives.
unfoldable pub broadcast_event : Option String → WebSocketHub → Outcome WebSocketHub
broadcast_event none h = next h
broadcast_event (some m) h =
    if ltb (length h.broadcast) capacity
    then next (record h { broadcast = h.broadcast ++ m ∷ [] })
    else waits

-- Run registers the client of a new connection.
unfoldable pub connect : ℕ → WebSocketHub → Outcome WebSocketHub
connect i h =
    if any (λ d. eqb d.id i) h.clients
    then waits
    else next (record h { clients = new_client i h ∷ h.clients })

pub data Action : Type 0 where
  opens greets leaves drains : ℕ → Action
  emits : Option String → Action
  delivers : Action

unfoldable pub act : Action → WebSocketHub → Outcome WebSocketHub
act (opens i) h = connect i h
act (greets i) h = at_client i greet h
act (leaves i) h = at_client i leave h
act (drains i) h = at_client i drain h
act (emits m) h = broadcast_event m h
act delivers h = deliver h

-- A step that waits is not taken. A panic in a handler ends the handler alone.
unfoldable pub taken_or : WebSocketHub → Outcome WebSocketHub → WebSocketHub
taken_or h (next h') = h'
taken_or h waits = h
taken_or h panics = h

unfoldable pub run_hub : List Action → WebSocketHub → WebSocketHub
run_hub [] h = h
run_hub (a ∷ rest) h = run_hub rest (taken_or h (act a h))

-- ClientCount.
unfoldable pub client_count : List WsClient → ℕ
client_count [] = 0
client_count (c ∷ cs) = let n = client_count cs in if c.registered then 1 + n else n

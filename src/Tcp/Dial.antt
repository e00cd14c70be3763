-- ===== src/Tcp/Dial.antt =====
-- `TcpClient::Connect` with a timeout: on each tick of a timer a new client is made and connected,
-- unless one is there, until one is connected or the time is over. Clients before the newest one are
-- gone. `none` is a null pointer that is followed, or a client that is used after it was deleted.
-- The callback `on_try` makes no call of the client.
pub mod Invariant
pub mod Steps
pub mod Ticks
pub mod Attempts
pub mod Answers
use nexer.Prelude.{
  ℕ, zero, suc, ◌+◌, ◌-◌, ◌*◌, ◌/◌, ◌%◌, ◌≤◌, ◌<◌, ◌≡◌, refl, sym, ap, ◌∙◌, ◌≢◌, ◌↔◌, ◌⊎◌, inl, inr,
  Bool, true, false, not, ◌&&◌, ◌||◌, Option, none, some, List, [], ◌∷◌, ◌++◌, map, append_assoc,
  append-nil, arith, Bytes, codes, length, length-append, take, drop, replicate, is_nil, All, ltb,
  leb, ◌==◌, if◌then◌else◌, lt→ltb, ltb→lt, ltb→le, leb→lt, leb→le, lt→leb, le→leb, ==_iff, ==-refl,
  Bool-cases, Option-cases, if_both, if_false, and_true, is_nil→eq,
}
use nexer.Prelude.Int.{ℤ, pos, negsuc}
use nexer.Tcp.{
  TcpClient, Signal, connected, sent, received, error, Request, resolve, connect, Did, new_client,
  failed, close_client, get_addr_info, on_addr_info, on_connect,
}

pub record Dial : Type 0 where
  -- `data->client`: the number of the client, or null.
  pub client : Option ℕ
  -- The number of the newest client, the client unless it is deleted, and its request.
  pub made : ℕ
  pub newest : Option TcpClient
  pub pending : Option Request
  -- Requests of older clients for an address, which nothing cancels.
  pub orphans : ℕ
  -- Whether the three listeners are on the newest client.
  pub subscribed : Bool
  pub timer_closing : Bool
  pub timer_gone : Bool
  -- The calls of `then`.
  pub results : List (Option ℕ)

-- `Connect` before the first tick.
abbrev pub new_dial : Dial
new_dial = record {
  client = none;
  made = 0;
  newest = none;
  pending = none;
  orphans = 0;
  subscribed = false;
  timer_closing = false;
  timer_gone = false;
  results = [];
}

-- `data->client->Close()`, where the pointer is that of the newest client.
unfoldable pub close_newest : Dial → Option Dial
close_newest s = elim s.newest [
  | none ↦ none
  | some c ↦ some (record s { newest = some (close_client c) })
]

-- What the listeners do on a signal.
unfoldable pub react : Signal → Dial → Option Dial
react connected s =
    if s.timer_gone
    then none
    else some (record s { timer_closing = true; results = s.results ++ s.client ∷ [] })
react (error e) s =
    if s.timer_gone then none else elim s.client [ none ↦ none | some c ↦ close_newest s ]
react sent s = some s
react (received b) s = some s

abbrev pub then_dial : Option Dial → (Dial → Option Dial) → Option Dial
then_dial none k = none
then_dial (some s) k = k s

unfoldable pub invoke : List Signal → Dial → Option Dial
invoke [] s = some s
invoke (x ∷ xs) s = then_dial (react x s) (invoke xs)

-- What a handler of the newest client did.
unfoldable pub perform : Did → Dial → Option Dial
perform d s =
    let t = record s { newest = some d.client; pending = d.request } in
    if s.subscribed then invoke d.signals t else some t

-- A client is replaced only when it is deleted, and a request for its address may be left.
abbrev pub left_over : Option Request → ℕ → ℕ
left_over none n = n
left_over (some connect) n = n
left_over (some resolve) n = suc n

-- The function `connect`, given what `uv_getaddrinfo` returns: the pointer is set at its end.
unfoldable pub try_connect : ℤ → Dial → Option Dial
try_connect answer s =
    let n = suc s.made in
    let t = record s {
      made = n;
      newest = some new_client;
      pending = none;
      orphans = left_over s.pending s.orphans;
      subscribed = true;
    } in
    then_dial (perform (get_addr_info answer new_client) t)
      (λ u. some (record u { client = some n }))

abbrev pub interval : ℕ
interval = 500

-- `OnTick`, given the elapsed time and the timeout.
unfoldable pub on_tick : ℕ → ℕ → ℤ → Dial → Option Dial
on_tick timeout elapsed answer s =
    let over =
      λ (t : Dial). some (record t { timer_closing = true; results = t.results ++ none ∷ [] }) in
    if leb timeout elapsed
    then elim s.client [ none ↦ over s | some c ↦ then_dial (close_newest s) over ]
    else elim s.client [ none ↦ try_connect answer s | some c ↦ some s ]

-- The callbacks of the event loop.
pub data Event : Type 0 where
  -- The timer: the elapsed time as `Timer::OnTick` and as the listener read it, and what
  -- `uv_getaddrinfo` would return.
  tick : ℕ → ℕ → ℤ → Event
  -- The address of the newest client, or of an older one: a status, and that of `uv_tcp_connect`.
  resolved : ℤ → ℤ → Event
  resolved_late : ℤ → ℤ → Event
  -- The end of its connection attempt: a status, and that of `uv_read_start`.
  connection : ℤ → ℤ → Event
  -- `Handle::OnClose` of the newest client, and of the timer.
  client_closed : Event
  timer_closed : Event

-- `Handle::OnClose` of the newest client: the listener, then `delete`.
unfoldable pub on_client_closed : Dial → Option Dial
on_client_closed s =
    let t = record s { newest = none; subscribed = false } in
    if s.subscribed
    then (if s.timer_gone then none else some (record t { client = none }))
    else some t

-- `Handle::OnClose` of the timer: `~TryConnectData` takes the listeners off a client that is left,
-- and the pointer is gone with it.
unfoldable pub on_timer_closed : Dial → Option Dial
on_timer_closed s = elim s.client [
  | none ↦ some (record s { timer_gone = true })
  | some c ↦ elim s.newest [
    | none ↦ none
    | some d ↦ some (record s { timer_gone = true; subscribed = false; client = none })
  ]
]

-- A handler of the newest client, which must not be deleted.
unfoldable pub on_newest : (TcpClient → Did) → Dial → Option Dial
on_newest f s = elim s.newest [ none ↦ none | some c ↦ perform (f c) s ]

unfoldable pub dial_step : ℕ → Event → Dial → Option Dial
dial_step timeout (tick first elapsed answer) s =
    if leb interval first then on_tick timeout elapsed answer s else some s
dial_step timeout (resolved status answer) s = on_newest (on_addr_info status answer) s
dial_step timeout (resolved_late status answer) s = none
dial_step timeout (connection status answer) s = on_newest (on_connect status answer) s
dial_step timeout client_closed s = on_client_closed s
dial_step timeout timer_closed s = on_timer_closed s

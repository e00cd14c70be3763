-- ===== src/Tcp/Dial/Invariant.antt =====
-- The invariant of an attempt to connect, and what the event loop may do next.
use nexer.Prelude.{ℕ, ◌≡◌, ◌≢◌, Bool, true, false, Option, none, some, List, [], length, ◌<◌, leb}
use nexer.Prelude.Int.{ℤ}
use nexer.Tcp.{TcpClient, Request, resolve, connect, failed}
use nexer.Tcp.Dial.{
  Dial, Event, tick, resolved, resolved_late, connection, client_closed, timer_closed, interval,
}

-- Until the timer is gone, the pointer is set exactly while the newest client is there, and exactly
-- then it has the listeners; afterwards nothing has them.
abbrev pub Linked : Bool → Option ℕ → Option TcpClient → Bool → Type 0
Linked true client newest subscribed = subscribed ≡ false
Linked false none none subscribed = subscribed ≡ false
Linked false none (some c) subscribed = ⊥
Linked false (some n) none subscribed = ⊥
Linked false (some n) (some c) subscribed = subscribed ≡ true

-- The timer closes with the one call of `then`.
abbrev pub Answered : Bool → List (Option ℕ) → Type 0
Answered false results = results ≡ []
Answered true results = length results ≡ 1

-- Until the timer is gone, a client whose request is left when the timer closes is closing.
abbrev pub Settled : Bool → Option TcpClient → Option Request → Type 0
Settled true (some c) (some r) = c.closing ≡ true
Settled true (some c) none = Unit
Settled true none r = Unit
Settled false newest r = Unit

-- A connection attempt is of a client that is there.
abbrev pub Attached : Option TcpClient → Option Request → Type 0
Attached none (some connect) = ⊥
Attached none (some resolve) = Unit
Attached none none = Unit
Attached (some c) r = Unit

abbrev pub Ordered : Bool → Bool → Type 0
Ordered true closing = closing ≡ true
Ordered false closing = Unit

pub record IsGood (s : Dial) : Type 0 where
  pub linked : Linked s.timer_gone s.client s.newest s.subscribed
  pub answered : Answered s.timer_closing s.results
  pub settled : s.timer_gone ≡ false → Settled s.timer_closing s.newest s.pending
  pub attached : Attached s.newest s.pending
  pub ordered : Ordered s.timer_gone s.timer_closing

-- The status of a connection attempt on a closing handle is not 0 (`UV_ECANCELED`).
abbrev pub Cancels : ℤ → Option TcpClient → Type 0
Cancels status none = Unit
Cancels status (some c) = c.closing ≡ true → failed status ≡ true

abbrev pub IsClosing : Option TcpClient → Type 0
IsClosing none = ⊥
IsClosing (some c) = c.closing ≡ true

-- When libuv calls which callback: a closed timer does not tick, a request that was made ends once,
-- and a handle is closed after `uv_close` and after its connection attempt has ended.
abbrev pub Allowed : Event → Dial → Type 0
Allowed (tick first elapsed answer) s = s.timer_closing ≡ false
Allowed (resolved status answer) s = s.pending ≡ some resolve
Allowed (resolved_late status answer) s = 0 < s.orphans
Allowed (connection status answer) s = (s.pending ≡ some connect) × Cancels status s.newest
Allowed client_closed s = IsClosing s.newest × (s.pending ≢ some connect)
Allowed timer_closed s = (s.timer_closing ≡ true) × (s.timer_gone ≡ false)

-- The faults that can occur: an address that cannot be looked up is reported before the pointer is
-- set, and the answer to a look-up can come after its client is deleted.
abbrev pub IsFaulty : ℕ → Event → Dial → Type 0
IsFaulty timeout (tick first elapsed answer) s =
    (leb interval first ≡ true)
    × (leb timeout elapsed ≡ false)
    × (failed answer ≡ true)
    × (s.client ≡ none)
IsFaulty timeout (resolved status answer) s = s.newest ≡ none
IsFaulty timeout (resolved_late status answer) s = Unit
IsFaulty timeout (connection status answer) s = ⊥
IsFaulty timeout client_closed s = ⊥
IsFaulty timeout timer_closed s = ⊥

abbrev pub Outcome : Type 0 → Option Dial → Type 0
Outcome F none = F
Outcome F (some t) = IsGood t

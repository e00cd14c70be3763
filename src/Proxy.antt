-- ===== src/Proxy.antt =====
-- `TcpProxy` of src/tcp_proxy.cc: the forwarders of a proxy and what becomes of each connection. A
-- forwarder is the address of a `TcpForwarder`, which stands also for its incoming client; what the
-- proxy does to others is an `Action`. `Require` and `TcpClient::Connect` answer with a later event.
pub mod Outgoing
pub mod Settled
pub mod Tests
use nexer.Prelude.{
  ℕ, zero, suc, ◌+◌, ◌-◌, ◌*◌, ◌/◌, ◌%◌, ◌≤◌, ◌<◌, ◌≡◌, refl, sym, ap, ◌∙◌, ◌≢◌, ◌↔◌, ◌⊎◌, inl, inr,
  Bool, true, false, not, ◌&&◌, ◌||◌, Option, none, some, List, [], ◌∷◌, ◌++◌, map, append_assoc,
  append-nil, arith, Bytes, codes, length, length-append, take, drop, replicate, is_nil, All, ltb,
  leb, ◌==◌, if◌then◌else◌, lt→ltb, ltb→lt, ltb→le, leb→lt, leb→le, lt→leb, le→leb, ==_iff, ==-refl,
  Bool-cases, Option-cases, if_both, if_cases, if_false, and_true, is_nil→eq,
}
use nexer.Prelude.Int.{ℤ, pos, negsuc}
use nexer.Tcp.{failed}

pub record Proxy : Type 0 where
  -- `upstream_.app` and `forwarders_`.
  pub app : Option ℕ
  pub forwarders : List ℕ

pub data Action : Type 0 where
  -- `ProcessManager::Require` and `TcpClient::Connect`, for a forwarder.
  require : ℕ → ℕ → Action
  connect : ℕ → Action
  set_outgoing : ℕ → ℕ → Action
  close_incoming : ℕ → Action
  close_outgoing : ℕ → Action
  -- `assert(0)`
  assert_failed : Action

pub data Event : Type 0 where
  -- A client is accepted and its forwarder made.
  accepted : ℕ → Event
  -- The answer of `Require`, and that of `TcpClient::Connect`.
  required : ℕ → ℤ → Event
  connected : ℕ → Option ℕ → Event
  -- The forwarder's `OnClose`.
  forwarder_closed : ℕ → Event

-- `Has`
unfoldable pub has : ℕ → List ℕ → Bool
has f [] = false
has f (x ∷ xs) = f == x || has f xs

-- `std::set::insert` and `std::set::erase`.
unfoldable pub insert : ℕ → List ℕ → List ℕ
insert f fs = if has f fs then fs else f ∷ fs

unfoldable pub erase : ℕ → List ℕ → List ℕ
erase f [] = []
erase f (x ∷ xs) = if f == x then xs else x ∷ erase f xs

abbrev pub Step : Type 0
Step = Proxy × List Action

-- The function that `Init` gives to `CheckUpstreamProcess`.
unfoldable pub after_check : ℕ → ℤ → Proxy → Step
after_check f err p = (
  p,
  if failed err then (if has f p.forwarders then close_incoming f ∷ [] else []) else connect f ∷ [],
)

-- `CheckUpstreamProcess`
unfoldable pub check_upstream : ℕ → Option ℕ → Proxy → Step
check_upstream f none p = after_check f (pos 0) p
check_upstream f (some i) p = (p, require i f ∷ [])

-- The listener of new connections.
unfoldable pub on_connection : ℕ → Proxy → Step
on_connection f p = check_upstream f p.app (record p { forwarders = insert f p.forwarders })

-- The function that `Init` gives to `TcpClient::Connect`.
unfoldable pub after_connect : ℕ → Option ℕ → Proxy → Step
after_connect f none p = (p, if has f p.forwarders then close_incoming f ∷ [] else [])
after_connect f (some o) p =
    (p, if has f p.forwarders then set_outgoing f o ∷ [] else close_outgoing o ∷ [])

-- `Remove`
unfoldable pub remove : ℕ → Proxy → Step
remove f p =
    if has f p.forwarders
    then (record p { forwarders = erase f p.forwarders }, [])
    else (p, assert_failed ∷ [])

unfoldable pub proxy_step : Event → Proxy → Step
proxy_step (accepted f) p = on_connection f p
proxy_step (required f err) p = after_check f err p
proxy_step (connected f o) p = after_connect f o p
proxy_step (forwarder_closed f) p = remove f p

-- All actions of a list of events.
unfoldable pub proxy_run : List Event → Proxy → Step
proxy_run [] p = (p, [])
proxy_run (e ∷ es) p =
    let (q, as_) = proxy_step e p in let (r, bs) = proxy_run es q in (r, as_ ++ bs)

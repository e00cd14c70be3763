-- ===== src/System.antt =====
-- A proxy with its process manager (`TcpProxy::CheckUpstreamProcess` of src/tcp_proxy.cc): what the
-- proxy requires becomes calls of the manager, and what the manager calls back becomes events of the
-- proxy.
pub mod Connects
pub mod Tests
use nexer.Prelude.{List, [], ◌∷◌, ◌++◌, map}
use nexer.Manager.{
  Call, Did, client, called, killed, timer_started, timer_closed, process_started, process_error,
  process_exit,
}
use nexer.Manager as Manager
use nexer.Proxy.{
  Action, require, connect, set_outgoing, close_incoming, close_outgoing, assert_failed, Event,
  required, Proxy, Step, proxy_step,
}

-- `process_manager_->Require(*upstream_.app, ...)`
abbrev pub calls_of : List Action → List Call
calls_of [] = []
calls_of (require i f ∷ as_) = Manager.require i (client f) ∷ calls_of as_
calls_of (connect f ∷ as_) = calls_of as_
calls_of (set_outgoing f o ∷ as_) = calls_of as_
calls_of (close_incoming f ∷ as_) = calls_of as_
calls_of (close_outgoing o ∷ as_) = calls_of as_
calls_of (assert_failed ∷ as_) = calls_of as_

-- What happens in the two parts together, in order.
pub data Happening : Type 0 where
  by_manager : Did → Happening
  by_proxy : Action → Happening

-- `then(error)`: what the proxy does at once where the manager calls back.
abbrev pub answer_of : Did → Proxy → Step
answer_of (called f process err) p = proxy_step (required f err) p
answer_of (killed k) p = (p, [])
answer_of (timer_started t) p = (p, [])
answer_of (timer_closed t) p = (p, [])
answer_of (process_started k) p = (p, [])
answer_of (process_error k err) p = (p, [])
answer_of (process_exit k status signal) p = (p, [])

abbrev pub happenings : List Did → Proxy → List Happening
happenings [] p = []
happenings (d ∷ ds) p =
    let (q, as_) = answer_of d p in by_manager d ∷ map (λ a. by_proxy a) as_ ++ happenings ds q

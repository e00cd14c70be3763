-- ===== src/Proxy/Tests.antt =====
-- A client that goes away before its upstream connection is made.
use nexer.Prelude.{◌≡◌, refl, some, List, [], ◌∷◌}
use nexer.Prelude.Int.{pos}
use nexer.Proxy.{
  Proxy, Event, accepted, required, connected, forwarder_closed, has, insert, erase, proxy_step,
  proxy_run, connect, close_outgoing, set_outgoing, require, on_connection, check_upstream,
  after_check, after_connect, remove,
}

abbrev start : Proxy
start = record { app = some 3; forwarders = [] }

abbrev events : List Event
events =
    accepted 1
    ∷ accepted 2
    ∷ required 1 (pos 0)
    ∷ forwarder_closed 1
    ∷ required 2 (pos 0)
    ∷ connected 1 (some 10)
    ∷ connected 2 (some 20)
    ∷ []

actions :
    (proxy_run events start).1
    ≡ require 3 1 ∷ require 3 2 ∷ connect 1 ∷ connect 2 ∷ close_outgoing 10 ∷ set_outgoing 2 20 ∷ []
unfolding proxy_run proxy_step on_connection check_upstream after_check after_connect remove has
    insert erase
actions = refl

-- The address of a forwarder that is gone is used again: the connection that was made for the first
-- one is given to the second.
reused :
    (proxy_run
      (accepted 1
        ∷ required 1 (pos 0)
        ∷ forwarder_closed 1
        ∷ accepted 1
        ∷ connected 1 (some 10)
        ∷ [])
      start).1
    ≡ require 3 1 ∷ connect 1 ∷ require 3 1 ∷ set_outgoing 1 10 ∷ []
unfolding proxy_run proxy_step on_connection check_upstream after_check after_connect remove has
    insert erase
reused = refl

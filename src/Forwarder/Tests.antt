-- ===== src/Forwarder/Tests.antt =====
-- Runs of the forwarder, and the properties at concrete inputs.
use nexer.Prelude.{◌≡◌, refl, ◌⊎◌, Bool, true, false, none, some, List, [], ◌∷◌, ◌++◌, codes}
use nexer.Forwarder.State.{
  append_in, clear_out, swap, incoming, outgoing, Forwarder, client, pending, in_flight,
}
use nexer.Forwarder.Effects.{handed, Ensures}
use nexer.Forwarder.History.{
  History, start, next, arrivals, relay-in_order, step-is_some, step-one_write,
}
use nexer.Forwarder.Echo.Returns.{echo-returns}
use nexer.Forwarder.{
  Effect, write, Step, create, Event, received, sent, connected, step, run, handle, on_error,
  on_close, on_data, on_send, set_outgoing, write_to, close_handle, close_open, close_rest, ◌>>=◌,
}

-- All that a run computes through.
unfoldable runs : Step → Step
unfolding step handle on_data on_send on_error on_close set_outgoing write_to close_handle
    close_open close_rest create pending in_flight append_in clear_out swap run
runs s = s

abbrev state_of : Step → Forwarder
state_of none = create 0
state_of (some (f, _)) = f

-- Handle 1 sends "hi" before the connection to handle 2 stands.
abbrev early : Event
early = received incoming (codes "hi") true true

abbrev waiting : Forwarder
waiting = state_of (step early (create 1))

abbrev join : Event
join = connected 2 true

abbrev sending : Forwarder
sending = state_of (step join waiting)

waiting-History : History 1 2 (early ∷ []) waiting []
unfolding runs
waiting-History = next early (start refl) refl refl refl

sending-History : History 1 2 (early ∷ join ∷ []) sending (write 2 (codes "hi") true ∷ [])
unfolding runs
sending-History = next join waiting-History refl (refl, refl, refl) refl

relay-in_order_example :
    handed 2 (write 2 (codes "hi") true ∷ []) ++ pending incoming sending
    ≡ arrivals incoming (early ∷ join ∷ [])
relay-in_order_example =
    relay-in_order 1 2 (early ∷ join ∷ []) sending (write 2 (codes "hi") true ∷ []) incoming refl
      sending-History

sending-alive : sending.deleted ≡ false
unfolding runs
sending-alive = refl

sending-open : (client outgoing sending).tcp ≡ some 2
unfolding runs
sending-open = refl

step-is_some_example : (r : Forwarder × List Effect) × (step (sent outgoing true) sending ≡ some r)
step-is_some_example =
    step-is_some 1 2 (early ∷ join ∷ []) sending (write 2 (codes "hi") true ∷ [])
      (sent outgoing true) refl sending-History sending-alive sending-open

-- More data while the write is under way is kept back.
abbrev more : Event
more = received incoming (codes "!") true true

abbrev holding : Forwarder
holding = state_of (step more sending)

sending-open_in : (client incoming sending).tcp ≡ some 1
unfolding runs
sending-open_in = refl

sending-more : step more sending ≡ some (holding, [])
unfolding runs
sending-more = refl

step-one_write_example :
    ((in_flight incoming holding ≡ in_flight incoming sending)
      × ((client incoming holding).data_out ≡ (client incoming sending).data_out)
      × (handed 2 [] ≡ []))
    ⊎ ((handed 2 [] ≡ in_flight incoming holding)
        × ((in_flight incoming sending ≡ []) ⊎ ((x : Bool) × (more ≡ sent outgoing x))))
step-one_write_example =
    step-one_write 1 2 (early ∷ join ∷ []) sending holding (write 2 (codes "hi") true ∷ []) [] more
      incoming refl sending-History sending-alive sending-open_in sending-more

abbrev chatter : List Event
chatter = received incoming (codes "ping") true true ∷ more ∷ sent incoming true ∷ []

echo-returns_example :
    Ensures
      (λ f fs. handed 7 fs ++ pending incoming f ≡ arrivals incoming chatter)
      (set_outgoing 7 true (create 7) >>= run chatter)
echo-returns_example = echo-returns 7 true chatter (tt, (tt, (tt, tt)))

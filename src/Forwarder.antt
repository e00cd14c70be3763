-- ===== src/Forwarder.antt =====
-- src/tcp_forwarder.cc and include/tcp_forwarder.h. Each callback that `Init` registers is a step
-- from a state to a state and the calls that it makes of the two TCP clients.
--
-- What the event loop answers within a callback is an argument: whether `IsWritable` holds and
-- whether `TcpClient::Write` succeeds (it calls `OnError` where `uv_write` fails). `none` is a
-- null dereference, or a use of the forwarder after `delete this`.
pub mod Tests
pub mod State
pub mod Echo
pub mod History
pub mod Teardown
pub mod Closing
pub mod Completion
pub mod Delivery
pub mod Relay
pub mod Effects
pub mod Cells
use State.{
  Side, incoming, outgoing, peer, Memory, in_0, in_1, out_0, out_1, Client, Forwarder, client,
  set_client, same, pending, in_flight, append_in, clear_out, swap,
}
use nexer.Prelude.{
  ℕ, Option, if◌then◌else◌, Bytes, Bool, none, List, some, not, is_nil, ◌++◌, [], ◌∷◌, ◌&&◌, true,
  false, ◌==◌,
}

pub data Effect : Type 0 where
  -- `Write` on a client, the bytes, and whether it succeeds.
  write : ℕ → Bytes → Bool → Effect
  -- `uv_close`, called by `Handle::Close`.
  close : ℕ → Effect
  -- `on_close_.Invoke()` and `delete this`.
  finish : Effect

abbrev pub Step : Type 0
Step = Option (Forwarder × List Effect)

-- The second part runs where the first has left the state.
infixl 5 ◌>>=◌
abbrev pub ◌>>=◌ : Step → (Forwarder → Step) → Step
none >>= k = none
some (f, es) >>= k = elim (k f) [ none ↦ none | some (g, fs) ↦ some (g, es ++ fs) ]

-- The constructor of `TcpForwarder`.
unfoldable pub create : ℕ → Forwarder
create tcp = record {
  incoming_client = record { tcp = some tcp; data_in = in_0; data_out = in_1 };
  outgoing_client = record { tcp = none; data_in = out_0; data_out = out_1 };
  memory = record { of_in_0 = []; of_in_1 = []; of_out_0 = []; of_out_1 = [] };
  closing = λ _. false;
  deleted = false;
}

-- `Handle::Close`
unfoldable pub close_handle : ℕ → Forwarder → Step
close_handle t f =
    if f.closing t
    then some (f, [])
    else some (record f { closing = λ h. if h == t then true else f.closing h }, close t ∷ [])

-- `if (tcp && !tcp->IsClosing()) tcp->Close()`
unfoldable pub close_open : Option ℕ → Forwarder → Step
close_open none f = some (f, [])
close_open (some t) f = if f.closing t then some (f, []) else close_handle t f

-- A method called through a client pointer.
abbrev pub deref : Option ℕ → (ℕ → Step) → Step
deref none k = none
deref (some t) k = k t

-- The `OnError` callback of `Init(client)`.
unfoldable pub on_error : Side → Forwarder → Step
on_error s f =
    deref (client s f).tcp (λ t. close_handle t f) >>= λ g. close_open (client (peer s) g).tcp g

-- The client whose callbacks stand on the handle of `s`: with one handle on both sides,
-- `SetOutgoing` registers none.
abbrev pub owner : Side → Forwarder → Side
owner s f = if same f.incoming_client.tcp f.outgoing_client.tcp then incoming else s

-- `tcp->Write(data_out->data(), data_out->size())` on the client of `s`.
unfoldable pub write_to : Side → Bytes → Bool → Forwarder → Step
write_to s bytes accepted f = deref (client s f).tcp (λ t.
    let failed = on_error (owner s f) f in
    some (f, write t bytes accepted ∷ []) >>= λ g. if accepted then some (g, []) else failed)

-- The `OnData` callback of `Init(client)`.
unfoldable pub on_data : Side → Bytes → Bool → Bool → Forwarder → Step
on_data s bytes writable accepted f =
    let g = append_in s bytes f in
    let ready = not (same (client (peer s) g).tcp none) && writable && is_nil (in_flight s g) in
    let h = swap s g in
    if is_nil bytes
    then some (f, [])
    else if ready
    then write_to (peer s) (in_flight s h) accepted h
    else some (g, [])

-- The `OnSend` callback of `Init(client)`.
unfoldable pub on_send : Side → Bool → Forwarder → Step
on_send s accepted f =
    let g = clear_out (peer s) f in
    let h = swap (peer s) g in
    if is_nil (pending (peer s) g)
    then some (g, [])
    else write_to s (in_flight (peer s) h) accepted h

abbrev pub drop_tcp : Side → Forwarder → Forwarder
drop_tcp s f = set_client s (record (client s f) { tcp = none }) f

-- What `OnClose` does once its client's pointer is null, for the pointer that is left.
unfoldable pub close_rest : Option ℕ → Forwarder → Step
close_rest none f = some (record f { deleted = true }, finish ∷ [])
close_rest (some t) f = if f.closing t then some (f, []) else close_handle t f

-- The `OnClose` callback of `Init(client)`.
unfoldable pub on_close : Side → Forwarder → Step
on_close s f =
    let both = same (client (peer s) f).tcp (client s f).tcp in
    let g = drop_tcp s (if both then drop_tcp (peer s) f else f) in
    close_rest (client (peer s) g).tcp g

-- `SetOutgoing`
unfoldable pub set_outgoing : ℕ → Bool → Forwarder → Step
set_outgoing tcp accepted f =
    let inc = f.incoming_client in
    let out = record f.outgoing_client { tcp = some tcp } in
    let aliased = record out { data_in = inc.data_in; data_out = inc.data_out } in
    let g = record f { outgoing_client = if same (some tcp) inc.tcp then aliased else out } in
    let h = swap incoming g in
    if not (is_nil (pending incoming g)) && is_nil (in_flight incoming g)
    then write_to outgoing (in_flight incoming h) accepted h
    else some (g, [])

-- The callbacks of the two clients, and the call of `SetOutgoing` by the proxy.
pub data Event : Type 0 where
  received : Side → Bytes → Bool → Bool → Event
  sent : Side → Bool → Event
  failed : Side → Event
  closed : Side → Event
  connected : ℕ → Bool → Event

unfoldable pub handle : Event → Forwarder → Step
handle (received s bytes writable accepted) f = on_data s bytes writable accepted f
handle (sent s accepted) f = on_send s accepted f
handle (failed s) f = on_error s f
handle (closed s) f = on_close s f
handle (connected tcp accepted) f = set_outgoing tcp accepted f

-- One event; the forwarder must still be there.
unfoldable pub step : Event → Forwarder → Step
step e f = let next = handle e f in if f.deleted then none else next

pub run : List Event → Forwarder → Step
run [] f = some (f, [])
run (e ∷ es) f = step e f >>= run es

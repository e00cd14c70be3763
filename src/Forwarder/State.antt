-- ===== src/Forwarder/State.antt =====
-- The data of include/tcp_forwarder.h: two clients, each with two strings and the two pointers
-- `data_in` and `data_out` into them. The pointers may alias across the clients, so the strings
-- stand in a memory of four cells.
use nexer.Prelude.{none, Bytes, Option, ℕ, [], if◌then◌else◌, Bool, ◌++◌, true, some, false, ◌==◌}

-- `incoming_` or `outgoing_`.
pub data Side : Type 0 where
  incoming outgoing : Side

-- `auto peer = client == &incoming_ ? &outgoing_ : &incoming_`
abbrev pub peer : Side → Side
peer incoming = outgoing
peer outgoing = incoming

-- The addresses of `incoming_.data[0]`, `incoming_.data[1]`, `outgoing_.data[0]` and
-- `outgoing_.data[1]`.
pub data Cell : Type 0 where
  in_0 in_1 out_0 out_1 : Cell

pub record Memory : Type 0 where
  pub of_in_0 : Bytes
  pub of_in_1 : Bytes
  pub of_out_0 : Bytes
  pub of_out_1 : Bytes

unfoldable pub load : Cell → Memory → Bytes
load in_0 m = m.of_in_0
load in_1 m = m.of_in_1
load out_0 m = m.of_out_0
load out_1 m = m.of_out_1

unfoldable pub store : Cell → Bytes → Memory → Memory
store in_0 b m = record m { of_in_0 = b }
store in_1 b m = record m { of_in_1 = b }
store out_0 b m = record m { of_out_0 = b }
store out_1 b m = record m { of_out_1 = b }

-- A `TcpClient *` is a number, and `nullptr` is `none`.
pub record Client : Type 0 where
  pub tcp : Option ℕ
  pub data_in : Cell
  pub data_out : Cell

-- `closing` is what `IsClosing` answers for a handle; `deleted` says that the object is gone.
pub record Forwarder : Type 0 where
  pub incoming_client : Client
  pub outgoing_client : Client
  pub memory : Memory
  pub closing : ℕ → Bool
  pub deleted : Bool

unfoldable pub client : Side → Forwarder → Client
client incoming f = f.incoming_client
client outgoing f = f.outgoing_client

unfoldable pub set_client : Side → Client → Forwarder → Forwarder
set_client incoming c f = record f { incoming_client = c }
set_client outgoing c f = record f { outgoing_client = c }

-- `TcpClient *` compared by `==`.
abbrev pub same : Option ℕ → Option ℕ → Bool
same none none = true
same none (some q) = false
same (some p) none = false
same (some p) (some q) = p == q

-- The strings that the two pointers of a client lead to.
unfoldable pub pending : Side → Forwarder → Bytes
unfolding load client
pending s f = load (client s f).data_in f.memory

unfoldable pub in_flight : Side → Forwarder → Bytes
unfolding load client
in_flight s f = load (client s f).data_out f.memory

-- `client->data_in->append(s, len)`
unfoldable pub append_in : Side → Bytes → Forwarder → Forwarder
unfolding load store client
append_in s b f =
    let cell = (client s f).data_in in
    record f { memory = store cell (load cell f.memory ++ b) f.memory }

-- `client->data_out->clear()`
unfoldable pub clear_out : Side → Forwarder → Forwarder
unfolding store client
clear_out s f = record f { memory = store (client s f).data_out [] f.memory }

abbrev swapped : Client → Client
swapped c = record c { data_in = c.data_out; data_out = c.data_in }

-- `Swap`
unfoldable pub swap : Side → Forwarder → Forwarder
unfolding client set_client
swap s f =
    let once = set_client s (swapped (client s f)) f in
    if same f.incoming_client.tcp f.outgoing_client.tcp
    then set_client (peer s) (swapped (client (peer s) once)) once
    else once

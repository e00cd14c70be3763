-- ===== src/Tcp.antt =====
-- `TcpClient` of include/tcp_client.h and src/tcp_client.cc: its callbacks and the requests that it
-- makes of the event loop (libuv, outside this repository). A status that a call of libuv returns,
-- or that a callback is given, is an argument. A handler returns the client, the listeners that it
-- invokes in their order, and the requests that are then outstanding.
pub mod Dial
pub mod Tests
use nexer.Prelude.{
  ℕ, zero, suc, ◌+◌, ◌-◌, ◌*◌, ◌/◌, ◌%◌, ◌≤◌, ◌<◌, ◌≡◌, refl, sym, ap, ◌∙◌, ◌≢◌, ◌↔◌, ◌⊎◌, inl, inr,
  Bool, true, false, not, ◌&&◌, ◌||◌, Option, none, some, List, [], ◌∷◌, ◌++◌, map, append_assoc,
  append-nil, arith, Bytes, codes, length, length-append, take, drop, replicate, is_nil, All, ltb,
  leb, ◌==◌, if◌then◌else◌, lt→ltb, ltb→lt, ltb→le, leb→lt, leb→le, lt→leb, le→leb, ==_iff, ==-refl,
  Bool-cases, Option-cases, if_both, if_false, and_true, is_nil→eq,
}
use nexer.Prelude.Int.{ℤ, pos, negsuc}

pub record TcpClient : Type 0 where
  pub connecting : Bool
  pub name_resolving : Bool
  pub closing : Bool

-- The lists `on_connect_`, `on_data_`, `on_send_` and `on_error_`.
pub data Signal : Type 0 where
  connected sent : Signal
  received : Bytes → Signal
  error : ℤ → Signal

-- `uv_getaddrinfo` with `OnAddrInfo`, and `uv_tcp_connect` with `OnConnect`.
pub data Request : Type 0 where
  resolve connect : Request

pub record Did : Type 0 where
  pub client : TcpClient
  pub signals : List Signal
  pub request : Option Request

abbrev pub new_client : TcpClient
new_client = record { connecting = false; name_resolving = false; closing = false }

-- `if (int status = ...)`
abbrev pub failed : ℤ → Bool
failed (pos zero) = false
failed (pos (suc n)) = true
failed (negsuc n) = true

abbrev pub is_negative : ℤ → Bool
is_negative (pos n) = false
is_negative (negsuc n) = true

-- `Handle::Close` of the client's handle.
unfoldable pub close_client : TcpClient → TcpClient
close_client c = record c { closing = true }

-- `GetAddrInfo`, given what `uv_getaddrinfo` returns.
unfoldable pub get_addr_info : ℤ → TcpClient → Did
get_addr_info status c =
    if failed status
    then record {
      client = record c { name_resolving = false };
      signals = error status ∷ [];
      request = none;
    }
    else record {
      client = record c { name_resolving = true };
      signals = [];
      request = some resolve;
    }

-- `ConnectAddr`, given what `uv_tcp_connect` returns.
unfoldable pub connect_addr : ℤ → TcpClient → Did
connect_addr status c =
    if failed status
    then record {
      client = record c { connecting = false };
      signals = error status ∷ [];
      request = none;
    }
    else record { client = record c { connecting = true }; signals = []; request = some connect }

-- `OnAddrInfo`
unfoldable pub on_addr_info : ℤ → ℤ → TcpClient → Did
on_addr_info status answer c =
    let d = record c { name_resolving = false } in
    if is_negative status
    then record { client = d; signals = error status ∷ []; request = none }
    else connect_addr answer d

-- `ReadStart`, given what `uv_read_start` returns.
unfoldable pub read_start : ℤ → List Signal
read_start status = if failed status then error status ∷ [] else []

-- `OnConnect`
unfoldable pub on_connect : ℤ → ℤ → TcpClient → Did
on_connect status answer c =
    let d = record c { connecting = false } in
    if failed status
    then record { client = d; signals = error status ∷ []; request = none }
    else record { client = d; signals = connected ∷ read_start answer; request = none }

-- What `OnRead` is given: a number of bytes, `UV_EOF`, or another error.
pub data Read : Type 0 where
  bytes : Bytes → Read
  end_of_file : Read
  read_error : ℤ → Read

-- `OnRead`
unfoldable pub on_read : Read → TcpClient → TcpClient × List Signal
on_read (bytes s) c = (c, received s ∷ [])
on_read end_of_file c = (close_client c, [])
on_read (read_error e) c = (c, error e ∷ [])

-- `OnWrite` and `OnWrite2`
unfoldable pub on_write : ℤ → List Signal
on_write status = if failed status then error status ∷ [] else sent ∷ []

-- Both overloads of `Write`, given what `uv_write` returns.
unfoldable pub write_client : ℤ → List Signal
write_client status = if failed status then error status ∷ [] else []

-- `IsConnecting`
unfoldable pub is_connecting : TcpClient → Bool
is_connecting c = c.connecting || c.name_resolving

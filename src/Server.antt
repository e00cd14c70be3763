-- ===== src/Server.antt =====
-- What the servers do once they listen: `TcpServer::OnConnection` of src/tcp_server.cc, and `OnAlloc`
-- and `OnRecv` of src/udp_server.cc. What libuv gives to a callback, and what it returns, are
-- arguments.
pub mod Connections
pub mod Patches
pub mod Datagrams
pub mod Tests
use nexer.Prelude.{
  ℕ, zero, suc, ◌+◌, ◌-◌, ◌*◌, ◌/◌, ◌%◌, ◌≤◌, ◌<◌, ◌≡◌, refl, sym, ap, ◌∙◌, ◌≢◌, ◌↔◌, ◌⊎◌, inl, inr,
  Bool, true, false, not, ◌&&◌, ◌||◌, Option, none, some, List, [], ◌∷◌, ◌++◌, map, append_assoc,
  append-nil, arith, Bytes, codes, length, length-append, take, drop, replicate, is_nil, All, ltb,
  leb, ◌==◌, if◌then◌else◌, lt→ltb, ltb→lt, ltb→le, leb→lt, leb→le, lt→leb, le→leb, ==_iff, ==-refl,
  Bool-cases, Option-cases, if_both, if_cases, if_false, and_true, is_nil→eq,
}
use nexer.Prelude.Int.{ℤ, pos, negsuc}
use nexer.Buffer.Memory.{chain, store_at}
use nexer.Handle.Listeners.{FunctionList, invoke_all}
use nexer.Tcp.{failed}

-- `TcpServer`: whether `on_connection_` is set, the listeners of `Handle`, and the number of the next
-- client.
pub record TcpServer : Type 0 where
  pub has_listener : Bool
  pub listeners : FunctionList
  pub next_client : ℕ

pub data Accepting : Type 0 where
  report : ℕ → ℤ → Accepting
  make_client read_start connection : ℕ → Accepting

-- `OnConnection`, given the status and what `uv_accept` returns. A client that is not accepted is not
-- closed.
unfoldable pub on_connection : ℤ → ℤ → TcpServer → List Accepting × TcpServer
on_connection status answer s =
    if failed status then (map (λ f. report f status) (invoke_all s.listeners), s) else (
      make_client s.next_client
          ∷ (if failed answer
              then map (λ f. report f answer) (invoke_all s.listeners)
              else read_start s.next_client
                ∷ (if s.has_listener then connection s.next_client ∷ [] else [])),
      record s { next_client = suc s.next_client },
    )

-- `UdpServer`: the bytes of the object, where in it `udp_` and `slab_` begin, and the listeners.
pub record UdpServer : Type 0 where
  pub memory : Bytes
  pub udp_at : ℕ
  pub slab_at : ℕ
  pub on_recv : FunctionList
  pub on_error : FunctionList

abbrev pub slab_size : ℕ
slab_size = 16 * 64 * 1024

-- A listener that is called, with the bytes or with the error.
pub data Heard : Type 0 where
  got : ℕ → Bytes → Heard
  failed_with : ℕ → ℤ → Heard

-- `OnAlloc`: the place and the length of the buffer. The handle, which is `udp_`, is taken for the
-- server.
unfoldable pub on_alloc : UdpServer → ℕ × ℕ
on_alloc u = (u.udp_at + u.slab_at, slab_size)

-- `OnRecv`, with the place of the buffer.
unfoldable pub on_recv : ℕ → ℤ → UdpServer → List Heard
on_recv base (pos zero) u = []
on_recv base (pos (suc n)) u =
    map (λ f. got f (take (suc n) (drop base u.memory))) (invoke_all u.on_recv)
on_recv base (negsuc k) u = map (λ f. failed_with f (negsuc k)) (invoke_all u.on_error)

-- What comes at a port. An error comes without data.
pub data Arrival : Type 0 where
  datagram : Bytes → Arrival
  read_error : ℕ → Arrival

-- The two callbacks, between which the datagram is written, or as much as the buffer's length allows;
-- `none` is a write out of the object.
unfoldable pub receive : Arrival → UdpServer → Option (List Heard × UdpServer)
receive (datagram s) u =
    let (base, len) = on_alloc u in
    let s' = take len s in
    chain (store_at base s' u.memory)
      (λ m. let v = record u { memory = m } in some (on_recv base (pos (length s')) v, v))
receive (read_error k) u = some (on_recv (on_alloc u).0 (negsuc k) u, u)

abbrev pub heard_then :
    Option (List Heard × UdpServer)
    → (UdpServer → Option (List Heard × UdpServer))
    → Option (List Heard × UdpServer)
heard_then none k = none
heard_then (some (out, u)) k = elim (k u) [ none ↦ none | some (more, v) ↦ some (out ++ more, v) ]

unfoldable pub receive_all : List Arrival → UdpServer → Option (List Heard × UdpServer)
receive_all [] u = some ([], u)
receive_all (a ∷ as_) u = heard_then (receive a u) (receive_all as_)

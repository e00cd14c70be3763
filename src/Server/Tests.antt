-- ===== src/Server/Tests.antt =====
-- The properties of the servers at concrete inputs.
use nexer.Prelude.{ℕ, ◌+◌, ◌≡◌, refl, true, some, List, [], ◌∷◌, arith, Bytes, codes, length}
use nexer.Prelude.Int.{pos, negsuc}
use nexer.Buffer.Memory.{zeros, length-zeros}
use nexer.Handle.Listeners.{new_list, add, invoke_all}
use nexer.Server.{
  TcpServer, on_connection, UdpServer, Arrival, datagram, read_error, receive_all, slab_size,
}
use nexer.Server.Connections.{on_connections, given}
use nexer.Server.Datagrams.{to_hear, SameAround, IsLaidOut, receive_all-to_hear}

abbrev tcp_server : TcpServer
tcp_server = record { has_listener = true; listeners = add 9 new_list; next_client = 3 }

-- The second of four connections is not accepted, and the third is an error.
given-run :
    given
      (on_connections
        ((pos 0, pos 0) ∷ (pos 0, negsuc 0) ∷ (negsuc 4, pos 0) ∷ (pos 0, pos 0) ∷ [])
        tcp_server).0
    ≡ 3 ∷ 5 ∷ []
unfolding on_connections on_connection add invoke_all
given-run = refl

abbrev object_size : ℕ
object_size = 312 + slab_size + 24

-- An object of a million bytes, which is not looked into.
unfoldable blank : ℕ → Bytes
blank n = zeros n

length-blank : (n : ℕ) → length (blank n) ≡ n
unfolding blank
length-blank n = length-zeros n

abbrev udp_server : UdpServer
udp_server = record {
  memory = blank object_size;
  udp_at = 96;
  slab_at = 312;
  on_recv = add 1 (add 2 new_list);
  on_error = add 3 new_list;
}

udp_server-IsLaidOut : IsLaidOut udp_server
udp_server-IsLaidOut = record {
  room = omega arith;
  inside = omega (arith, length-blank object_size);
}

abbrev arrivals : List Arrival
arrivals = datagram (codes "ab") ∷ datagram [] ∷ read_error 4 ∷ datagram (codes "c") ∷ []

receive_all-to_hear_example :
    (m : Bytes) × (receive_all arrivals udp_server
      ≡ some (
        to_hear (invoke_all udp_server.on_recv) (invoke_all udp_server.on_error) arrivals,
        record udp_server { memory = m },
      ))
    × SameAround udp_server m
receive_all-to_hear_example =
    receive_all-to_hear arrivals udp_server (omega arith, (omega arith, (omega arith, tt)))
      udp_server-IsLaidOut

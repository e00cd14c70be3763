-- ===== src/Server/Datagrams.antt =====
-- Datagrams that come at a UDP server.
use nexer.Prelude.{
  ◌++◌, map, ◌∙◌, [], ◌∷◌, ℕ, ◌+◌, ◌≤◌, ◌≡◌, refl, ap, some, List, arith, Bytes, length, take, drop,
}
use nexer.Prelude.Int.{pos, negsuc}
use nexer.Buffer.Memory.{take-past}
use nexer.Handle.Listeners.{invoke_all}
use nexer.Server.{
  receive_all, failed_with, got, UdpServer, slab_size, Heard, on_alloc, on_recv, Arrival, datagram,
  read_error, receive,
}
use nexer.Server.Patches.{Written, store_at-Written}

-- The most bytes that a datagram has over IPv4.
abbrev pub max_datagram : ℕ
max_datagram = 65507

-- The buffer, which begins `udp_at` bytes too late, has room for any datagram in the slab, and the slab
-- is in the object.
pub record IsLaidOut (u : UdpServer) : Type 0 where
  pub room : u.udp_at + max_datagram ≤ slab_size
  pub inside : u.slab_at + slab_size ≤ length u.memory

abbrev pub AreDatagrams : List Arrival → Type 0
AreDatagrams [] = Unit
AreDatagrams (datagram s ∷ as_) = (length s ≤ max_datagram) × AreDatagrams as_
AreDatagrams (read_error k ∷ as_) = AreDatagrams as_

-- What the listeners for data and those for errors should hear; an empty datagram is passed over.
abbrev pub to_hear : List ℕ → List ℕ → List Arrival → List Heard
to_hear fs gs [] = []
to_hear fs gs (datagram [] ∷ as_) = to_hear fs gs as_
to_hear fs gs (datagram (c ∷ s) ∷ as_) = map (λ f. got f (c ∷ s)) fs ++ to_hear fs gs as_
to_hear fs gs (read_error k ∷ as_) = map (λ f. failed_with f (negsuc k)) gs ++ to_hear fs gs as_

-- The bytes of the object in front of the slab and behind it are the same.
abbrev pub SameAround : UdpServer → Bytes → Type 0
SameAround u m =
    (take u.slab_at m ≡ take u.slab_at u.memory)
    × (drop (u.slab_at + slab_size) m ≡ drop (u.slab_at + slab_size) u.memory)

on_recv-datagram :
    (s m : Bytes) (base : ℕ) (u : UdpServer) (gs : List ℕ) (as_ : List Arrival)
    → take (length s) (drop base m) ≡ s
    → on_recv base (pos (length s)) (record u { memory = m })
        ++ to_hear (invoke_all u.on_recv) gs as_
      ≡ to_hear (invoke_all u.on_recv) gs (datagram s ∷ as_)
unfolding on_recv
on_recv-datagram [] m base u gs as_ e = refl
on_recv-datagram (c ∷ s) m base u gs as_ e =
    let fs = invoke_all u.on_recv in ap (λ t. map (λ f. got f t) fs ++ to_hear fs gs as_) e

receive-Written :
    (s m : Bytes) (u : UdpServer)
    → length s ≤ max_datagram
    → IsLaidOut u
    → Written (u.udp_at + u.slab_at) u.slab_at (u.slab_at + slab_size) s u.memory m
    → receive (datagram s) u
      ≡ some (
        on_recv (u.udp_at + u.slab_at) (pos (length s)) (record u { memory = m }),
        record u { memory = m },
      )
unfolding receive on_alloc
receive-Written s m u l laid w =
    let whole : take slab_size s ≡ s = take-past slab_size s (omega arith) in
    rw (whole, w.stored) refl

receive_error :
    (k : ℕ) (u : UdpServer)
    → receive (read_error k) u
      ≡ some (map (λ f. failed_with f (negsuc k)) (invoke_all u.on_error), u)
unfolding receive on_recv
receive_error k u = refl

-- Where a datagram has room in the slab although the buffer begins behind the slab's begin, whatever
-- datagrams and errors come at a UDP server: none is written out of the object, the bytes of the object
-- in front of the slab and behind it stay as they are, and each listener is given each datagram that is
-- not empty whole, and each error, in the order in which they come.
pub receive_all-to_hear :
    (as_ : List Arrival) (u : UdpServer)
    → AreDatagrams as_
    → IsLaidOut u
    → (m : Bytes) × (receive_all as_ u
        ≡ some
            (to_hear (invoke_all u.on_recv) (invoke_all u.on_error) as_, record u { memory = m }))
      × SameAround u m
unfolding receive_all
receive_all-to_hear [] u d laid = (u.memory, refl, (refl, refl))
receive_all-to_hear (datagram s ∷ as_) u (l, d) laid =
    let gs = invoke_all u.on_error in
    let base = u.udp_at + u.slab_at in
    let room = laid.room in
    let inside = laid.inside in
    let (m, w) =
      store_at-Written base u.slab_at (u.slab_at + slab_size) s u.memory (omega arith) (omega arith)
        (omega arith) in
    let again : IsLaidOut (record u { memory = m }) = record {
      room = room;
      inside = omega (arith, w.size);
    } in
    let (n, e, (before, behind)) = receive_all-to_hear as_ (record u { memory = m }) d again in
    (
      n,
      rw (receive-Written s m u l laid w, e)
          (ap (λ hs. some (hs, record u { memory = n }))
            (on_recv-datagram s m base u gs as_ w.back)),
      (before ∙ w.before, behind ∙ w.behind),
    )
receive_all-to_hear (read_error k ∷ as_) u d laid =
    let (n, e, around) = receive_all-to_hear as_ u d laid in
    (n, rw (receive_error k u, e) refl, around)

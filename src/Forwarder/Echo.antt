-- ===== src/Forwarder/Echo.antt =====
-- One handle on both sides, as the dummy TCP server of src/nexer.cc makes it: what comes in goes
-- back out. Only the callbacks of the incoming client are registered on the handle.
pub mod Returns
use nexer.Prelude.{ℕ, ◌≡◌, ◌⊎◌, true, some, [], ◌++◌, arith, Bytes, ==-refl}
use nexer.Forwarder.State.{
  Side, incoming, outgoing, Forwarder, same, pending, in_flight, append_in, clear_out, swap, in_0,
  in_1,
}

-- The four pointers lead to the two strings of the incoming client.
pub record Mirror (t : ℕ) (f : Forwarder) : Type 0 where
  pub ins :
      ((f.incoming_client.data_in ≡ in_0) × (f.incoming_client.data_out ≡ in_1))
      ⊎ (f.incoming_client.data_in ≡ in_1) × (f.incoming_client.data_out ≡ in_0)
  pub same_in : f.outgoing_client.data_in ≡ f.incoming_client.data_in
  pub same_out : f.outgoing_client.data_out ≡ f.incoming_client.data_out
  pub incoming_tcp : f.incoming_client.tcp ≡ some t
  pub outgoing_tcp : f.outgoing_client.tcp ≡ some t

module _ (t : ℕ) (f : Forwarder) (m : Mirror t f) where
  one_handle : same f.incoming_client.tcp f.outgoing_client.tcp ≡ true
  one_handle = rw (m.incoming_tcp, m.outgoing_tcp) (==-refl t)

  pub append_in-Mirror : (b : Bytes) → Mirror t (append_in incoming b f)
  unfolding append_in
  append_in-Mirror b = ground arith

  pub clear_out-Mirror : (s : Side) → Mirror t (clear_out s f)
  unfolding clear_out
  clear_out-Mirror s = ground arith

  pub swap-Mirror : (s : Side) → Mirror t (swap s f)
  unfolding swap
  swap-Mirror incoming = ground (arith, one_handle)
  swap-Mirror outgoing = ground (arith, one_handle)

  pub pending-append :
      (b : Bytes) → pending incoming (append_in incoming b f) ≡ pending incoming f ++ b
  unfolding pending append_in
  pending-append b = ground arith

  pub in_flight-append :
      (b : Bytes) → in_flight incoming (append_in incoming b f) ≡ in_flight incoming f
  unfolding in_flight append_in
  in_flight-append b = ground arith

  pub pending-clear : pending incoming (clear_out outgoing f) ≡ pending incoming f
  unfolding pending clear_out
  pending-clear = ground arith

  pub in_flight-clear : in_flight incoming (clear_out outgoing f) ≡ []
  unfolding in_flight clear_out
  in_flight-clear = ground arith

  pub pending-outgoing : pending outgoing f ≡ pending incoming f
  unfolding pending
  pending-outgoing = ground arith

  pub in_flight-outgoing : in_flight outgoing f ≡ in_flight incoming f
  unfolding in_flight
  in_flight-outgoing = ground arith

  pub pending-swapped : (s : Side) → pending incoming (swap s f) ≡ in_flight incoming f
  unfolding pending in_flight swap
  pending-swapped incoming = ground (arith, one_handle)
  pending-swapped outgoing = ground (arith, one_handle)

  pub in_flight-swapped : (s : Side) → in_flight incoming (swap s f) ≡ pending incoming f
  unfolding pending in_flight swap
  in_flight-swapped incoming = ground (arith, one_handle)
  in_flight-swapped outgoing = ground (arith, one_handle)

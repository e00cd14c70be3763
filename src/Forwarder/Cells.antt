-- ===== src/Forwarder/Cells.antt =====
-- What the steps on the strings do to the bytes pending and in flight, where each client's two
-- pointers lead to its own two strings and the handles differ.
use nexer.Prelude.{◌≡◌, ◌⊎◌, false, ◌++◌, arith, Bytes, [], ℕ, Bool, refl}
use nexer.Forwarder.State.{
  Side, incoming, outgoing, peer, in_0, in_1, out_0, out_1, Forwarder, same, pending, in_flight,
  append_in, clear_out, swap, client, set_client,
}

pub record Cells (f : Forwarder) : Type 0 where
  pub ins :
      ((f.incoming_client.data_in ≡ in_0) × (f.incoming_client.data_out ≡ in_1))
      ⊎ (f.incoming_client.data_in ≡ in_1) × (f.incoming_client.data_out ≡ in_0)
  pub outs :
      ((f.outgoing_client.data_in ≡ out_0) × (f.outgoing_client.data_out ≡ out_1))
      ⊎ (f.outgoing_client.data_in ≡ out_1) × (f.outgoing_client.data_out ≡ out_0)

abbrev pub Split : Forwarder → Type 0
Split f = same f.incoming_client.tcp f.outgoing_client.tcp ≡ false

module _ (b : Bytes) (f : Forwarder) (c : Cells f) where
  pub pending-append_in : (s : Side) → pending s (append_in s b f) ≡ pending s f ++ b
  unfolding pending append_in
  pending-append_in incoming = ground arith
  pending-append_in outgoing = ground arith

  pub pending-append_in-peer : (s : Side) → pending (peer s) (append_in s b f) ≡ pending (peer s) f
  unfolding pending append_in
  pending-append_in-peer incoming = ground arith
  pending-append_in-peer outgoing = ground arith

  pub in_flight-append_in : (s t : Side) → in_flight t (append_in s b f) ≡ in_flight t f
  unfolding in_flight append_in
  in_flight-append_in incoming incoming = ground arith
  in_flight-append_in _ _ = ground arith

module _ (f : Forwarder) (c : Cells f) where
  pub pending-clear_out : (s t : Side) → pending t (clear_out s f) ≡ pending t f
  unfolding pending clear_out
  pending-clear_out incoming incoming = ground arith
  pending-clear_out _ _ = ground arith

  pub in_flight-clear_out : (s : Side) → in_flight s (clear_out s f) ≡ []
  unfolding in_flight clear_out
  in_flight-clear_out incoming = ground arith
  in_flight-clear_out outgoing = ground arith

  pub in_flight-clear_out-peer :
      (s : Side) → in_flight (peer s) (clear_out s f) ≡ in_flight (peer s) f
  unfolding in_flight clear_out
  in_flight-clear_out-peer incoming = ground arith
  in_flight-clear_out-peer outgoing = ground arith

  pub pending-swap : Split f → (s : Side) → pending s (swap s f) ≡ in_flight s f
  unfolding pending in_flight swap
  pending-swap d incoming = ground arith
  pending-swap d outgoing = ground arith

  pub in_flight-swap : Split f → (s : Side) → in_flight s (swap s f) ≡ pending s f
  unfolding pending in_flight swap
  in_flight-swap d incoming = ground arith
  in_flight-swap d outgoing = ground arith

  pub pending-swap-peer : Split f → (s : Side) → pending (peer s) (swap s f) ≡ pending (peer s) f
  unfolding pending swap
  pending-swap-peer d incoming = ground arith
  pending-swap-peer d outgoing = ground arith

  pub in_flight-swap-peer :
      Split f → (s : Side) → in_flight (peer s) (swap s f) ≡ in_flight (peer s) f
  unfolding in_flight swap
  in_flight-swap-peer d incoming = ground arith
  in_flight-swap-peer d outgoing = ground arith

  pub append_in-Cells : (s : Side) (b : Bytes) → Cells (append_in s b f)
  unfolding append_in
  append_in-Cells incoming b = ground arith
  append_in-Cells outgoing b = ground arith

  pub clear_out-Cells : (s : Side) → Cells (clear_out s f)
  unfolding clear_out
  clear_out-Cells incoming = ground arith
  clear_out-Cells outgoing = ground arith

  pub swap-Cells : Split f → (s : Side) → Cells (swap s f)
  unfolding swap
  swap-Cells d incoming = ground arith
  swap-Cells d outgoing = ground arith

  pub data_out-swap-peer :
      Split f → (s : Side) → (client (peer s) (swap s f)).data_out ≡ (client (peer s) f).data_out
  unfolding client swap set_client
  data_out-swap-peer d incoming = ground arith
  data_out-swap-peer d outgoing = ground arith

-- The steps on the strings leave the handles and the object alone.
module _ (s t : Side) (f : Forwarder) where
  pub client-append_in : (b : Bytes) → client t (append_in s b f) ≡ client t f
  unfolding client append_in
  client-append_in b = ground arith

  pub client-clear_out : client t (clear_out s f) ≡ client t f
  unfolding client clear_out
  client-clear_out = ground arith

  pub tcp-swap : (client t (swap s f)).tcp ≡ (client t f).tcp
  unfolding client swap set_client
  tcp-swap = ground arith

  pub tcps-swap :
      ((swap s f).incoming_client.tcp ≡ f.incoming_client.tcp)
      × ((swap s f).outgoing_client.tcp ≡ f.outgoing_client.tcp)
      × ((swap s f).deleted ≡ f.deleted)
  unfolding client swap set_client
  tcps-swap = (ground arith, ground arith, ground arith)

-- So do the other two steps on the strings.
module _ (s : Side) (f : Forwarder) where
  pub tcps-append_in :
      (b : Bytes)
      → ((append_in s b f).incoming_client.tcp ≡ f.incoming_client.tcp)
        × ((append_in s b f).outgoing_client.tcp ≡ f.outgoing_client.tcp)
        × ((append_in s b f).deleted ≡ f.deleted)
  unfolding append_in
  tcps-append_in b = (refl, refl, refl)

  pub tcps-clear_out :
      ((clear_out s f).incoming_client.tcp ≡ f.incoming_client.tcp)
      × ((clear_out s f).outgoing_client.tcp ≡ f.outgoing_client.tcp)
      × ((clear_out s f).deleted ≡ f.deleted)
  unfolding clear_out
  tcps-clear_out = (refl, refl, refl)

-- The closing flags bear on none of these.
module _ (f : Forwarder) (c : ℕ → Bool) where
  pub pending_closing : (s : Side) → pending s (record f { closing = c }) ≡ pending s f
  unfolding pending
  pending_closing incoming = refl
  pending_closing outgoing = refl

  pub in_flight_closing : (s : Side) → in_flight s (record f { closing = c }) ≡ in_flight s f
  unfolding in_flight
  in_flight_closing incoming = refl
  in_flight_closing outgoing = refl

  pub client_closing : (s : Side) → client s (record f { closing = c }) ≡ client s f
  unfolding client
  client_closing incoming = refl
  client_closing outgoing = refl

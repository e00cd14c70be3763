-- ===== src/Forwarder/Relay.antt =====
-- Two different handles: what `Init`'s callbacks relay between them.
use nexer.Prelude.{
  ℕ, ◌≡◌, sym, ap, ◌∙◌, ◌⊎◌, Bool, false, Option, none, some, List, [], ◌++◌, append-nil, arith,
  Bytes, ◌==◌, ==-refl,
}
use nexer.Forwarder.State.{
  Side, incoming, outgoing, peer, Client, Forwarder, client, pending, in_flight, swap,
}
use nexer.Forwarder.Cells.{
  Cells, Split, pending-swap, in_flight-swap, pending-swap-peer, in_flight-swap-peer,
  data_out-swap-peer, swap-Cells, tcp-swap, tcps-swap, pending_closing, in_flight_closing,
  client_closing,
}
use nexer.Forwarder.Effects.{handed, Ensures, Wrote, Ensures-mono, write_to-Wrote, only}
use nexer.Forwarder.{Effect, write_to, Event, received, sent, failed, closed, connected}

-- The handles: `a` comes in, `b` goes out.
abbrev pub handle_of : ℕ → ℕ → Side → ℕ
handle_of a b incoming = a
handle_of a b outgoing = b

abbrev pub Is : ℕ → Option ℕ → Type 0
Is t o = (o ≡ some t) ⊎ (o ≡ none)

-- The state between two callbacks.
pub record Bridge (a b : ℕ) (f : Forwarder) : Type 0 where
  pub cells : Cells f
  pub incoming_is : Is a f.incoming_client.tcp
  pub outgoing_is : Is b f.outgoing_client.tcp
  pub split : f.deleted ≡ false → Split f

-- The bytes that an event brings from one side.
abbrev pub arrived : Side → Event → Bytes
arrived incoming (received incoming bytes w x) = bytes
arrived outgoing (received outgoing bytes w x) = bytes
arrived s e = []

-- The event loop calls back on handles that are still open, and the proxy connects once, before
-- the incoming side has closed.
abbrev pub Allowed : ℕ → ℕ → Event → Forwarder → Type 0
Allowed a b (received s bytes w x) f = (client s f).tcp ≡ some (handle_of a b s)
Allowed a b (sent s x) f = (client s f).tcp ≡ some (handle_of a b s)
Allowed a b (failed s) f = (client s f).tcp ≡ some (handle_of a b s)
Allowed a b (closed s) f = (client s f).tcp ≡ some (handle_of a b s)
Allowed a b (connected t x) f =
    (t ≡ b) × (f.outgoing_client.tcp ≡ none) × (f.incoming_client.tcp ≡ some a)

-- The event that says that the last write to the peer of `s` is done.
abbrev pub Completes : Side → Event → Type 0
Completes s e = (x : Bool) × (e ≡ sent (peer s) x)

-- The bytes from `s` on their way to the handle `t`, before and after an event that brings `x`.
-- Those given to `Write` and those kept back are those that were kept back and those that came,
-- in order. What a write reads (the string at `data_out`) stays until its completion, and nothing
-- else is written meanwhile; otherwise it is what is written now.
pub record MovesBy (t : ℕ) (s : Side) (x : Bytes) (done : Type 0) (f g : Forwarder)
    (es : List Effect) : Type 0 where
  pub relayed : handed t es ++ pending s g ≡ pending s f ++ x
  pub one_write :
      ((in_flight s g ≡ in_flight s f)
        × ((client s g).data_out ≡ (client s f).data_out)
        × (handed t es ≡ []))
      ⊎ ((handed t es ≡ in_flight s g) × ((in_flight s f ≡ []) ⊎ done))

abbrev pub Moves : ℕ → ℕ → Side → Event → Forwarder → Forwarder → List Effect → Type 0
Moves a b s e = MovesBy (handle_of a b (peer s)) s (arrived s e) (Completes s e)

abbrev pub Good : ℕ → ℕ → Event → Forwarder → Forwarder → List Effect → Type 0
Good a b e f g es = Bridge a b g × ((s : Side) → Moves a b s e f g es)

-- A step that changes the closing flags only keeps everything.
pub record Pushed (a b : ℕ) (s : Side) (f g : Forwarder) (es : List Effect) : Type 0 where
  pub bridge : Bridge a b g
  pub given : handed (handle_of a b (peer s)) es ≡ in_flight s g
  pub emptied : in_flight s g ++ pending s g ≡ pending s f
  pub other_given : handed (handle_of a b s) es ≡ []
  pub other_pending : pending (peer s) g ≡ pending (peer s) f
  pub other_flight : in_flight (peer s) g ≡ in_flight (peer s) f
  pub other_out : (client (peer s) g).data_out ≡ (client (peer s) f).data_out

module _ (a b : ℕ) (differ : (a == b) ≡ false) where
  pub closing-Bridge :
      (f : Forwarder) (c : ℕ → Bool) → Bridge a b f → Bridge a b (record f { closing = c })
  closing-Bridge f c v = record {
    cells = record { ins = v.cells.ins; outs = v.cells.outs };
    incoming_is = v.incoming_is;
    outgoing_is = v.outgoing_is;
    split = v.split;
  }

  pub kept-Bridge :
      (f g : Forwarder)
      → Cells g
      → (g.incoming_client.tcp ≡ f.incoming_client.tcp)
        × (g.outgoing_client.tcp ≡ f.outgoing_client.tcp)
        × (g.deleted ≡ f.deleted)
      → Bridge a b f
      → Bridge a b g
  kept-Bridge f g c (p, q, r) v = record {
    cells = c;
    incoming_is = rw p v.incoming_is;
    outgoing_is = rw q v.outgoing_is;
    split = λ h. rw (p, q) (v.split (sym r ∙ h));
  }

  swap-Bridge : (s : Side) (f : Forwarder) → Split f → Bridge a b f → Bridge a b (swap s f)
  swap-Bridge s f d v = kept-Bridge f (swap s f) (swap-Cells f v.cells d s) (tcps-swap s s f) v

  handles_differ : (s : Side) → (handle_of a b (peer s) == handle_of a b s) ≡ false
  handles_differ incoming = ground arith
  handles_differ outgoing = differ

  -- The common end of the three callbacks that write.
  pub push-Pushed :
      (s : Side) (f : Forwarder) (accepted : Bool)
      → Bridge a b f
      → Split f
      → in_flight s f ≡ []
      → (client (peer s) f).tcp ≡ some (handle_of a b (peer s))
      → Ensures (Pushed a b s f) (write_to (peer s) (in_flight s (swap s f)) accepted (swap s f))
  push-Pushed s f accepted v d e t =
      let h = swap s f in
      let u = handle_of a b (peer s) in
      let bytes = in_flight s h in
      Ensures-mono (Wrote h (only u bytes)) (Pushed a b s f) (write_to (peer s) bytes accepted h)
        (λ g es (p, q).
          let fl : (r : Side) → in_flight r g ≡ in_flight r h =
            λ r. ap (in_flight r) p ∙ in_flight_closing h g.closing r in
          let pe : (r : Side) → pending r g ≡ pending r h =
            λ r. ap (pending r) p ∙ pending_closing h g.closing r in
          record {
            bridge = rw p (closing-Bridge h g.closing (swap-Bridge s f d v));
            given = q u ∙ rw (==-refl u) (sym (fl s));
            emptied = rw (
              fl s,
              pe s,
              in_flight-swap f v.cells d s,
              pending-swap f v.cells d s,
              e,
              append-nil,
            );
            other_given = q (handle_of a b s) ∙ rw (handles_differ s);
            other_pending = pe (peer s) ∙ pending-swap-peer f v.cells d s;
            other_flight = fl (peer s) ∙ in_flight-swap-peer f v.cells d s;
            other_out =
                ap (λ (x : Forwarder). (client (peer s) x).data_out) p
                ∙ ap (λ (x : Client). x.data_out) (client_closing h g.closing (peer s))
                ∙ data_out-swap-peer f v.cells d s;
          })
        (write_to-Wrote (peer s) bytes accepted h u (tcp-swap s (peer s) f ∙ t))

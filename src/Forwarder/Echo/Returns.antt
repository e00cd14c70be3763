-- ===== src/Forwarder/Echo/Returns.antt =====
-- What the echoing forwarder returns.
use nexer.Prelude.{
  ℕ, ◌≡◌, refl, sym, ap, ◌∙◌, inl, inr, Bool, false, not, ◌&&◌, none, some, List, [], ◌∷◌, ◌++◌,
  append_assoc, append-nil, Bytes, is_nil, All, ==-refl, Bool-cases, if_false, and_true, is_nil→eq,
}
use nexer.Forwarder.State.{
  Side, incoming, outgoing, Forwarder, client, same, pending, in_flight, append_in, clear_out, swap,
}
use nexer.Forwarder.Cells.{pending_closing, tcps-append_in, tcps-clear_out, tcps-swap}
use nexer.Forwarder.Effects.{
  handed, handed-append, Ensures, Ensures-mono, >>=-Ensures, Wrote, only, write_to-Wrote,
}
use nexer.Forwarder.Relay.{arrived}
use nexer.Forwarder.History.{arrivals}
use nexer.Forwarder.Echo.{
  Mirror, append_in-Mirror, clear_out-Mirror, swap-Mirror, pending-append, pending-clear,
  in_flight-clear, in_flight-outgoing, pending-swapped, in_flight-swapped,
}
use nexer.Forwarder.{
  Effect, create, write_to, on_data, on_send, set_outgoing, Event, received, sent, failed, closed,
  connected, handle, step, run, ◌>>=◌,
}

-- A step on the one handle `t` that brings `x`.
record Returned (t : ℕ) (x : Bytes) (f g : Forwarder) (es : List Effect) : Type 0 where
  mirror : Mirror t g
  alive : g.deleted ≡ f.deleted
  returned : handed t es ++ pending incoming g ≡ pending incoming f ++ x

Mirror-closing :
    (t : ℕ) (f : Forwarder) (c : ℕ → Bool) → Mirror t f → Mirror t (record f { closing = c })
Mirror-closing t f c m = record {
  ins = m.ins;
  same_in = m.same_in;
  same_out = m.same_out;
  incoming_tcp = m.incoming_tcp;
  outgoing_tcp = m.outgoing_tcp;
}

tcp_of : (t : ℕ) (s : Side) (f : Forwarder) → Mirror t f → (client s f).tcp ≡ some t
unfolding client
tcp_of t incoming f m = m.incoming_tcp
tcp_of t outgoing f m = m.outgoing_tcp

in_flight_of :
    (t : ℕ) (s : Side) (f : Forwarder) → Mirror t f → in_flight s f ≡ in_flight incoming f
in_flight_of t incoming f m = refl
in_flight_of t outgoing f m = in_flight-outgoing t f m

push-Returned :
    (t : ℕ) (s r : Side) (f : Forwarder) (accepted : Bool)
    → Mirror t f
    → in_flight incoming f ≡ []
    → Ensures (Returned t [] f) (write_to r (in_flight s (swap s f)) accepted (swap s f))
push-Returned t s r f accepted m e =
    let h = swap s f in
    let m' = swap-Mirror t f m s in
    let bytes = in_flight s h in
    Ensures-mono (Wrote h (only t bytes)) (Returned t [] f) (write_to r bytes accepted h)
      (λ g es (p, q). record {
        mirror = rw p (Mirror-closing t h g.closing m');
        alive = ap (λ (x : Forwarder). x.deleted) p ∙ (tcps-swap s s f).2;
        returned =
            rw
              (
                q t,
                ==-refl t,
                ap (pending incoming) p,
                pending_closing h g.closing incoming,
                pending-swapped t f m s,
                e,
                in_flight_of t s h m',
                in_flight-swapped t f m s,
              )
              refl;
      })
      (write_to-Wrote r bytes accepted h t (tcp_of t r h m'))

-- The callbacks of the one handle.
abbrev pub OnHandle : Event → Type 0
OnHandle (received incoming bytes w x) = Unit
OnHandle (sent incoming x) = Unit
OnHandle e = ⊥

module _ (t : ℕ) (f : Forwarder) (m : Mirror t f) where
  on_data-Returned :
      (x : Bytes) (w accepted : Bool) → Ensures (Returned t x f) (on_data incoming x w accepted f)
  unfolding on_data
  on_data-Returned [] w accepted = record {
    mirror = m;
    alive = refl;
    returned = sym (append-nil _);
  }
  on_data-Returned (c ∷ x) w accepted =
      let g = append_in incoming (c ∷ x) f in
      let m' = append_in-Mirror t f m (c ∷ x) in
      let gone = (tcps-append_in incoming f (c ∷ x)).2 in
      elim (Bool-cases
        (not (same (client outgoing g).tcp none) && w && is_nil (in_flight incoming g))) [
          | inr n ↦
              rw n (record { mirror = m'; alive = gone; returned = pending-append t f m (c ∷ x) })
          | inl y ↦ rw y (
              Ensures-mono (Returned t [] g) (Returned t (c ∷ x) f) _
                (λ h es r. record {
                  mirror = r.mirror;
                  alive = r.alive ∙ gone;
                  returned = r.returned ∙ append-nil _ ∙ pending-append t f m (c ∷ x);
                })
                (push-Returned t incoming outgoing g accepted m' (is_nil→eq _ (and_true _ _ y))))
        ]

  on_send-Returned : (accepted : Bool) → Ensures (Returned t [] f) (on_send incoming accepted f)
  unfolding on_send
  on_send-Returned accepted =
      let g = clear_out outgoing f in
      let m' = clear_out-Mirror t f m outgoing in
      let gone = (tcps-clear_out outgoing f).2 in
      elim (Bool-cases (is_nil (pending outgoing g))) [
        | inl y ↦ rw y (record {
          mirror = m';
          alive = gone;
          returned = pending-clear t f m ∙ sym (append-nil _);
        })
        | inr n ↦ rw n (
            Ensures-mono (Returned t [] g) (Returned t [] f) _
              (λ h es r. record {
                mirror = r.mirror;
                alive = r.alive ∙ gone;
                returned = r.returned ∙ ap (λ b. b ++ []) (pending-clear t f m);
              })
              (push-Returned t outgoing incoming g accepted m' (in_flight-clear t f m)))
      ]

step-Returned :
    (t : ℕ) (e : Event) (f : Forwarder)
    → Mirror t f
    → f.deleted ≡ false
    → OnHandle e
    → Ensures (Returned t (arrived incoming e) f) (step e f)
unfolding step handle
step-Returned t (received incoming x w y) f m l o =
    if_false (Ensures (Returned t x f)) f.deleted none _ l (on_data-Returned t f m x w y)
step-Returned t (sent incoming y) f m l o =
    if_false (Ensures (Returned t [] f)) f.deleted none _ l (on_send-Returned t f m y)
step-Returned t (received outgoing x w y) f m l o = absurd o
step-Returned t (sent outgoing y) f m l o = absurd o
step-Returned t (failed s) f m l o = absurd o
step-Returned t (closed s) f m l o = absurd o
step-Returned t (connected u y) f m l o = absurd o

run-Returned :
    (t : ℕ) (es : List Event) (f : Forwarder)
    → Mirror t f
    → f.deleted ≡ false
    → All OnHandle es
    → Ensures (Returned t (arrivals incoming es) f) (run es f)
unfolding run
run-Returned t [] f m l o = record { mirror = m; alive = refl; returned = sym (append-nil _) }
run-Returned t (e ∷ es) f m l (o, os) =
    >>=-Ensures (Returned t (arrived incoming e) f) _ (step e f) (run es)
      (step-Returned t e f m l o)
      (λ g fs r.
        Ensures-mono (Returned t (arrivals incoming es) g) _ (run es g)
          (λ h gs q. record {
            mirror = q.mirror;
            alive = q.alive ∙ r.alive;
            returned =
                rw (handed-append t fs gs, append_assoc, q.returned, ← append_assoc, r.returned)
                  (append_assoc (pending incoming f) (arrived incoming e) (arrivals incoming es));
          })
          (run-Returned t es g r.mirror (r.alive ∙ l) os))

-- The state that `TcpForwarder::Create(client, client)` leaves, with nothing called yet.
record Started (t : ℕ) (f : Forwarder) (es : List Effect) : Type 0 where
  mirror : Mirror t f
  alive : f.deleted ≡ false
  empty : pending incoming f ≡ []
  quiet : es ≡ []

echo-Started : (t : ℕ) (ok : Bool) → Ensures (Started t) (set_outgoing t ok (create t))
unfolding create set_outgoing pending in_flight
echo-Started t ok = rw (==-refl t) (record {
  mirror = record {
    ins = inl (refl, refl);
    same_in = refl;
    same_out = refl;
    incoming_tcp = refl;
    outgoing_tcp = refl;
  };
  alive = refl;
  empty = refl;
  quiet = refl;
})

-- With one handle on both sides, whatever callbacks for data and for finished writes follow in
-- whatever order, they run without fault, and what was written to the handle and what is still
-- kept back make up what came from it, in order.
pub echo-returns :
    (t : ℕ) (ok : Bool) (es : List Event)
    → All OnHandle es
    → Ensures
        (λ f fs. handed t fs ++ pending incoming f ≡ arrivals incoming es)
        (set_outgoing t ok (create t) >>= run es)
echo-returns t ok es o =
    >>=-Ensures (Started t) (λ f fs. handed t fs ++ pending incoming f ≡ arrivals incoming es)
      (set_outgoing t ok (create t)) (run es) (echo-Started t ok)
      (λ f fs s.
        Ensures-mono (Returned t (arrivals incoming es) f) _ (run es f)
          (λ g gs r. rw s.quiet (r.returned ∙ ap (λ b. b ++ arrivals incoming es) s.empty))
          (run-Returned t es f s.mirror s.alive o))

-- ===== src/Forwarder/Completion.antt =====
-- `OnSend`, `OnError`, `OnClose` and `SetOutgoing` between two different handles.
use nexer.Prelude.{
  ℕ, ◌≡◌, refl, sym, ap, ◌∙◌, inl, inr, Bool, false, some, [], append-nil, Bytes, is_nil, ◌==◌,
  if◌then◌else◌, Bool-cases,
}
use nexer.Forwarder.State.{
  Side, incoming, outgoing, peer, Client, Forwarder, client, pending, in_flight, clear_out, swap,
}
use nexer.Forwarder.Cells.{
  Split, pending-clear_out, in_flight-clear_out, in_flight-clear_out-peer, clear_out-Cells,
  tcps-clear_out, client-clear_out, pending_closing, in_flight_closing, client_closing,
}
use nexer.Forwarder.Effects.{Ensures, Wrote, Ensures-mono, on_error-Wrote, nothing}
use nexer.Forwarder.Relay.{
  handle_of, Bridge, arrived, Completes, Moves, Good, Pushed, closing-Bridge, kept-Bridge,
  push-Pushed,
}
use nexer.Forwarder.Delivery.{Both, kept-MovesBy, Pushed-MovesBy, Pushed-MovesBy-peer, on_data-Both}
use nexer.Forwarder.{Step, on_error, write_to, on_data, on_send, Event, received, sent}

module _ (a b : ℕ) (differ : (a == b) ≡ false) (f : Forwarder) (v : Bridge a b f)
    (d : Split f) where
  clear_out-Bridge : (s : Side) → Bridge a b (clear_out s f)
  clear_out-Bridge s =
      kept-Bridge a b differ f (clear_out s f) (clear_out-Cells f v.cells s) (tcps-clear_out s f) v

  clear_out-Split : (s : Side) → Split (clear_out s f)
  clear_out-Split s = let (p, q, _) = tcps-clear_out s f in rw (p, q) d

  data_out-clear_out : (s t : Side) → (client t (clear_out s f)).data_out ≡ (client t f).data_out
  data_out-clear_out s t = ap (λ (c : Client). c.data_out) (client-clear_out s t f)

  clear_out-Both : (s : Side) (e e' : Type 0) → e → Both a b s [] e e' f (clear_out s f) []
  clear_out-Both s e e' w = (
    clear_out-Bridge s,
    record {
      relayed = pending-clear_out f v.cells s s ∙ sym (append-nil _);
      one_write = inr (sym (in_flight-clear_out f v.cells s), inr w);
    },
    kept-MovesBy (handle_of a b s) (peer s) e' f (clear_out s f) [] refl
        (pending-clear_out f v.cells s (peer s)) (in_flight-clear_out-peer f v.cells s)
        (data_out-clear_out s (peer s)),
  )

  -- The push in `OnSend`.
  send-Both :
      (s : Side) (accepted : Bool) (e e' : Type 0)
      → e
      → (client (peer s) f).tcp ≡ some (handle_of a b (peer s))
      → Ensures (Both a b s [] e e' f) (
          write_to
            (peer s)
            (in_flight s (swap s (clear_out s f)))
            accepted
            (swap s (clear_out s f)))
  send-Both s accepted e e' w t =
      let h = clear_out s f in
      Ensures-mono (Pushed a b s h) (Both a b s [] e e' f) _
        (λ g es q. (
          q.bridge,
          Pushed-MovesBy a b s [] e f h g es (pending-clear_out f v.cells s s ∙ sym (append-nil _))
              (inr w) q,
          Pushed-MovesBy-peer a b s e' f h g es (pending-clear_out f v.cells s (peer s))
              (in_flight-clear_out-peer f v.cells s) (data_out-clear_out s (peer s)) q,
        ))
        (push-Pushed a b differ s h accepted (clear_out-Bridge s) (clear_out-Split s)
          (in_flight-clear_out f v.cells s)
          (ap (λ (c : Client). c.tcp) (client-clear_out s (peer s) f) ∙ t))

  abbrev sending : Side → Bool → Step
  sending s accepted =
      let g = clear_out s f in
      let h = swap s g in
      if is_nil (pending s g) then some (g, []) else write_to (peer s) (in_flight s h) accepted h

  sending-Both :
      (s : Side) (accepted : Bool) (e e' : Type 0)
      → e
      → (client (peer s) f).tcp ≡ some (handle_of a b (peer s))
      → Ensures (Both a b s [] e e' f) (sending s accepted)
  sending-Both s accepted e e' w t = elim (Bool-cases (is_nil (pending s (clear_out s f)))) [
    | inl y ↦ rw y (clear_out-Both s e e' w)
    | inr n ↦ rw n (send-Both s accepted e e' w t)
  ]

  pub on_send-Good :
      (s : Side) (accepted : Bool)
      → (client s f).tcp ≡ some (handle_of a b s)
      → Ensures (Good a b (sent s accepted) f) (on_send s accepted f)
  unfolding on_send
  on_send-Good incoming accepted t =
      Ensures-mono _ _ (sending outgoing accepted)
        (λ g es (q, m, n). (
          q,
          λ s. elim s as (λ s. Moves a b s (sent incoming accepted) f g es) [
            | incoming ↦ n
            | outgoing ↦ m
          ],
        ))
        (sending-Both outgoing accepted (Completes outgoing (sent incoming accepted))
          (Completes incoming (sent incoming accepted)) (accepted, refl) t)
  on_send-Good outgoing accepted t =
      Ensures-mono _ _ (sending incoming accepted)
        (λ g es (q, m, n). (
          q,
          λ s. elim s as (λ s. Moves a b s (sent outgoing accepted) f g es) [
            | incoming ↦ m
            | outgoing ↦ n
          ],
        ))
        (sending-Both incoming accepted (Completes incoming (sent outgoing accepted))
          (Completes outgoing (sent outgoing accepted)) (accepted, refl) t)

  pub on_data-Good :
      (s : Side) (x : Bytes) (w accepted : Bool)
      → Ensures (Good a b (received s x w accepted) f) (on_data s x w accepted f)
  on_data-Good incoming x w accepted =
      let e = received incoming x w accepted in
      Ensures-mono _ _ (on_data incoming x w accepted f)
        (λ g es (q, m, n).
          (q, λ s. elim s as (λ s. Moves a b s e f g es) [ incoming ↦ m | outgoing ↦ n ]))
        (on_data-Both a b differ f v d incoming x w accepted (Completes incoming e)
          (Completes outgoing e))
  on_data-Good outgoing x w accepted =
      let e = received outgoing x w accepted in
      Ensures-mono _ _ (on_data outgoing x w accepted f)
        (λ g es (q, m, n).
          (q, λ s. elim s as (λ s. Moves a b s e f g es) [ incoming ↦ n | outgoing ↦ m ]))
        (on_data-Both a b differ f v d outgoing x w accepted (Completes outgoing e)
          (Completes incoming e))

  pub on_error-Good :
      (s : Side) (e : Event) (t : ℕ)
      → ((r : Side) → arrived r e ≡ [])
      → (client s f).tcp ≡ some t
      → Ensures (Good a b e f) (on_error s f)
  on_error-Good s e t n h =
      Ensures-mono (Wrote f nothing) (Good a b e f) (on_error s f)
        (λ g es (p, q). (
          rw p (closing-Bridge a b differ f g.closing v),
          λ r. rw (n r) (
              kept-MovesBy _ r _ f g es (q _) (ap (pending r) p ∙ pending_closing f g.closing r)
                (ap (in_flight r) p ∙ in_flight_closing f g.closing r)
                (ap (λ (x : Forwarder). (client r x).data_out) p
                  ∙ ap (λ (x : Client). x.data_out) (client_closing f g.closing r))),
        ))
        (on_error-Wrote s f t h)

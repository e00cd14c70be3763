-- ===== src/Forwarder/Closing.antt =====
-- `OnClose` and `SetOutgoing` between two different handles, and the invariant of a whole run.
use nexer.Prelude.{
  ℕ, ◌≡◌, refl, sym, inl, inr, Bool, true, false, not, ◌&&◌, Option, none, some, List, [], ◌∷◌,
  append-nil, arith, is_nil, ◌==◌, if◌then◌else◌, Bool-cases, is_nil→eq, if_false, and_true,
}
use nexer.Forwarder.State.{
  Side, incoming, outgoing, peer, Forwarder, client, set_client, same, pending, in_flight, swap,
}
use nexer.Forwarder.Cells.{Split}
use nexer.Forwarder.Effects.{handed, Ensures, Ensures-mono}
use nexer.Forwarder.Relay.{handle_of, Bridge, Allowed, Completes, Moves, Good, Pushed, push-Pushed}
use nexer.Forwarder.Delivery.{kept-MovesBy, Pushed-MovesBy, Pushed-MovesBy-peer}
use nexer.Forwarder.Completion.{on_send-Good, on_data-Good, on_error-Good}
use nexer.Forwarder.{
  Effect, close, finish, write_to, on_close, set_outgoing, Event, received, sent, failed, closed,
  connected, handle, step, close_handle, drop_tcp, close_rest,
}

same-false_sym : (p q : Option ℕ) → same p q ≡ false → same q p ≡ false
same-false_sym p q h = ground arith

both_sides : (P : Side → Type 0) → P incoming → P outgoing → (s : Side) → P s
both_sides P p q incoming = p
both_sides P p q outgoing = q

module _ (a b : ℕ) (differ : (a == b) ≡ false) (f : Forwarder) (v : Bridge a b f)
    (d : Split f) where
  -- The forwarder without the handle of one side.
  left-Bridge :
      (s : Side) (c : ℕ → Bool) (gone : Bool)
      → (gone ≡ false → Split (drop_tcp s f))
      → Bridge a b (record (drop_tcp s f) { closing = c; deleted = gone })
  unfolding client set_client
  left-Bridge incoming c gone h = record {
    cells = record { ins = v.cells.ins; outs = v.cells.outs };
    incoming_is = inr refl;
    outgoing_is = v.outgoing_is;
    split = h;
  }
  left-Bridge outgoing c gone h = record {
    cells = record { ins = v.cells.ins; outs = v.cells.outs };
    incoming_is = v.incoming_is;
    outgoing_is = inr refl;
    split = h;
  }

  left-Good :
      (s : Side) (c : ℕ → Bool) (gone : Bool) (es : List Effect)
      → ((t : ℕ) → handed t es ≡ [])
      → (gone ≡ false → Split (drop_tcp s f))
      → Good a b (closed s) f (record (drop_tcp s f) { closing = c; deleted = gone }) es
  unfolding client set_client pending in_flight
  left-Good incoming c gone es q h =
      let g : Forwarder = record (drop_tcp incoming f) { closing = c; deleted = gone } in
      (
        left-Bridge incoming c gone h,
        both_sides (λ r. Moves a b r (closed incoming) f g es)
            (kept-MovesBy b incoming (Completes incoming (closed incoming)) f g es (q b) refl refl
              refl)
            (kept-MovesBy a outgoing (Completes outgoing (closed incoming)) f g es (q a) refl refl
              refl),
      )
  left-Good outgoing c gone es q h =
      let g : Forwarder = record (drop_tcp outgoing f) { closing = c; deleted = gone } in
      (
        left-Bridge outgoing c gone h,
        both_sides (λ r. Moves a b r (closed outgoing) f g es)
            (kept-MovesBy b incoming (Completes incoming (closed outgoing)) f g es (q b) refl refl
              refl)
            (kept-MovesBy a outgoing (Completes outgoing (closed outgoing)) f g es (q a) refl refl
              refl),
      )

  left-Split : (s : Side) (t : ℕ) → (client (peer s) f).tcp ≡ some t → Split (drop_tcp s f)
  unfolding client set_client
  left-Split incoming t e = ground arith
  left-Split outgoing t e = ground arith

  close_rest-Good :
      (s : Side) (o : Option ℕ)
      → (client (peer s) f).tcp ≡ o
      → Ensures (Good a b (closed s) f) (close_rest o (drop_tcp s f))
  unfolding close_rest close_handle
  close_rest-Good s none e =
      left-Good s (drop_tcp s f).closing true (finish ∷ []) (λ t. refl) (λ h. cc)
  close_rest-Good s (some t) e = elim (Bool-cases ((drop_tcp s f).closing t)) [
    | inl y ↦ rw y (
        left-Good s (drop_tcp s f).closing (drop_tcp s f).deleted [] (λ t. refl)
          (λ h. left-Split s t e))
    | inr n ↦ rw n (
        left-Good s (λ h. if h == t then true else (drop_tcp s f).closing h) (drop_tcp s f).deleted
          (close t ∷ []) (λ t. refl) (λ h. left-Split s t e))
  ]

  peers_differ : (s : Side) → same (client (peer s) f).tcp (client s f).tcp ≡ false
  unfolding client
  peers_differ incoming = same-false_sym f.incoming_client.tcp f.outgoing_client.tcp d
  peers_differ outgoing = d

  tcp-drop_tcp : (s : Side) → (client (peer s) (drop_tcp s f)).tcp ≡ (client (peer s) f).tcp
  unfolding client set_client
  tcp-drop_tcp incoming = refl
  tcp-drop_tcp outgoing = refl

  pub on_close-Good : (s : Side) → Ensures (Good a b (closed s) f) (on_close s f)
  unfolding on_close
  on_close-Good s =
      if_false
        (λ (g : Forwarder).
          Ensures (Good a b (closed s) f)
            (close_rest (client (peer s) (drop_tcp s g)).tcp (drop_tcp s g)))
        (same (client (peer s) f).tcp (client s f).tcp) (drop_tcp (peer s) f) f (peers_differ s)
        (close_rest-Good s (client (peer s) (drop_tcp s f)).tcp (sym (tcp-drop_tcp s)))

  -- The forwarder with its second handle.
  abbrev joined : Forwarder
  joined = record f { outgoing_client = record f.outgoing_client { tcp = some b } }

  module _ (i : f.incoming_client.tcp ≡ some a) where
    joined-Split : Split joined
    joined-Split = rw i differ

    joined-Bridge : Bridge a b joined
    joined-Bridge = record {
      cells = record { ins = v.cells.ins; outs = v.cells.outs };
      incoming_is = v.incoming_is;
      outgoing_is = inl refl;
      split = λ _. joined-Split;
    }

    joined-Good : (x : Bool) → Good a b (connected b x) f joined []
    unfolding client pending in_flight
    joined-Good x = (
      joined-Bridge,
      both_sides (λ r. Moves a b r (connected b x) f joined [])
          (kept-MovesBy b incoming (Completes incoming (connected b x)) f joined [] refl refl refl
            refl)
          (kept-MovesBy a outgoing (Completes outgoing (connected b x)) f joined [] refl refl refl
            refl),
    )

    join-Good :
        (x : Bool)
        → in_flight incoming joined ≡ []
        → Ensures
            (Good a b (connected b x) f)
            (write_to outgoing (in_flight incoming (swap incoming joined)) x (swap incoming joined))
    unfolding client pending in_flight
    join-Good x m =
        Ensures-mono (Pushed a b incoming joined) (Good a b (connected b x) f) _
          (λ g es q. (
            q.bridge,
            both_sides (λ r. Moves a b r (connected b x) f g es)
                (Pushed-MovesBy a b incoming [] (Completes incoming (connected b x)) f joined g es
                  (sym (append-nil _)) (inl m) q)
                (Pushed-MovesBy-peer a b incoming (Completes outgoing (connected b x)) f joined g es
                  refl refl refl q),
          ))
          (push-Pushed a b differ incoming joined x joined-Bridge joined-Split m refl)

    pub set_outgoing-Good : (x : Bool) → Ensures (Good a b (connected b x) f) (set_outgoing b x f)
    unfolding set_outgoing
    set_outgoing-Good x =
        let apart : same (some b) f.incoming_client.tcp ≡ false =
          rw i (same-false_sym (some a) (some b) differ) in
        elim (Bool-cases
          (not (is_nil (pending incoming joined)) && is_nil (in_flight incoming joined))) [
            | inl y ↦ rw (apart, y) (join-Good x (is_nil→eq _ (and_true _ _ y)))
            | inr n ↦ rw (apart, n) (joined-Good x)
          ]

-- One event: it is handled, and the bridge and the bytes are kept.
pub step-Good :
    (a b : ℕ) (e : Event) (f : Forwarder)
    → (a == b) ≡ false
    → Bridge a b f
    → f.deleted ≡ false
    → Allowed a b e f
    → Ensures (Good a b e f) (step e f)
unfolding step handle
step-Good a b e f n v l al =
    if_false (Ensures (Good a b e f)) f.deleted none (handle e f) l (go e al)
  where
    go : (e : Event) → Allowed a b e f → Ensures (Good a b e f) (handle e f)
    go (received s x w y) al = on_data-Good a b n f v (v.split l) s x w y
    go (sent s y) al = on_send-Good a b n f v (v.split l) s y al
    go (failed s) al =
        on_error-Good a b n f v (v.split l) s (failed s) (handle_of a b s) (both_sides _ refl refl)
          al
    go (closed s) al = on_close-Good a b n f v (v.split l) s
    go (connected t y) (et, _, i) = rw et (set_outgoing-Good a b n f v (v.split l) i y)

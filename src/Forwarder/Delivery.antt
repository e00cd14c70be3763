-- ===== src/Forwarder/Delivery.antt =====
-- Each callback keeps the bridge between two different handles and moves the bytes on.
use nexer.Prelude.{
  ℕ, ◌≡◌, refl, sym, ap, ◌∙◌, ◌⊎◌, inl, inr, Bool, false, ◌&&◌, some, List, [], ◌∷◌, ◌++◌,
  append-nil, Bytes, is_nil, ◌==◌, Bool-cases, is_nil→eq, and_true,
}
use nexer.Forwarder.State.{
  Side, incoming, outgoing, peer, Client, Forwarder, client, pending, in_flight, append_in, swap,
}
use nexer.Forwarder.Cells.{
  Split, pending-append_in, pending-append_in-peer, in_flight-append_in, append_in-Cells,
  client-append_in, tcps-append_in,
}
use nexer.Forwarder.Effects.{handed, Ensures, Ensures-mono}
use nexer.Forwarder.Relay.{handle_of, Bridge, MovesBy, Pushed, kept-Bridge, push-Pushed, Is}
use nexer.Forwarder.{Effect, write_to, on_data}

-- Nothing is written from `s`, and its strings stay.
pub kept-MovesBy :
    (t : ℕ) (s : Side) (done : Type 0) (f g : Forwarder) (es : List Effect)
    → handed t es ≡ []
    → pending s g ≡ pending s f
    → in_flight s g ≡ in_flight s f
    → (client s g).data_out ≡ (client s f).data_out
    → MovesBy t s [] done f g es
kept-MovesBy t s done f g es h p q r = record {
  relayed = rw (h, p, append-nil);
  one_write = inl (q, r, h);
}

module _ (a b : ℕ) where
  -- What a push does to the strings, seen from the state `f` before the callback.
  pub Pushed-MovesBy :
      (s : Side) (x : Bytes) (done : Type 0) (f h g : Forwarder) (es : List Effect)
      → pending s h ≡ pending s f ++ x
      → (in_flight s f ≡ []) ⊎ done
      → Pushed a b s h g es
      → MovesBy (handle_of a b (peer s)) s x done f g es
  Pushed-MovesBy s x done f h g es p q v = record {
    relayed = rw v.given (v.emptied ∙ p);
    one_write = inr (v.given, q);
  }

  pub Pushed-MovesBy-peer :
      (s : Side) (done : Type 0) (f h g : Forwarder) (es : List Effect)
      → pending (peer s) h ≡ pending (peer s) f
      → in_flight (peer s) h ≡ in_flight (peer s) f
      → (client (peer s) h).data_out ≡ (client (peer s) f).data_out
      → Pushed a b s h g es
      → MovesBy (handle_of a b s) (peer s) [] done f g es
  Pushed-MovesBy-peer s done f h g es p q r v =
      kept-MovesBy (handle_of a b s) (peer s) done f g es v.other_given (v.other_pending ∙ p)
        (v.other_flight ∙ q) (v.other_out ∙ r)

  -- One direction and the other.
  abbrev pub Both : Side → Bytes → Type 0 → Type 0 → Forwarder → Forwarder → List Effect → Type 0
  Both s x done done' f g es =
      Bridge a b g
      × MovesBy (handle_of a b (peer s)) s x done f g es
      × MovesBy (handle_of a b s) (peer s) [] done' f g es

module _ (a b : ℕ) (differ : (a == b) ≡ false) (f : Forwarder) (v : Bridge a b f)
    (d : Split f) where
  abbrev after_append : Side → Bytes → Forwarder
  after_append s x = append_in s x f

  append_in-Bridge : (s : Side) (x : Bytes) → Bridge a b (append_in s x f)
  append_in-Bridge s x =
      kept-Bridge a b differ f (append_in s x f) (append_in-Cells f v.cells s x)
        (tcps-append_in s f x) v

  append_in-Split : (s : Side) (x : Bytes) → Split (append_in s x f)
  append_in-Split s x = let (p, q, _) = tcps-append_in s f x in rw (p, q) d

  append_in-Both : (s : Side) (x : Bytes) (e e' : Type 0) → Both a b s x e e' f (append_in s x f) []
  append_in-Both s x e e' = (
    append_in-Bridge s x,
    record {
      relayed = pending-append_in x f v.cells s;
      one_write = inl (
        in_flight-append_in x f v.cells s s,
        ap (λ (c : Client). c.data_out) (client-append_in s s f x),
        refl,
      );
    },
    kept-MovesBy (handle_of a b s) (peer s) e' f (append_in s x f) [] refl
        (pending-append_in-peer x f v.cells s) (in_flight-append_in x f v.cells s (peer s))
        (ap (λ (c : Client). c.data_out) (client-append_in s (peer s) f x)),
  )

  -- The push in `OnData`.
  data-Both :
      (s : Side) (x : Bytes) (accepted : Bool) (e e' : Type 0)
      → in_flight s (append_in s x f) ≡ []
      → (client (peer s) (append_in s x f)).tcp ≡ some (handle_of a b (peer s))
      → Ensures (Both a b s x e e' f) (
          write_to
            (peer s)
            (in_flight s (swap s (append_in s x f)))
            accepted
            (swap s (append_in s x f)))
  data-Both s x accepted e e' m t =
      let h = append_in s x f in
      Ensures-mono (Pushed a b s h) (Both a b s x e e' f) _
        (λ g es q. (
          q.bridge,
          Pushed-MovesBy a b s x e f h g es (pending-append_in x f v.cells s)
              (inl (sym (in_flight-append_in x f v.cells s s) ∙ m)) q,
          Pushed-MovesBy-peer a b s e' f h g es (pending-append_in-peer x f v.cells s)
              (in_flight-append_in x f v.cells s (peer s))
              (ap (λ (c : Client). c.data_out) (client-append_in s (peer s) f x)) q,
        ))
        (push-Pushed a b differ s h accepted (append_in-Bridge s x) (append_in-Split s x) m t)

  peer-Is :
      (s : Side) (x : Bytes) → Is (handle_of a b (peer s)) (client (peer s) (append_in s x f)).tcp
  unfolding client
  peer-Is incoming x = rw (tcps-append_in incoming f x).1 v.outgoing_is
  peer-Is outgoing x = rw (tcps-append_in outgoing f x).0 v.incoming_is

  pub idle-Both : (s : Side) (e e' : Type 0) → Both a b s [] e e' f f []
  idle-Both s e e' = (
    v,
    kept-MovesBy _ s e f f [] refl refl refl refl,
    kept-MovesBy _ (peer s) e' f f [] refl refl refl refl,
  )

  pub on_data-Both :
      (s : Side) (x : Bytes) (w accepted : Bool) (e e' : Type 0)
      → Ensures (Both a b s x e e' f) (on_data s x w accepted f)
  unfolding on_data
  on_data-Both s [] w accepted e e' = idle-Both s e e'
  on_data-Both s (c ∷ x) w accepted e e' = elim (peer-Is s (c ∷ x)) [
    | inr t ↦ rw t (append_in-Both s (c ∷ x) e e')
    | inl t ↦ elim (Bool-cases (w && is_nil (in_flight s (append_in s (c ∷ x) f)))) [
      | inr n ↦ rw (t, n) (append_in-Both s (c ∷ x) e e')
      | inl y ↦ rw (t, y) (data-Both s (c ∷ x) accepted e e' (is_nil→eq _ (and_true w _ y)) t)
    ]
  ]

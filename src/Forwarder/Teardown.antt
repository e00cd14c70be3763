-- ===== src/Forwarder/Teardown.antt =====
-- What `OnError` and `OnClose` leave open.
use nexer.Prelude.{
  ℕ, ◌≡◌, refl, sym, ap, ◌∙◌, ◌⊎◌, inl, inr, Bool, true, false, Option, none, some, List, [], ◌∷◌,
  ◌++◌, arith, ◌==◌, if◌then◌else◌, Bool-cases,
}
use mathlib.Core.Option.{some-injective}
use mathlib.Core.Path.{subst}
use nexer.Forwarder.State.{Side, incoming, outgoing, peer, Forwarder, client, set_client, same}
use nexer.Forwarder.Effects.{Ensures, Ensures-mono, >>=-Ensures}
use nexer.Forwarder.{
  Effect, finish, close_handle, close_open, close_rest, on_error, on_close, deref, drop_tcp,
}

-- Only closing flags change, none is taken back, and those of `o` is set.
abbrev Closes : Option ℕ → Forwarder → Forwarder → List Effect → Type 0
Closes o f g es =
    (g ≡ record f { closing = g.closing })
    × ((u : ℕ) → o ≡ some u → g.closing u ≡ true)
    × ((u : ℕ) → f.closing u ≡ true → g.closing u ≡ true)

set-true : (c : ℕ → Bool) (t u : ℕ) → c u ≡ true → (if u == t then true else c u) ≡ true
set-true c t u h = ground arith

set_self : (c : ℕ → Bool) (t u : ℕ) → some t ≡ some u → (if u == t then true else c u) ≡ true
set_self c t u h = ground arith

close_handle-Closes : (t : ℕ) (f : Forwarder) → Ensures (Closes (some t) f) (close_handle t f)
unfolding close_handle
close_handle-Closes t f = elim (Bool-cases (f.closing t)) [
  | inl e ↦ rw e (refl, λ u h. ap f.closing (sym (some-injective _ _ h)) ∙ e, λ u h. h)
  | inr e ↦ rw e (refl, λ u h. set_self f.closing t u h, λ u h. set-true f.closing t u h)
]

close_open-Closes : (o : Option ℕ) (f : Forwarder) → Ensures (Closes o f) (close_open o f)
unfolding close_open
close_open-Closes none f = (refl, λ u h. cc, λ u h. h)
close_open-Closes (some t) f = elim (Bool-cases (f.closing t)) [
  | inl e ↦ rw e (refl, λ u h. ap f.closing (sym (some-injective _ _ h)) ∙ e, λ u h. h)
  | inr e ↦ rw e (close_handle-Closes t f)
]

tcp_closing :
    (r : Side) (f g : Forwarder)
    → g ≡ record f { closing = g.closing }
    → (client r g).tcp ≡ (client r f).tcp
unfolding client
tcp_closing incoming f g p = ap (λ (x : Forwarder). x.incoming_client.tcp) p
tcp_closing outgoing f g p = ap (λ (x : Forwarder). x.outgoing_client.tcp) p

abbrev BothClosing : Forwarder → List Effect → Type 0
BothClosing g es = (r : Side) (u : ℕ) → (client r g).tcp ≡ some u → g.closing u ≡ true

either_side : (P : Side → Type 0) (s r : Side) → P s → P (peer s) → P r
either_side P incoming incoming p q = p
either_side P incoming outgoing p q = q
either_side P outgoing incoming p q = q
either_side P outgoing outgoing p q = p

-- After an error on one handle, each handle that the forwarder still has is closing.
pub on_error-closing :
    (s : Side) (f : Forwarder) (t : ℕ)
    → (client s f).tcp ≡ some t
    → Ensures
        (λ g es. (r : Side) (u : ℕ) → (client r g).tcp ≡ some u → g.closing u ≡ true)
        (on_error s f)
unfolding on_error
on_error-closing s f t e =
    >>=-Ensures (Closes (some t) f) BothClosing (deref (client s f).tcp (λ t. close_handle t f)) _
      (rw (e, deref) (close_handle-Closes t f))
      (λ g es (p, q, k).
        Ensures-mono (Closes (client (peer s) g).tcp g) (λ h fs. BothClosing h (es ++ fs))
          (close_open (client (peer s) g).tcp g)
          (λ h fs (p', q', k') r.
            either_side (λ r. (u : ℕ) → (client r h).tcp ≡ some u → h.closing u ≡ true) s r
              (λ u m.
                k' u (q u (sym e ∙ sym (tcp_closing s f g p) ∙ sym (tcp_closing s g h p') ∙ m)))
              (λ u m. q' u (sym (tcp_closing (peer s) g h p') ∙ m)))
          (close_open-Closes (client (peer s) g).tcp g))

abbrev TornDown : Side → Bool → Forwarder → List Effect → Type 0
TornDown s gone g es =
    ((client s g).tcp ≡ none)
    × ((((client (peer s) g).tcp ≡ none) × (g.deleted ≡ true) × (es ≡ finish ∷ []))
        ⊎ ((u : ℕ) × ((client (peer s) g).tcp ≡ some u)
            × (g.closing u ≡ true)
            × (g.deleted ≡ gone)))

tcp_flags :
    (s : Side) (f : Forwarder) (c : ℕ → Bool) (gone : Bool)
    → (client s (record f { closing = c; deleted = gone })).tcp ≡ (client s f).tcp
unfolding client
tcp_flags incoming f c gone = refl
tcp_flags outgoing f c gone = refl

close_rest-TornDown :
    (s : Side) (o : Option ℕ) (f : Forwarder)
    → (client s f).tcp ≡ none
    → (client (peer s) f).tcp ≡ o
    → Ensures (TornDown s f.deleted) (close_rest o f)
unfolding close_rest close_handle
close_rest-TornDown s none f e h =
    (tcp_flags s f f.closing true ∙ e, inl (tcp_flags (peer s) f f.closing true ∙ h, refl, refl))
close_rest-TornDown s (some t) f e h = elim (Bool-cases (f.closing t)) [
  | inl y ↦ rw y (e, inr (t, h, y, refl))
  | inr n ↦
      let c = λ (u : ℕ). if u == t then true else f.closing u in
      rw n (
        tcp_flags s f c f.deleted ∙ e,
        inr (t, tcp_flags (peer s) f c f.deleted ∙ h, set_self f.closing t t refl, refl),
      )
]

drop_tcp_lem :
    (s : Side) (b : Bool) (f : Forwarder)
    → let g = drop_tcp s (if b then drop_tcp (peer s) f else f) in
      ((client s g).tcp ≡ none) × (g.deleted ≡ f.deleted)
unfolding client set_client
drop_tcp_lem incoming true f = (refl, refl)
drop_tcp_lem incoming false f = (refl, refl)
drop_tcp_lem outgoing true f = (refl, refl)
drop_tcp_lem outgoing false f = (refl, refl)

-- When a handle has closed, the forwarder lets go of it. If no other handle is left, the owner is
-- told and the forwarder is deleted, in that one step; otherwise the other handle is closing, and
-- the forwarder stays as alive as it was.
pub on_close-teardown :
    (s : Side) (f : Forwarder)
    → Ensures
        (λ g es.
          ((client s g).tcp ≡ none)
          × ((((client (peer s) g).tcp ≡ none) × (g.deleted ≡ true) × (es ≡ finish ∷ []))
              ⊎ ((u : ℕ) × ((client (peer s) g).tcp ≡ some u)
                  × (g.closing u ≡ true)
                  × (g.deleted ≡ f.deleted))))
        (on_close s f)
unfolding on_close
on_close-teardown s f =
    let both = same (client (peer s) f).tcp (client s f).tcp in
    let g = drop_tcp s (if both then drop_tcp (peer s) f else f) in
    let (p, q) = drop_tcp_lem s both f in
    subst (λ (d : Bool). Ensures (TornDown s d) (close_rest (client (peer s) g).tcp g)) q
      (close_rest-TornDown s (client (peer s) g).tcp g p refl)

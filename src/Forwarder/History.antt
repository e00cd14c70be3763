-- ===== src/Forwarder/History.antt =====
-- Whole runs of a forwarder between two different handles.
use nexer.Prelude.{
  ℕ, ◌≡◌, refl, sym, ◌⊎◌, inl, inr, Bool, false, none, some, List, [], ◌∷◌, ◌++◌, append_assoc,
  append-nil, Bytes, ◌==◌,
}
use nexer.Forwarder.State.{Side, incoming, outgoing, peer, Forwarder, client, pending, in_flight}
use nexer.Forwarder.Effects.{handed, handed-append, Ensures}
use nexer.Forwarder.Relay.{handle_of, Bridge, arrived, Allowed}
use nexer.Forwarder.Closing.{step-Good}
use nexer.Forwarder.{Effect, Step, create, Event, sent, step}

-- What a forwarder that was created for the handle `a` may go through, with `b` as the outgoing
-- handle: the events, the state that they lead to, and the calls made on the way. No event comes
-- after the forwarder is deleted.
pub data History (a b : ℕ) : List Event → Forwarder → List Effect → Type 0 where
  start : {f : Forwarder} → f ≡ create a → History a b [] f []
  next :
      {past : List Event} {f g : Forwarder} {es fs : List Effect} (e : Event)
      → History a b past f es
      → f.deleted ≡ false
      → Allowed a b e f
      → step e f ≡ some (g, fs)
      → History a b (past ++ e ∷ []) g (es ++ fs)

-- The bytes that came from one side.
abbrev pub arrivals : Side → List Event → Bytes
arrivals s [] = []
arrivals s (e ∷ es) = arrived s e ++ arrivals s es

arrivals-concat :
    (s : Side) (es : List Event) (e : Event)
    → arrivals s (es ++ e ∷ []) ≡ arrivals s es ++ arrived s e
arrivals-concat s [] e = append-nil (arrived s e)
arrivals-concat s (x ∷ es) e = simp (arrivals-concat s es e, append_assoc)

create-Bridge : (a b : ℕ) → Bridge a b (create a)
unfolding create
create-Bridge a b = record {
  cells = record { ins = inl (refl, refl); outs = inl (refl, refl) };
  incoming_is = inl refl;
  outgoing_is = inr refl;
  split = λ _. refl;
}

create-pending : (a : ℕ) (s : Side) → pending s (create a) ≡ []
unfolding create pending
create-pending a incoming = refl
create-pending a outgoing = refl

Ensures-some :
    (P : Forwarder → List Effect → Type 0) (m : Step) (g : Forwarder) (es : List Effect)
    → m ≡ some (g, es)
    → Ensures P m
    → P g es
Ensures-some P m g es e h = rw e at h

Ensures-is_some :
    (P : Forwarder → List Effect → Type 0) (m : Step)
    → Ensures P m
    → (r : Forwarder × List Effect) × (m ≡ some r)
Ensures-is_some P none h = absurd h
Ensures-is_some P (some r) h = (r, refl)

module _ (a b : ℕ) (differ : (a == b) ≡ false) where
  -- The invariant of a run.
  pub History-Bridge :
      {past : List Event} {f : Forwarder} {es : List Effect} → History a b past f es → Bridge a b f
  History-Bridge (start e) = rw e (create-Bridge a b)
  History-Bridge (next {f = f} {g = g} {fs = fs} e h l al st) =
      (Ensures-some _ (step e f) g fs st (step-Good a b e f differ (History-Bridge h) l al)).0

  History-relayed :
      {past : List Event} {f : Forwarder} {es : List Effect} (s : Side)
      → History a b past f es
      → handed (handle_of a b (peer s)) es ++ pending s f ≡ arrivals s past
  History-relayed s (start e) = rw (e, create-pending a s)
  History-relayed s (next {past} {f = f} {g = g} {es = es} {fs = fs} e h l al st) =
      let t = handle_of a b (peer s) in
      let m =
        (Ensures-some _ (step e f) g fs st (step-Good a b e f differ (History-Bridge h) l al)).1
          s in
      rw (handed-append t es fs, append_assoc, m.relayed, ← append_assoc, History-relayed s h)
        (sym (arrivals-concat s past e))

-- The bytes from either side are handed to the other in the order in which they came, each once,
-- and none is lost: in every state that a run with two different handles reaches, what was handed
-- over and what is still kept back make up what came.
pub relay-in_order :
    (a b : ℕ) (past : List Event) (f : Forwarder) (es : List Effect) (s : Side)
    → (a == b) ≡ false
    → History a b past f es
    → handed (handle_of a b (peer s)) es ++ pending s f ≡ arrivals s past
relay-in_order a b past f es s differ h = History-relayed a b differ s h

-- In every state that a run with two different handles reaches before the forwarder is deleted,
-- every event that may come next is handled: no null pointer is followed, and nothing is done with
-- a deleted forwarder.
pub step-is_some :
    (a b : ℕ) (past : List Event) (f : Forwarder) (es : List Effect) (e : Event)
    → (a == b) ≡ false
    → History a b past f es
    → f.deleted ≡ false
    → Allowed a b e f
    → (r : Forwarder × List Effect) × (step e f ≡ some r)
step-is_some a b past f es e differ h l al =
    Ensures-is_some _ (step e f) (step-Good a b e f differ (History-Bridge a b differ h) l al)

-- In every state that a run with two different handles reaches before the forwarder is deleted,
-- and for every event that may come next: a string that a write reads is left alone until the
-- write is done, with no other write begun on that handle; and whatever is written is then what the
-- string holds.
pub step-one_write :
    (a b : ℕ) (past : List Event) (f g : Forwarder) (es fs : List Effect) (e : Event) (s : Side)
    → (a == b) ≡ false
    → History a b past f es
    → f.deleted ≡ false
    → Allowed a b e f
    → step e f ≡ some (g, fs)
    → ((in_flight s g ≡ in_flight s f)
        × ((client s g).data_out ≡ (client s f).data_out)
        × (handed (handle_of a b (peer s)) fs ≡ []))
      ⊎ ((handed (handle_of a b (peer s)) fs ≡ in_flight s g)
          × ((in_flight s f ≡ []) ⊎ ((x : Bool) × (e ≡ sent (peer s) x))))
step-one_write a b past f g es fs e s differ h l al st =
    let good = step-Good a b e f differ (History-Bridge a b differ h) l al in
    ((Ensures-some _ (step e f) g fs st good).1 s).one_write

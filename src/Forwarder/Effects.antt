-- ===== src/Forwarder/Effects.antt =====
-- What the error handling and a write do: they leave the strings and the pointers as they are.
use nexer.Prelude.{
  ℕ, ◌≡◌, refl, ap, ◌∙◌, inl, inr, Bool, true, false, Option, none, some, List, [], ◌∷◌, ◌++◌,
  append_assoc, append-nil, arith, Bytes, ◌==◌, if◌then◌else◌, Bool-cases,
}
use nexer.Forwarder.State.{Side, incoming, outgoing, peer, Forwarder, client}
use nexer.Forwarder.{
  Effect, write, close, finish, Step, close_handle, close_open, on_error, owner, write_to, ◌>>=◌,
  deref,
}

-- The bytes given to `Write` on one client, in order.
abbrev pub handed : ℕ → List Effect → Bytes
handed t [] = []
handed t (write u b accepted ∷ es) = if u == t then b ++ handed t es else handed t es
handed t (close u ∷ es) = handed t es
handed t (finish ∷ es) = handed t es

pub handed-append : (t : ℕ) (es fs : List Effect) → handed t (es ++ fs) ≡ handed t es ++ handed t fs
handed-append t [] fs = refl
handed-append t (write u b a ∷ es) fs = elim (Bool-cases (u == t)) [
  | inl e ↦ rw e (simp (handed-append t es fs, append_assoc))
  | inr e ↦ rw e (handed-append t es fs)
]
handed-append t (close u ∷ es) fs = handed-append t es fs
handed-append t (finish ∷ es) fs = handed-append t es fs

-- The step succeeds, and its result satisfies the predicate.
abbrev pub Ensures : (Forwarder → List Effect → Type 0) → Step → Type 0
Ensures P none = ⊥
Ensures P (some (g, es)) = P g es

abbrev after : List Effect → Step → Step
after es r = elim r [ none ↦ none | some (g, fs) ↦ some (g, es ++ fs) ]

after-Ensures :
    (Q : Forwarder → List Effect → Type 0) (es : List Effect) (r : Step)
    → Ensures (λ g fs. Q g (es ++ fs)) r
    → Ensures Q (after es r)
after-Ensures Q es none h = h
after-Ensures Q es (some (g, fs)) h = h

pub >>=-Ensures :
    (P Q : Forwarder → List Effect → Type 0) (m : Step) (k : Forwarder → Step)
    → Ensures P m
    → ((g : Forwarder) (es : List Effect) → P g es → Ensures (λ h fs. Q h (es ++ fs)) (k g))
    → Ensures Q (m >>= k)
>>=-Ensures P Q none k h n = absurd h
>>=-Ensures P Q (some (g, es)) k h n = after-Ensures Q es (k g) (n g es h)

pub Ensures-mono :
    (P Q : Forwarder → List Effect → Type 0) (m : Step)
    → ((g : Forwarder) (es : List Effect) → P g es → Q g es)
    → Ensures P m
    → Ensures Q m
Ensures-mono P Q none n h = h
Ensures-mono P Q (some (g, es)) n h = n g es h

-- Only the closing flags of handles change, and nothing is written but `b` to `t`.
abbrev pub Wrote : Forwarder → (ℕ → Bytes) → Forwarder → List Effect → Type 0
Wrote f bytes g es = (g ≡ record f { closing = g.closing }) × ((t : ℕ) → handed t es ≡ bytes t)

abbrev pub nothing : ℕ → Bytes
nothing t = []

close_handle-Wrote : (t : ℕ) (f : Forwarder) → Ensures (Wrote f nothing) (close_handle t f)
unfolding close_handle
close_handle-Wrote t f = elim (Bool-cases (f.closing t)) [
  | inl e ↦ rw e (refl, λ u. refl)
  | inr e ↦ rw e (refl, λ u. refl)
]

close_open-Wrote : (o : Option ℕ) (f : Forwarder) → Ensures (Wrote f nothing) (close_open o f)
unfolding close_open close_handle
close_open-Wrote none f = (refl, λ u. refl)
close_open-Wrote (some t) f = elim (Bool-cases (f.closing t)) [
  | inl e ↦ rw e (refl, λ u. refl)
  | inr e ↦ rw e (refl, λ u. refl)
]

Wrote-trans :
    (bytes : ℕ → Bytes) (f g h : Forwarder) (es fs : List Effect)
    → Wrote f nothing g es
    → Wrote g bytes h fs
    → Wrote f bytes h (es ++ fs)
Wrote-trans bytes f g h es fs (p, q) (r, s) = (
  r ∙ ap (λ (x : Forwarder). record x { closing = h.closing }) p,
  λ t. rw (handed-append t es fs, q t) (s t),
)

pub on_error-Wrote :
    (s : Side) (f : Forwarder) (t : ℕ)
    → (client s f).tcp ≡ some t
    → Ensures (Wrote f nothing) (on_error s f)
unfolding on_error
on_error-Wrote s f t e =
    >>=-Ensures (Wrote f nothing) (Wrote f nothing) (deref (client s f).tcp (λ t. close_handle t f))
      _ (rw (e, deref) (close_handle-Wrote t f))
      (λ g es w.
        Ensures-mono (Wrote g nothing) _ (close_open (client (peer s) g).tcp g)
          (λ h fs v. Wrote-trans nothing f g h es fs w v)
          (close_open-Wrote (client (peer s) g).tcp g))

tcp-owner :
    (s : Side) (f : Forwarder) (t : ℕ)
    → (client s f).tcp ≡ some t
    → (client (owner s f) f).tcp ≡ some t
unfolding client
tcp-owner incoming f t e = ground arith
tcp-owner outgoing f t e = ground arith

abbrev pub only : ℕ → Bytes → ℕ → Bytes
only t b u = if t == u then b else []

pub write_to-Wrote :
    (s : Side) (b : Bytes) (accepted : Bool) (f : Forwarder) (t : ℕ)
    → (client s f).tcp ≡ some t
    → Ensures (Wrote f (only t b)) (write_to s b accepted f)
write_to-Wrote s b true f t e = unfold write_to in rw (e, deref) (refl, λ u. rw append-nil)
write_to-Wrote s b false f t e =
    unfold write_to in
    rw (e, deref)
      (after-Ensures (Wrote f (only t b)) (write t b false ∷ []) (on_error (owner s f) f) (
        Ensures-mono (Wrote f nothing) _ (on_error (owner s f) f)
          (λ g es (p, q). (p, λ u. rw (q u, append-nil)))
          (on_error-Wrote (owner s f) f t (tcp-owner s f t e))))

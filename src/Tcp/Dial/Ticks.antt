-- ===== src/Tcp/Dial/Ticks.antt =====
-- A tick, and what the listeners do on an error.

use nexer.Prelude.{
  ℕ, ◌≡◌, refl, inl, inr, Bool, true, false, Option, none, some, List, [], ◌∷◌, leb, Bool-cases,
}
use nexer.Prelude.Int.{ℤ}
use nexer.Tcp.{TcpClient, error, Request, failed, close_client, get_addr_info}
use nexer.Tcp.Dial.{Dial, close_newest, react, invoke, perform, try_connect, on_tick}
use nexer.Tcp.Dial.Invariant.{Answered, Settled, IsGood, Outcome}

abbrev pub dial :
    Option ℕ
    → ℕ
    → Option TcpClient
    → Option Request
    → ℕ
    → Bool
    → Bool
    → Bool
    → List (Option ℕ)
    → Dial
dial cl m nw pd o sub tc tg rs = record {
  client = cl;
  made = m;
  newest = nw;
  pending = pd;
  orphans = o;
  subscribed = sub;
  timer_closing = tc;
  timer_gone = tg;
  results = rs;
}

pub closed-Settled :
    (tc : Bool) (c : TcpClient) (pd : Option Request) → Settled tc (some (close_client c)) pd
unfolding close_client
closed-Settled true c none = tt
closed-Settled true c (some r) = refl
closed-Settled false c pd = tt

-- The branches of a tick while the timer is there and runs.
pub try_connect-Good :
    (F : Type 0) (answer : ℤ) (m : ℕ) (pd : Option Request) (o : ℕ) (rs : List (Option ℕ))
    → (failed answer ≡ true → F)
    → rs ≡ []
    → Outcome F (try_connect answer (dial none m none pd o false false false rs))
unfolding try_connect perform get_addr_info invoke react
try_connect-Good F answer m pd o rs h e = elim (Bool-cases (failed answer)) [
  | inl f ↦ rw f (h f)
  | inr f ↦
      rw f (record { linked = refl; answered = e; settled = λ _. tt; attached = tt; ordered = tt })
]

pub on_tick-Good :
    (timeout elapsed : ℕ) (answer : ℤ) (cl : Option ℕ) (m : ℕ) (nw : Option TcpClient)
    (pd : Option Request) (o : ℕ) (sub : Bool) (rs : List (Option ℕ))
    → IsGood (dial cl m nw pd o sub false false rs)
    → Outcome
        ((leb timeout elapsed ≡ false) × (failed answer ≡ true) × (cl ≡ none))
        (on_tick timeout elapsed answer (dial cl m nw pd o sub false false rs))
unfolding on_tick close_newest close_client
on_tick-Good timeout elapsed answer none m none pd o sub rs g =
    elim (Bool-cases (leb timeout elapsed)) [
      | inl h ↦
          rw (h, g.answered)
            (record {
              linked = g.linked;
              answered = refl;
              settled = λ _. tt;
              attached = g.attached;
              ordered = tt;
            })
      | inr h ↦
          rw (h, g.linked) (try_connect-Good _ answer m pd o rs (λ f. (refl, f, refl)) g.answered)
    ]
on_tick-Good timeout elapsed answer none m (some c) pd o sub rs g = absurd g.linked
on_tick-Good timeout elapsed answer (some n) m none pd o sub rs g = absurd g.linked
on_tick-Good timeout elapsed answer (some n) m (some c) pd o sub rs g =
    elim (Bool-cases (leb timeout elapsed)) [
      | inl h ↦
          rw (h, g.answered)
            (record {
              linked = g.linked;
              answered = refl;
              settled = λ _. closed-Settled true c pd;
              attached = tt;
              ordered = tt;
            })
      | inr h ↦ rw h g
    ]

-- A signal to the listeners of a client that is there.
pub react_error-Good :
    (e : ℤ) (n m : ℕ) (c : TcpClient) (pd : Option Request) (o : ℕ) (tc : Bool)
    (rs : List (Option ℕ))
    → Answered tc rs
    → Outcome ⊥ (react (error e) (dial (some n) m (some c) pd o true tc false rs))
unfolding react close_newest close_client
react_error-Good e n m c pd o tc rs a = record {
  linked = refl;
  answered = a;
  settled = λ _. closed-Settled tc c pd;
  attached = tt;
  ordered = tt;
}

-- One error, or none.
pub invoke_error-Good :
    (e : ℤ) (n m : ℕ) (c : TcpClient) (pd : Option Request) (o : ℕ) (tc : Bool)
    (rs : List (Option ℕ))
    → Answered tc rs
    → Outcome ⊥ (invoke (error e ∷ []) (dial (some n) m (some c) pd o true tc false rs))
unfolding invoke react close_newest
invoke_error-Good e n m c pd o tc rs a = react_error-Good e n m c pd o tc rs a

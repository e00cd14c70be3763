-- ===== src/Tcp/Dial/Attempts.antt =====
-- The ends of the look-up and of the connection attempt.
use mathlib.Core.Path.{subst}
use mathlib.Core.Bool.{false≢true}
use nexer.Prelude.{
  ℕ, ◌≡◌, refl, sym, ◌∙◌, inl, inr, Bool, true, false, Option, none, some, List, [], ◌∷◌,
  Bool-cases,
}
use nexer.Prelude.Int.{ℤ}
use nexer.Tcp.{
  TcpClient, connected, error, Request, resolve, connect, Did, failed, is_negative, on_addr_info,
  on_connect, connect_addr, read_start,
}
use nexer.Tcp.Dial.{react, invoke, perform}
use nexer.Tcp.Dial.Invariant.{Answered, Settled, IsGood, Cancels, Outcome}
use nexer.Tcp.Dial.Ticks.{dial, invoke_error-Good}

-- After the timer is gone no listener is left.
pub gone-Good :
    (d : Did) (cl : Option ℕ) (m : ℕ) (nw : Option TcpClient) (pd : Option Request) (o : ℕ)
    (sub tc : Bool) (rs : List (Option ℕ))
    → IsGood (dial cl m nw pd o sub tc true rs)
    → Outcome ⊥ (perform d (dial cl m nw pd o sub tc true rs))
unfolding perform
gone-Good d cl m nw pd o sub tc rs g = rw g.linked (record {
  linked = refl;
  answered = g.answered;
  settled = λ e. cc;
  attached = tt;
  ordered = g.ordered;
})

-- A handler that reports one error.
pub perform_error-Good :
    (e : ℤ) (d : TcpClient) (rq : Option Request) (n m : ℕ) (c : TcpClient) (pd : Option Request)
    (o : ℕ) (tc : Bool) (rs : List (Option ℕ))
    → Answered tc rs
    → Outcome ⊥ (
        perform
          (record { client = d; signals = error e ∷ []; request = rq })
          (dial (some n) m (some c) pd o true tc false rs))
unfolding perform
perform_error-Good e d rq n m c pd o tc rs a = invoke_error-Good e n m d rq o tc rs a

pub settled_next :
    (tc : Bool) (c : TcpClient)
    → Settled tc (some c) (some resolve)
    → Settled tc (some (record c { name_resolving = false; connecting = true })) (some connect)
settled_next true c h = h
settled_next false c h = tt

-- A client that is connected while its handle is open is the first answer.
pub still_open :
    (tc : Bool) (c : TcpClient) (status : ℤ)
    → Settled tc (some c) (some connect)
    → Cancels status (some c)
    → failed status ≡ false
    → tc ≡ false
still_open true c status s k f = absurd (false≢true (sym f ∙ k s))
still_open false c status s k f = refl

pub still_empty : (tc : Bool) (rs : List (Option ℕ)) → tc ≡ false → Answered tc rs → rs ≡ []
still_empty true rs e a = cc
still_empty false rs e a = a

abbrev pub accepted : ℤ → TcpClient → Did
accepted answer c = record {
  client = record c { connecting = false };
  signals = connected ∷ read_start answer;
  request = none;
}

pub accepted-Good :
    (answer : ℤ) (n m : ℕ) (c : TcpClient) (o : ℕ) (rs : List (Option ℕ))
    → rs ≡ []
    → Outcome ⊥ (
        perform (accepted answer c) (dial (some n) m (some c) (some connect) o true false false rs))
unfolding perform read_start
accepted-Good answer n m c o rs e = elim (Bool-cases (failed answer)) [
  | inl f ↦
      rw (f, e)
        (unfold invoke react in
          invoke_error-Good answer n m (record c { connecting = false }) none o true (some n ∷ [])
            refl)
  | inr f ↦
      rw (f, e)
        (unfold invoke react in
          record { linked = refl; answered = refl; settled = λ _. tt; attached = tt; ordered = tt })
]

module _ (status answer : ℤ) (n m : ℕ) (c : TcpClient) (o : ℕ) (tc : Bool)
    (rs : List (Option ℕ)) where
  pub resolved_here-Good :
      IsGood (dial (some n) m (some c) (some resolve) o true tc false rs)
      → Outcome ⊥ (
          perform
            (on_addr_info status answer c)
            (dial (some n) m (some c) (some resolve) o true tc false rs))
  unfolding on_addr_info connect_addr
  resolved_here-Good g = elim (Bool-cases (is_negative status)) [
    | inl h ↦ rw h (perform_error-Good status _ none n m c (some resolve) o tc rs g.answered)
    | inr h ↦ elim (Bool-cases (failed answer)) [
      | inl f ↦ rw (h, f) (perform_error-Good answer _ none n m c (some resolve) o tc rs g.answered)
      | inr f ↦
          rw (h, f)
            (unfold perform invoke in
              record {
                linked = refl;
                answered = g.answered;
                settled = λ e. settled_next tc c (g.settled e);
                attached = tt;
                ordered = tt;
              })
    ]
  ]

  -- The end of a connection attempt. The listeners close the timer only once.
  pub connection_here-Good :
      IsGood (dial (some n) m (some c) (some connect) o true tc false rs)
      → Cancels status (some c)
      → Outcome ⊥ (
          perform
            (on_connect status answer c)
            (dial (some n) m (some c) (some connect) o true tc false rs))
  unfolding on_connect
  connection_here-Good g k = elim (Bool-cases (failed status)) [
    | inl h ↦ rw h (perform_error-Good status _ none n m c (some connect) o tc rs g.answered)
    | inr h ↦ rw h (
        subst
          (λ b. Outcome ⊥ (
            perform (accepted answer c)
              (dial (some n) m (some c) (some connect) o true b false rs)))
          (sym (still_open tc c status (g.settled refl) k h))
          (accepted-Good answer n m c o rs
            (still_empty tc rs (still_open tc c status (g.settled refl) k h) g.answered)))
  ]

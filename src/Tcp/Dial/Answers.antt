-- ===== src/Tcp/Dial/Answers.antt =====
-- Whole attempts to connect.
use mathlib.Core.Path.{subst}
use mathlib.Core.Option.{some-injective}
use mathlib.Core.Bool.{false≢true}
use nexer.Prelude.{
  ℕ, ◌≤◌, ◌≡◌, refl, ◌↔◌, ◌⊎◌, inl, inr, Bool, true, false, Option, none, some, List, [], ◌∷◌, ◌++◌,
  arith, leb, le→leb,
}
use nexer.Prelude.Int.{ℤ}
use nexer.Tcp.{Request, Did, on_addr_info, get_addr_info, TcpClient, failed, close_client}
use nexer.Tcp.Dial.{
  connection, client_closed, timer_closed, on_newest, try_connect, perform, invoke, react, Dial,
  new_dial, interval, on_tick, Event, tick, resolved, resolved_late, dial_step, close_newest,
}
use nexer.Tcp.Dial.Invariant.{IsGood, Answered, IsClosing, Allowed, IsFaulty, Outcome}
use nexer.Tcp.Dial.Steps.{dial_step-Good}
use nexer.Tcp.Dial.Ticks.{dial}

-- The states that callbacks of the event loop lead to.
pub data Reach (timeout : ℕ) : Dial → Type 0 where
  start : Reach timeout new_dial
  later :
      {s : Dial} {t : Dial} (e : Event)
      → Reach timeout s
      → Allowed e s
      → dial_step timeout e s ≡ some t
      → Reach timeout t

Outcome-some : (F : Type 0) (o : Option Dial) (t : Dial) → o ≡ some t → Outcome F o → IsGood t
Outcome-some F none t e h = cc
Outcome-some F (some s) t e h = subst IsGood (some-injective s t e) h

pub Reach-IsGood : {timeout : ℕ} {s : Dial} → Reach timeout s → IsGood s
Reach-IsGood start = record {
  linked = refl;
  answered = refl;
  settled = λ _. tt;
  attached = tt;
  ordered = tt;
}
Reach-IsGood {timeout} (later {s} {t} e r a p) =
    Outcome-some _ (dial_step timeout e s) t p (dial_step-Good timeout e s (Reach-IsGood r) a)

Answered-cases :
    (closing : Bool) (results : List (Option ℕ))
    → Answered closing results
    → ((closing ≡ false) × (results ≡ []))
      ⊎ ((r : Option ℕ) × (closing ≡ true) × (results ≡ r ∷ []))
Answered-cases false rs a = inl (refl, a)
Answered-cases true [] a = absurd (omega arith)
Answered-cases true (r ∷ []) a = inr (r, refl, refl)
Answered-cases true (r ∷ q ∷ rs) a = absurd (omega arith)

-- In every state that the callbacks of the event loop lead to, `then` has been called once if the
-- timer is closing or gone, and not at all otherwise.
pub connect-once :
    (timeout : ℕ) (s : Dial)
    → Reach timeout s
    → ((s.timer_closing ≡ false) × (s.results ≡ []))
      ⊎ ((r : Option ℕ) × (s.timer_closing ≡ true) × (s.results ≡ r ∷ []))
connect-once timeout s r = Answered-cases s.timer_closing s.results (Reach-IsGood r).answered

abbrev Gives : ℕ → Option Dial → Type 0
Gives timeout o =
    (t : Dial) × (o ≡ some t)
    × (t.results ≡ none ∷ [])
    × (t.timer_closing ≡ true)
    × ((t.newest ≡ none) ⊎ IsClosing t.newest)

gives :
    (timeout elapsed : ℕ) (answer : ℤ) (cl : Option ℕ) (m : ℕ) (nw : Option TcpClient)
    (pd : Option Request) (o : ℕ) (sub tg tc : Bool) (rs : List (Option ℕ))
    → IsGood (dial cl m nw pd o sub tc tg rs)
    → tc ≡ false
    → timeout ≤ elapsed
    → Gives timeout (on_tick timeout elapsed answer (dial cl m nw pd o sub tc tg rs))
unfolding on_tick close_newest close_client
gives timeout elapsed answer cl m nw pd o sub tg true rs g c h = cc
gives timeout elapsed answer cl m nw pd o sub true false rs g c h = absurd (false≢true g.ordered)
gives timeout elapsed answer none m none pd o sub false false rs g c h = (
  dial none m none pd o sub true false (rs ++ none ∷ []),
  rw (le→leb timeout elapsed h) refl,
  rw g.answered,
  refl,
  inl refl,
)
gives timeout elapsed answer none m (some d) pd o sub false false rs g c h = absurd g.linked
gives timeout elapsed answer (some n) m none pd o sub false false rs g c h = absurd g.linked
gives timeout elapsed answer (some n) m (some d) pd o sub false false rs g c h = (
  dial (some n) m (some (close_client d)) pd o sub true false (rs ++ none ∷ []),
  rw (le→leb timeout elapsed h) refl,
  rw g.answered,
  refl,
  inr refl,
)

-- While no answer is given, the tick at which the timeout has passed gives one: `then` is called
-- with a null pointer, the timer closes, and so does the client, if there is one.
pub tick-answers :
    (timeout first elapsed : ℕ) (answer : ℤ) (s : Dial)
    → Reach timeout s
    → s.timer_closing ≡ false
    → interval ≤ first
    → timeout ≤ elapsed
    → (t : Dial) × (dial_step timeout (tick first elapsed answer) s ≡ some t)
      × (t.results ≡ none ∷ [])
      × (t.timer_closing ≡ true)
      × ((t.newest ≡ none) ⊎ IsClosing t.newest)
unfolding dial_step
tick-answers timeout first elapsed answer s r c f e = rw (le→leb interval first f) (
    gives timeout elapsed answer s.client s.made s.newest s.pending s.orphans s.subscribed
      s.timer_gone s.timer_closing s.results (Reach-IsGood r) c e)

Outcome-none : (F : Type 0) (o : Option Dial) → o ≡ none → Outcome F o → F
Outcome-none F none e h = h
Outcome-none F (some s) e h = cc

unresolved :
    (timeout first elapsed : ℕ) (answer : ℤ) (cl : Option ℕ) (m : ℕ) (nw : Option TcpClient)
    (pd : Option Request) (o : ℕ) (sub tc tg : Bool) (rs : List (Option ℕ))
    → leb interval first ≡ true
    → leb timeout elapsed ≡ false
    → failed answer ≡ true
    → cl ≡ none
    → dial_step timeout (tick first elapsed answer) (dial cl m nw pd o sub tc tg rs) ≡ none
unfolding dial_step on_tick try_connect perform get_addr_info invoke react
unresolved timeout first elapsed answer (some n) m nw pd o sub tc tg rs f e a c = cc
unresolved timeout first elapsed answer none m nw pd o sub tc true rs f e a c = rw (f, e, a)
unresolved timeout first elapsed answer none m nw pd o sub tc false rs f e a c = rw (f, e, a)

deleted :
    (f : TcpClient → Did) (cl : Option ℕ) (m : ℕ) (nw : Option TcpClient) (pd : Option Request)
    (o : ℕ) (sub tc tg : Bool) (rs : List (Option ℕ))
    → nw ≡ none
    → on_newest f (dial cl m nw pd o sub tc tg rs) ≡ none
unfolding on_newest
deleted f cl m none pd o sub tc tg rs e = refl
deleted f cl m (some c) pd o sub tc tg rs e = cc

IsFaulty-none :
    (timeout : ℕ) (e : Event) (s : Dial) → IsFaulty timeout e s → dial_step timeout e s ≡ none
unfolding dial_step
IsFaulty-none timeout (tick first elapsed answer) s (f, e, a, c) =
    unresolved timeout first elapsed answer s.client s.made s.newest s.pending s.orphans
      s.subscribed s.timer_closing s.timer_gone s.results f e a c
IsFaulty-none timeout (resolved status answer) s e =
    deleted (on_addr_info status answer) s.client s.made s.newest s.pending s.orphans s.subscribed
      s.timer_closing s.timer_gone s.results e
IsFaulty-none timeout (resolved_late status answer) s e = refl
IsFaulty-none timeout (connection status answer) s e = absurd e
IsFaulty-none timeout client_closed s e = absurd e
IsFaulty-none timeout timer_closed s e = absurd e

-- Of the callbacks that may come next, exactly these fault: the tick that would look up an address,
-- where that fails at once, and the answer to a look-up whose client is deleted by then.
pub dial_step-IsFaulty :
    (timeout : ℕ) (e : Event) (s : Dial)
    → Reach timeout s
    → Allowed e s
    → (dial_step timeout e s ≡ none) ↔ IsFaulty timeout e s
dial_step-IsFaulty timeout e s r a = (
  (λ p. Outcome-none _ (dial_step timeout e s) p (dial_step-Good timeout e s (Reach-IsGood r) a)),
  IsFaulty-none timeout e s,
)

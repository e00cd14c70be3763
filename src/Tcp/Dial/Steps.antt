-- ===== src/Tcp/Dial/Steps.antt =====
-- Every step keeps the invariant, or is one of the two faults.

use mathlib.Core.Bool.{false≢true}
use nexer.Prelude.{
  ℕ, ◌≡◌, refl, ◌≢◌, inl, inr, Bool, true, false, Option, none, some, List, leb, Bool-cases,
}
use nexer.Prelude.Int.{ℤ}
use nexer.Tcp.{TcpClient, Request, resolve, connect, failed, on_addr_info, on_connect}
use nexer.Tcp.Dial.{
  Dial, perform, interval, on_tick, Event, tick, resolved, resolved_late, connection, client_closed,
  timer_closed, on_client_closed, on_timer_closed, on_newest, dial_step,
}
use nexer.Tcp.Dial.Invariant.{
  Settled, Attached, IsGood, Cancels, IsClosing, Allowed, IsFaulty, Outcome,
}
use nexer.Tcp.Dial.Ticks.{dial, on_tick-Good}
use nexer.Tcp.Dial.Attempts.{gone-Good, resolved_here-Good, connection_here-Good}

detached : (pd : Option Request) → pd ≢ some connect → Attached none pd
detached none h = tt
detached (some resolve) h = tt
detached (some connect) h = absurd (h refl)

no_client : (tc : Bool) (pd : Option Request) → Settled tc none pd
no_client true pd = tt
no_client false pd = tt

on_client_closed-Good :
    (cl : Option ℕ) (m : ℕ) (nw : Option TcpClient) (pd : Option Request) (o : ℕ) (sub tc tg : Bool)
    (rs : List (Option ℕ))
    → IsGood (dial cl m nw pd o sub tc tg rs)
    → IsClosing nw
    → pd ≢ some connect
    → Outcome ⊥ (on_client_closed (dial cl m nw pd o sub tc tg rs))
unfolding on_client_closed
on_client_closed-Good cl m nw pd o sub tc true rs g c p = rw g.linked (record {
  linked = refl;
  answered = g.answered;
  settled = λ e. cc;
  attached = detached pd p;
  ordered = g.ordered;
})
on_client_closed-Good none m none pd o sub tc false rs g c p = absurd c
on_client_closed-Good none m (some d) pd o sub tc false rs g c p = absurd g.linked
on_client_closed-Good (some n) m none pd o sub tc false rs g c p = absurd c
on_client_closed-Good (some n) m (some d) pd o sub tc false rs g c p = rw g.linked (record {
  linked = refl;
  answered = g.answered;
  settled = λ e. no_client tc pd;
  attached = detached pd p;
  ordered = tt;
})

on_timer_closed-Good :
    (cl : Option ℕ) (m : ℕ) (nw : Option TcpClient) (pd : Option Request) (o : ℕ) (sub tc : Bool)
    (rs : List (Option ℕ))
    → IsGood (dial cl m nw pd o sub tc false rs)
    → tc ≡ true
    → Outcome ⊥ (on_timer_closed (dial cl m nw pd o sub tc false rs))
unfolding on_timer_closed
on_timer_closed-Good none m none pd o sub tc rs g c = record {
  linked = g.linked;
  answered = g.answered;
  settled = λ e. cc;
  attached = g.attached;
  ordered = c;
}
on_timer_closed-Good none m (some d) pd o sub tc rs g c = absurd g.linked
on_timer_closed-Good (some n) m none pd o sub tc rs g c = absurd g.linked
on_timer_closed-Good (some n) m (some d) pd o sub tc rs g c = record {
  linked = refl;
  answered = g.answered;
  settled = λ e. cc;
  attached = tt;
  ordered = c;
}

Outcome-mono : (F G : Type 0) (o : Option Dial) → (F → G) → Outcome F o → Outcome G o
Outcome-mono F G none h x = h x
Outcome-mono F G (some s) h x = x

-- An outcome without a fault is one with any.
Outcome-weaken : (F : Type 0) (o : Option Dial) → Outcome ⊥ o → Outcome F o
Outcome-weaken F o x = Outcome-mono ⊥ F o (λ e. absurd e) x

resolved-Good :
    (status answer : ℤ) (cl : Option ℕ) (m : ℕ) (nw : Option TcpClient) (pd : Option Request)
    (o : ℕ) (sub tc tg : Bool) (rs : List (Option ℕ))
    → IsGood (dial cl m nw pd o sub tc tg rs)
    → pd ≡ some resolve
    → Outcome (nw ≡ none) (on_newest (on_addr_info status answer) (dial cl m nw pd o sub tc tg rs))
unfolding on_newest
resolved-Good status answer cl m none pd o sub tc tg rs g p = refl
resolved-Good status answer cl m (some c) pd o sub tc true rs g p =
    Outcome-weaken _ _ (gone-Good (on_addr_info status answer c) cl m (some c) pd o sub tc rs g)
resolved-Good status answer none m (some c) pd o sub tc false rs g p = absurd g.linked
resolved-Good status answer (some n) m (some c) pd o sub tc false rs g p =
    rw (g.linked, p)
      (Outcome-weaken _
        (perform (on_addr_info status answer c)
          (dial (some n) m (some c) (some resolve) o true tc false rs))
        (resolved_here-Good status answer n m c o tc rs (rw (g.linked, p) at g)))

connection-Good :
    (status answer : ℤ) (cl : Option ℕ) (m : ℕ) (nw : Option TcpClient) (pd : Option Request)
    (o : ℕ) (sub tc tg : Bool) (rs : List (Option ℕ))
    → IsGood (dial cl m nw pd o sub tc tg rs)
    → pd ≡ some connect
    → Cancels status nw
    → Outcome ⊥ (on_newest (on_connect status answer) (dial cl m nw pd o sub tc tg rs))
unfolding on_newest
connection-Good status answer cl m none pd o sub tc tg rs g p k = absurd (rw p at (g.attached))
connection-Good status answer cl m (some c) pd o sub tc true rs g p k =
    gone-Good (on_connect status answer c) cl m (some c) pd o sub tc rs g
connection-Good status answer none m (some c) pd o sub tc false rs g p k = absurd g.linked
connection-Good status answer (some n) m (some c) pd o sub tc false rs g p k =
    rw (g.linked, p) (connection_here-Good status answer n m c o tc rs (rw (g.linked, p) at g) k)

tick-Good :
    (timeout first elapsed : ℕ) (answer : ℤ) (cl : Option ℕ) (m : ℕ) (nw : Option TcpClient)
    (pd : Option Request) (o : ℕ) (sub tc tg : Bool) (rs : List (Option ℕ))
    → IsGood (dial cl m nw pd o sub tc tg rs)
    → tc ≡ false
    → Outcome
        ((leb interval first ≡ true)
          × (leb timeout elapsed ≡ false)
          × (failed answer ≡ true)
          × (cl ≡ none))
        (dial_step timeout (tick first elapsed answer) (dial cl m nw pd o sub tc tg rs))
unfolding dial_step
tick-Good timeout first elapsed answer cl m nw pd o sub true tg rs g c = cc
tick-Good timeout first elapsed answer cl m nw pd o sub false true rs g c =
    absurd (false≢true g.ordered)
tick-Good timeout first elapsed answer cl m nw pd o sub false false rs g c =
    elim (Bool-cases (leb interval first)) [
      | inl h ↦ rw h (
          Outcome-mono _ _ (on_tick timeout elapsed answer (dial cl m nw pd o sub false false rs))
            (λ (x, y, z). (refl, x, y, z))
            (on_tick-Good timeout elapsed answer cl m nw pd o sub rs g))
      | inr h ↦ rw h g
    ]

timer_closed-Good :
    (cl : Option ℕ) (m : ℕ) (nw : Option TcpClient) (pd : Option Request) (o : ℕ) (sub tc tg : Bool)
    (rs : List (Option ℕ))
    → IsGood (dial cl m nw pd o sub tc tg rs)
    → tc ≡ true
    → tg ≡ false
    → Outcome ⊥ (on_timer_closed (dial cl m nw pd o sub tc tg rs))
timer_closed-Good cl m nw pd o sub tc true rs g c t = cc
timer_closed-Good cl m nw pd o sub tc false rs g c t =
    on_timer_closed-Good cl m nw pd o sub tc rs g c

-- The invariant is kept by every callback that may come next, unless it is one of the two faults.
pub dial_step-Good :
    (timeout : ℕ) (e : Event) (s : Dial)
    → IsGood s
    → Allowed e s
    → Outcome (IsFaulty timeout e s) (dial_step timeout e s)
unfolding dial_step
dial_step-Good timeout (tick first elapsed answer) s g a =
    tick-Good timeout first elapsed answer s.client s.made s.newest s.pending s.orphans s.subscribed
      s.timer_closing s.timer_gone s.results g a
dial_step-Good timeout (resolved status answer) s g a =
    resolved-Good status answer s.client s.made s.newest s.pending s.orphans s.subscribed
      s.timer_closing s.timer_gone s.results g a
dial_step-Good timeout (resolved_late status answer) s g a = tt
dial_step-Good timeout (connection status answer) s g (p, k) =
    connection-Good status answer s.client s.made s.newest s.pending s.orphans s.subscribed
      s.timer_closing s.timer_gone s.results g p k
dial_step-Good timeout client_closed s g (c, p) =
    on_client_closed-Good s.client s.made s.newest s.pending s.orphans s.subscribed s.timer_closing
      s.timer_gone s.results g c p
dial_step-Good timeout timer_closed s g (c, t) =
    timer_closed-Good s.client s.made s.newest s.pending s.orphans s.subscribed s.timer_closing
      s.timer_gone s.results g c t

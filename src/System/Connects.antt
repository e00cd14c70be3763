-- ===== src/System/Connects.antt =====
-- Clients of a proxy whose upstream is an application.
use nexer.Prelude.Int.{pos}
use nexer.Config.Types.{Command}
use nexer.Manager.Checked.{run-Checked}
use nexer.Manager.Serve.{run-serve}
use nexer.Manager.Stuck.{Ends}
use nexer.Manager.Clear.{calls, fuel_for}
use nexer.Manager.Steps.{run, first, default_answers}
use nexer.Prelude.{
  ℕ, ◌≡◌, refl, ap, ◌∙◌, inl, inr, some, List, [], ◌∷◌, map, Option-cases, suc, ◌++◌, Option, none,
}
use nexer.Manager.{
  Call, client, Did, Manager, get_app, timer_started, timer_closed, process_started, process_exit,
  on_tick, on_exit, called,
}
use nexer.Manager.Queue.{requires, enough, queue_fuel}
use nexer.Proxy.{
  Proxy, require, accepted, after_check, check_upstream, on_connection, proxy_step, proxy_run,
  connect,
}
use nexer.System.{calls_of, Happening, by_manager, by_proxy, happenings}

-- The proxy after its new clients.
accepted-app : (f : ℕ) (p : Proxy) → (proxy_step (accepted f) p).0.app ≡ p.app
unfolding proxy_step on_connection check_upstream after_check
accepted-app f p = elim (Option-cases p.app) [ inl e ↦ rw e refl | inr (i, e) ↦ rw e refl ]

accepted-requires :
    (f i : ℕ) (p : Proxy) → p.app ≡ some i → (proxy_step (accepted f) p).1 ≡ require i f ∷ []
unfolding proxy_step on_connection check_upstream
accepted-requires f i p e = rw e refl

calls_of-accepted :
    (i : ℕ) (fs : List ℕ) (p : Proxy)
    → p.app ≡ some i
    → calls_of (proxy_run (map accepted fs) p).1 ≡ requires i fs
unfolding proxy_run
calls_of-accepted i [] p e = refl
calls_of-accepted i (f ∷ fs) p e = rw (accepted-requires f i p e) (
    ap (λ cs. Call.require i (client f) ∷ cs)
      (calls_of-accepted i fs (proxy_step (accepted f) p).0 (accepted-app f p ∙ e)))

-- Each client is called back, and the proxy then begins to connect for it before the next one is.
abbrev pub connecting : Option ℕ → List ℕ → List Happening
connecting process [] = []
connecting process (f ∷ fs) =
    by_manager (called f process (pos 0)) ∷ by_proxy (connect f) ∷ connecting process fs

happenings-calls :
    (process : Option ℕ) (fs : List ℕ) (p : Proxy)
    → happenings (calls process (pos 0) fs) p ≡ connecting process fs
unfolding proxy_step after_check
happenings-calls process [] p = refl
happenings-calls process (f ∷ fs) p =
    ap (λ hs. by_manager (called f process (pos 0)) ∷ by_proxy (connect f) ∷ hs)
      (happenings-calls process fs p)

-- The manager has done more, and these things happened meanwhile.
abbrev pub Happens : List Happening → Proxy → Manager → Manager → Type 0
Happens hs p m n = (more : List Did) × (n.past ≡ m.past ++ more) × (happenings more p ≡ hs)

pub Ends-mono :
    {P Q : Manager → Type 0} (o : Option Manager)
    → Ends P o
    → ((n : Manager) → P n → Q n)
    → Ends Q o
Ends-mono none e k = e
Ends-mono (some n) e k = k n e

-- Where a proxy's upstream is an application without a checker and a preamble, that is not running and
-- that no one waits for, and its process starts, any number of clients that the proxy accepts, and then
-- the first tick of the application's timer, lead to exactly this, in this order: the timer is started,
-- one process is started, which is then the application's, the timer is closed; and for each client, in
-- the order in which they came, the manager calls back without an error, once, and the proxy begins to
-- connect, once. Nothing else happens in the manager or, by its calls, in the proxy.
pub accepted-served :
    (i c : ℕ) (cs : List ℕ) (p : Proxy) (m : Manager)
    → p.app ≡ some i
    → (m.config i).checker ≡ none
    → (m.config i).preamble ≡ []
    → (get_app i m).callbacks ≡ []
    → (get_app i m).process ≡ none
    → first m.answers ≡ default_answers
    → let (q, as_) = proxy_run (map accepted (c ∷ cs)) p in
      Ends
        (λ n.
          ((get_app i n).process ≡ some m.next_process)
          × Happens
              (by_manager (timer_started m.next_timer)
                ∷ by_manager (process_started m.next_process)
                ∷ by_manager (timer_closed m.next_timer)
                ∷ connecting (some m.next_process) (c ∷ cs))
              q
              m
              n)
        (run (enough c cs) (calls_of as_ ++ on_tick m.next_timer i ∷ []) m)
accepted-served i c cs p m a ch pre w pr an =
    let q = (proxy_run (map accepted (c ∷ cs)) p).0 in
    let before : List Did =
      timer_started m.next_timer
      ∷ process_started m.next_process
      ∷ timer_closed m.next_timer
      ∷ [] in
    let happened = λ (hs : List Happening).
      by_manager (timer_started m.next_timer)
      ∷ by_manager (process_started m.next_process)
      ∷ by_manager (timer_closed m.next_timer)
      ∷ hs in
    rw (calls_of-accepted i (c ∷ cs) p a) (
      Ends-mono
        {P = λ n.
          ((get_app i n).callbacks ≡ [])
          × ((get_app i n).process ≡ some m.next_process)
          × (n.past ≡ m.past ++ (before ++ calls (some m.next_process) (pos 0) (c ∷ cs)))}
        _ (run-serve i c cs m ch pre w pr an)
        (λ n (none_waits, running, past). (
          running,
          (
            before ++ calls (some m.next_process) (pos 0) (c ∷ cs),
            past,
            ap happened (happenings-calls (some m.next_process) (c ∷ cs) q),
          ),
        )))

-- Where a proxy's upstream is an application that no one waits for, with a checker that starts, any
-- number of clients that the proxy accepts, and then the end of the checker without an error, lead to
-- exactly this, in this order: one process is started, the checker, and ends; and for each client, in the
-- order in which they came, the manager calls back without an error, once, and the proxy begins to
-- connect, once. No other process is started, so the application is not, and its process is what it was.
pub accepted-checked :
    (i c : ℕ) (cs : List ℕ) (cmd : Command) (p : Proxy) (m : Manager)
    → p.app ≡ some i
    → (m.config i).checker ≡ some cmd
    → (get_app i m).callbacks ≡ []
    → first m.answers ≡ default_answers
    → let (q, as_) = proxy_run (map accepted (c ∷ cs)) p in
      Ends
        (λ n.
          ((get_app i n).process ≡ (get_app i m).process)
          × Happens
              (by_manager (process_started m.next_process)
                ∷ by_manager (process_exit m.next_process (pos 0) (pos 0))
                ∷ connecting (get_app i m).process (c ∷ cs))
              q
              m
              n)
        (run
          (suc (suc (suc (suc (queue_fuel cs (suc (suc (fuel_for (c ∷ cs) 0))))))))
          (calls_of as_ ++ on_exit m.next_process (pos 0) (pos 0) ∷ [])
          m)
accepted-checked i c cs cmd p m a ch w an =
    let q = (proxy_run (map accepted (c ∷ cs)) p).0 in
    let k = m.next_process in
    let process = (get_app i m).process in
    let before : List Did = process_started k ∷ process_exit k (pos 0) (pos 0) ∷ [] in
    let happened = λ (hs : List Happening).
      by_manager (process_started k) ∷ by_manager (process_exit k (pos 0) (pos 0)) ∷ hs in
    rw (calls_of-accepted i (c ∷ cs) p a) (
      Ends-mono
        {P = λ n.
          ((get_app i n).callbacks ≡ [])
          × ((get_app i n).process ≡ process)
          × (n.past ≡ m.past ++ (before ++ calls process (pos 0) (c ∷ cs)))}
        _ (run-Checked i c cs cmd m ch w an)
        (λ n (none_waits, same, past). (
          same,
          (
            before ++ calls process (pos 0) (c ∷ cs),
            past,
            ap happened (happenings-calls process (c ∷ cs) q),
          ),
        )))

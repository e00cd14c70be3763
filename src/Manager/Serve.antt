-- ===== src/Manager/Serve.antt =====
-- Clients require an application that runs without a checker.
use nexer.Prelude.{
  ==-refl, ◌++◌, append_assoc, ℕ, suc, ◌≡◌, refl, ap, ◌∙◌, true, false, some, List, [], ◌∷◌, map,
  length, ◌==◌,
}
use nexer.Config.Types.{App as ConfigApp}
use nexer.Manager.{
  App, Manager, get_app, put_app, client, timer_started, process_started, say, none, timer_closed,
  on_tick, set_checking, pos, check, ticked, invoke_then, clear,
}
use nexer.Manager.Steps.{
  make_process, after_prepared, do_then, step, run, after_ticked, first, default_answers,
}
use nexer.Manager.Clear.{get_app-put_app, run-next, fuel_for, cleared, calls, run-clear}
use nexer.Manager.Checks.{on_tick-checks}
use nexer.Manager.Queue.{requires, queue_fuel, run-requires, enough, is_zero-clients, waiting-Waits}
use nexer.Manager.Stuck.{Ends}
use nexer.Manager.Launch.{waiting, launched, timed, no_preamble, run-launch, check-nothing}

-- What the first client leaves.
record Launches (i c : ℕ) (m n : Manager) : Type 0 where
  config : n.config ≡ m.config
  past : n.past ≡ m.past ++ timer_started m.next_timer ∷ process_started m.next_process ∷ []
  callbacks : (get_app i n).callbacks ≡ client c ∷ []
  process : (get_app i n).process ≡ some m.next_process
  checking : (get_app i n).checking ≡ false

launched-Launches :
    (i c : ℕ) (m : Manager) → (get_app i m).callbacks ≡ [] → Launches i c m (launched i c m)
unfolding step do_then after_prepared make_process get_app
launched-Launches i c m w =
    let m1 = waiting i (c ∷ []) m in
    let m3 = timed i m1 in
    let m4 = no_preamble i m3 in
    record {
      config = refl;
      past = append_assoc m.past (timer_started m.next_timer ∷ []) _;
      callbacks =
          ap (λ (a : App). a.callbacks) (get_app-put_app i _ m4)
          ∙ ap (λ (a : App). a.callbacks) (get_app-put_app i _ m3)
          ∙ ap (λ (a : App). a.callbacks) (get_app-put_app i _ m1)
          ∙ ap (λ (a : App). a.callbacks) (get_app-put_app i _ m)
          ∙ ap (λ l. l ++ client c ∷ []) w;
      process = ap (λ (a : App). a.process) (get_app-put_app i _ m4);
      checking = ap (λ (a : App). a.checking) (get_app-put_app i _ m4);
    }

-- The manager after the good check of a tick, before its clients are called.
abbrev checked : ℕ → ℕ → Manager → Manager
checked t i m =
    say (timer_closed t)
      (put_app i (record (get_app i m) { checker_timer = none; checking = false }) m)

checked-callbacks :
    (t i : ℕ) (m : Manager) → (get_app i (checked t i m)).callbacks ≡ (get_app i m).callbacks
unfolding get_app
checked-callbacks t i m = rw (==-refl i) refl

checked-process :
    (t i : ℕ) (m : Manager) → (get_app i (checked t i m)).process ≡ (get_app i m).process
unfolding get_app
checked-process t i m = rw (==-refl i) refl

-- The end of a tick.
abbrev ticked_to : ℕ → ℕ → List ℕ → Manager → Manager
ticked_to t i cs m =
    let n = checked t i m in
    let u = record n { past = n.past ++ calls (get_app i n).process (pos 0) cs } in
    let v = cleared i u in put_app i (record (get_app i v) { checking = true }) v

run-tick :
    (t i c : ℕ) (cs : List ℕ) (m : Manager)
    → (m.config i).checker ≡ none
    → (get_app i m).callbacks ≡ map client (c ∷ cs)
    → (get_app i m).checking ≡ false
    → run (suc (suc (suc (fuel_for (c ∷ cs) 1)))) (on_tick t i ∷ []) m
      ≡ some (ticked_to t i (c ∷ cs) m)
unfolding step do_then after_ticked run
run-tick t i c cs m ch w k =
    let n = checked t i m in
    let f = fuel_for (c ∷ cs) 1 in
    run-next (suc (suc f)) (on_tick t i) [] m m _
      (on_tick-checks t i m (ap (λ l. length l == 0) w ∙ is_zero-clients c cs) k)
    ∙ run-next (suc f) (check i (ticked t i)) (set_checking i ∷ []) m m _
        (check-nothing i (ticked t i) m ch)
    ∙ run-next f (invoke_then (ticked t i) (pos 0)) (set_checking i ∷ []) m n
        (clear i (pos 0) 0 ∷ []) refl
    ∙ run-clear i (pos 0) (c ∷ cs) n (set_checking i ∷ []) 1 (checked-callbacks t i m ∙ w)

-- A tick calls the clients of an application without a checker.
tick-Calls :
    (t i : ℕ) (cs : List ℕ) (m : Manager)
    → let n = ticked_to t i cs m in
      ((get_app i n).callbacks ≡ [])
      × ((get_app i n).process ≡ (get_app i m).process)
      × (n.past ≡ m.past ++ timer_closed t ∷ calls (get_app i m).process (pos 0) cs)
unfolding get_app
tick-Calls t i cs m = (
  rw (==-refl i) refl,
  rw (==-refl i) refl,
  append_assoc m.past (timer_closed t ∷ []) _
      ∙ ap (λ p. m.past ++ timer_closed t ∷ calls p (pos 0) cs) (checked-process t i m),
)

-- Where an application has no checker and no preamble, is not running and no one waits for it, and
-- its process starts, any number of clients that require it, and then the first tick of its timer,
-- lead to one process and one timer, and each client is called exactly once, in the order of the
-- calls of `Require`, with the process and no error; the timer is closed and no client waits.
pub run-serve :
    (i c : ℕ) (cs : List ℕ) (m : Manager)
    → (m.config i).checker ≡ none
    → (m.config i).preamble ≡ []
    → (get_app i m).callbacks ≡ []
    → (get_app i m).process ≡ none
    → first m.answers ≡ default_answers
    → let k = m.next_process in
      let t = m.next_timer in
      Ends
        (λ n.
          ((get_app i n).callbacks ≡ [])
          × ((get_app i n).process ≡ some k)
          × (n.past
              ≡ m.past
                ++ timer_started t
                  ∷ process_started k
                  ∷ timer_closed t
                  ∷ calls (some k) (pos 0) (c ∷ cs)))
        (run (enough c cs) (requires i (c ∷ cs) ++ on_tick t i ∷ []) m)
run-serve i c cs m ch pre w pr a =
    let k = m.next_process in
    let t = m.next_timer in
    let l = launched i c m in
    let u = launched-Launches i c m w in
    let v = waiting i cs l in
    let h = waiting-Waits i cs l in
    let process : (get_app i v).process ≡ some k = ap (λ (b : App). b.process) h.app ∙ u.process in
    let rest = suc (suc (suc (fuel_for (c ∷ cs) 1))) in
    let path =
      run-launch i c m (requires i cs ++ on_tick t i ∷ []) (queue_fuel cs rest) ch pre w pr a
      ∙ run-requires i cs (client c) [] l (on_tick t i ∷ []) rest u.callbacks
      ∙ run-tick t i c cs v (ap (λ (f : ℕ → ConfigApp). (f i).checker) (h.config ∙ u.config) ∙ ch)
          (ap (λ (b : App). b.callbacks) h.app ∙ ap (λ x. x ++ map client cs) u.callbacks)
          (ap (λ (b : App). b.checking) h.app ∙ u.checking) in
    let (none_waits, same, past) = tick-Calls t i (c ∷ cs) v in
    rw path (
      none_waits,
      same ∙ process,
      past
          ∙ ap (λ x. x ++ timer_closed t ∷ calls (get_app i v).process (pos 0) (c ∷ cs))
              (h.past ∙ u.past)
          ∙ append_assoc m.past _ _
          ∙ ap
              (λ x.
                m.past
                ++ timer_started t ∷ process_started k ∷ timer_closed t ∷ calls x (pos 0) (c ∷ cs))
              process,
    )

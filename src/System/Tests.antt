-- ===== src/System/Tests.antt =====
-- Two clients of a proxy in front of an application.

use nexer.Prelude.{[], ◌∷◌, ◌++◌, map, Option, none, some, ◌≡◌, refl}
use nexer.Prelude.Int.{pos}
use nexer.Config.Types.{Command, App as ConfigApp}
use nexer.Manager.{
  timer_started, timer_closed, process_started, process_exit, Manager, get_app, on_tick, on_exit,
}
use nexer.Manager.Steps.{run}
use nexer.Manager.Queue.{enough}
use nexer.Manager.Stuck.{Ends}
use nexer.Proxy.{Proxy, accepted, proxy_run}
use nexer.System.{calls_of, by_manager}
use nexer.System.Connects.{Happens, connecting, accepted-served, accepted-checked}

abbrev sleep : Command
sleep = record { file = "sleep"; args = "9" ∷ []; env = []; cwd = ""; timeout = pos 0 }

abbrev app : Option Command → ConfigApp
app checker = record {
  name = "web";
  command = sleep;
  checker = checker;
  max_start_time = pos 0;
  preamble = [];
  tags = [];
}

abbrev manager : Option Command → Manager
manager checker = record {
  config = λ i. app checker;
  environ = [];
  app_map = λ i. none;
  next_process = 0;
  next_timer = 0;
  processes = λ k. none;
  answers = [];
  now = 5;
  past = [];
}

abbrev proxy : Proxy
proxy = record { app = some 3; forwarders = [] }

none_waits : (c : Option Command) → (get_app 3 (manager c)).callbacks ≡ []
unfolding get_app
none_waits c = refl

not_running : (c : Option Command) → (get_app 3 (manager c)).process ≡ none
unfolding get_app
not_running c = refl

accepted-served_example :
    let (q, as_) = proxy_run (map accepted (10 ∷ 20 ∷ [])) proxy in
    Ends
      (λ n.
        ((get_app 3 n).process ≡ some 0)
        × Happens
            (by_manager (timer_started 0)
              ∷ by_manager (process_started 0)
              ∷ by_manager (timer_closed 0)
              ∷ connecting (some 0) (10 ∷ 20 ∷ []))
            q
            (manager none)
            n)
      (run (enough 10 (20 ∷ [])) (calls_of as_ ++ on_tick 0 3 ∷ []) (manager none))
accepted-served_example =
    accepted-served 3 10 (20 ∷ []) proxy (manager none) refl refl refl (none_waits none)
      (not_running none) refl

accepted-checked_example :
    let (q, as_) = proxy_run (map accepted (10 ∷ 20 ∷ [])) proxy in
    Ends
      (λ n.
        ((get_app 3 n).process ≡ (get_app 3 (manager (some sleep))).process)
        × Happens
            (by_manager (process_started 0)
              ∷ by_manager (process_exit 0 (pos 0) (pos 0))
              ∷ connecting (get_app 3 (manager (some sleep))).process (10 ∷ 20 ∷ []))
            q
            (manager (some sleep))
            n)
      (run 12 (calls_of as_ ++ on_exit 0 (pos 0) (pos 0) ∷ []) (manager (some sleep)))
accepted-checked_example =
    accepted-checked 3 10 (20 ∷ []) sleep proxy (manager (some sleep)) refl refl
      (none_waits (some sleep)) refl

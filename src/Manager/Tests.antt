-- ===== src/Manager/Tests.antt =====
-- An application with and without a checker.
use nexer.Prelude.{
  ℕ, ◌≡◌, refl, Bool, true, false, none, some, List, [], ◌∷◌, ◌++◌, map, length, ◌==◌,
}
use nexer.Prelude.Int.{ℤ, pos, negsuc}
use nexer.Config.Types.{Command, App as ConfigApp}
use nexer.Manager.{
  Callback, Manager, new_app, set_at, get_app, client, prepared, require, invoke_then, on_tick,
  killed, timer_started, timer_closed, process_started, process_error, process_exit, on_exit,
}
use nexer.Manager.Steps.{start_time, is_timeout, step, run}
use nexer.Process.{Answers}
use nexer.Manager.Clear.{calls}
use nexer.Manager.Preamble.{answer, answer-join, failures}
use nexer.Manager.Stuck.{Ends, on_tick-stuck}
use nexer.Manager.Checks.{no_pipe}
use nexer.Manager.Queue.{requires, enough}
use nexer.Manager.Serve.{run-serve}
use nexer.Manager.Checked.{run-Checked}
use nexer.Manager.Killed.{require-Kills}

abbrev sleep : Command
sleep = record { file = "sleep"; args = "9" ∷ []; env = []; cwd = ""; timeout = pos 0 }

abbrev plain : ConfigApp
plain = record {
  name = "";
  command = sleep;
  checker = none;
  max_start_time = pos 0;
  preamble = [];
  tags = [];
}

abbrev checked : ConfigApp
checked = record {
  name = "web";
  command = sleep;
  checker = some sleep;
  max_start_time = pos 0;
  preamble = [];
  tags = [];
}

abbrev manager : ConfigApp → List Answers → List Callback → Bool → ℤ → Manager
manager app answers callbacks checking pending = record {
  config = λ i. app;
  environ = [];
  app_map =
      set_at 0
        (record new_app { callbacks = callbacks; checking = checking; pending_preamble = pending })
        (λ i. none);
  next_process = 0;
  next_timer = 0;
  processes = λ k. none;
  answers = answers;
  now = 5;
  past = [];
}

abbrev fresh : Manager
fresh = manager plain [] [] false (pos 0)

abbrev two_wait : Manager
two_wait = manager checked (no_pipe 22 ∷ []) (map client (1 ∷ 2 ∷ [])) false (pos 2)

abbrev unchecked : Manager
unchecked = manager checked (no_pipe 22 ∷ []) [] false (pos 0)

get_two : (get_app 0 two_wait).callbacks ≡ map client (1 ∷ 2 ∷ [])
unfolding get_app
get_two = refl

waits_two : (length (get_app 0 two_wait).callbacks == 0) ≡ false
unfolding get_app
waits_two = refl

not_checking : (get_app 0 two_wait).checking ≡ false
unfolding get_app
not_checking = refl

no_timeout : is_timeout 0 two_wait ≡ false
unfolding is_timeout start_time get_app
no_timeout = refl

pending_two : (get_app 0 two_wait).pending_preamble ≡ pos 2
unfolding get_app
pending_two = refl

no_error : (get_app 0 two_wait).error_preamble ≡ 0
unfolding get_app
no_error = refl

none_waits :
    (app : ConfigApp) (a : List Answers)
    → (get_app 0 (manager app a [] false (pos 0))).callbacks ≡ []
unfolding get_app
none_waits app a = refl

not_running :
    (app : ConfigApp) (a : List Answers)
    → (get_app 0 (manager app a [] false (pos 0))).process ≡ none
unfolding get_app
not_running app a = refl

answer-join_example :
    answer 0 (pos 0 ∷ negsuc 4 ∷ []) two_wait
    ≡ invoke_then (prepared 0) (pos (failures (pos 0 ∷ negsuc 4 ∷ []))) ∷ []
answer-join_example = answer-join 0 (pos 0) (negsuc 4 ∷ []) two_wait pending_two no_error

on_tick-stuck_example :
    Ends
      (λ n.
        ((get_app 0 n).callbacks ≡ (get_app 0 two_wait).callbacks)
        × (n.past
            ≡ two_wait.past
              ++ process_error 0 (negsuc 22)
                ∷ process_exit 0 (negsuc 0) (negsuc 0)
                ∷ process_started 0
                ∷ [])
        × ((t' now : ℕ)
            → step (on_tick t' 0) (record n { now = now }) ≡ (record n { now = now }, [])))
      (run 9 (on_tick 0 0 ∷ []) two_wait)
on_tick-stuck_example =
    on_tick-stuck 0 0 22 sleep [] two_wait waits_two not_checking refl refl refl no_timeout

run-serve_example :
    Ends
      (λ n.
        ((get_app 0 n).callbacks ≡ [])
        × ((get_app 0 n).process ≡ some 0)
        × (n.past
            ≡ fresh.past
              ++ timer_started 0
                ∷ process_started 0
                ∷ timer_closed 0
                ∷ calls (some 0) (pos 0) (7 ∷ 8 ∷ 9 ∷ [])))
      (run (enough 7 (8 ∷ 9 ∷ [])) (requires 0 (7 ∷ 8 ∷ 9 ∷ []) ++ on_tick 0 0 ∷ []) fresh)
run-serve_example =
    run-serve 0 7 (8 ∷ 9 ∷ []) fresh refl refl (none_waits plain []) (not_running plain []) refl

require-Kills_example :
    Ends
      (λ n.
        ((get_app 0 n).process ≡ some 1)
        × ((get_app 0 n).restart ≡ true)
        × (n.past
            ≡ unchecked.past
              ++ process_error 0 (negsuc 22)
                ∷ timer_started 0
                ∷ process_started 1
                ∷ process_exit 0 (negsuc 0) (negsuc 0)
                ∷ killed 1
                ∷ process_started 0
                ∷ []))
      (run 12 (require 0 (client 7) ∷ []) unchecked)
require-Kills_example =
    require-Kills 0 7 22 sleep [] unchecked refl refl (none_waits checked (no_pipe 22 ∷ []))
      (not_running checked (no_pipe 22 ∷ [])) refl refl

-- The application with a checker that can be started.
abbrev checkable : Manager
checkable = manager checked [] [] false (pos 0)

run-Checked_example :
    Ends
      (λ n.
        ((get_app 0 n).callbacks ≡ [])
        × ((get_app 0 n).process ≡ (get_app 0 checkable).process)
        × (n.past
            ≡ checkable.past
              ++ process_started 0
                ∷ process_exit 0 (pos 0) (pos 0)
                ∷ calls (get_app 0 checkable).process (pos 0) (7 ∷ 8 ∷ [])))
      (run 12 (requires 0 (7 ∷ 8 ∷ []) ++ on_exit 0 (pos 0) (pos 0) ∷ []) checkable)
run-Checked_example = run-Checked 0 7 (8 ∷ []) sleep checkable refl (none_waits checked []) refl

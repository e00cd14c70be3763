-- ===== src/Manager/Steps.antt =====
-- What each call of the manager does.

use nexer.Prelude.{
  ℕ, zero, suc, ◌+◌, ◌-◌, ◌%◌, Bool, true, false, ◌&&◌, ◌||◌, Option, none, some, List, [], ◌∷◌,
  ◌++◌, map, length, ltb, ◌==◌, if◌then◌else◌,
}
use nexer.Prelude.Int.{ℤ, pos, negsuc}
use nexer.Config.Types.{Command}
use Prim.Native.Nat.{◌^◌}
use nexer.Process.{
  Process, Effect, invoke_error, invoke_exit, invoke_data, close_pipe, close_request, kill_process,
  stop_timer, Answers, create_process, start_process, positive,
}
use nexer.Manager.{
  Callback, App, Then, Role, Call, Manager, set_at, get_app, put_app, say, is_zero, pred, is_some,
  Next, client, preamble_of, required, prepared, ticked, runs, checks, require, check, invoke_then,
  start, clear, invoke, on_error, on_exit, on_tick, start_process_of, notify_start, set_checking,
  called, killed, timer_started, timer_closed, process_started, process_error, process_exit,
}

-- `Process::Create` with the listeners of a role, and `Process::Start` after it.
unfoldable pub make_process : Command → Role → Manager → Next
make_process cmd role m = (
  record m {
    next_process = suc m.next_process;
    processes = set_at m.next_process (create_process m.environ cmd, role) m.processes;
  },
  start_process_of m.next_process ∷ notify_start m.next_process ∷ [],
)

-- `Check`
unfoldable pub do_check : ℕ → Then → Option Command → Manager → Next
do_check i th none m = (m, invoke_then th (pos 0) ∷ [])
do_check i th (some cmd) m = make_process cmd (checks i th) m

-- `Require`
unfoldable pub do_require : ℕ → Callback → Manager → Next
do_require i cb m =
    let app = get_app i m in
    let callbacks = app.callbacks ++ cb ∷ [] in
    (
      put_app i (record app { callbacks = callbacks }) m,
      if ltb 1 (length callbacks) then [] else check i (required i) ∷ [],
    )

-- A start of an application that is not running, for `Require`.
unfoldable pub start_now : ℕ → Manager → Next
start_now i m = (put_app i (record (get_app i m) { require_start_time = m.now }) m, start i ∷ [])

-- The start or the restart, after a check that failed.
unfoldable pub start_or_kill : ℕ → Option ℕ → Manager → Next
start_or_kill i none m = start_now i m
start_or_kill i (some k) m =
    (say (killed k) (put_app i (record (get_app i m) { restart = true }) m), [])

-- The function that `Require` gives to `Check`.
unfoldable pub after_required : ℕ → ℤ → Manager → Next
after_required i err m =
    if is_zero err
    then (if is_some (m.config i).checker || is_some (get_app i m).process
        then (m, clear i (pos 0) 0 ∷ [])
        else start_now i m)
    else start_or_kill i (get_app i m).process m

-- `Start` and `CheckPreamble`
unfoldable pub do_start : ℕ → Manager → Next
do_start i m =
    let preamble = (m.config i).preamble in
    (
      put_app i
          (record (get_app i m) { error_preamble = 0; pending_preamble = pos (length preamble) }) m,
      if length preamble == 0
          then invoke_then (prepared i) (pos 0) ∷ []
          else map (λ p. require p (preamble_of i)) preamble,
    )

-- The function that `Start` gives to `CheckPreamble`.
unfoldable pub after_prepared : ℕ → ℤ → Manager → Next
after_prepared i err m =
    if is_zero err
    then (let (n, calls) = make_process (m.config i).command (runs i) m in
        (
          say (timer_started m.next_timer) (
              put_app i
                (record (get_app i m) {
                  process = some m.next_process;
                  checker_timer = some m.next_timer;
                  checking = false;
                })
                (record n { next_timer = suc m.next_timer })),
          calls,
        ))
    else (m, clear i err 0 ∷ [])

-- `Timer::Now() - app.require_start_time`, 64 bits wide.
unfoldable pub start_time : App → Manager → ℕ
start_time app m = (m.now + 2 ^ 64 - app.require_start_time) % 2 ^ 64

-- `-ENOENT`
abbrev pub enoent : ℤ
enoent = negsuc 1

abbrev pub is_enoent : ℤ → Bool
is_enoent (pos n) = false
is_enoent (negsuc n) = n == 1

-- Whether the start of an application has taken too long.
unfoldable pub is_timeout : ℕ → Manager → Bool
is_timeout i m =
    let limit = positive (m.config i).max_start_time in
    ltb 0 limit && ltb limit (start_time (get_app i m) m)

-- The function that a tick of timer `t` gives to `Check`.
unfoldable pub after_ticked : ℕ → ℕ → ℤ → Manager → Next
after_ticked t i err m =
    if is_zero err || is_enoent err || is_timeout i m
    then (
      say (timer_closed t)
          (put_app i (record (get_app i m) { checker_timer = none; checking = false }) m),
      clear i err 0 ∷ [],
    )
    else (put_app i (record (get_app i m) { checking = false }) m, [])

unfoldable pub do_then : Then → ℤ → Manager → Next
do_then (required i) err m = after_required i err m
do_then (prepared i) err m = after_prepared i err m
do_then (ticked t i) err m = after_ticked t i err m

abbrev pub nth {ℓ} : {A : Type ℓ} → ℕ → List A → Option A
nth n [] = none
nth zero (x ∷ xs) = some x
nth (suc n) (x ∷ xs) = nth n xs

-- `ClearCallbacks`, after the first `n` are called.
unfoldable pub clear_from : ℕ → ℤ → ℕ → Option Callback → Manager → Next
clear_from i err n (some cb) m = (m, invoke cb (get_app i m).process err ∷ clear i err (suc n) ∷ [])
clear_from i err n none m = (put_app i (record (get_app i m) { callbacks = [] }) m, [])

-- The function that `CheckPreamble` gives to `Require`.
unfoldable pub preamble_done : ℕ → ℤ → Manager → Next
preamble_done i err m =
    let app = get_app i m in
    let pending = pred app.pending_preamble in
    let errors = if is_zero err then app.error_preamble else suc app.error_preamble in
    (
      put_app i (record app { pending_preamble = pending; error_preamble = errors }) m,
      if is_zero pending then invoke_then (prepared i) (pos errors) ∷ [] else [],
    )

unfoldable pub do_invoke : Callback → Option ℕ → ℤ → Manager → Next
do_invoke (client c) process err m = (say (called c process err) m, [])
do_invoke (preamble_of i) process err m = preamble_done i err m

-- The listener of `on_error_`, after `on_process_error_`.
unfoldable pub do_error : Role → ℤ → Manager → Next
do_error (runs i) err m =
    (put_app i (record (get_app i m) { process = none }) m, clear i err 0 ∷ [])
do_error (checks i th) err m = (m, invoke_then th err ∷ [])

-- The listener of `on_exit_`, after `on_process_exit_`; `status` has the signal where it was zero.
unfoldable pub do_exit : Role → ℤ → Manager → Next
do_exit (runs i) status m =
    let app = record (get_app i m) { process = none } in
    if is_zero status
    then (put_app i app m, [])
    else if app.restart
    then (put_app i (record app { restart = false }) m, start i ∷ [])
    else (put_app i app m, if is_some (m.config i).checker then [] else clear i status 0 ∷ [])
do_exit (checks i th) status m = (m, invoke_then th status ∷ [])

-- The listener of a timer's ticks.
unfoldable pub do_tick : ℕ → ℕ → Manager → Next
do_tick t i m =
    let app = get_app i m in
    if length app.callbacks == 0
    then (say (timer_closed t) m, [])
    else if app.checking
    then (m, [])
    else (m, check i (ticked t i) ∷ set_checking i ∷ [])

abbrev pub default_answers : Answers
default_answers = record {
  pipe_0 = pos 0;
  pipe_1 = pos 0;
  pipe_2 = pos 0;
  spawned = pos 0;
  read_1 = pos 0;
  read_2 = pos 0;
}

abbrev pub first : List Answers → Answers
first [] = default_answers
first (a ∷ as_) = a

abbrev pub rest : List Answers → List Answers
rest [] = []
rest (a ∷ as_) = as_

-- The calls of the manager's listeners of process `k` that are in what the process does.
abbrev pub listeners : ℕ → List Effect → List Call
listeners k [] = []
listeners k (invoke_error err ∷ es) = on_error k err ∷ listeners k es
listeners k (invoke_exit code signal ∷ es) = on_exit k code signal ∷ listeners k es
listeners k (invoke_data fd s ∷ es) = listeners k es
listeners k (close_pipe n ∷ es) = listeners k es
listeners k (close_request ∷ es) = listeners k es
listeners k (kill_process n ∷ es) = listeners k es
listeners k (stop_timer ∷ es) = listeners k es

unfoldable pub start_with : ℕ → Option (Process × Role) → Manager → Next
start_with k none m = (m, [])
start_with k (some (p, role)) m =
    let (q, es) = (start_process (first m.answers) p).1 in
    (
      record m { answers = rest m.answers; processes = set_at k (q, role) m.processes },
      listeners k es,
    )

-- A listener of a process that was made.
unfoldable pub heard : (Role → Manager → Next) → Option (Process × Role) → Manager → Next
heard f none m = (m, [])
heard f (some (p, role)) m = f role m

abbrev pub status_or_signal : ℤ → ℤ → ℤ
status_or_signal status signal = if is_zero status then signal else status

-- What one call does, and the calls it makes.
unfoldable pub step : Call → Manager → Next
step (require i cb) m = do_require i cb m
step (check i th) m = do_check i th (m.config i).checker m
step (invoke_then th err) m = do_then th err m
step (start i) m = do_start i m
step (clear i err n) m = clear_from i err n (nth n (get_app i m).callbacks) m
step (invoke cb process err) m = do_invoke cb process err m
step (on_error k err) m =
    heard (λ role n. do_error role err n) (m.processes k) (say (process_error k err) m)
step (on_exit k status signal) m =
    let s = status_or_signal status signal in
    heard (λ role n. do_exit role s n) (m.processes k) (say (process_exit k s signal) m)
step (on_tick t i) m = do_tick t i m
step (start_process_of k) m = start_with k (m.processes k) m
step (notify_start k) m = (say (process_started k) m, [])
step (set_checking i) m = (put_app i (record (get_app i m) { checking = true }) m, [])

-- The calls, each with all that it makes before the next, at most `fuel` of them; none where the
-- fuel is used up.
unfoldable pub run : ℕ → List Call → Manager → Option Manager
run fuel [] m = some m
run zero (c ∷ cs) m = none
run (suc fuel) (c ∷ cs) m = run fuel ((step c m).1 ++ cs) (step c m).0

-- ===== src/Manager/Checks.antt =====
-- A checker that cannot be given a pipe.
use nexer.Prelude.{◌∙◌, ℕ, ◌≡◌, refl, ap, false, Option, some, List, [], ◌∷◌, length, ◌==◌, ==-refl}
use nexer.Prelude.Int.{ℤ, pos, negsuc}
use nexer.Config.Types.{Command}
use nexer.Manager.{
  Then, Role, Manager, set_at, get_app, say, ticked, checks, check, invoke_then, on_error, on_exit,
  on_tick, start_process_of, set_checking, process_error, process_exit, create_process, Call, suc,
  notify_start,
}
use nexer.Manager.Steps.{
  make_process, do_check, do_error, do_exit, do_tick, first, rest, listeners, start_with, heard,
  status_or_signal, step, run,
}
use nexer.Process.{
  Process, Answers, invoke_error, invoke_exit, start_process, spawn, init_stdio, terminated,
  spawn_with, on_process_exit, on_handle_close,
}
use nexer.Process.Ends.{Idle, create_process-Idle}
use nexer.Manager.Clear.{run-next}

-- `uv_pipe_init` fails.
abbrev pub no_pipe : ℕ → Answers
no_pipe e = record {
  pipe_0 = negsuc e;
  pipe_1 = pos 0;
  pipe_2 = pos 0;
  spawned = pos 0;
  read_1 = pos 0;
  read_2 = pos 0;
}

-- A process that cannot be given a pipe reports its error and its end before `Start` returns.
pub start_process-no_pipe :
    (e : ℕ) (p : Process)
    → p.running ≡ false
    → p.has_loop ≡ false
    → p.pipes ≡ 0
    → (start_process (no_pipe e) p).1.1
      ≡ invoke_error (negsuc e) ∷ invoke_exit (negsuc 0) (negsuc 0) ∷ []
unfolding start_process spawn init_stdio terminated spawn_with on_process_exit on_handle_close
start_process-no_pipe e p r h w = rw (r, h, w) refl

pub set_at_same : {A : Type 0} → (k : ℕ) (a : A) (f : ℕ → Option A) → set_at k a f k ≡ some a
set_at_same k a f = rw (==-refl k) refl

pub on_tick-checks :
    (t i : ℕ) (m : Manager)
    → (length (get_app i m).callbacks == 0) ≡ false
    → (get_app i m).checking ≡ false
    → step (on_tick t i) m ≡ (m, check i (ticked t i) ∷ set_checking i ∷ [])
unfolding step do_tick
on_tick-checks t i m a b = rw (a, b) refl

pub check-makes :
    (i : ℕ) (th : Then) (cmd : Command) (m : Manager)
    → (m.config i).checker ≡ some cmd
    → step (check i th) m ≡ make_process cmd (checks i th) m
unfolding step do_check
check-makes i th cmd m e = ap (λ o. do_check i th o m) e

-- What a process is after a start that fails for want of a pipe.
abbrev pub unpiped : ℕ → Process → Process
unpiped e p = (start_process (no_pipe e) p).1.0

pub start-unpiped :
    (k e : ℕ) (p : Process) (role : Role) (more : List Answers) (m : Manager)
    → m.processes k ≡ some (p, role)
    → m.answers ≡ no_pipe e ∷ more
    → Idle p
    → step (start_process_of k) m ≡ (
      record m { answers = more; processes = set_at k (unpiped e p, role) m.processes },
      on_error k (negsuc e) ∷ on_exit k (negsuc 0) (negsuc 0) ∷ [],
    )
unfolding step start_with
start-unpiped k e p role more m w a (r, h, d, n) =
    ap (λ o. start_with k o m) w
    ∙ ap
        (λ (l : List Answers). (
          record m {
            answers = rest l;
            processes = set_at k ((start_process (first l) p).1.0, role) m.processes;
          },
          listeners k (start_process (first l) p).1.1,
        ))
        a
    ∙ ap
        (λ es. (
          record m { answers = more; processes = set_at k (unpiped e p, role) m.processes },
          listeners k es,
        ))
        (start_process-no_pipe e p r h n)

pub on_error-check :
    (k i : ℕ) (err : ℤ) (p : Process) (th : Then) (m : Manager)
    → m.processes k ≡ some (p, checks i th)
    → step (on_error k err) m ≡ (say (process_error k err) m, invoke_then th err ∷ [])
unfolding step heard do_error
on_error-check k i err p th m w =
    ap (λ o. heard (λ role n. do_error role err n) o (say (process_error k err) m)) w

pub on_exit-check :
    (k i : ℕ) (status signal : ℤ) (p : Process) (th : Then) (m : Manager)
    → m.processes k ≡ some (p, checks i th)
    → let s = status_or_signal status signal in
      step (on_exit k status signal) m ≡ (say (process_exit k s signal) m, invoke_then th s ∷ [])
unfolding step heard do_exit
on_exit-check k i status signal p th m w =
    let s = status_or_signal status signal in
    ap (λ o. heard (λ role n. do_exit role s n) o (say (process_exit k s signal) m)) w

-- The manager where the checker has reported its error.
abbrev pub check_failed : ℕ → ℕ → Then → Command → List Answers → Manager → Manager
check_failed i e th cmd more m =
    let k = m.next_process in
    let m1 = (make_process cmd (checks i th) m).0 in
    let q = unpiped e (create_process m.environ cmd) in
    say (process_error k (negsuc e))
      (record m1 { answers = more; processes = set_at k (q, checks i th) m1.processes })

-- A check whose checker cannot be given a pipe is answered with the error, and then again with the
-- end of the checker.
pub run-unpiped :
    (i e : ℕ) (th : Then) (cmd : Command) (more : List Answers) (m : Manager) (cs : List Call)
    (fuel : ℕ)
    → (m.config i).checker ≡ some cmd
    → m.answers ≡ no_pipe e ∷ more
    → run (suc (suc (suc fuel))) (check i th ∷ cs) m
      ≡ run fuel
          (invoke_then th (negsuc e)
            ∷ on_exit m.next_process (negsuc 0) (negsuc 0)
            ∷ notify_start m.next_process
            ∷ cs)
          (check_failed i e th cmd more m)
unfolding make_process
run-unpiped i e th cmd more m cs fuel d a =
    let k = m.next_process in
    let p = create_process m.environ cmd in
    let m1 = (make_process cmd (checks i th) m).0 in
    let q = unpiped e p in
    let m2 = record m1 { answers = more; processes = set_at k (q, checks i th) m1.processes } in
    run-next (suc (suc fuel)) (check i th) cs m m1 (start_process_of k ∷ notify_start k ∷ [])
      (check-makes i th cmd m d)
    ∙ run-next (suc fuel) (start_process_of k) (notify_start k ∷ cs) m1 m2 _ (
        start-unpiped k e p (checks i th) more m1 (set_at_same k (p, checks i th) m.processes) a
          (create_process-Idle m.environ cmd))
    ∙ run-next fuel (on_error k (negsuc e)) _ m2 (say (process_error k (negsuc e)) m2) _
        (on_error-check k i (negsuc e) q th m2 (set_at_same k (q, checks i th) m1.processes))

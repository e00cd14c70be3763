-- ===== src/Manager/Killed.antt =====
-- A client requires an application whose checker cannot be given a pipe.
use nexer.Prelude.{ℕ, suc, ◌≡◌, refl, ap, ◌∙◌, true, none, some, List, [], ◌∷◌, ◌==◌, ◌++◌}
use nexer.Prelude.Int.{pos, negsuc}
use nexer.Config.Types.{Command}
use nexer.Manager.{
  Did, App, Call, Manager, get_app, put_app, say, required, prepared, runs, invoke_then, start,
  start_process_of, notify_start, killed, process_started, Answers, process_exit, require, client,
  on_exit, Then, false, process_error, arith, checks, timer_started, append_assoc,
}
use nexer.Manager.Steps.{
  make_process, start_now, start_or_kill, after_required, after_prepared, do_then, default_answers,
  first, step, run,
}
use nexer.Process.{create_process}
use nexer.Manager.Stuck.{Ends}
use nexer.Manager.Clear.{run-next, get_app-put_app}
use nexer.Manager.Checks.{set_at_same, no_pipe, check_failed, unpiped, run-unpiped, on_exit-check}
use nexer.Manager.Launch.{
  timed, no_preamble, made, went, start-no_preamble, start-good, waiting, first-require,
}

failed-start :
    (i e : ℕ) (m : Manager)
    → (get_app i m).process ≡ none
    → step (invoke_then (required i) (negsuc e)) m ≡ (timed i m, start i ∷ [])
unfolding step do_then after_required start_or_kill start_now
failed-start i e m w = ap (λ p. start_or_kill i p m) w

failed-kill :
    (i e k : ℕ) (m : Manager)
    → (get_app i m).process ≡ some k
    → step (invoke_then (required i) (negsuc e)) m
      ≡ (say (killed k) (put_app i (record (get_app i m) { restart = true }) m), [])
unfolding step do_then after_required start_or_kill
failed-kill i e k m w = ap (λ p. start_or_kill i p m) w

-- A start of an application without preambles, whose process starts.
abbrev restarted : ℕ → Manager → Manager
restarted i m =
    let k = m.next_process in
    say (process_started k)
      (went i k (runs i) (create_process m.environ (m.config i).command) (made i (no_preamble i m)))

pub run-start :
    (i : ℕ) (m : Manager) (cs : List Call) (fuel : ℕ)
    → (m.config i).preamble ≡ []
    → first m.answers ≡ default_answers
    → run (suc (suc (suc (suc fuel)))) (start i ∷ cs) m ≡ run fuel cs (restarted i m)
unfolding step do_then after_prepared make_process
run-start i m cs fuel pre a =
    let k = m.next_process in
    let p = create_process m.environ (m.config i).command in
    let m4 = no_preamble i m in
    let m5 = made i m4 in
    let m6 = went i k (runs i) p m5 in
    run-next (suc (suc (suc fuel))) (start i) cs m m4 _ (start-no_preamble i m pre)
    ∙ run-next (suc (suc fuel)) (invoke_then (prepared i) (pos 0)) cs m4 m5
        (start_process_of k ∷ notify_start k ∷ []) refl
    ∙ run-next (suc fuel) (start_process_of k) (notify_start k ∷ cs) m5 m6 _
        (start-good i k p (runs i) m5 (set_at_same k (p, runs i) m.processes) a)
    ∙ run-next fuel (notify_start k) cs m6 (restarted i m) _ refl

abbrev restarting : ℕ → ℕ → Manager → Manager
restarting i k m = say (killed k) (put_app i (record (get_app i m) { restart = true }) m)

-- The manager where all calls of such a `Require` have ended.
abbrev ended : ℕ → ℕ → ℕ → Command → List Answers → Manager → Manager
ended i c e cmd more m =
    let k = m.next_process in
    say (process_started k) (
      restarting i (suc k) (
        say (process_exit k (negsuc 0) (negsuc 0))
          (restarted i (timed i (check_failed i e (required i) cmd more (waiting i (c ∷ []) m))))))

restarted-process :
    (i : ℕ) (m : Manager) → (get_app i (restarted i m)).process ≡ some m.next_process
unfolding step do_then after_prepared make_process get_app
restarted-process i m = ap (λ (b : App). b.process) (get_app-put_app i _ (no_preamble i m))

get_app-say :
    (i : ℕ) (d : Did) (m : Manager) → (get_app i (say d m)).process ≡ (get_app i m).process
unfolding get_app
get_app-say i d m = refl

not_next : (k : ℕ) → (k == suc k) ≡ false
not_next k = ground arith

restarted-processes :
    (i k : ℕ) (m : Manager) → m.next_process ≡ suc k → (restarted i m).processes k ≡ m.processes k
unfolding step do_then after_prepared make_process
restarted-processes i k m w = rw (w, not_next k) refl

check_failed-process :
    (i e : ℕ) (th : Then) (cmd : Command) (more : List Answers) (m : Manager)
    → (get_app i (check_failed i e th cmd more m)).process ≡ (get_app i m).process
unfolding get_app make_process
check_failed-process i e th cmd more m = refl

run-killed :
    (i c e : ℕ) (cmd : Command) (more : List Answers) (m : Manager)
    → (m.config i).checker ≡ some cmd
    → (m.config i).preamble ≡ []
    → (get_app i m).callbacks ≡ []
    → (get_app i m).process ≡ none
    → m.answers ≡ no_pipe e ∷ more
    → first more ≡ default_answers
    → run 12 (require i (client c) ∷ []) m ≡ some (ended i c e cmd more m)
unfolding make_process run step
run-killed i c e cmd more m ch pre w pr a b =
    let k = m.next_process in
    let th = required i in
    let m1 = waiting i (c ∷ []) m in
    let q = unpiped e (create_process m.environ cmd) in
    let m2 = check_failed i e th cmd more m1 in
    let m3 = timed i m2 in
    let m4 = restarted i m3 in
    let m5 = say (process_exit k (negsuc 0) (negsuc 0)) m4 in
    let m6 = restarting i (suc k) m5 in
    run-next 11 (require i (client c)) [] m m1 _ (first-require i c m w)
    ∙ run-unpiped i e th cmd more m1 [] 8 ch a
    ∙ run-next 7 (invoke_then th (negsuc e)) _ m2 m3 (start i ∷ []) (
        failed-start i e m2 (
          check_failed-process i e th cmd more m1
          ∙ ap (λ (b : App). b.process) (get_app-put_app i _ m)
          ∙ pr))
    ∙ run-start i m3 (on_exit k (negsuc 0) (negsuc 0) ∷ notify_start k ∷ []) 3 pre b
    ∙ run-next 2 (on_exit k (negsuc 0) (negsuc 0)) (notify_start k ∷ []) m4 m5
        (invoke_then th (negsuc 0) ∷ [])
        (on_exit-check k i (negsuc 0) (negsuc 0) q th m4 (
          restarted-processes i k m3 refl
          ∙ set_at_same k (q, checks i th)
              (make_process cmd (checks i (required i)) (waiting i (c ∷ []) m)).0.processes))
    ∙ run-next 1 (invoke_then th (negsuc 0)) (notify_start k ∷ []) m5 m6 [] (
        failed-kill i 0 (suc k) m5
          (get_app-say i (process_exit k (negsuc 0) (negsuc 0)) m4 ∙ restarted-process i m3))

ended-past :
    (i c e : ℕ) (cmd : Command) (more : List Answers) (m : Manager)
    → let k = m.next_process in
      (ended i c e cmd more m).past
      ≡ m.past
        ++ process_error k (negsuc e)
          ∷ timer_started m.next_timer
          ∷ process_started (suc k)
          ∷ process_exit k (negsuc 0) (negsuc 0)
          ∷ killed (suc k)
          ∷ process_started k
          ∷ []
unfolding step do_then after_prepared make_process
ended-past i c e cmd more m = simp append_assoc

-- Where an application has no preamble, is not running and no one waits for it, its checker cannot be
-- given a pipe and its own process starts, the first `Require` starts the application, since the check
-- gave an error, and kills it before it returns, since the check gave a second one; it is to be
-- started again when it ends.
pub require-Kills :
    (i c e : ℕ) (cmd : Command) (more : List Answers) (m : Manager)
    → (m.config i).checker ≡ some cmd
    → (m.config i).preamble ≡ []
    → (get_app i m).callbacks ≡ []
    → (get_app i m).process ≡ none
    → m.answers ≡ no_pipe e ∷ more
    → first more ≡ default_answers
    → let k = m.next_process in
      Ends
        (λ n.
          ((get_app i n).process ≡ some (suc k))
          × ((get_app i n).restart ≡ true)
          × (n.past
              ≡ m.past
                ++ process_error k (negsuc e)
                  ∷ timer_started m.next_timer
                  ∷ process_started (suc k)
                  ∷ process_exit k (negsuc 0) (negsuc 0)
                  ∷ killed (suc k)
                  ∷ process_started k
                  ∷ []))
        (run 12 (require i (client c) ∷ []) m)
unfolding get_app make_process
require-Kills i c e cmd more m ch pre w pr a b =
    let k = m.next_process in
    let m3 = timed i (check_failed i e (required i) cmd more (waiting i (c ∷ []) m)) in
    let m5 = say (process_exit k (negsuc 0) (negsuc 0)) (restarted i m3) in
    rw (run-killed i c e cmd more m ch pre w pr a b) (
      ap (λ (d : App). d.process) (get_app-put_app i _ m5)
          ∙ get_app-say i (process_exit k (negsuc 0) (negsuc 0)) (restarted i m3)
          ∙ restarted-process i m3,
      ap (λ (d : App). d.restart) (get_app-put_app i _ m5),
      ended-past i c e cmd more m,
    )

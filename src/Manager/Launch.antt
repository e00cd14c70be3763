-- ===== src/Manager/Launch.antt =====
-- The first client starts an application that has no checker and no preamble.
use nexer.Prelude.{ℕ, suc, ◌≡◌, refl, ap, ◌∙◌, none, some, List, [], ◌∷◌, ◌++◌}
use nexer.Prelude.Int.{pos}
use nexer.Manager.{
  App, Then, Role, Call, Manager, set_at, get_app, put_app, say, client, required, prepared, runs,
  require, check, invoke_then, start, start_process_of, notify_start, process_started,
}
use nexer.Manager.Steps.{
  make_process, do_check, do_require, start_now, after_required, do_start, after_prepared, do_then,
  default_answers, first, rest, listeners, start_with, step, run,
}
use nexer.Process.{
  Process, Answers, start_process, create_process, spawn, init_stdio, terminated, spawn_with,
}
use nexer.Manager.Clear.{get_app-put_app, run-next}
use nexer.Manager.Checks.{set_at_same}

abbrev pub waiting : ℕ → List ℕ → Manager → Manager
waiting i [] m = m
waiting i (c ∷ cs) m =
    waiting i cs
      (put_app i (record (get_app i m) { callbacks = (get_app i m).callbacks ++ client c ∷ [] }) m)

-- A process that starts makes no call.
start_process-good : (p : Process) → (start_process default_answers p).1.1 ≡ []
unfolding start_process spawn init_stdio terminated spawn_with
start_process-good p = refl

-- The steps of a first `Require`.
pub first-require :
    (i c : ℕ) (m : Manager)
    → (get_app i m).callbacks ≡ []
    → step (require i (client c)) m ≡ (waiting i (c ∷ []) m, check i (required i) ∷ [])
unfolding step do_require
first-require i c m w = rw w refl

pub check-nothing :
    (i : ℕ) (th : Then) (m : Manager)
    → (m.config i).checker ≡ none
    → step (check i th) m ≡ (m, invoke_then th (pos 0) ∷ [])
unfolding step do_check
check-nothing i th m w = ap (λ o. do_check i th o m) w

abbrev pub timed : ℕ → Manager → Manager
timed i m = put_app i (record (get_app i m) { require_start_time = m.now }) m

required-start :
    (i : ℕ) (m : Manager)
    → (m.config i).checker ≡ none
    → (get_app i m).process ≡ none
    → step (invoke_then (required i) (pos 0)) m ≡ (timed i m, start i ∷ [])
unfolding step do_then after_required start_now
required-start i m w p = rw (w, p) refl

abbrev pub no_preamble : ℕ → Manager → Manager
no_preamble i m =
    put_app i (record (get_app i m) { error_preamble = 0; pending_preamble = pos 0 }) m

pub start-no_preamble :
    (i : ℕ) (m : Manager)
    → (m.config i).preamble ≡ []
    → step (start i) m ≡ (no_preamble i m, invoke_then (prepared i) (pos 0) ∷ [])
unfolding step do_start
start-no_preamble i m w = rw w refl

-- The process is made, and then started.
abbrev pub made : ℕ → Manager → Manager
made i m = (step (invoke_then (prepared i) (pos 0)) m).0

abbrev pub went : ℕ → ℕ → Role → Process → Manager → Manager
went i k role p m = record m {
  answers = rest m.answers;
  processes = set_at k ((start_process default_answers p).1.0, role) m.processes;
}

pub start-good :
    (i k : ℕ) (p : Process) (role : Role) (m : Manager)
    → m.processes k ≡ some (p, role)
    → first m.answers ≡ default_answers
    → step (start_process_of k) m ≡ (went i k role p m, [])
unfolding step start_with
start-good i k p role m w a =
    ap (λ o. start_with k o m) w
    ∙ ap
        (λ (l : Answers). (
          record m {
            answers = rest m.answers;
            processes = set_at k ((start_process l p).1.0, role) m.processes;
          },
          listeners k (start_process l p).1.1,
        ))
        a
    ∙ ap (λ es. (went i k role p m, listeners k es)) (start_process-good p)

-- The manager where the first client has been heard.
abbrev pub launched : ℕ → ℕ → Manager → Manager
launched i c m =
    let k = m.next_process in
    let p = create_process m.environ (m.config i).command in
    say (process_started k)
      (went i k (runs i) p (made i (no_preamble i (timed i (waiting i (c ∷ []) m)))))

pub run-launch :
    (i c : ℕ) (m : Manager) (more : List Call) (fuel : ℕ)
    → (m.config i).checker ≡ none
    → (m.config i).preamble ≡ []
    → (get_app i m).callbacks ≡ []
    → (get_app i m).process ≡ none
    → first m.answers ≡ default_answers
    → run (suc (suc (suc (suc (suc (suc (suc fuel))))))) (require i (client c) ∷ more) m
      ≡ run fuel more (launched i c m)
unfolding step do_then after_prepared make_process
run-launch i c m more fuel ch pre w pr a =
    let k = m.next_process in
    let p = create_process m.environ (m.config i).command in
    let m1 = waiting i (c ∷ []) m in
    let m3 = timed i m1 in
    let m4 = no_preamble i m3 in
    let m5 = made i m4 in
    let m6 = went i k (runs i) p m5 in
    run-next _ (require i (client c)) more m m1 _ (first-require i c m w)
    ∙ run-next _ (check i (required i)) more m1 m1 _ (check-nothing i (required i) m1 ch)
    ∙ run-next _ (invoke_then (required i) (pos 0)) more m1 m3 _
        (required-start i m1 ch (ap (λ (b : App). b.process) (get_app-put_app i _ m) ∙ pr))
    ∙ run-next _ (start i) more m3 m4 _ (start-no_preamble i m3 pre)
    ∙ run-next _ (invoke_then (prepared i) (pos 0)) more m4 m5
        (start_process_of k ∷ notify_start k ∷ []) refl
    ∙ run-next _ (start_process_of k) (notify_start k ∷ more) m5 m6 _
        (start-good i k p (runs i) m5 (set_at_same k (p, runs i) m.processes) a)
    ∙ run-next fuel (notify_start k) more m6 (launched i c m) _ refl

-- ===== src/Manager/Checked.antt =====
-- Clients require an application whose checker finds it in order.
use nexer.Prelude.{
  ℕ, suc, ◌≡◌, refl, ap, ◌∙◌, Option, some, List, [], ◌∷◌, ◌++◌, map, append_assoc, ==-refl,
}
use nexer.Prelude.Int.{pos}
use nexer.Config.Types.{Command, App as ConfigApp}
use nexer.Manager.{
  App, Role, Call, Manager, get_app, say, client, required, checks, require, check, invoke_then,
  clear, on_exit, start_process_of, notify_start, process_started, process_exit,
}
use nexer.Manager.Steps.{make_process, after_required, do_then, default_answers, first, step, run}
use nexer.Process.{Process, create_process}
use nexer.Manager.Clear.{get_app-put_app, run-next, run-clear, calls, fuel_for, cleared}
use nexer.Manager.Stuck.{Ends}
use nexer.Manager.Checks.{set_at_same, check-makes, on_exit-check}
use nexer.Manager.Launch.{waiting, went, first-require, start-good}
use nexer.Manager.Queue.{requires, queue_fuel, run-requires, waiting-Waits}

waiting-processes : (i : ℕ) (cs : List ℕ) (m : Manager) → (waiting i cs m).processes ≡ m.processes
waiting-processes i [] m = refl
waiting-processes i (c ∷ cs) m = waiting-processes i cs (waiting i (c ∷ []) m)

-- The manager while the checker runs.
abbrev pub checking : ℕ → ℕ → Command → Manager → Manager
checking i c cmd m =
    let k = m.next_process in
    let m1 = waiting i (c ∷ []) m in
    say (process_started k) (
      went i k (checks i (required i)) (create_process m.environ cmd)
        (make_process cmd (checks i (required i)) m1).0)

run-checking :
    (i c : ℕ) (cmd : Command) (m : Manager) (more : List Call) (fuel : ℕ)
    → (m.config i).checker ≡ some cmd
    → (get_app i m).callbacks ≡ []
    → first m.answers ≡ default_answers
    → run (suc (suc (suc (suc fuel)))) (require i (client c) ∷ more) m
      ≡ run fuel more (checking i c cmd m)
unfolding step make_process
run-checking i c cmd m more fuel ch w a =
    let k = m.next_process in
    let role = checks i (required i) in
    let p = create_process m.environ cmd in
    let m1 = waiting i (c ∷ []) m in
    let m2 = (make_process cmd role m1).0 in
    let m3 = went i k role p m2 in
    run-next (suc (suc (suc fuel))) (require i (client c)) more m m1 _ (first-require i c m w)
    ∙ run-next (suc (suc fuel)) (check i (required i)) more m1 m2
        (start_process_of k ∷ notify_start k ∷ []) (check-makes i (required i) cmd m1 ch)
    ∙ run-next (suc fuel) (start_process_of k) (notify_start k ∷ more) m2 m3 []
        (start-good i k p role m2 (set_at_same k (p, role) m1.processes) a)
    ∙ run-next fuel (notify_start k) more m3 (checking i c cmd m) [] refl

required-answer :
    (i : ℕ) (cmd : Command) (m : Manager)
    → (m.config i).checker ≡ some cmd
    → step (invoke_then (required i) (pos 0)) m ≡ (m, clear i (pos 0) 0 ∷ [])
unfolding step do_then after_required
required-answer i cmd m w = rw w refl

-- The end of the checker.
abbrev answered : ℕ → ℕ → List ℕ → Manager → Manager
answered k i cs m =
    let n = say (process_exit k (pos 0) (pos 0)) m in
    cleared i (record n { past = n.past ++ calls (get_app i n).process (pos 0) cs })

run-answered :
    (k i : ℕ) (cmd : Command) (cs : List ℕ) (q : Process) (m : Manager)
    → (m.config i).checker ≡ some cmd
    → (get_app i m).callbacks ≡ map client cs
    → m.processes k ≡ some (q, checks i (required i))
    → run (suc (suc (fuel_for cs 0))) (on_exit k (pos 0) (pos 0) ∷ []) m ≡ some (answered k i cs m)
unfolding run get_app
run-answered k i cmd cs q m ch w p =
    let n = say (process_exit k (pos 0) (pos 0)) m in
    run-next (suc (fuel_for cs 0)) (on_exit k (pos 0) (pos 0)) [] m n
      (invoke_then (required i) (pos 0) ∷ []) (on_exit-check k i (pos 0) (pos 0) q (required i) m p)
    ∙ run-next (fuel_for cs 0) (invoke_then (required i) (pos 0)) [] n n (clear i (pos 0) 0 ∷ [])
        (required-answer i cmd n ch)
    ∙ run-clear i (pos 0) cs n [] 0 w

answered-Calls :
    (k i : ℕ) (cs : List ℕ) (m : Manager)
    → let n = answered k i cs m in
      ((get_app i n).callbacks ≡ [])
      × ((get_app i n).process ≡ (get_app i m).process)
      × (n.past ≡ m.past ++ process_exit k (pos 0) (pos 0) ∷ calls (get_app i m).process (pos 0) cs)
unfolding get_app
answered-Calls k i cs m = (
  rw (==-refl i) refl,
  rw (==-refl i) refl,
  append_assoc m.past (process_exit k (pos 0) (pos 0) ∷ []) _,
)

checking-callbacks :
    (i c : ℕ) (cmd : Command) (m : Manager)
    → get_app i (checking i c cmd m)
      ≡ record (get_app i m) { callbacks = (get_app i m).callbacks ++ client c ∷ [] }
unfolding get_app make_process
checking-callbacks i c cmd m = get_app-put_app i _ m

-- Where no one waits for an application that has a checker, and the checker starts, any number of
-- clients that require it lead to one run of the checker and to no start of the application; when the
-- checker ends without an error, each client is called exactly once, in the order of the calls of
-- `Require`, with the process that the application has, if any, and no error; and no client waits.
pub run-Checked :
    (i c : ℕ) (cs : List ℕ) (cmd : Command) (m : Manager)
    → (m.config i).checker ≡ some cmd
    → (get_app i m).callbacks ≡ []
    → first m.answers ≡ default_answers
    → let k = m.next_process in
      Ends
        (λ n.
          ((get_app i n).callbacks ≡ [])
          × ((get_app i n).process ≡ (get_app i m).process)
          × (n.past
              ≡ m.past
                ++ process_started k
                  ∷ process_exit k (pos 0) (pos 0)
                  ∷ calls (get_app i m).process (pos 0) (c ∷ cs)))
        (run
          (suc (suc (suc (suc (queue_fuel cs (suc (suc (fuel_for (c ∷ cs) 0))))))))
          (requires i (c ∷ cs) ++ on_exit k (pos 0) (pos 0) ∷ [])
          m)
unfolding make_process
run-Checked i c cs cmd m ch w a =
    let k = m.next_process in
    let l = checking i c cmd m in
    let u = checking-callbacks i c cmd m in
    let v = waiting i cs l in
    let h = waiting-Waits i cs l in
    let one : (get_app i l).callbacks ≡ client c ∷ [] =
      ap (λ (b : App). b.callbacks) u ∙ ap (λ x. x ++ client c ∷ []) w in
    let process : (get_app i v).process ≡ (get_app i m).process =
      ap (λ (b : App). b.process) h.app ∙ ap (λ (b : App). b.process) u in
    let end = on_exit k (pos 0) (pos 0) ∷ [] in
    let last = suc (suc (fuel_for (c ∷ cs) 0)) in
    let path =
      run-checking i c cmd m (requires i cs ++ end) (queue_fuel cs last) ch w a
      ∙ run-requires i cs (client c) [] l end last one
      ∙ run-answered k i cmd (c ∷ cs) _ v (ap (λ (f : ℕ → ConfigApp). (f i).checker) h.config ∙ ch)
          (ap (λ (b : App). b.callbacks) h.app ∙ ap (λ x. x ++ map client cs) one)
          (ap (λ (f : ℕ → Option (Process × Role)). f k) (waiting-processes i cs l)
            ∙ set_at_same k _
                (make_process cmd (checks i (required i)) (waiting i (c ∷ []) m)).0.processes) in
    let (none_waits, same, past) = answered-Calls k i (c ∷ cs) v in
    rw path (
      none_waits,
      same ∙ process,
      past
          ∙ ap
              (λ x.
                x ++ process_exit k (pos 0) (pos 0) ∷ calls (get_app i v).process (pos 0) (c ∷ cs))
              h.past
          ∙ append_assoc m.past _ _
          ∙ ap
              (λ x.
                m.past
                ++ process_started k ∷ process_exit k (pos 0) (pos 0) ∷ calls x (pos 0) (c ∷ cs))
              process,
    )

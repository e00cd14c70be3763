-- ===== src/Manager/Stuck.antt =====
-- A check that cannot be started in a tick.
use nexer.Prelude.{
  ◌∙◌, true, append_assoc, ◌++◌, ℕ, ◌≡◌, refl, ap, Bool, false, Option, none, some, List, [], ◌∷◌,
  length, ◌==◌,
}
use nexer.Prelude.Int.{ℤ, negsuc}
use nexer.Config.Types.{Command}
use nexer.Manager.{
  App, Manager, get_app, put_app, say, is_zero, ticked, checks, invoke_then, on_exit, on_tick,
  notify_start, set_checking, process_started, process_error, process_exit, create_process,
}
use nexer.Manager.Steps.{
  make_process, start_time, is_enoent, is_timeout, after_ticked, do_then, do_tick, step, run,
}
use nexer.Process.{create_process, Answers}
use nexer.Manager.Clear.{get_app-put_app, run-next}
use nexer.Manager.Checks.{
  no_pipe, set_at_same, on_tick-checks, unpiped, on_exit-check, check_failed, run-unpiped,
}

after_ticked-failed :
    (t i : ℕ) (err : ℤ) (m : Manager)
    → is_zero err ≡ false
    → is_enoent err ≡ false
    → is_timeout i m ≡ false
    → step (invoke_then (ticked t i) err) m
      ≡ (put_app i (record (get_app i m) { checking = false }) m, [])
unfolding step do_then after_ticked
after_ticked-failed t i err m a b c = rw (a, b, c) refl

is_timeout-checking :
    (i : ℕ) (b : Bool) (m : Manager)
    → is_timeout i (put_app i (record (get_app i m) { checking = b }) m) ≡ is_timeout i m
unfolding is_timeout start_time
is_timeout-checking i b m = rw (get_app-put_app i (record (get_app i m) { checking = b }) m) refl

-- What holds of the manager where the calls have ended.
abbrev pub Ends : (Manager → Type 0) → Option Manager → Type 0
Ends P none = ⊥
Ends P (some m) = P m

abbrev mark : Bool → ℕ → Manager → Manager
mark b i m = put_app i (record (get_app i m) { checking = b }) m

-- The manager after the failed check of a tick.
abbrev stuck : ℕ → ℕ → ℕ → Command → List Answers → Manager → Manager
stuck t i e cmd more m =
    let k = m.next_process in
    mark true i (
      say (process_started k) (
        mark false i (
          say (process_exit k (negsuc 0) (negsuc 0))
            (mark false i (check_failed i e (ticked t i) cmd more m)))))

-- The rest of the calls of a tick.
run-stuck :
    (t i e : ℕ) (cmd : Command) (more : List Answers) (m : Manager)
    → (e == 1) ≡ false
    → is_timeout i m ≡ false
    → let k = m.next_process in
      run 5
        (invoke_then (ticked t i) (negsuc e)
          ∷ on_exit k (negsuc 0) (negsuc 0)
          ∷ notify_start k
          ∷ set_checking i
          ∷ [])
        (check_failed i e (ticked t i) cmd more m)
      ≡ some (stuck t i e cmd more m)
unfolding step run is_timeout start_time make_process get_app
run-stuck t i e cmd more m ne o =
    let k = m.next_process in
    let th = ticked t i in
    let m1 = (make_process cmd (checks i th) m).0 in
    let q = unpiped e (create_process m.environ cmd) in
    let m3 = check_failed i e th cmd more m in
    let m4 = mark false i m3 in
    let m5 = say (process_exit k (negsuc 0) (negsuc 0)) m4 in
    let m6 = mark false i m5 in
    run-next 4 (invoke_then th (negsuc e)) _ m3 m4 _
      (after_ticked-failed t i (negsuc e) m3 refl ne o)
    ∙ run-next 3 (on_exit k (negsuc 0) (negsuc 0)) _ m4 m5 _ (
        on_exit-check k i (negsuc 0) (negsuc 0) q th m4
          (set_at_same k (q, checks i th) m1.processes))
    ∙ run-next 2 (invoke_then th (negsuc 0)) _ m5 m6 _
        (after_ticked-failed t i (negsuc 0) m5 refl refl (is_timeout-checking i false m3 ∙ o))

mark-callbacks :
    (b : Bool) (i : ℕ) (m : Manager) → (get_app i (mark b i m)).callbacks ≡ (get_app i m).callbacks
mark-callbacks b i m = ap (λ (a : App). a.callbacks) (get_app-put_app i _ m)

stuck-checking :
    (t i e : ℕ) (cmd : Command) (more : List Answers) (m : Manager)
    → (get_app i (stuck t i e cmd more m)).checking ≡ true
stuck-checking t i e cmd more m = ap (λ (a : App). a.checking) (get_app-put_app i _ _)

stuck-callbacks :
    (t i e : ℕ) (cmd : Command) (more : List Answers) (m : Manager)
    → (get_app i (stuck t i e cmd more m)).callbacks ≡ (get_app i m).callbacks
unfolding get_app make_process
stuck-callbacks t i e cmd more m =
    let k = m.next_process in
    let m3 = check_failed i e (ticked t i) cmd more m in
    let m5 = say (process_exit k (negsuc 0) (negsuc 0)) (mark false i m3) in
    mark-callbacks true i (say (process_started k) (mark false i m5))
    ∙ mark-callbacks false i m5
    ∙ mark-callbacks false i m3

on_tick-checking :
    (t i : ℕ) (m : Manager)
    → (length (get_app i m).callbacks == 0) ≡ false
    → (get_app i m).checking ≡ true
    → step (on_tick t i) m ≡ (m, [])
unfolding step do_tick
on_tick-checking t i m w c = rw (w, c) refl

-- Where clients wait for an application and no check of it is running, its checker cannot be given a
-- pipe for another reason than a missing file, and its time to start is not over, a tick ends with
-- all clients still waiting and no one called; and then no tick of any of the application's timers
-- does anything, however late it comes.
pub on_tick-stuck :
    (t i e : ℕ) (cmd : Command) (more : List Answers) (m : Manager)
    → (length (get_app i m).callbacks == 0) ≡ false
    → (get_app i m).checking ≡ false
    → (m.config i).checker ≡ some cmd
    → m.answers ≡ no_pipe e ∷ more
    → (e == 1) ≡ false
    → is_timeout i m ≡ false
    → let k = m.next_process in
      Ends
        (λ n.
          ((get_app i n).callbacks ≡ (get_app i m).callbacks)
          × (n.past
              ≡ m.past
                ++ process_error k (negsuc e)
                  ∷ process_exit k (negsuc 0) (negsuc 0)
                  ∷ process_started k
                  ∷ [])
          × ((t' now : ℕ)
              → step (on_tick t' i) (record n { now = now }) ≡ (record n { now = now }, [])))
        (run 9 (on_tick t i ∷ []) m)
unfolding get_app make_process
on_tick-stuck t i e cmd more m w c d a ne o =
    let n = stuck t i e cmd more m in
    let k = m.next_process in
    let kept = stuck-callbacks t i e cmd more m in
    let path : run 9 (on_tick t i ∷ []) m ≡ some n =
      run-next 8 (on_tick t i) [] m m _ (on_tick-checks t i m w c)
      ∙ run-unpiped i e (ticked t i) cmd more m (set_checking i ∷ []) 5 d a
      ∙ run-stuck t i e cmd more m ne o in
    rw path (
      kept,
      append_assoc _ (process_exit k (negsuc 0) (negsuc 0) ∷ []) (process_started k ∷ [])
          ∙ append_assoc m.past (process_error k (negsuc e) ∷ []) _,
      λ t' now.
          on_tick-checking t' i (record n { now = now }) (ap (λ l. length l == 0) kept ∙ w)
            (stuck-checking t i e cmd more m),
    )

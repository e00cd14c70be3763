-- ===== src/Manager/Preamble.antt =====
-- `CheckPreamble` waits for the answers of all preambles.
use nexer.Prelude.{
  ◌==◌, false, ◌+◌, ap, ◌∙◌, arith, refl, ℕ, suc, ◌≡◌, none, List, [], ◌∷◌, ◌++◌, length,
  if◌then◌else◌,
}
use nexer.Prelude.Int.{ℤ, pos}
use nexer.Manager.{Call, Manager, get_app, is_zero, preamble_of, prepared, invoke_then, invoke}
use nexer.Manager.Steps.{preamble_done, do_invoke, step}
use nexer.Manager.Clear.{get_app-put_app}

-- The answers of the preambles of an application, in the order in which they come, and the calls
-- that they lead to.
abbrev pub answer : ℕ → List ℤ → Manager → List Call
answer i [] m = []
answer i (err ∷ errs) m =
    let (n, calls) = step (invoke (preamble_of i) none err) m in calls ++ answer i errs n

abbrev pub failures : List ℤ → ℕ
failures [] = 0
failures (err ∷ errs) = if is_zero err then failures errs else suc (failures errs)

-- The counters of an application.
abbrev Counts : ℕ → ℤ → ℕ → Manager → Type 0
Counts i pending errors m =
    ((get_app i m).pending_preamble ≡ pending) × ((get_app i m).error_preamble ≡ errors)

abbrev add_failure : ℤ → ℕ → ℕ
add_failure err n = if is_zero err then n else suc n

pub suc_zero : (n : ℕ) → (suc n == 0) ≡ false
suc_zero n = ground arith

answer-not_last :
    (i : ℕ) (err : ℤ) (n errors : ℕ) (m : Manager)
    → Counts i (pos (suc (suc n))) errors m
    → let r = step (invoke (preamble_of i) none err) m in
      (r.1 ≡ []) × Counts i (pos (suc n)) (add_failure err errors) r.0
unfolding step do_invoke preamble_done
answer-not_last i err n errors m (w, e) =
    let counted : Counts i (pos (suc n)) (add_failure err errors)
        (step (invoke (preamble_of i) none err) m).0 =
      (rw (get_app-put_app i _ m, w) refl, rw (get_app-put_app i _ m, e) refl) in
    (rw (w, e, suc_zero n) refl, counted)

answer-last :
    (i : ℕ) (err : ℤ) (errors : ℕ) (m : Manager)
    → Counts i (pos 1) errors m
    → (step (invoke (preamble_of i) none err) m).1
      ≡ invoke_then (prepared i) (pos (add_failure err errors)) ∷ []
unfolding step do_invoke preamble_done
answer-last i err errors m (w, e) = rw (w, e) refl

add_failures :
    (err : ℤ) (errors : ℕ) (errs : List ℤ)
    → add_failure err errors + failures errs ≡ errors + failures (err ∷ errs)
add_failures err errors errs = ground arith

answer_rest :
    (i : ℕ) (err : ℤ) (errs : List ℤ) (errors : ℕ) (m : Manager)
    → Counts i (pos (suc (length errs))) errors m
    → answer i (err ∷ errs) m ≡ invoke_then (prepared i) (pos (errors + failures (err ∷ errs))) ∷ []
answer_rest i err [] errors m c =
    rw (answer-last i err errors m c)
      (ap (λ n. invoke_then (prepared i) (pos n) ∷ []) (ground arith))
answer_rest i err (e ∷ errs) errors m c =
    let n = (step (invoke (preamble_of i) none err) m).0 in
    let (none_made, d) = answer-not_last i err (length errs) errors m c in
    rw none_made (
      answer_rest i e errs (add_failure err errors) n d
      ∙ ap (λ k. invoke_then (prepared i) (pos k) ∷ []) (add_failures err errors (e ∷ errs)))

-- Where an application waits for as many preambles as there are answers, at least one, and none has
-- failed yet, then, whatever the answers and their order, all but the last lead to no call, and the
-- last one lets `Start` go on, exactly once, with the number of the answers that are errors.
pub answer-join :
    (i : ℕ) (err : ℤ) (errs : List ℤ) (m : Manager)
    → (get_app i m).pending_preamble ≡ pos (length (err ∷ errs))
    → (get_app i m).error_preamble ≡ 0
    → answer i (err ∷ errs) m ≡ invoke_then (prepared i) (pos (failures (err ∷ errs))) ∷ []
answer-join i err errs m w e =
    answer_rest i err errs 0 m (w, e)
    ∙ ap (λ k. invoke_then (prepared i) (pos k) ∷ []) (omega arith)

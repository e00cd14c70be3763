-- ===== src/Process/Steps.antt =====
-- What one step of a process reports: the end of a process, its start and its timer.
use mathlib.Core.Bool.{false≢true}
use nexer.Prelude.{
  ◌&&◌, ℕ, zero, suc, ◌+◌, ◌≡◌, refl, sym, ◌∙◌, ◌⊎◌, inl, inr, Bool, true, false, not, ◌||◌, List,
  [], ◌∷◌, ◌++◌, arith, if◌then◌else◌, if_both, if_cases,
}
use nexer.Prelude.Int.{ℤ, negsuc, pos}
use nexer.Process.{
  Process, Effect, invoke_error, invoke_exit, close_pipe, close_request, kill_process, stop_timer,
  Step, on_handle_close, close_pipes, on_process_exit, Answers, start_process, on_timeout, spawn,
  failed, init_stdio, terminated, spawn_with, after, sigterm,
}
use nexer.Process.Life.{closings, closes, exits}

pub exits-append : (es fs : List Effect) → exits (es ++ fs) ≡ exits es + exits fs
exits-append [] fs = omega arith
exits-append (e ∷ es) fs = ground (arith, exits-append es fs)

pub closes-append : (es fs : List Effect) → closes (es ++ fs) ≡ (closes es || closes fs)
closes-append [] fs = refl
closes-append (e ∷ es) fs = ground (arith, closes-append es fs)

pub exits-close_pipes : (n : ℕ) → exits (close_pipes n) ≡ 0
exits-close_pipes zero = refl
exits-close_pipes (suc n) =
    exits-append (close_pipes n) (close_pipe n ∷ []) ∙ omega (arith, exits-close_pipes n)

pub closes-close_pipes : (n : ℕ) → closes (close_pipes n) ≡ false
closes-close_pipes zero = refl
closes-close_pipes (suc n) =
    closes-append (close_pipes n) (close_pipe n ∷ []) ∙ rw (closes-close_pipes n)

pub closings-append : (es fs : List Effect) → closings (es ++ fs) ≡ closings es + closings fs
closings-append [] fs = omega arith
closings-append (e ∷ es) fs = ground (arith, closings-append es fs)

pub closings-close_pipes : (n : ℕ) → closings (close_pipes n) ≡ 0
closings-close_pipes zero = refl
closings-close_pipes (suc n) =
    closings-append (close_pipes n) (close_pipe n ∷ []) ∙ omega (arith, closings-close_pipes n)

-- The end of a process.
pub record Ended (p : Process) (r : Step) : Type 0 where
  pub reports : exits r.1 ≡ (if p.has_loop then 0 else 1)
  pub closing : closes r.1 ≡ p.has_loop
  pub asks : closings r.1 ≡ (if p.has_loop then 1 else 0)
  pub stopped : r.0.running ≡ false
  pub deletes : r.0.deleted ≡ not p.has_loop
  pub in_loop : r.0.has_loop ≡ p.has_loop

pub on_process_exit-Ended :
    (code signal : ℤ) (p : Process) → p.deleted ≡ false → Ended p (on_process_exit code signal p)
unfolding on_process_exit on_handle_close
on_process_exit-Ended code signal p d =
    let a = exits-close_pipes p.pipes in
    let b = closes-close_pipes p.pipes in
    let e1 = exits-append (close_pipes p.pipes) (close_request ∷ []) in
    let e2 = exits-append (close_pipes p.pipes) (invoke_exit code signal ∷ []) in
    let c1 = closes-append (close_pipes p.pipes) (close_request ∷ []) in
    let c2 = closes-append (close_pipes p.pipes) (invoke_exit code signal ∷ []) in
    let d1 = closings-append (close_pipes p.pipes) (close_request ∷ []) in
    let d2 = closings-append (close_pipes p.pipes) (invoke_exit code signal ∷ []) in
    let d3 = closings-close_pipes p.pipes in
    record {
      reports = ground arith;
      closing = ground arith;
      asks = ground arith;
      stopped = ground arith;
      deletes = ground arith;
      in_loop = ground arith;
    }

-- A process that is spawned runs, or the start has failed.
abbrev Spawned : ℤ × Process → Type 0
Spawned (err, q) =
    (q.deleted ≡ false)
    × (((q.running ≡ true) × (q.has_loop ≡ true)) ⊎ ((q.running ≡ false) × (failed err ≡ true)))

pub spawn-Spawned :
    (a : Answers) (p : Process) → p.running ≡ false → p.deleted ≡ false → Spawned (spawn a p)
unfolding spawn init_stdio terminated spawn_with
spawn-Spawned a p r d = ground arith

-- What a step reports and leaves.
pub record Reports (p : Process) (r : Step) : Type 0 where
  pub reports : exits r.1 + (if p.deleted then 1 else 0) ≡ (if r.0.deleted then 1 else 0)
  pub runs :
      r.0.running ≡ true → (r.0.has_loop ≡ true) × (r.0.deleted ≡ false) × (closes r.1 ≡ false)
  pub closes_once :
      closes r.1 ≡ true → (r.0.running ≡ false) × (r.0.deleted ≡ false) × (r.0.has_loop ≡ true)
  pub asks : closings r.1 ≡ (if closes r.1 then 1 else 0)
  pub direct : (r.0.deleted && r.0.has_loop) ≡ false

pub Ended-Reports : (p : Process) (r : Step) → p.deleted ≡ false → Ended p r → Reports p r
Ended-Reports p r d e = record {
  reports = ground (arith, e.reports, e.deletes);
  runs = λ h. absurd (false≢true (sym e.stopped ∙ h));
  closes_once =
      λ h. (e.stopped, ground (arith, e.closing, e.deletes), e.in_loop ∙ sym e.closing ∙ h);
  asks = rw e.closing e.asks;
  direct = ground (arith, e.deletes, e.in_loop);
}

pub after_error-Reports :
    (err : ℤ) (p : Process) (r : Step) → Reports p r → Reports p (after (invoke_error err ∷ []) r)
after_error-Reports err p (q, es) h = record {
  reports = h.reports;
  runs = h.runs;
  closes_once = h.closes_once;
  asks = h.asks;
  direct = h.direct;
}

-- A step that ends nothing.
pub going-Reports :
    (p q : Process) (es : List Effect)
    → p.deleted ≡ false
    → q.deleted ≡ false
    → (q.running ≡ true → q.has_loop ≡ true)
    → exits es ≡ 0
    → closes es ≡ false
    → closings es ≡ 0
    → Reports p (q, es)
going-Reports p q es d e h x c a = record {
  reports = ground arith;
  runs = λ r. (h r, e, c);
  closes_once = λ k. absurd (false≢true (sym c ∙ k));
  asks = rw c a;
  direct = rw e refl;
}

pub in_loop : (r : ℤ × Process) → Spawned r → r.1.running ≡ true → r.1.has_loop ≡ true
in_loop r (k, inl (u, v)) h = v
in_loop r (k, inr (u, v)) h = absurd (false≢true (sym u ∙ h))

pub ending-Reports :
    (code signal : ℤ) (p q : Process)
    → p.deleted ≡ false
    → q.deleted ≡ false
    → Reports p (on_process_exit code signal q)
ending-Reports code signal p q d e =
    let r = Ended-Reports q _ e (on_process_exit-Ended code signal q e) in
    record {
      reports = ground (arith, r.reports);
      runs = r.runs;
      closes_once = r.closes_once;
      asks = r.asks;
      direct = r.direct;
    }

pub start_process-Reports :
    (a : Answers) (p : Process)
    → p.running ≡ false
    → p.deleted ≡ false
    → Reports p (start_process a p).1
unfolding start_process
start_process-Reports a p r d =
    let err = (spawn a p).0 in
    let q = (spawn a p).1 in
    let c = spawn-Spawned a p r d in
    if_cases (λ (w : Bool × Step). Reports p w.1) (failed err) _ _
      (λ f. after_error-Reports err p _ (
        if_cases (Reports p) q.running (q, kill_process sigterm ∷ []) _
          (λ u.
            going-Reports p q (kill_process sigterm ∷ []) d c.0 (in_loop (spawn a p) c) refl refl
              refl)
          (λ u. ending-Reports (negsuc 0) (negsuc 0) p q d c.0)))
      (λ f. going-Reports p q [] d c.0 (in_loop (spawn a p) c) refl refl refl)

pub stop-Reports : (p : Process) (r : Step) → Reports p r → Reports p (after (stop_timer ∷ []) r)
stop-Reports p (q, es) h = record {
  reports = h.reports;
  runs = h.runs;
  closes_once = h.closes_once;
  asks = h.asks;
  direct = h.direct;
}

pub on_timeout-Reports :
    (p : Process)
    → p.deleted ≡ false
    → (p.running ≡ true → p.has_loop ≡ true)
    → Reports p (on_timeout p)
unfolding on_timeout
on_timeout-Reports p d h = stop-Reports p _ (
    if_both (Reports p) p.running (p, kill_process sigterm ∷ []) _
      (going-Reports p p (kill_process sigterm ∷ []) d d h refl refl refl)
      (ending-Reports (negsuc 1) (pos 0) p p d d))

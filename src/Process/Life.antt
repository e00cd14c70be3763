-- ===== src/Process/Life.antt =====
-- The life of a process, from its making to its deletion.

use nexer.Prelude.{
  ◌+◌, ◌&&◌, ℕ, suc, ◌≡◌, Bool, true, false, ◌||◌, List, [], ◌∷◌, ◌++◌, if◌then◌else◌,
}
use nexer.Prelude.Int.{ℤ}
use nexer.Process.{
  Process, Effect, invoke_error, invoke_exit, invoke_data, close_pipe, close_request, kill_process,
  stop_timer, Step, on_handle_close, on_process_exit, Answers, start_process, on_timeout,
}

-- The process, whether `Start` was called, whether its request is closing, how often the timer ticked
-- while it was, and what the process did.
pub record Life : Type 0 where
  pub process : Process
  pub started : Bool
  pub closing : Bool
  pub late_ticks : ℕ
  pub past : List Effect

pub data Event : Type 0 where
  start : Answers → Event
  -- `OnProcessExit`, called by libuv.
  exit : ℤ → ℤ → Event
  -- `OnProcessHandleClose`, called by libuv.
  closed : Event
  timeout : Event

abbrev pub closes : List Effect → Bool
closes [] = false
closes (close_request ∷ es) = true
closes (invoke_error e ∷ es) = closes es
closes (invoke_exit c s ∷ es) = closes es
closes (invoke_data n s ∷ es) = closes es
closes (close_pipe n ∷ es) = closes es
closes (kill_process n ∷ es) = closes es
closes (stop_timer ∷ es) = closes es

-- How often the listeners of the end are invoked.
abbrev pub exits : List Effect → ℕ
exits [] = 0
exits (invoke_exit c s ∷ es) = suc (exits es)
exits (close_request ∷ es) = exits es
exits (invoke_error e ∷ es) = exits es
exits (invoke_data n s ∷ es) = exits es
exits (close_pipe n ∷ es) = exits es
exits (kill_process n ∷ es) = exits es
exits (stop_timer ∷ es) = exits es

-- How often the loop is asked to close the request.
abbrev pub closings : List Effect → ℕ
closings [] = 0
closings (close_request ∷ es) = suc (closings es)
closings (invoke_exit c s ∷ es) = closings es
closings (invoke_error e ∷ es) = closings es
closings (invoke_data n s ∷ es) = closings es
closings (close_pipe n ∷ es) = closings es
closings (kill_process n ∷ es) = closings es
closings (stop_timer ∷ es) = closings es

abbrev pub did : Bool → Step → Life → Life
did started (p, es) l = record {
  process = p;
  started = started;
  closing = l.closing || closes es;
  late_ticks = l.late_ticks;
  past = l.past ++ es;
}

unfoldable pub live : Event → Life → Life
live (start a) l = did true (start_process a l.process).1 l
live (exit code signal) l = did l.started (on_process_exit code signal l.process) l
live closed l = record (did l.started (on_handle_close l.process) l) { closing = false }
live timeout l = record (did l.started (on_timeout l.process) l) {
  late_ticks = if l.closing then suc l.late_ticks else l.late_ticks;
}

-- A process is started once; libuv reports the end of a running process, and that of a closing
-- request, once however often it was asked to close it; and the timer may tick until the process is
-- deleted, also while the request is closing.
abbrev pub Allowed : Event → Life → Type 0
Allowed (start a) l = (l.started ≡ false) × (l.process.deleted ≡ false)
Allowed (exit code signal) l = l.process.running ≡ true
Allowed closed l = l.closing ≡ true
Allowed timeout l = l.process.deleted ≡ false

pub record IsSound (l : Life) : Type 0 where
  pub reported : exits l.past ≡ (if l.process.deleted then 1 else 0)
  pub runs :
      l.process.running ≡ true
      → (l.process.has_loop ≡ true) × (l.process.deleted ≡ false) × (l.closing ≡ false)
  pub closes_once :
      l.closing ≡ true
      → (l.process.running ≡ false) × (l.process.deleted ≡ false) × (l.process.has_loop ≡ true)
  pub asked :
      closings l.past
      ≡ (if l.closing || (l.process.deleted && l.process.has_loop) then 1 else 0) + l.late_ticks
  pub starts :
      l.started ≡ false
      → (l.process.running ≡ false) × (l.process.has_loop ≡ false) × (l.closing ≡ false)

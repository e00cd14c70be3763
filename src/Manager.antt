-- ===== src/Manager.antt =====
-- `ProcessManager` of include/process_manager.h and src/process_manager.cc. A call that the code
-- makes is data (`Call`), and `Steps.step` runs one: it gives the manager after it and the calls that
-- it makes, in order, which are run before the rest (`run`). A pointer to an application of the
-- configuration is a number. What libuv answers to each `Process::Start` is taken from `answers`; a
-- text of the log is left out.
pub mod Steps
pub mod Clear
pub mod Preamble
pub mod Checks
pub mod Stuck
pub mod Launch
pub mod Queue
pub mod Serve
pub mod Checked
pub mod Killed
pub mod Text
pub mod Tests
use Prim.Native.String.{String}
use nexer.Prelude.{
  ℕ, zero, suc, ◌+◌, ◌-◌, ◌*◌, ◌/◌, ◌%◌, ◌≤◌, ◌<◌, ◌≡◌, refl, sym, ap, ◌∙◌, ◌≢◌, ◌↔◌, ◌⊎◌, inl, inr,
  Bool, true, false, not, ◌&&◌, ◌||◌, Option, none, some, List, [], ◌∷◌, ◌++◌, map, append_assoc,
  append-nil, arith, Bytes, codes, length, length-append, take, drop, replicate, is_nil, All, ltb,
  leb, ◌==◌, if◌then◌else◌, lt→ltb, ltb→lt, ltb→le, leb→lt, leb→le, lt→leb, le→leb, ==_iff, ==-refl,
  Bool-cases, Option-cases, if_both, if_cases, if_false, and_true, is_nil→eq,
}
use nexer.Prelude.Int.{ℤ, pos, negsuc}
use nexer.Config.Types.{Command, App as ConfigApp}
use Prim.Native.Nat.{◌^◌}
use nexer.Process.{
  Variable, Process, Effect, invoke_error, invoke_exit, invoke_data, close_pipe, close_request,
  kill_process, stop_timer, Answers, create_process, start_process, positive,
}

-- `AfterProcessCheck`: the function a client gives to `Require`, and the one `CheckPreamble` gives
-- for an application.
pub data Callback : Type 0 where
  client : ℕ → Callback
  preamble_of : ℕ → Callback

-- `ProcessManager::App`
pub record App : Type 0 where
  pub process : Option ℕ
  pub callbacks : List Callback
  pub restart : Bool
  pub pending_preamble : ℤ
  pub error_preamble : ℕ
  pub require_start_time : ℕ
  pub checker_timer : Option ℕ
  pub checking : Bool

-- `Then<int>`: the function of `Require`, the one `Start` gives to `CheckPreamble`, and the one that
-- a tick of a timer gives to `Check`.
pub data Then : Type 0 where
  required : ℕ → Then
  prepared : ℕ → Then
  ticked : ℕ → ℕ → Then

-- Whose listeners a process has: those of `Start` or of `Check`.
pub data Role : Type 0 where
  runs : ℕ → Role
  checks : ℕ → Then → Role

pub data Call : Type 0 where
  require : ℕ → Callback → Call
  check : ℕ → Then → Call
  invoke_then : Then → ℤ → Call
  start : ℕ → Call
  -- `ClearCallbacks`, and how many it has called.
  clear : ℕ → ℤ → ℕ → Call
  invoke : Callback → Option ℕ → ℤ → Call
  -- The listeners of a process and of a timer.
  on_error : ℕ → ℤ → Call
  on_exit : ℕ → ℤ → ℤ → Call
  on_tick : ℕ → ℕ → Call
  -- `Process::Start`, the call of `on_process_start_`, and the end of a tick.
  start_process_of : ℕ → Call
  notify_start : ℕ → Call
  set_checking : ℕ → Call

-- What the manager does to others.
pub data Did : Type 0 where
  called : ℕ → Option ℕ → ℤ → Did
  killed : ℕ → Did
  timer_started timer_closed : ℕ → Did
  process_started : ℕ → Did
  process_error : ℕ → ℤ → Did
  process_exit : ℕ → ℤ → ℤ → Did

pub record Manager : Type 0 where
  pub config : ℕ → ConfigApp
  pub environ : List Variable
  pub app_map : ℕ → Option App
  -- The processes and timers made so far have the numbers below these.
  pub next_process : ℕ
  pub next_timer : ℕ
  pub processes : ℕ → Option (Process × Role)
  pub answers : List Answers
  pub now : ℕ
  pub past : List Did

abbrev pub new_app : App
new_app = record {
  process = none;
  callbacks = [];
  restart = false;
  pending_preamble = pos 0;
  error_preamble = 0;
  require_start_time = 0;
  checker_timer = none;
  checking = false;
}

abbrev pub set_at {ℓ} : {A : Type ℓ} → ℕ → A → (ℕ → Option A) → ℕ → Option A
set_at i a f j = if j == i then some a else f j

abbrev pub or_new : Option App → App
or_new none = new_app
or_new (some a) = a

-- `GetApp`: an application that is not in the map is put there with the first use.
unfoldable pub get_app : ℕ → Manager → App
get_app i m = or_new (m.app_map i)

abbrev pub put_app : ℕ → App → Manager → Manager
put_app i a m = record m { app_map = set_at i a m.app_map }

abbrev pub say : Did → Manager → Manager
say d m = record m { past = m.past ++ d ∷ [] }

abbrev pub is_zero : ℤ → Bool
is_zero (pos n) = n == 0
is_zero (negsuc n) = false

abbrev pub pred : ℤ → ℤ
pred (pos zero) = negsuc 0
pred (pos (suc n)) = pos n
pred (negsuc n) = negsuc (suc n)

abbrev pub is_some {ℓ} : {A : Type ℓ} → Option A → Bool
is_some none = false
is_some (some a) = true

abbrev pub Next : Type 0
Next = Manager × List Call

-- ===== src/Process.antt =====
-- `Process` of include/process.h and src/process.cc: a child process. What libuv answers is an
-- argument: the status of `uv_pipe_init` for each pipe, of `uv_spawn` and of `uv_read_start` for the
-- two outputs. A step returns the process and what it does, in order. Texts hold no zero byte.
pub mod Start
pub mod Life
pub mod Steps
pub mod Ends
pub mod Tests
use Prim.Native.String.{String, ◌++◌ as append_text}
use nexer.Prelude.{
  ℕ, zero, suc, ◌+◌, ◌-◌, ◌*◌, ◌/◌, ◌%◌, ◌≤◌, ◌<◌, ◌≡◌, refl, sym, ap, ◌∙◌, ◌≢◌, ◌↔◌, ◌⊎◌, inl, inr,
  Bool, true, false, not, ◌&&◌, ◌||◌, Option, none, some, List, [], ◌∷◌, ◌++◌, map, append_assoc,
  append-nil, arith, Bytes, codes, length, length-append, take, drop, replicate, is_nil, All, ltb,
  leb, ◌==◌, if◌then◌else◌, lt→ltb, ltb→lt, ltb→le, leb→lt, leb→le, lt→leb, le→leb, ==_iff, ==-refl,
  Bool-cases, Option-cases, if_both, if_false, and_true, is_nil→eq,
}
use nexer.Prelude.Int.{ℤ, pos, negsuc}
use nexer.Config.Types.{Command}
use nexer.Tcp.{failed}

pub record Process : Type 0 where
  -- `args_` and `env_`; a null pointer is none.
  pub args : List (Option String)
  pub env : List (Option String)
  pub timer : Option ℕ
  pub running : Bool
  pub exit_code : ℤ
  pub term_signal : ℤ
  -- How many of the pipes are initialised, and whether `request_.loop` is set.
  pub pipes : ℕ
  pub has_loop : Bool
  pub deleted : Bool

pub data Effect : Type 0 where
  -- The listeners of `on_error_`, `on_exit_` and `on_data_`.
  invoke_error : ℤ → Effect
  invoke_exit : ℤ → ℤ → Effect
  invoke_data : ℕ → Bytes → Effect
  -- `uv_close` of a pipe and of the request, and `uv_process_kill`.
  close_pipe : ℕ → Effect
  close_request : Effect
  kill_process : ℕ → Effect
  stop_timer : Effect

abbrev pub Step : Type 0
Step = Process × List Effect

-- A variable of the environment that `uv_os_environ` gives: its name and its value.
abbrev pub Variable : Type 0
Variable = String × String

-- `InitEnv`: the text of each variable.
unfoldable pub env_text : Variable → String
env_text (name, value) = append_text name (append_text "=" value)

unfoldable pub init_env : List Variable → List String
init_env items = map env_text items

-- `Process::Process`
unfoldable pub new_process : List Variable → String → Process
new_process environ file = record {
  args = some file ∷ [];
  env = map (λ e. some e) (init_env environ);
  timer = none;
  running = false;
  exit_code = pos 0;
  term_signal = pos 0;
  pipes = 0;
  has_loop = false;
  deleted = false;
}

-- `PushArg`
unfoldable pub push_arg : String → Option String → Process → Process
push_arg key none p = record p { args = p.args ++ some key ∷ [] }
push_arg key (some value) p = record p { args = p.args ++ some key ∷ some value ∷ [] }

-- `SetEnv`
unfoldable pub set_env : String → Process → Process
set_env env p = record p { env = p.env ++ some env ∷ [] }

-- `SetTimeout`, where no timer is set: the timer is made and started.
unfoldable pub set_timeout : ℕ → Process → Process
set_timeout ms p = if ltb 0 ms then record p { timer = some ms } else p

unfoldable pub push_args : List String → Process → Process
push_args [] p = p
push_args (a ∷ as_) p = push_args as_ (push_arg a none p)

unfoldable pub set_envs : List String → Process → Process
set_envs [] p = p
set_envs (e ∷ es) p = set_envs es (set_env e p)

-- A timeout that is not positive sets no timer.
abbrev pub positive : ℤ → ℕ
positive (pos n) = n
positive (negsuc n) = 0

-- `Init`
unfoldable pub init : Command → Process → Process
init cmd p = set_timeout (positive cmd.timeout) (set_envs cmd.env (push_args cmd.args p))

-- `Create`
unfoldable pub create_process : List Variable → Command → Process
create_process environ cmd = init cmd (new_process environ cmd.file)

-- `OnProcessHandleClose`
unfoldable pub on_handle_close : Process → Step
on_handle_close p =
    (record p { deleted = true; timer = none }, invoke_exit p.exit_code p.term_signal ∷ [])

abbrev pub close_pipes : ℕ → List Effect
close_pipes zero = []
close_pipes (suc n) = close_pipes n ++ close_pipe n ∷ []

abbrev pub after : List Effect → Step → Step
after es (p, fs) = (p, es ++ fs)

-- `OnProcessExit`: a request that was never given to the loop is closed at once.
unfoldable pub on_process_exit : ℤ → ℤ → Process → Step
on_process_exit code signal p =
    let q = record p { running = false; exit_code = code; term_signal = signal } in
    after (close_pipes p.pipes) (if p.has_loop then (q, close_request ∷ []) else on_handle_close q)

-- What libuv answers to `Spawn`.
pub record Answers : Type 0 where
  pub pipe_0 : ℤ
  pub pipe_1 : ℤ
  pub pipe_2 : ℤ
  pub spawned : ℤ
  pub read_1 : ℤ
  pub read_2 : ℤ

-- `InitStdio`
unfoldable pub init_stdio : Answers → Process → ℤ × Process
init_stdio a p =
    if failed a.pipe_0
    then (a.pipe_0, p)
    else if failed a.pipe_1
    then (a.pipe_1, record p { pipes = 1 })
    else if failed a.pipe_2
    then (a.pipe_2, record p { pipes = 2 })
    else (pos 0, record p { pipes = 3 })

-- What `uv_spawn` is given.
pub record Options : Type 0 where
  pub file : Option String
  pub argv : List (Option String)
  pub environ : Option (List (Option String))

abbrev pub head_of : List (Option String) → Option String
head_of [] = none
head_of (a ∷ as_) = a

unfoldable pub options_of : Process → Options
options_of p = record {
  file = head_of p.args;
  argv = p.args;
  environ = if ltb 1 (length p.env) then some p.env else none;
}

-- The two null pointers that `Spawn` puts at the end.
unfoldable pub terminated : Process → Process
terminated p = record p { args = p.args ++ none ∷ []; env = p.env ++ none ∷ [] }

-- The end of `Spawn`, from the call of `uv_spawn` on; the request is in the loop also where it fails.
unfoldable pub spawn_with : Answers → Process → ℤ × Process
spawn_with a p =
    let q = record p { has_loop = true } in
    if failed a.spawned
    then (a.spawned, record q { running = false })
    else if failed a.read_1
    then (a.read_1, record q { running = true })
    else (a.read_2, record q { running = true })

-- `Spawn`
unfoldable pub spawn : Answers → Process → ℤ × Process
spawn a p =
    let (err, q) = init_stdio a (terminated p) in if failed err then (err, q) else spawn_with a q

abbrev pub sigterm : ℕ
sigterm = 15

-- `Start`, and whether it succeeds.
unfoldable pub start_process : Answers → Process → Bool × Step
start_process a p =
    let (err, q) = spawn a p in
    if failed err
    then (
      false,
      after (invoke_error err ∷ []) (
          if q.running
          then (q, kill_process sigterm ∷ [])
          else on_process_exit (negsuc 0) (negsuc 0) q),
    )
    else (true, (q, []))

-- The timer's tick.
unfoldable pub on_timeout : Process → Step
on_timeout p =
    after (stop_timer ∷ [])
      (if p.running then (p, kill_process sigterm ∷ []) else on_process_exit (negsuc 1) (pos 0) p)

-- What `OnRead` is given: bytes, or a status that is not positive; `UV_EOF` apart.
pub data Output : Type 0 where
  bytes : Bytes → Output
  end_of_file : Output
  status : ℤ → Output

-- `OnRead` for the output of a number.
unfoldable pub on_output : ℕ → Output → Process → Step
on_output fd (bytes s) p = (p, invoke_data fd s ∷ [])
on_output fd end_of_file p = (p, [])
on_output fd (status n) p = (p, invoke_error n ∷ [])

-- `OnWriteAfter`
unfoldable pub on_write_after : ℤ → Process → Step
on_write_after n p = (p, if failed n then invoke_error n ∷ [] else [])

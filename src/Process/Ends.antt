-- ===== src/Process/Ends.antt =====
-- The listeners of the end are invoked once in the life of a process.
use nexer.Prelude.{◌≡◌, refl, Bool, true, false, List, [], ltb, if_both}
use nexer.Process.{
  Variable, Process, Step, create_process, init, set_timeout, new_process, positive,
}
use nexer.Process.Life.{closings, Life, Event, timeout, exits, live, Allowed}
use nexer.Process.Start.{push_args-args, set_envs-env}
use nexer.Config.Types.{Command}

-- What the timer does to a process whose request is closing.
record Late (r : Step) : Type 0 where
  reports : exits r.1 ≡ 0
  asks : closings r.1 ≡ 1
  stopped : r.0.running ≡ false
  stays : r.0.deleted ≡ false
  in_loop : r.0.has_loop ≡ true

-- The lives of a process: it is created, and what happens to it is allowed.
pub data IsReachable : Life → Type 0 where
  born :
      (environ : List Variable) (cmd : Command)
      → IsReachable (record {
        process = create_process environ cmd;
        started = false;
        closing = false;
        late_ticks = 0;
        past = [];
      })
  later : (e : Event) (l : Life) → Allowed e l → IsReachable l → IsReachable (live e l)

-- A process that nothing happened to.
abbrev pub Idle : Process → Type 0
Idle p = (p.running ≡ false) × (p.has_loop ≡ false) × (p.deleted ≡ false) × (p.pipes ≡ 0)

pub create_process-Idle :
    (environ : List Variable) (cmd : Command) → Idle (create_process environ cmd)
unfolding create_process init set_timeout new_process
create_process-Idle environ cmd =
    if_both Idle (ltb 0 (positive cmd.timeout)) _ _
      (rw (push_args-args cmd.args (new_process environ cmd.file), set_envs-env)
        (refl, refl, refl, refl))
      (rw (push_args-args cmd.args (new_process environ cmd.file), set_envs-env)
        (refl, refl, refl, refl))

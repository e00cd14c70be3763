-- ===== src/Process/Tests.antt =====
-- A process that fails to start, and one that runs.
use nexer.Prelude.{◌≡◌, refl, false, List, [], ◌∷◌}
use nexer.Prelude.Int.{negsuc, pos}
use Prim.Native.String.{String}
use nexer.Tcp.{failed}
use nexer.Config.Types.{Command}
use nexer.Process.{
  on_timeout, Variable, Answers, invoke_exit, invoke_error, close_request, close_pipe, terminated,
  create_process, start_process, spawn, init_stdio, spawn_with, on_process_exit, on_handle_close,
  init, set_timeout, set_envs, set_env, push_args, push_arg, new_process,
}
use nexer.Process.Life.{Life, start, closed, timeout, live, closings}

abbrev inherited : List Variable
inherited = ("B", "2") ∷ []

abbrev cmd : Command
cmd = record { file = "sleep"; args = "9" ∷ []; env = "A=1" ∷ []; cwd = ""; timeout = pos 50 }

-- `uv_spawn` fails.
abbrev refused : Answers
refused = record {
  pipe_0 = pos 0;
  pipe_1 = pos 0;
  pipe_2 = pos 0;
  spawned = negsuc 1;
  read_1 = pos 0;
  read_2 = pos 0;
}

abbrev newborn : Life
newborn = record {
  process = create_process inherited cmd;
  started = false;
  closing = false;
  late_ticks = 0;
  past = [];
}

abbrev done : Life
done = live closed (live (start refused) newborn)

done_past :
    done.past
    ≡ invoke_error (negsuc 1)
      ∷ close_pipe 0
      ∷ close_pipe 1
      ∷ close_pipe 2
      ∷ close_request
      ∷ invoke_exit (negsuc 0) (negsuc 0)
      ∷ []
unfolding live start_process spawn init_stdio terminated spawn_with failed on_process_exit
    on_handle_close create_process init set_timeout set_envs set_env push_args push_arg new_process
done_past = refl

abbrev environment : List String
environment = "B=2" ∷ "A=1" ∷ []

-- The timer ticks before the request has closed: it is closed again.
abbrev late : Life
late = live timeout (live (start refused) newborn)

closes_twice : closings late.past ≡ 2
unfolding live start_process spawn init_stdio terminated spawn_with on_process_exit on_timeout
    on_handle_close create_process init set_timeout set_envs set_env push_args push_arg new_process
closes_twice = refl

-- ===== src/Handle.antt =====
-- `Handle` of include/handle.h and src/handle.cc. The listeners' lists are those of Listeners; what
-- `uv_is_closing` answers is the state `closing`, and the handle is closed by the loop once.
pub mod Listeners
pub mod Life
pub mod Tests
use nexer.Prelude.{
  ℕ, Bool, true, false, Option, none, some, List, [], ◌∷◌, ◌++◌, map, if◌then◌else◌,
}
use nexer.Prelude.Int.{ℤ}
use Listeners.{FunctionList, new_list, add, invoke_all}

pub record Handle : Type 0 where
  pub on_close : FunctionList
  pub on_error : FunctionList
  -- `data_` and `data_freer_`.
  pub user_data : Option ℕ
  pub data_freer : Option ℕ
  pub closing : Bool
  pub deleted : Bool

pub data Effect : Type 0 where
  call_close : ℕ → Effect
  call_error : ℕ → ℤ → Effect
  call_freer : ℕ → Effect
  begin_close delete_self : Effect

abbrev pub new_handle : Handle
new_handle = record {
  on_close = new_list;
  on_error = new_list;
  user_data = none;
  data_freer = none;
  closing = false;
  deleted = false;
}

abbrev pub Step : Type 0
Step = Handle × List Effect

-- `OnClose` and `OnError` with a listener, and `SetData`.
unfoldable pub listen_close : ℕ → Handle → Step
listen_close f h = (record h { on_close = add f h.on_close }, [])

unfoldable pub listen_error : ℕ → Handle → Step
listen_error f h = (record h { on_error = add f h.on_error }, [])

unfoldable pub set_data : Option ℕ → Option ℕ → Handle → Step
set_data d freer h = (record h { user_data = d; data_freer = freer }, [])

-- `Close`
unfoldable pub close : Handle → Step
close h = if h.closing then (h, []) else (record h { closing = true }, begin_close ∷ [])

abbrev pub free_data : Option ℕ → Option ℕ → List Effect
free_data none freer = []
free_data (some d) none = []
free_data (some d) (some f) = call_freer f ∷ []

-- `OnClose`, which the loop calls.
unfoldable pub on_closed : Handle → Step
on_closed h = (
  record h { deleted = true },
  map (λ f. call_close f) (invoke_all h.on_close)
      ++ free_data h.user_data h.data_freer
      ++ delete_self ∷ [],
)

-- `OnError` with a status.
unfoldable pub report_error : ℤ → Handle → Step
report_error err h = (h, map (λ f. call_error f err) (invoke_all h.on_error))

-- ===== src/Handle/Tests.antt =====
-- A list with two functions, and a handle that is closed twice.

use nexer.Prelude.{◌++◌, List, [], ◌∷◌, ◌≡◌, refl, some, map}
use nexer.Handle.{
  Handle, Effect, listen_close, set_data, close, on_closed, begin_close, call_close, call_freer,
  delete_self, new_handle,
}
use nexer.Handle.Listeners.{
  FunctionList, add, new_list, Change, added, removed, changes, invoke_all, survivors,
  invoke_all-changes,
}
use nexer.Handle.Life.{
  Event, close_listener, new_data, closing, closed, handle_step, Allowed, IsReachable, born, later,
  IsSound, IsReachable-IsSound,
}

abbrev two_functions : List Change
two_functions = added 7 ∷ added 8 ∷ removed 0 ∷ added 9 ∷ []

two_functions_left : map (λ (n, f). f) (survivors 0 two_functions) ≡ 8 ∷ 9 ∷ []
two_functions_left = refl

invoke_all-changes_example :
    (m : FunctionList) × (changes two_functions new_list ≡ some m)
    × (invoke_all m ≡ map (λ (n, f). f) (survivors 0 two_functions))
unfolding add
invoke_all-changes_example = invoke_all-changes two_functions (refl, tt)

-- A handle after some events, the last one first, and what it did.
abbrev after : List Event → Handle
after [] = new_handle
after (e ∷ es) = (handle_step e (after es)).0

abbrev did : List Event → List Effect
did [] = []
did (e ∷ es) = did es ++ (handle_step e (after es)).1

abbrev AllAllowed : List Event → Type 0
AllAllowed [] = Unit
AllAllowed (e ∷ es) = Allowed e (after es) × AllAllowed es

after-IsReachable : (es : List Event) → AllAllowed es → IsReachable (after es) (did es)
after-IsReachable [] a = born
after-IsReachable (e ∷ es) (a, b) = later e (after es) (did es) a (after-IsReachable es b)

abbrev uses : List Event
uses = closed ∷ closing ∷ closing ∷ new_data (some 3) (some 5) ∷ close_listener 7 ∷ []

uses-did : did uses ≡ begin_close ∷ call_close 7 ∷ call_freer 5 ∷ delete_self ∷ []
unfolding handle_step listen_close set_data close on_closed add invoke_all
uses-did = refl

IsReachable-IsSound_example : IsSound (after uses) (did uses)
unfolding handle_step listen_close set_data close on_closed add
IsReachable-IsSound_example =
    IsReachable-IsSound (after uses) (did uses)
      (after-IsReachable uses ((refl, refl), (refl, (refl, (refl, (refl, tt))))))

-- ===== src/Tcp/Tests.antt =====
-- Runs of an attempt to connect, and the properties at concrete inputs.
use nexer.Prelude.{ℕ, ◌≡◌, refl, ◌↔◌, ◌⊎◌, true, false, Option, none, some, [], ◌∷◌, arith}
use nexer.Prelude.Int.{pos, negsuc}
use nexer.Tcp.{new_client, resolve, get_addr_info}
use nexer.Tcp.Dial.{Dial, new_dial, on_tick, tick, dial_step, try_connect, perform, invoke}
use nexer.Tcp.Dial.Invariant.{IsFaulty, IsClosing}
use nexer.Tcp.Dial.Answers.{Reach, start, later, connect-once, tick-answers, dial_step-IsFaulty}

-- The first client waits for its address.
abbrev waiting : Dial
waiting = record new_dial {
  client = some 1;
  made = 1;
  newest = some (record new_client { name_resolving = true });
  pending = some resolve;
  subscribed = true;
}

waiting-run : dial_step 3000 (tick 500 500 (pos 0)) new_dial ≡ some waiting
unfolding dial_step on_tick try_connect perform get_addr_info invoke
waiting-run = refl

waiting-Reach : Reach 3000 waiting
waiting-Reach = later (tick 500 500 (pos 0)) start refl waiting-run

connect-once_example :
    ((waiting.timer_closing ≡ false) × (waiting.results ≡ []))
    ⊎ ((r : Option ℕ) × (waiting.timer_closing ≡ true) × (waiting.results ≡ r ∷ []))
connect-once_example = connect-once 3000 waiting waiting-Reach

tick-answers_example :
    (t : Dial) × (dial_step 3000 (tick 3000 3000 (pos 0)) waiting ≡ some t)
    × (t.results ≡ none ∷ [])
    × (t.timer_closing ≡ true)
    × ((t.newest ≡ none) ⊎ IsClosing t.newest)
tick-answers_example =
    tick-answers 3000 3000 3000 (pos 0) waiting waiting-Reach refl (omega arith) (omega arith)

dial_step-IsFaulty_example :
    (dial_step 3000 (tick 500 500 (negsuc 0)) new_dial ≡ none)
    ↔ IsFaulty 3000 (tick 500 500 (negsuc 0)) new_dial
dial_step-IsFaulty_example = dial_step-IsFaulty 3000 (tick 500 500 (negsuc 0)) new_dial start refl

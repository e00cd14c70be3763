-- ===== src/Loop/Tests.antt =====
-- Runs of the loop and of a request.
use nexer.Prelude.{ℕ, zero, suc, ◌≡◌, refl, true, false, none, some, List, [], ◌∷◌}
use nexer.Prelude.Int.{ℤ, pos, negsuc}
use nexer.Loop.{
  LoopHandle, LoopClose, warn, fail, close_bare, close_loop, AsyncWork, start_work, finish_work,
  worked, ended,
}
use nexer.Tcp.{failed}

-- `UV_EBUSY` where there is a handle or an active request.
abbrev busy_answer : List LoopHandle → ℕ → ℤ
busy_answer [] zero = pos 0
busy_answer [] (suc r) = negsuc 15
busy_answer (h ∷ hs) r = negsuc 15

always_busy : (hs : List LoopHandle) (r : ℕ) → failed (busy_answer hs (suc r)) ≡ true
always_busy [] r = refl
always_busy (h ∷ hs) r = refl

abbrev loop_close : LoopClose
loop_close = record { answer = busy_answer; busy = λ h hs r. refl; active = always_busy }

abbrev first_handle : LoopHandle
first_handle = record { number = 1; closing = false }

abbrev other_handles : List LoopHandle
other_handles = record { number = 2; closing = true } ∷ record { number = 3; closing = false } ∷ []

close-run :
    (close_loop loop_close (first_handle ∷ other_handles) 0).0
    ≡ warn (negsuc 15) ∷ close_bare 1 ∷ close_bare 3 ∷ fail (negsuc 15) ∷ []
unfolding close_loop
close-run = refl

abbrev idle_work : AsyncWork
idle_work = record { work = none; on_end = some 8; queued = false }

work-run : start_work 7 idle_work ≡ some (record { work = some 7; on_end = some 8; queued = true })
unfolding start_work
work-run = refl

finish-run :
    finish_work (pos 0) (record { work = some 7; on_end = some 8; queued = true })
    ≡ some
        (worked 7 ∷ ended 8 (pos 0) ∷ [], record { work = some 7; on_end = some 8; queued = false })
unfolding finish_work
finish-run = refl

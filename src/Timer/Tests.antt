-- ===== src/Timer/Tests.antt =====
-- The timer's properties at concrete inputs.
use Prim.Native.Nat.{◌^◌}
use nexer.Prelude.{◌+◌, ◌-◌, ◌*◌, ◌≤◌, ◌<◌, ◌⊎◌, true, arith}
use nexer.Timer.{Timer, TimeVal, elapsed_time}
use nexer.Timer.Elapsed.{micros, elapsed_time-micros}

abbrev begun : TimeVal
begun = record { tv_sec = 5; tv_usec = 250000 }

abbrev later : TimeVal
later = record { tv_sec = 6; tv_usec = 1999 }

abbrev timer : Timer
timer = record { interval = 500; start_time = begun; running = true }

elapsed_time-micros_example :
    ((micros begun ≤ micros later)
      × (elapsed_time later timer * 1000 < micros later - micros begun + 1000)
      × (micros later - micros begun < elapsed_time later timer * 1000 + 1000))
    ⊎ ((micros later < micros begun)
        × (micros later + 1000 ≤ micros begun → 2 ^ 63 < elapsed_time later timer))
elapsed_time-micros_example =
    elapsed_time-micros later timer (omega arith, omega arith) (omega arith, omega arith)

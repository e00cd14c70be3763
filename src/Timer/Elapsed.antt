-- ===== src/Timer/Elapsed.antt =====
-- The elapsed time against the clock.
use Prim.Native.Nat.{◌^◌}
use nexer.Prelude.{
  ℕ, ◌+◌, ◌-◌, ◌*◌, ◌/◌, ◌≤◌, ◌<◌, ◌≡◌, ◌⊎◌, inl, inr, arith, leb, leb→lt, leb→le, Bool-cases,
}
use nexer.Timer.{TimeVal, Timer, now, elapsed_time}

-- The microseconds of a clock.
abbrev pub micros : TimeVal → ℕ
micros t = t.tv_sec * 1000000 + t.tv_usec

-- A clock that is below the year 292 million.
abbrev pub InRange : TimeVal → Type 0
InRange t = (t.tv_usec < 1000000) × (micros t < 2 ^ 62)

now-micros : (t : TimeVal) → InRange t → now t ≡ micros t / 1000
unfolding now
now-micros t (u, r) = omega arith

-- The elapsed time is right to a millisecond where the clock has not gone back; where it has gone
-- back by a millisecond or more, it is beyond 2 ^ 63, so that every timeout has passed.
pub elapsed_time-micros :
    (clock : TimeVal) (t : Timer)
    → InRange clock
    → InRange t.start_time
    → ((micros t.start_time ≤ micros clock)
        × (elapsed_time clock t * 1000 < micros clock - micros t.start_time + 1000)
        × (micros clock - micros t.start_time < elapsed_time clock t * 1000 + 1000))
      ⊎ ((micros clock < micros t.start_time)
          × (micros clock + 1000 ≤ micros t.start_time → 2 ^ 63 < elapsed_time clock t))
unfolding elapsed_time
elapsed_time-micros clock t r s =
    let e = now-micros clock r in
    let f = now-micros t.start_time s in
    elim (Bool-cases (leb (micros t.start_time) (micros clock))) [
      | inl h ↦ let le = leb→le _ _ h in inl (le, omega (arith, e, f), omega (arith, e, f))
      | inr h ↦ let lt = leb→lt _ _ h in inr (lt, λ back. omega (arith, e, f))
    ]

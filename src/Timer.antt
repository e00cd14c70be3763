-- ===== src/Timer.antt =====
-- `Timer` of include/timer.h and src/timer.cc. What `uv_gettimeofday` answers is an argument; the
-- arithmetic has 64 bits.
pub mod Elapsed
pub mod Tests
use Prim.Native.Nat.{◌^◌}
use nexer.Prelude.{
  ℕ, zero, suc, ◌+◌, ◌-◌, ◌*◌, ◌/◌, ◌%◌, ◌≤◌, ◌<◌, ◌≡◌, refl, sym, ap, ◌∙◌, ◌≢◌, ◌↔◌, ◌⊎◌, inl, inr,
  Bool, true, false, not, ◌&&◌, ◌||◌, Option, none, some, List, [], ◌∷◌, ◌++◌, map, append_assoc,
  append-nil, arith, Bytes, codes, length, length-append, take, drop, replicate, is_nil, All, ltb,
  leb, ◌==◌, if◌then◌else◌, lt→ltb, ltb→lt, ltb→le, leb→lt, leb→le, lt→leb, le→leb, ==_iff, ==-refl,
  Bool-cases, Option-cases, if_both, if_false, and_true, is_nil→eq,
}

-- `uv_timeval64_t`
pub record TimeVal : Type 0 where
  pub tv_sec : ℕ
  pub tv_usec : ℕ

pub record Timer : Type 0 where
  pub interval : ℕ
  pub start_time : TimeVal
  pub running : Bool

-- `tv_sec * 1000LL + tv_usec / 1000`, as `Now` returns it.
unfoldable pub now : TimeVal → ℕ
now t = (t.tv_sec * 1000 + t.tv_usec / 1000) % 2 ^ 64

-- `Start`: whether `uv_timer_start` succeeds, and what `uv_gettimeofday` gives, if it does.
unfoldable pub start_timer : Bool → Option TimeVal → Timer → Bool × Timer
start_timer false clock t = (false, t)
start_timer true none t = (false, record t { running = true })
start_timer true (some clock) t = (true, record t { running = true; start_time = clock })

-- `Stop`
unfoldable pub stop_timer : Bool → Timer → Bool × Timer
stop_timer false t = (false, t)
stop_timer true t = (true, record t { running = false })

-- `end_ms - start_ms`
unfoldable pub elapsed_time : TimeVal → Timer → ℕ
elapsed_time clock t = (now clock + (2 ^ 64 - now t.start_time)) % 2 ^ 64

-- `OnTick`: whether the listener is called.
unfoldable pub ticks : TimeVal → Timer → Bool
ticks clock t = leb t.interval (elapsed_time clock t)

-- ===== src/Log.antt =====
-- `Logger` of include/logger.h and src/logger.cc: opening, the gate of each method and the line
-- that `vprint` writes. The time stamp and the formatted text are arguments (`strftime` and
-- `vsnprintf` make them), and so is what `::open` answers. The lock is left out: a call is one step.
pub mod Lines
pub mod Gates
pub mod Tests
use nexer.Prelude.{
  ℕ, zero, suc, ◌+◌, ◌-◌, ◌*◌, ◌/◌, ◌%◌, ◌≤◌, ◌<◌, ◌≡◌, refl, sym, ap, ◌∙◌, ◌≢◌, ◌↔◌, ◌⊎◌, inl, inr,
  Bool, true, false, not, ◌&&◌, ◌||◌, Option, none, some, List, [], ◌∷◌, ◌++◌, map, append_assoc,
  append-nil, arith, Bytes, codes, length, length-append, take, drop, replicate, is_nil, All, ltb,
  leb, ◌==◌, if◌then◌else◌, lt→ltb, ==_iff, ==-refl, Bool-cases, Option-cases, if_both, if_false,
  and_true, is_nil→eq,
}
use nexer.Config.Types.{Level, trace, debug, info, warn, error, fatal, critical}

pub record LogState : Type 0 where
  pub fd : ℕ
  pub level : Level

-- `set_level`
unfoldable pub set_level : Level → LogState → LogState
set_level level state = record state { level = level }

-- The number of a level, for `<=`.
abbrev pub rank : Level → ℕ
rank trace = 0
rank debug = 1
rank info = 2
rank warn = 3
rank error = 4
rank fatal = 5
rank critical = 6

-- `Logger::open`: the descriptor that `::open` gives, or none for -1. The result is `error`.
unfoldable pub open_log : Bytes → Option ℕ → Level → Bool × LogState
open_log [] opened level = (false, record { fd = 1; level = level })
open_log (c ∷ s) none level = (true, record { fd = 2; level = level })
open_log (c ∷ s) (some fd) level = (false, record { fd = fd; level = level })

-- The level that the method of each name compares `level_` with; `fatal` makes no test.
unfoldable pub gate : Level → Option Level
gate trace = some trace
gate debug = some debug
gate info = some info
gate warn = some warn
gate error = some error
gate fatal = none
gate critical = some trace

unfoldable pub passes : Level → Option Level → Bool
passes level none = true
passes level (some g) = leb (rank level) (rank g)

-- `level_names`, with the closing space.
unfoldable pub padded_name : Level → Bytes
padded_name trace = codes "TRACE "
padded_name debug = codes "DEBUG "
padded_name info = codes "INFO "
padded_name warn = codes "WARN "
padded_name error = codes "ERROR "
padded_name fatal = codes "FATAL "
padded_name critical = codes "CRITICAL "

-- A call of `write` on a descriptor, or a text printed to `stderr`.
pub data Output : Type 0 where
  to_fd : ℕ → Bytes → Output
  to_stderr : Bytes → Output

abbrev pub buf_size : ℕ
buf_size = 4096

-- The line without its end. The stamp has 20 bytes.
abbrev pub line : Bytes → Level → Bytes → Bytes
line stamp level text = stamp ++ padded_name level ++ text

-- `Logger::vprint`
unfoldable pub vprint : LogState → Bytes → Level → Bytes → List Output
vprint state stamp level text =
    let whole = line stamp level text in
    let offset = 20 + length (padded_name level) in
    let cut = take (buf_size - 4) whole ++ codes "...\n" in
    if is_nil text
    then []
    else if ltb (offset + length text) buf_size
    then to_fd state.fd (whole ++ codes "\n") ∷ []
    else to_stderr (whole ++ codes "\n") ∷ to_fd state.fd cut ∷ []

-- The methods `trace` to `critical`.
unfoldable pub log : Level → LogState → Bytes → Bytes → List Output
log method state stamp text =
    if passes state.level (gate method) then vprint state stamp method text else []

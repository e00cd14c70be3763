-- ===== src/Config.antt =====
-- include/config.h and src/config.cc: the configuration and its parser.
pub mod Types
pub mod Registry
pub mod Document
pub mod Ending
pub mod Fuel
pub mod Slips
pub mod Tests
pub mod Invariant
pub mod Heap
pub mod Pointers
pub mod Parser
use Prim.Native.String.{String}
use text.Mathlib.Text.{◌==◌ as str_eq}
use nexer.Prelude.{
  ℕ, zero, suc, ◌+◌, ◌-◌, ◌*◌, ◌/◌, ◌%◌, ◌≤◌, ◌<◌, ◌≡◌, refl, sym, ap, ◌∙◌, ◌≢◌, ◌↔◌, ◌⊎◌, inl, inr,
  Bool, true, false, not, ◌&&◌, ◌||◌, Option, none, some, List, [], ◌∷◌, ◌++◌, map, append_assoc,
  append-nil, arith, Bytes, codes, length, length-append, take, drop, replicate, is_nil, All, ltb,
  leb, ◌==◌, if◌then◌else◌, lt→ltb, ==_iff, ==-refl, Bool-cases, Option-cases, if_both, if_false,
  and_true, is_nil→eq,
}
use nexer.Prelude.Int.{ℤ, pos, negsuc}
use Types.{
  Level, trace, debug, info, warn, error, fatal, critical, Command, App, Upstream, Proxy, Admin,
  Logger, DummyType, udp, tcp, http, Dummy, Config, new_command, new_app, new_proxy, new_dummy,
  new_config,
}
use Registry.{allocate, get_app}
use Document.{
  Json, eq_type, undefined, parse_object, parse_array, parse_int, parse_bool, parse_text,
  parse_texts, within,
}

-- The names in `level_names` of src/logger.cc without the closing space, in order, each with the
-- level of its place.
abbrev pub level_names : List (String × Level)
level_names =
    ("TRACE", trace)
    ∷ ("DEBUG", debug)
    ∷ ("INFO", info)
    ∷ ("WARN", warn)
    ∷ ("ERROR", error)
    ∷ ("FATAL", fatal)
    ∷ ("CRITICAL", critical)
    ∷ []

-- `Logger::ParseLevel`
unfoldable pub parse_level_in : List (String × Level) → Level → String → Bool × Level
parse_level_in [] level name = (false, level)
parse_level_in ((n, l) ∷ ls) level name =
    let rest = parse_level_in ls level name in if str_eq name n then (true, l) else rest

unfoldable pub parse_level : Level → String → Bool × Level
parse_level = parse_level_in level_names

module _ (j : Json) where
  open j use {Value, type_of, is_string, to_text}

  unfoldable pub parse_admin : Value → Admin → Bool × Admin
  parse_admin = parse_object j λ k v admin.
      if str_eq k "listen"
      then within (λ p. record admin { port = p }) (parse_int j v admin.port)
      else (false, admin)

  -- A level that is not known is reported, and `ok` stays true.
  unfoldable pub logger_level : Value → Logger → Bool × Logger
  logger_level v logger =
      let (ok, level) = parse_text j false v "" in
      if ok
      then (true, record logger { level = (parse_level logger.level level).1 })
      else (false, logger)

  unfoldable pub parse_logger : Value → Logger → Bool × Logger
  parse_logger = parse_object j λ k v logger.
      if str_eq k "file"
      then within (λ s. record logger { file = s }) (parse_text j false v logger.file)
      else if str_eq k "level"
      then logger_level v logger
      else (false, logger)

  -- The entry "cwd" is read into `cmd.env`.
  unfoldable pub parse_command : Value → Command → Bool × Command
  parse_command = parse_object j λ k v cmd.
      if str_eq k "file"
      then within (λ s. record cmd { file = s }) (parse_text j false v cmd.file)
      else if str_eq k "args"
      then within (λ l. record cmd { args = l }) (parse_texts j v cmd.args)
      else if str_eq k "env"
      then within (λ l. record cmd { env = l }) (parse_texts j v cmd.env)
      else if str_eq k "cwd"
      then within (λ l. record cmd { env = l }) (parse_texts j v cmd.env)
      else if str_eq k "timeout"
      then within (λ n. record cmd { timeout = n }) (parse_int j v cmd.timeout)
      else (false, cmd)

  -- Where "http" is given, the function returns before it stores the type.
  unfoldable pub parse_dummy_type : Value → DummyType → Bool × DummyType
  parse_dummy_type v t =
      if not (is_string v)
      then (false, t)
      else if str_eq (to_text v) "tcp"
      then (true, tcp)
      else if str_eq (to_text v) "udp"
      then (true, udp)
      else if str_eq (to_text v) "http"
      then (true, t)
      else (false, t)

  unfoldable pub parse_dummy : Value → Dummy → Bool × Dummy
  parse_dummy = parse_object j λ k v dummy.
      if str_eq k "type"
      then within (λ t. record dummy { type = t }) (parse_dummy_type v dummy.type)
      else if str_eq k "listen"
      then within (λ p. record dummy { port = p }) (parse_int j v dummy.port)
      else if str_eq k "echo"
      then within (λ b. record dummy { echo = b }) (parse_bool j v dummy.echo)
      else (false, dummy)

  -- `emplace_back`, and the new entry is parsed in its place.
  unfoldable pub parse_dummies : Value → List Dummy → Bool × List Dummy
  parse_dummies = parse_array j λ v ds. within (λ d. ds ++ d ∷ []) (parse_dummy v new_dummy)

-- ===== src/Config/Slips.antt =====
-- Entries of the configuration that the parser accepts and that have no effect.
use Prim.Native.String.{String}
use text.Mathlib.Text.{◌==◌ as str_eq}
use nexer.Prelude.{
  ◌≡◌, refl, sym, ◌∙◌, ◌≢◌, ◌⊎◌, inl, inr, Bool, true, false, not, List, [], ◌∷◌, All, Bool-cases,
  if_both,
}
use mathlib.Core.Bool.{false≢true}
use text.Mathlib.TextEquality.{eq_iff}
use nexer.Config.Types.{
  Level, trace, debug, info, warn, error, fatal, critical, Command, Dummy, DummyType, udp, tcp,
  http, new_dummy, Logger,
}
use nexer.Config.Document.{Json, parse_text, string}
use nexer.Config.Invariant.{parse_object_keeps, parse_array_keeps}
use nexer.Config.Heap.{All-append}
use nexer.Config.{
  parse_command, parse_dummy_type, parse_dummy, parse_dummies, logger_level, parse_level,
  parse_level_in, level_names,
}

-- No document sets the working directory of a command, although "cwd" is an entry that is read.
pub parse_command-cwd :
    (j : Json) (v : Json.Value j) (cmd : Command) → (parse_command j v cmd).1.cwd ≡ cmd.cwd
unfolding parse_command
parse_command-cwd j v cmd =
    let P = λ (r : Bool × Command). r.1.cwd ≡ cmd.cwd in
    parse_object_keeps j (λ (m : Command). m.cwd ≡ cmd.cwd) _
      (λ k x m e. if_both P (str_eq k "file") _ _ e (
        if_both P (str_eq k "args") _ _ e (
          if_both P (str_eq k "env") _ _ e
            (if_both P (str_eq k "cwd") _ _ e (if_both P (str_eq k "timeout") _ _ e e)))))
      v cmd refl

-- A type that a dummy server can be started for.
abbrev pub IsServed : DummyType → Type 0
IsServed udp = Unit
IsServed tcp = Unit
IsServed http = ⊥

parse_dummy_type-IsServed :
    (j : Json) (v : Json.Value j) (t : DummyType) → IsServed t → IsServed (parse_dummy_type j v t).1
unfolding parse_dummy_type
parse_dummy_type-IsServed j v t h =
    let P = λ (r : Bool × DummyType). IsServed r.1 in
    if_both P (not (j.is_string v)) _ _ h (
      if_both P (str_eq (j.to_text v) "tcp") _ _ tt (
        if_both P (str_eq (j.to_text v) "udp") _ _ tt
          (if_both P (str_eq (j.to_text v) "http") _ _ h h)))

parse_dummy-IsServed :
    (j : Json) (v : Json.Value j) (d : Dummy)
    → IsServed d.type
    → IsServed (parse_dummy j v d).1.type
unfolding parse_dummy
parse_dummy-IsServed j v d h =
    let P = λ (r : Bool × Dummy). IsServed r.1.type in
    parse_object_keeps j (λ (d : Dummy). IsServed d.type) _
      (λ k x d h.
        if_both P (str_eq k "type") _ _ (parse_dummy_type-IsServed j x d.type h)
          (if_both P (str_eq k "listen") _ _ h (if_both P (str_eq k "echo") _ _ h h)))
      v d h

-- No dummy server is ever configured with the type "http", although that name is accepted: every
-- dummy that is read has the type "tcp" or "udp", for which a server can be started.
pub parse_dummies-IsServed :
    (j : Json) (v : Json.Value j) (ds : List Dummy)
    → All (λ d. IsServed d.type) ds
    → All (λ d. IsServed d.type) (parse_dummies j v ds).1
unfolding parse_dummies
parse_dummies-IsServed j v ds h =
    parse_array_keeps j (All (λ (d : Dummy). IsServed d.type)) _
      (λ x es g. All-append _ es _ g (parse_dummy-IsServed j x new_dummy tt, tt)) v ds h

-- The name of a level.
abbrev pub level_name : Level → String
level_name trace = "TRACE"
level_name debug = "DEBUG"
level_name info = "INFO"
level_name warn = "WARN"
level_name error = "ERROR"
level_name fatal = "FATAL"
level_name critical = "CRITICAL"

abbrev Rights : List (String × Level) → Type 0
Rights = All (λ e. e.0 ≡ level_name e.1)

abbrev Reads : List (String × Level) → Level → String → Type 0
Reads ls old s =
    ((parse_level_in ls old s ≡ (false, old)) × All (λ e. s ≢ e.0) ls)
    ⊎ ((l : Level) × (s ≡ level_name l) × (parse_level_in ls old s ≡ (true, l)))

parse_level_in-Reads :
    (ls : List (String × Level)) (old : Level) (s : String) → Rights ls → Reads ls old s
unfolding parse_level_in
parse_level_in-Reads [] old s r = inl (refl, tt)
parse_level_in-Reads ((n, l) ∷ ls) old s (e, r) = elim (Bool-cases (str_eq s n)) [
  | inl y ↦ inr (l, (eq_iff s n).0 y ∙ e, rw y)
  | inr y ↦ elim (parse_level_in-Reads ls old s r) [
    | inl (p, a) ↦ inl (rw y p, (λ q. false≢true (sym y ∙ (eq_iff s n).1 q), a))
    | inr (k, q, p) ↦ inr (k, q, rw y p)
  ]
]

-- A level is read exactly from its name; any other text is refused and leaves the level as it was.
pub parse_level_correct :
    (old : Level) (s : String)
    → ((parse_level old s ≡ (false, old)) × ((l : Level) → s ≢ level_name l))
      ⊎ ((l : Level) × (s ≡ level_name l) × (parse_level old s ≡ (true, l)))
unfolding parse_level
parse_level_correct old s =
    elim (parse_level_in-Reads level_names old s
      (refl, (refl, (refl, (refl, (refl, (refl, (refl, tt)))))))) [
        | inl (p, a) ↦ inl (
          p,
          λ l. elim l as (λ l. s ≢ level_name l) [
            | trace ↦ a.0
            | debug ↦ a.1.0
            | info ↦ a.1.1.0
            | warn ↦ a.1.1.1.0
            | error ↦ a.1.1.1.1.0
            | fatal ↦ a.1.1.1.1.1.0
            | critical ↦ a.1.1.1.1.1.1.0
          ],
        )
        | inr r ↦ inr r
      ]

-- The parser of the logger accepts a level by its type alone: given any text, it reports success,
-- and a text that names no level leaves the level unchanged.
pub logger_level-unknown :
    (j : Json) (v : Json.Value j) (logger : Logger)
    → j.type_of v ≡ string
    → ((l : Level) → j.to_text v ≢ level_name l)
    → logger_level j v logger ≡ (true, logger)
unfolding logger_level parse_text
logger_level-unknown j v logger t u = elim (parse_level_correct logger.level (j.to_text v)) [
  | inl (p, _) ↦ rw (t, p)
  | inr (l, e, _) ↦ absurd (u l e)
]

-- ===== src/Config/Parser.antt =====
-- The rest of `ConfigParser` in src/config.cc: the apps, which refer to one another by pointers,
-- the proxies and the whole configuration.
use Prim.Native.String.{String}
use text.Mathlib.Text.{◌==◌ as str_eq}
use nexer.Prelude.{
  ℕ, zero, suc, Bool, true, false, Option, none, some, List, [], ◌∷◌, ◌++◌, if◌then◌else◌,
}
use nexer.Prelude.Int.{pos}
use nexer.Config.Types.{App, Upstream, Proxy, Config, new_command, new_app, new_proxy}
use nexer.Config.Registry.{allocate, get_app}
use nexer.Config.Document.{
  Json, undefined, parse_object, parse_array, parse_int, parse_text, parse_texts, within, eq_type,
}
use nexer.Config.{parse_admin, parse_logger, parse_command, parse_dummies}

-- `*app = std::move(tmp)` through a pointer.
unfoldable pub assign : List App → ℕ → App → List App
assign [] p app = []
assign (x ∷ heap) zero app = app ∷ heap
assign (x ∷ heap) (suc p) app = x ∷ assign heap p app

-- A parsed part put in its place, beside the configuration.
abbrev pub beside {ℓ κ} :
    {S : Type ℓ} {T : Type κ} → Config → (S → T) → Bool × S → Bool × (Config × T)
beside c put (ok, s) = (ok, (c, put s))

abbrev pub inside {ℓ κ} :
    {S : Type ℓ} {T : Type κ} → (S → T) → Bool × (Config × S) → Bool × (Config × T)
inside put (ok, (c, s)) = (ok, (c, put s))

-- What `ParseApp` returns, and the configuration that it leaves.
abbrev pub AppResult : Type 0
AppResult = Option ℕ × Config

-- `app.preamble.push_back(preamble)`, unless it is null.
unfoldable pub push_preamble : Option ℕ → Config → App → Bool × (Config × App)
push_preamble none d app = (false, (d, app))
push_preamble (some p) d app = (true, (d, record app { preamble = app.preamble ++ p ∷ [] }))

module _ (j : Json) (parse_app : Json.Value j → Config → AppResult) where
  open j use {Value}

  -- One entry of `app preamble`.
  unfoldable pub preamble_item : Value → Config × App → Bool × (Config × App)
  preamble_item v (c, app) = let (found, d) = parse_app v c in push_preamble found d app

  -- An entry of an app.
  unfoldable pub app_entry : String → Value → Config × App → Bool × (Config × App)
  app_entry k v (c, app) =
      let preambles = parse_array j preamble_item v (c, app) in
      let fresh = record new_command { timeout = pos 10000 } in
      if str_eq k "name"
      then beside c (λ s. record app { name = s }) (parse_text j true v app.name)
      else if str_eq k "command"
      then beside c (λ m. record app { command = m }) (parse_command j v app.command)
      else if str_eq k "checker"
      then beside c (λ m. record app { checker = some m }) (parse_command j v fresh)
      else if str_eq k "max_start_time"
      then beside c (λ n. record app { max_start_time = n }) (parse_int j v app.max_start_time)
      else if str_eq k "preamble"
      then preambles
      else if str_eq k "tags"
      then beside c (λ l. record app { tags = l }) (parse_texts j v app.tags)
      else (false, (c, app))

-- The end of `ParseApp`: an app with a name goes where the name leads, another to a new place.
unfoldable pub store_app : Config → App → ℕ × Config
store_app c tmp =
    let (p, d) = get_app tmp.name c in
    if str_eq tmp.name "" then allocate tmp c else (p, record d { heap = assign d.heap p tmp })

-- `ParseApp`. The fuel bounds how deep apps are nested as preambles; with none left the result is
-- null.
unfoldable pub parse_app : ℕ → (j : Json) → Json.Value j → Config → AppResult
parse_app zero j v c = (none, c)
parse_app (suc n) j v c =
    let entries = parse_object j (app_entry j (parse_app n j)) v (c, new_app) in
    let name = j.to_text v in
    let (p, d) = get_app name c in
    let (q, e) = store_app entries.1.0 entries.1.1 in
    if j.is_string v
    then (if str_eq name "" then (none, c) else (some p, d))
    else if entries.0
    then (some q, e)
    else (none, entries.1.0)

module _ (n : ℕ) (j : Json) where
  open j use {Value, type_of}

  unfoldable pub upstream_entry : String → Value → Config × Upstream → Bool × (Config × Upstream)
  upstream_entry k v (c, up) =
      let (found, d) = parse_app n j v c in
      let ok : Bool = elim found [ none ↦ false | some p ↦ true ] in
      if str_eq k "host"
      then beside c (λ s. record up { host = s }) (parse_text j false v up.host)
      else if str_eq k "port"
      then beside c (λ i. record up { port = i }) (parse_int j v up.port)
      else if str_eq k "connect_timeout"
      then beside c (λ i. record up { connect_timeout = i }) (parse_int j v up.connect_timeout)
      else if str_eq k "app"
      then (ok, (d, record up { app = found }))
      else if str_eq k "tags"
      then beside c (λ l. record up { tags = l }) (parse_texts j v up.tags)
      else (false, (c, up))

  unfoldable pub proxy_entry : String → Value → Config × Proxy → Bool × (Config × Proxy)
  proxy_entry k v (c, proxy) =
      if str_eq k "upstream"
      then inside (λ u. record proxy { upstream = u })
          (parse_object j upstream_entry v (c, proxy.upstream))
      else if str_eq k "listen"
      then beside c (λ i. record proxy { port = i }) (parse_int j v proxy.port)
      else (false, (c, proxy))

  -- `emplace_back`, and the new proxy is parsed in its place.
  unfoldable pub proxies_item : Value → Config → Bool × Config
  proxies_item v c =
      let (ok, (d, proxy)) = parse_object j proxy_entry v (c, new_proxy) in
      (ok, record d { proxies = d.proxies ++ proxy ∷ [] })

  unfoldable pub apps_item : Value → Config → Bool × Config
  apps_item v c =
      let (found, d) = parse_app n j v c in (elim found [ none ↦ false | some p ↦ true ], d)

  unfoldable pub config_entry : String → Value → Config → Bool × Config
  config_entry k v c =
      if str_eq k "admin"
      then within (λ a. record c { admin = a }) (parse_admin j v c.admin)
      else if str_eq k "logger"
      then within (λ l. record c { logger = l }) (parse_logger j v c.logger)
      else if str_eq k "proxies"
      then parse_array j proxies_item v c
      else if str_eq k "apps"
      then parse_array j apps_item v c
      else if str_eq k "dummy"
      then within (λ ds. record c { dummies = ds }) (parse_dummies j v c.dummies)
      else (false, c)

  -- `ConfigParser::Parse`
  unfoldable pub parse_config : Value → Config → Bool × Config
  parse_config v c =
      let all = parse_object j config_entry v c in
      if eq_type (type_of v) undefined then (false, c) else all

-- ===== src/Config/Registry.antt =====
-- `Config::GetApp` of src/config.cc.
use Prim.Native.String.{String}
use nexer.Prelude.{ℕ, Option, none, some, List, [], ◌∷◌, ◌++◌, length, if◌then◌else◌}
use text.Mathlib.Text.{◌==◌ as str_eq}
use nexer.Config.Types.{App, Config, new_app}

-- `app_map_.find(name)`
unfoldable pub find : String → List (String × ℕ) → Option ℕ
find name [] = none
find name ((k, p) ∷ m) = let rest = find name m in if str_eq k name then some p else rest

-- `new config::App()` with this value, and `apps_.push_back`.
unfoldable pub allocate : App → Config → ℕ × Config
allocate app c =
    let p = length c.heap in (p, record c { heap = c.heap ++ app ∷ []; apps = c.apps ++ p ∷ [] })

-- `GetApp`
unfoldable pub get_app : String → Config → ℕ × Config
unfolding find allocate
get_app name c =
    let fresh = allocate (record new_app { name = name }) c in
    let p = fresh.0 in
    let d = fresh.1 in
    if str_eq name "" then fresh else elim (find name c.app_map) [
      | some q ↦ (q, c)
      | none ↦ (p, record d { app_map = (name, p) ∷ d.app_map })
    ]

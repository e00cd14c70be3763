-- ===== src/Config/Fuel.antt =====
-- The fuel of the parser: more than the document's depth is enough.
use Prim.Native.String.{String}
use nexer.Prelude.{ℕ, zero, suc, ◌≤◌, ◌<◌, ◌≡◌, refl, Bool, List, [], ◌∷◌, arith, All}
use nexer.Config.Types.{App, Upstream, Proxy, Config, new_app, new_proxy}
use nexer.Config.Document.{Json, each_member, each_element, parse_object, parse_array}
use nexer.Config.Parser.{
  AppResult, preamble_item, app_entry, parse_app, upstream_entry, proxy_entry, proxies_item,
  apps_item, config_entry, parse_config,
}

-- Loops whose turns agree on what they meet agree.
each_member_cong {ℓ} :
    {V : Type 0} {S : Type ℓ} (Q : V → Type 0) (f g : String → V → S → Bool × S)
    → ((k : String) (v : V) (s : S) → Q v → f k v s ≡ g k v s)
    → (ms : List (String × V)) (s : S) → All (λ m. Q m.1) ms
    → each_member f ms s ≡ each_member g ms s
unfolding each_member
each_member_cong Q f g h [] s a = refl
each_member_cong Q f g h ((k, v) ∷ ms) s (q, a) =
    rw (h k v s q, each_member_cong Q f g h ms (g k v s).1 a)

each_element_cong {ℓ} :
    {V : Type 0} {S : Type ℓ} (Q : V → Type 0) (f g : V → S → Bool × S)
    → ((v : V) (s : S) → Q v → f v s ≡ g v s)
    → (vs : List V) (s : S) → All Q vs
    → each_element f vs s ≡ each_element g vs s
unfolding each_element
each_element_cong Q f g h [] s a = refl
each_element_cong Q f g h (v ∷ vs) s (q, a) = rw (h v s q, each_element_cong Q f g h vs (g v s).1 a)

module _ {ℓ} (j : Json) {S : Type ℓ} where
  open j use {Value, depth}

  object_cong :
      (f g : String → Value → S → Bool × S) (v : Value) (s : S)
      → ((k : String) (x : Value) (t : S) → depth x < depth v → f k x t ≡ g k x t)
      → parse_object j f v s ≡ parse_object j g v s
  unfolding parse_object
  object_cong f g v s h =
      rw (each_member_cong (λ x. depth x < depth v) f g h (j.members v) s (j.members-depth v))

  array_cong :
      (f g : Value → S → Bool × S) (v : Value) (s : S)
      → ((x : Value) (t : S) → depth x < depth v → f x t ≡ g x t)
      → parse_array j f v s ≡ parse_array j g v s
  unfolding parse_array
  array_cong f g v s h =
      rw (each_element_cong (λ x. depth x < depth v) f g h (j.elements v) s (j.elements-depth v))

module _ (j : Json) where
  open j use {Value, depth}

  -- Two parsers of apps that agree below a depth.
  abbrev Agree : ℕ → (Value → Config → AppResult) → (Value → Config → AppResult) → Type 0
  Agree d p q = (v : Value) (c : Config) → depth v < d → p v c ≡ q v c

  preamble_item_cong :
      (d : ℕ) (p q : Value → Config → AppResult) (v : Value) (s : Config × App)
      → Agree d p q
      → depth v < d
      → preamble_item j p v s ≡ preamble_item j q v s
  unfolding preamble_item
  preamble_item_cong d p q v (c, app) h l = rw (h v c l)

  app_entry_cong :
      (d : ℕ) (p q : Value → Config → AppResult) (k : String) (v : Value) (s : Config × App)
      → Agree d p q
      → depth v ≤ d
      → app_entry j p k v s ≡ app_entry j q k v s
  unfolding app_entry
  app_entry_cong d p q k v (c, app) h l = rw (
      array_cong j (preamble_item j p) (preamble_item j q) v (c, app)
        (λ x t b. preamble_item_cong d p q x t h (omega arith)))

  parse_app-fuel :
      (n m : ℕ) (v : Value) (c : Config)
      → depth v < n
      → depth v < m
      → parse_app n j v c ≡ parse_app m j v c
  unfolding parse_app
  parse_app-fuel zero m v c a b = absurd (omega arith)
  parse_app-fuel (suc n) zero v c a b = absurd (omega arith)
  parse_app-fuel (suc n) (suc m) v c a b = rw (
      object_cong j (app_entry j (parse_app n j)) (app_entry j (parse_app m j)) v (c, new_app)
        (λ k x t lt.
          app_entry_cong (depth v) (parse_app n j) (parse_app m j) k x t
            (λ y d l. parse_app-fuel n m y d (omega arith) (omega arith)) (omega arith)))

  module _ (n m : ℕ) where
    upstream_entry_cong :
        (k : String) (v : Value) (s : Config × Upstream)
        → depth v < n
        → depth v < m
        → upstream_entry n j k v s ≡ upstream_entry m j k v s
    unfolding upstream_entry
    upstream_entry_cong k v (c, up) a b = rw (parse_app-fuel n m v c a b)

    proxy_entry_cong :
        (k : String) (v : Value) (s : Config × Proxy)
        → depth v < n
        → depth v < m
        → proxy_entry n j k v s ≡ proxy_entry m j k v s
    unfolding proxy_entry
    proxy_entry_cong k v (c, proxy) a b = rw (
        object_cong j (upstream_entry n j) (upstream_entry m j) v (c, proxy.upstream)
          (λ k x t l. upstream_entry_cong k x t (omega arith) (omega arith)))

    proxies_item_cong :
        (v : Value) (c : Config)
        → depth v < n
        → depth v < m
        → proxies_item n j v c ≡ proxies_item m j v c
    unfolding proxies_item
    proxies_item_cong v c a b = rw (
        object_cong j (proxy_entry n j) (proxy_entry m j) v (c, new_proxy)
          (λ k x t l. proxy_entry_cong k x t (omega arith) (omega arith)))

    apps_item_cong :
        (v : Value) (c : Config) → depth v < n → depth v < m → apps_item n j v c ≡ apps_item m j v c
    unfolding apps_item
    apps_item_cong v c a b = rw (parse_app-fuel n m v c a b)

    config_entry_cong :
        (k : String) (v : Value) (c : Config)
        → depth v < n
        → depth v < m
        → config_entry n j k v c ≡ config_entry m j k v c
    unfolding config_entry
    config_entry_cong k v c a b = rw (
      array_cong j (proxies_item n j) (proxies_item m j) v c
          (λ x t l. proxies_item_cong x t (omega arith) (omega arith)),
      array_cong j (apps_item n j) (apps_item m j) v c
          (λ x t l. apps_item_cong x t (omega arith) (omega arith)),
    )

-- Fuel above the depth of the document is enough: any two such amounts give the same result, so
-- the parser's recursion is never cut short.
pub parse_config-fuel :
    (n m : ℕ) (j : Json) (v : Json.Value j) (c : Config)
    → j.depth v < n
    → j.depth v < m
    → parse_config n j v c ≡ parse_config m j v c
unfolding parse_config
parse_config-fuel n m j v c a b = rw (
    object_cong j (config_entry n j) (config_entry m j) v c
      (λ k x t l. config_entry_cong j n m k x t (omega arith) (omega arith)))

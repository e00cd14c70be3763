-- ===== src/Config/Invariant.antt =====
-- Every step of the parser keeps the configuration's pointers and names right.
use Prim.Native.String.{String}
use text.Mathlib.Text.{◌==◌ as str_eq}
use nexer.Prelude.{
  ℕ, zero, suc, Bool, false, Option, none, some, List, [], ◌∷◌, arith, length, if_both,
}
use nexer.Config.Types.{App, Upstream, Proxy, Config, new_app, new_proxy}
use nexer.Config.Document.{
  Json, each_member, each_element, parse_object, parse_array, eq_type, undefined,
}
use nexer.Config.Heap.{AllBelow, All-append, name_of-lt}
use nexer.Config.Pointers.{
  HasApps, Extends, IsApp, AllBelow-mono, store_app-Extends, get_app-HasApps,
}
use nexer.Config.Parser.{
  AppResult, preamble_item, app_entry, parse_app, upstream_entry, proxy_entry, proxies_item,
  apps_item, config_entry, parse_config, push_preamble,
}

-- A loop keeps what each of its turns keeps, whether it ends early or not.
pub each_member_keeps {ℓ κ} :
    {V : Type 0} {S : Type ℓ} (P : S → Type κ) (f : String → V → S → Bool × S)
    → ((k : String) (v : V) (s : S) → P s → P (f k v s).1)
    → (ms : List (String × V)) (s : S) → P s
    → P (each_member f ms s).1
unfolding each_member
each_member_keeps {S = S} P f h [] s p = p
each_member_keeps {S = S} P f h ((k, v) ∷ ms) s p =
    if_both (λ (r : Bool × S). P r.1) (f k v s).0 _ (false, (f k v s).1)
      (each_member_keeps P f h ms (f k v s).1 (h k v s p)) (h k v s p)

pub each_element_keeps {ℓ κ} :
    {V : Type 0} {S : Type ℓ} (P : S → Type κ) (f : V → S → Bool × S)
    → ((v : V) (s : S) → P s → P (f v s).1)
    → (vs : List V) (s : S) → P s
    → P (each_element f vs s).1
unfolding each_element
each_element_keeps {S = S} P f h [] s p = p
each_element_keeps {S = S} P f h (v ∷ vs) s p =
    if_both (λ (r : Bool × S). P r.1) (f v s).0 _ (false, (f v s).1)
      (each_element_keeps P f h vs (f v s).1 (h v s p)) (h v s p)

module _ {ℓ κ} (j : Json) {S : Type ℓ} (P : S → Type κ) where
  open j use {Value}

  pub parse_object_keeps :
      (f : String → Value → S → Bool × S)
      → ((k : String) (v : Value) (s : S) → P s → P (f k v s).1)
      → (v : Value) (s : S) → P s
      → P (parse_object j f v s).1
  unfolding parse_object
  parse_object_keeps f h v s p =
      if_both (λ (r : Bool × S). P r.1) (j.is_object v) _ (false, s)
        (each_member_keeps P f h (j.members v) s p) p

  pub parse_array_keeps :
      (f : Value → S → Bool × S)
      → ((v : Value) (s : S) → P s → P (f v s).1)
      → (v : Value) (s : S) → P s
      → P (parse_array j f v s).1
  unfolding parse_array
  parse_array_keeps f h v s p =
      if_both (λ (r : Bool × S). P r.1) (j.is_array v) _ (false, s)
        (each_element_keeps P f h (j.elements v) s p) p

Extends-trans : {b c d : Config} → Extends b c → Extends c d → Extends b d
Extends-trans e f = record { right = f.right; grown = omega arith }

Extends-refl : {c : Config} → HasApps c → Extends c c
Extends-refl v = record { right = v; grown = omega arith }

-- What `ParseApp` gives back.
abbrev GoodApp : Config → AppResult → Type 0
GoodApp c r = Extends c r.1 × IsApp (length r.1.heap) r.0

-- An app under construction, over a configuration that extends `c`.
abbrev GoodTmp : Config → Config × App → Type 0
GoodTmp c (d, app) = Extends c d × AllBelow (length d.heap) app.preamble

push_preamble_keeps :
    (b c : Config) (found : Option ℕ) (d : Config) (app : App)
    → Extends b c
    → Extends c d
    → IsApp (length d.heap) found
    → AllBelow (length c.heap) app.preamble
    → GoodTmp b (push_preamble found d app).1
unfolding push_preamble
push_preamble_keeps b c none d app e x i p =
    (Extends-trans e x, AllBelow-mono app.preamble x.grown p)
push_preamble_keeps b c (some q) d app e x i p = (
  Extends-trans e x,
  All-append _ app.preamble (q ∷ []) (AllBelow-mono app.preamble x.grown p) (i, tt),
)

module _ (j : Json) (parse : Json.Value j → Config → AppResult)
    (h : (v : Json.Value j) (c : Config) → HasApps c → GoodApp c (parse v c)) where
  preamble_item_keeps :
      (b : Config) (v : Json.Value j) (s : Config × App)
      → GoodTmp b s
      → GoodTmp b (preamble_item j parse v s).1
  unfolding preamble_item
  preamble_item_keeps b v (c, app) (e, p) =
      let (x, i) = h v c e.right in push_preamble_keeps b c (parse v c).0 (parse v c).1 app e x i p

  app_entry_keeps :
      (b : Config) (k : String) (v : Json.Value j) (s : Config × App)
      → GoodTmp b s
      → GoodTmp b (app_entry j parse k v s).1
  unfolding app_entry
  app_entry_keeps b k v (c, app) g =
      let P = λ (r : Bool × (Config × App)). GoodTmp b r.1 in
      if_both P (str_eq k "name") _ _ g (
        if_both P (str_eq k "command") _ _ g (
          if_both P (str_eq k "checker") _ _ g (
            if_both P (str_eq k "max_start_time") _ _ g (
              if_both P (str_eq k "preamble") _ _
                (parse_array_keeps j (GoodTmp b) (preamble_item j parse) (preamble_item_keeps b) v
                  (c, app) g)
                (if_both P (str_eq k "tags") _ _ g g)))))

-- `ParseApp` keeps the configuration right, and its pointer leads to an app.
parse_app_keeps :
    (n : ℕ) (j : Json) (v : Json.Value j) (c : Config) → HasApps c → GoodApp c (parse_app n j v c)
unfolding parse_app
parse_app_keeps zero j v c w = (Extends-refl w, tt)
parse_app_keeps (suc n) j v c w =
    let (d, tmp) = (parse_object j (app_entry j (parse_app n j)) v (c, new_app)).1 in
    let (e, p) : GoodTmp c (d, tmp) =
      parse_object_keeps j (GoodTmp c) (app_entry j (parse_app n j))
        (app_entry_keeps j (parse_app n j) (parse_app_keeps n j) c) v (c, new_app)
        (Extends-refl w, tt) in
    let named = get_app-HasApps (j.to_text v) c w in
    let stored = store_app-Extends d tmp e.right p in
    if_both (GoodApp c) (j.is_string v) _ _
      (if_both (GoodApp c) (str_eq (j.to_text v) "") _ _ (Extends-refl w, tt)
        (named.0, name_of-lt _ _ _ named.1))
      (if_both (GoodApp c) _ _ _ (Extends-trans e stored.0, stored.1) (e, tt))

module _ (n : ℕ) (j : Json) where
  open j use {Value}

  -- An upstream under construction.
  abbrev GoodUp : Config → Config × Upstream → Type 0
  GoodUp b (c, up) = Extends b c × IsApp (length c.heap) up.app

  abbrev GoodProxy : Config → Config × Proxy → Type 0
  GoodProxy b (c, proxy) = GoodUp b (c, proxy.upstream)

  upstream_entry_keeps :
      (b : Config) (k : String) (v : Value) (s : Config × Upstream)
      → GoodUp b s
      → GoodUp b (upstream_entry n j k v s).1
  unfolding upstream_entry
  upstream_entry_keeps b k v (c, up) (e, i) =
      let P = λ (r : Bool × (Config × Upstream)). GoodUp b r.1 in
      let (x, q) = parse_app_keeps n j v c e.right in
      if_both P (str_eq k "host") _ _ (e, i)
        (if_both P (str_eq k "port") _ _ (e, i)
          (if_both P (str_eq k "connect_timeout") _ _ (e, i)
            (if_both P (str_eq k "app") _ _ (Extends-trans e x, q)
              (if_both P (str_eq k "tags") _ _ (e, i) (e, i)))))

  proxy_entry_keeps :
      (b : Config) (k : String) (v : Value) (s : Config × Proxy)
      → GoodProxy b s
      → GoodProxy b (proxy_entry n j k v s).1
  unfolding proxy_entry
  proxy_entry_keeps b k v (c, proxy) g =
      let P = λ (r : Bool × (Config × Proxy)). GoodProxy b r.1 in
      if_both P (str_eq k "upstream") _ _
        (parse_object_keeps j (GoodUp b) (upstream_entry n j) (upstream_entry_keeps b) v
          (c, proxy.upstream) g)
        (if_both P (str_eq k "listen") _ _ g g)

  proxies_item_keeps : (v : Value) (c : Config) → HasApps c → HasApps (proxies_item n j v c).1
  unfolding proxies_item
  proxies_item_keeps v c w =
      let s = (parse_object j (proxy_entry n j) v (c, new_proxy)).1 in
      let (e, i) : GoodProxy c s =
        parse_object_keeps j (GoodProxy c) (proxy_entry n j) (proxy_entry_keeps c) v (c, new_proxy)
          (Extends-refl w, tt) in
      let r = e.right in
      record {
        apps_known = r.apps_known;
        apps_owned = r.apps_owned;
        names_right = r.names_right;
        preambles_known = r.preambles_known;
        upstreams_known = All-append _ s.0.proxies (s.1 ∷ []) r.upstreams_known (i, tt);
      }

  config_entry_keeps :
      (k : String) (v : Value) (c : Config) → HasApps c → HasApps (config_entry n j k v c).1
  unfolding config_entry apps_item
  config_entry_keeps k v c w =
      let P = λ (r : Bool × Config). HasApps r.1 in
      if_both P (str_eq k "admin") _ _
        (record {
          apps_known = w.apps_known;
          apps_owned = w.apps_owned;
          names_right = w.names_right;
          preambles_known = w.preambles_known;
          upstreams_known = w.upstreams_known;
        })
        (if_both P (str_eq k "logger") _ _
          (record {
            apps_known = w.apps_known;
            apps_owned = w.apps_owned;
            names_right = w.names_right;
            preambles_known = w.preambles_known;
            upstreams_known = w.upstreams_known;
          })
          (if_both P (str_eq k "proxies") _ _
            (parse_array_keeps j HasApps (proxies_item n j) proxies_item_keeps v c w)
            (if_both P (str_eq k "apps") _ _
              (parse_array_keeps j HasApps (apps_item n j)
                (λ v c w. (parse_app_keeps n j v c w).0.right) v c w)
              (if_both P (str_eq k "dummy") _ _
                (record {
                  apps_known = w.apps_known;
                  apps_owned = w.apps_owned;
                  names_right = w.names_right;
                  preambles_known = w.preambles_known;
                  upstreams_known = w.upstreams_known;
                })
                w))))

-- Whatever the document, and whether parsing succeeds or stops at an error, in the configuration
-- that is left no pointer to an app dangles (in the list of apps, the preambles and the upstreams),
-- the list of apps has each app once, and every name in the map leads to an app of that name.
pub parse_config-HasApps :
    (n : ℕ) (j : Json) (v : Json.Value j) (c : Config)
    → HasApps c
    → HasApps (parse_config n j v c).1
unfolding parse_config
parse_config-HasApps n j v c w =
    if_both (λ (r : Bool × Config). HasApps r.1) (eq_type (j.type_of v) undefined) (false, c) _ w
      (parse_object_keeps j HasApps (config_entry n j) (config_entry_keeps n j) v c w)

-- ===== src/Config/Pointers.antt =====
-- The pointers and names of a configuration.
use Prim.Native.String.{String}
use text.Mathlib.Text.{◌==◌ as str_eq}
use text.Mathlib.TextPositions.{eq_refl}
use text.Mathlib.TextEquality.{eq_iff}
use nexer.Prelude.{
  ℕ, zero, suc, ap, sym, ◌≤◌, ◌<◌, ◌≡◌, ◌∙◌, inl, inr, false, Option, none, some, List, [], ◌∷◌,
  ◌++◌, arith, length, length-append, All, Bool-cases, Option-cases,
}
use nexer.Config.Types.{App, Proxy, Config, new_app}
use nexer.Config.Registry.{find, allocate, get_app}
use nexer.Config.Parser.{assign, store_app}
use nexer.Config.Heap.{
  name_of, AllBelow, All-mono, All-append, length-assign, name_of-assign, name_of-append,
  name_of-length, name_of-lt, All-assign,
}

abbrev pub IsApp : ℕ → Option ℕ → Type 0
IsApp n none = Unit
IsApp n (some p) = p < n

-- The pointers to the first apps, in order.
abbrev pub below : ℕ → List ℕ
below zero = []
below (suc n) = below n ++ n ∷ []

-- No pointer to an app dangles, the list of apps has each app once, in order, and each name in the map leads to an app of that name.
pub record HasApps (c : Config) : Type 0 where
  pub apps_known : AllBelow (length c.heap) c.apps
  pub apps_owned : c.apps ≡ below (length c.heap)
  pub names_right : All (λ m. name_of c.heap m.1 ≡ some m.0) c.app_map
  pub preambles_known : All (λ (a : App). AllBelow (length c.heap) a.preamble) c.heap
  pub upstreams_known : All (λ (x : Proxy). IsApp (length c.heap) x.upstream.app) c.proxies

-- What a step may do: the new configuration is right, and no app goes away.
pub record Extends (c d : Config) : Type 0 where
  pub right : HasApps d
  pub grown : length c.heap ≤ length d.heap

pub AllBelow-mono : {m n : ℕ} (ps : List ℕ) → m ≤ n → AllBelow m ps → AllBelow n ps
AllBelow-mono ps h v = All-mono _ _ ps (λ p q. omega arith) v

pub IsApp-mono : {m n : ℕ} (o : Option ℕ) → m ≤ n → IsApp m o → IsApp n o
IsApp-mono none h v = tt
IsApp-mono (some p) h v = omega arith

-- A new app, and the map as it was or with its name.
allocate-HasApps :
    (c : Config) (a : App) (m : List (String × ℕ))
    → HasApps c
    → AllBelow (length c.heap) a.preamble
    → All (λ x. name_of (c.heap ++ a ∷ []) x.1 ≡ some x.0) m
    → HasApps (record (allocate a c).1 { app_map = m })
unfolding allocate
allocate-HasApps c a m v h n =
    let len = length-append c.heap (a ∷ []) in
    let more : length c.heap ≤ length (c.heap ++ a ∷ []) = omega arith in
    let grown : suc (length c.heap) ≡ length (c.heap ++ a ∷ []) = omega arith in
    record {
      apps_known = All-append _ c.apps _ (AllBelow-mono c.apps more v.apps_known) (omega arith, tt);
      apps_owned = ap (λ l. l ++ length c.heap ∷ []) v.apps_owned ∙ ap below grown;
      names_right = n;
      preambles_known =
          All-append _ c.heap _
            (All-mono _ _ c.heap (λ x. AllBelow-mono x.preamble more) v.preambles_known)
            (AllBelow-mono a.preamble more h, tt);
      upstreams_known =
          All-mono _ _ c.proxies (λ x. IsApp-mono x.upstream.app more) v.upstreams_known;
    }

names-append :
    (c : Config) (a : App)
    → HasApps c
    → All (λ x. name_of (c.heap ++ a ∷ []) x.1 ≡ some x.0) c.app_map
names-append c a v =
    All-mono _ _ c.app_map (λ (n, p) h. name_of-append c.heap (a ∷ []) p n h) v.names_right

find-name_of :
    (heap : List App) (m : List (String × ℕ)) (n : String) (p : ℕ)
    → All (λ x. name_of heap x.1 ≡ some x.0) m
    → find n m ≡ some p
    → name_of heap p ≡ some n
unfolding find
find-name_of heap [] n p v e = cc
find-name_of heap ((k, q) ∷ m) n p (w, v) e = elim (Bool-cases (str_eq k n)) [
  | inl y ↦ ground (arith, eq_iff k n)
  | inr y ↦ find-name_of heap m n p v (rw y at e)
]

-- The pointer leads to an app of that name, and everything else is right.
record Got (c : Config) (name : String) (r : ℕ × Config) : Type 0 where
  extends : Extends c r.1
  leads : name_of r.1.heap r.0 ≡ some name

get_app-Got : (name : String) (c : Config) → HasApps c → Got c name (get_app name c)
unfolding get_app allocate
get_app-Got name c v =
    let a : App = record new_app { name = name } in
    let len = length-append c.heap (a ∷ []) in
    let new : name_of (c.heap ++ a ∷ []) (length c.heap) ≡ some name = name_of-length c.heap a in
    elim (Bool-cases (str_eq name "")) [
      | inl y ↦ rw y (record {
        extends = record {
          right = allocate-HasApps c a c.app_map v tt (names-append c a v);
          grown = omega arith;
        };
        leads = new;
      })
      | inr y ↦ elim (Option-cases (find name c.app_map)) [
        | inl e ↦
            rw (y, e)
              (record {
                extends = record {
                  right =
                      allocate-HasApps c a ((name, length c.heap) ∷ c.app_map) v tt
                        (new, names-append c a v);
                  grown = omega arith;
                };
                leads = new;
              })
        | inr (p, e) ↦
            rw (y, e)
              (record {
                extends = record { right = v; grown = omega arith };
                leads = find-name_of c.heap c.app_map name p v.names_right e;
              })
      ]
    ]

assign-HasApps :
    (c : Config) (p : ℕ) (a : App)
    → HasApps c
    → name_of c.heap p ≡ some a.name
    → AllBelow (length c.heap) a.preamble
    → HasApps (record c { heap = assign c.heap p a })
assign-HasApps c p a v n h =
    let len = length-assign c.heap p a in
    record {
      apps_known = rw len v.apps_known;
      apps_owned = v.apps_owned ∙ ap below (sym len);
      names_right =
          All-mono _ _ c.app_map (λ m e. name_of-assign c.heap p m.1 a n ∙ e) v.names_right;
      preambles_known = rw len (All-assign _ c.heap p a h v.preambles_known);
      upstreams_known = rw len v.upstreams_known;
    }

-- The end of `ParseApp` gives a pointer to an app that is there.
pub store_app-Extends :
    (c : Config) (tmp : App)
    → HasApps c
    → AllBelow (length c.heap) tmp.preamble
    → Extends c (store_app c tmp).1 × ((store_app c tmp).0 < length (store_app c tmp).1.heap)
unfolding store_app
store_app-Extends c tmp v h = elim (Bool-cases (str_eq tmp.name "")) [
  | inl y ↦
      let len = length-append c.heap (tmp ∷ []) in
      rw y (
        unfold allocate in
        (
          record {
            right = allocate-HasApps c tmp c.app_map v h (names-append c tmp v);
            grown = omega arith;
          },
          omega arith,
        ))
  | inr y ↦
      let (p, d) = get_app tmp.name c in
      let g = get_app-Got tmp.name c v in
      let len = length-assign d.heap p tmp in
      rw y (
        record {
          right =
              assign-HasApps d p tmp g.extends.right g.leads
                (AllBelow-mono tmp.preamble g.extends.grown h);
          grown = rw len g.extends.grown;
        },
        rw len (name_of-lt d.heap p tmp.name g.leads),
      )
]

-- `GetApp` keeps a configuration right, and its pointer leads to an app of the name asked for.
pub get_app-HasApps :
    (name : String) (c : Config)
    → HasApps c
    → Extends c (get_app name c).1
      × (name_of (get_app name c).1.heap (get_app name c).0 ≡ some name)
get_app-HasApps name c v = let g = get_app-Got name c v in (g.extends, g.leads)

get_app_known :
    (name : String) (c : Config) (p : ℕ)
    → str_eq name "" ≡ false
    → find name c.app_map ≡ some p
    → get_app name c ≡ (p, c)
unfolding get_app
get_app_known name c p h e = rw (h, e)

get_app_new :
    (name : String) (c : Config)
    → str_eq name "" ≡ false
    → find name c.app_map ≡ none
    → (d : Config) × (get_app name c ≡ (length c.heap, d))
      × (find name d.app_map ≡ some (length c.heap))
unfolding get_app allocate find
get_app_new name c h e = (
  record c {
    heap = c.heap ++ record new_app { name = name } ∷ [];
    apps = c.apps ++ length c.heap ∷ [];
    app_map = (name, length c.heap) ∷ c.app_map;
  },
  rw (h, e),
  rw (eq_refl name),
)

-- Asked again for the same name, which is not empty, `GetApp` returns the same app and adds none.
pub get_app-twice :
    (name : String) (c : Config)
    → str_eq name "" ≡ false
    → get_app name (get_app name c).1 ≡ get_app name c
get_app-twice name c h = elim (Option-cases (find name c.app_map)) [
  | inl e ↦
      let (d, g, f) = get_app_new name c h e in rw g (get_app_known name d (length c.heap) h f)
  | inr (p, e) ↦ rw (get_app_known name c p h e) (get_app_known name c p h e)
]

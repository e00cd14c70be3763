-- ===== src/Config/Ending.antt =====
-- `Config::~Config` of src/config.cc. The checker of an app is part of the app here.
use nexer.Prelude.{
  Option, some, none, ◌∙◌, sym, ap, ◌++◌, ◌&&◌, arith, ℕ, zero, suc, ◌+◌, ◌≡◌, refl, Bool, true,
  false, List, [], ◌∷◌, length, ltb, leb, ◌==◌, if◌then◌else◌,
}
use nexer.Config.Types.{Config}
use nexer.Config.Document.{Json}
use nexer.Config.Parser.{parse_config}
use nexer.Config.Pointers.{HasApps, below}
use nexer.Config.Invariant.{parse_config-HasApps}

-- `delete app`, where the first argument says which apps are there; `none` is an app that is not.
unfoldable pub delete_app : ℕ → (ℕ → Bool) → Option (ℕ → Bool)
delete_app p there = if there p then some (λ q. if q == p then false else there q) else none

unfoldable pub delete_apps : List ℕ → (ℕ → Bool) → Option (ℕ → Bool)
delete_apps [] there = some there
delete_apps (p ∷ ps) there = elim (delete_app p there) [
  | none ↦ none
  | some left ↦ delete_apps ps left
]

-- The apps that are left, of those that were made.
unfoldable pub destroy_config : Config → Option (ℕ → Bool)
destroy_config c = delete_apps c.apps (λ p. ltb p (length c.heap))

-- From `n` on, `k` of them.
abbrev from : ℕ → ℕ → List ℕ
from n zero = []
from n (suc k) = n ∷ from (suc n) k

from-append : (k n : ℕ) → from n (suc k) ≡ from n k ++ (n + k) ∷ []
from-append zero n = let e : n ≡ n + zero = omega arith in ap (λ m. m ∷ []) e
from-append (suc k) n =
    let e : suc n + k ≡ n + suc k = omega arith in
    ap (λ l. n ∷ l) (from-append k (suc n) ∙ ap (λ m. from (suc n) k ++ m ∷ []) e)

from-below : (n : ℕ) → below n ≡ from 0 n
from-below zero = refl
from-below (suc n) =
    let e : n ≡ 0 + n = omega arith in
    ap (λ l. l ++ n ∷ []) (from-below n) ∙ ap (λ m. from 0 n ++ m ∷ []) e ∙ sym (from-append n 0)

delete_apps-there :
    (p : ℕ) (ps : List ℕ) (there : ℕ → Bool)
    → there p ≡ true
    → delete_apps (p ∷ ps) there ≡ delete_apps ps (λ q. if q == p then false else there q)
unfolding delete_apps delete_app
delete_apps-there p ps there e =
    let left : Option (ℕ → Bool) = some (λ q. if q == p then false else there q) in
    ap (λ b. elim (if b then left else none) [ none ↦ none | some l ↦ delete_apps ps l ]) e

-- The apps from `n` to `k` are there.
delete_apps-from :
    (k n : ℕ) (there : ℕ → Bool)
    → ((p : ℕ) → there p ≡ leb n p && ltb p (n + k))
    → (left : ℕ → Bool) × (delete_apps (from n k) there ≡ some left) × ((p : ℕ) → left p ≡ false)
unfolding delete_apps delete_app
delete_apps-from zero n there h =
    let over : (p : ℕ) → (leb n p && ltb p (n + zero)) ≡ false = λ p. ground arith in
    (there, refl, λ p. h p ∙ over p)
delete_apps-from (suc k) n there h =
    let e : there n ≡ true =
      let at : (leb n n && ltb n (n + suc k)) ≡ true = ground arith in h n ∙ at in
    let fewer : (p : ℕ) → (if p == n then false else there p) ≡ leb (suc n) p && ltb p (suc n + k) =
      λ p. rw (h p) (ground arith) in
    let (left, d, gone) =
      delete_apps-from k (suc n) (λ q. if q == n then false else there q) fewer in
    (left, delete_apps-there n (from (suc n) k) there e ∙ d, gone)

-- Where a configuration was right before, and any document was then parsed into it, with any result, its
-- destructor deletes each app that was made, once, and no other one.
pub destroy_config-parse_config :
    (n : ℕ) (j : Json) (v : Json.Value j) (c : Config)
    → HasApps c
    → (left : ℕ → Bool) × (destroy_config (parse_config n j v c).1 ≡ some left)
      × ((p : ℕ) → left p ≡ false)
unfolding destroy_config
destroy_config-parse_config n j v c h =
    let d = (parse_config n j v c).1 in
    let w = parse_config-HasApps n j v c h in
    let size = length d.heap in
    let (left, e, gone) = delete_apps-from size 0 (λ p. ltb p size) (λ p. ground arith) in
    (left, ap (λ ps. delete_apps ps (λ p. ltb p size)) (w.apps_owned ∙ from-below size) ∙ e, gone)

-- ===== src/Nexer/Start.antt =====
-- Which servers a nexer keeps, and when it runs.
use nexer.Prelude.{
  ℕ, suc, ◌≡◌, refl, sym, ap, ◌∙◌, Bool, true, false, not, ◌&&◌, Option, none, some, List, [], ◌∷◌,
  ◌++◌, append_assoc, append-nil, arith, if◌then◌else◌,
}
use nexer.Prelude.Int.{ℤ}
use nexer.Config.Types.{Proxy, Dummy, DummyType, udp, tcp, http}
use nexer.Nexer.{
  Nexer, listen, refused, new_nexer, Result, Ports, start_admin_server, start_dummy, go_on,
  start_dummies, start_proxies, ℕ, Bool, Option, List, ◌∷◌, true, some, false, suc, [], arith,
  start_servers, has_run,
}

-- The numbers of the proxies that listen before the first one that does not, the first of them `k`.
abbrev pub listening : Ports → ℕ → List Proxy → List ℕ
listening answers k [] = []
listening answers k (p ∷ ps) =
    if listen (answers k p.port) then k ∷ listening answers (suc k) ps else []

abbrev pub is_http : DummyType → Bool
is_http http = true
is_http udp = false
is_http tcp = false

-- Whether all dummies, and all proxies and dummies, listen, and no dummy is an HTTP server.
abbrev pub dummies_listen : Ports → ℕ → List Dummy → Bool
dummies_listen answers k [] = true
dummies_listen answers k (d ∷ ds) =
    not (is_http d.type) && (listen (answers k d.port) && dummies_listen answers (suc k) ds)

abbrev pub all_listen : Ports → ℕ → List Proxy → List Dummy → Bool
all_listen answers k [] ds = dummies_listen answers k ds
all_listen answers k (p ∷ ps) ds = listen (answers k p.port) && all_listen answers (suc k) ps ds

-- The servers that a nexer keeps.
abbrev pub Keeps : Option ℕ → List ℕ → Result → Type 0
Keeps admin proxies r = (r.1.admin_server ≡ admin) × (r.1.proxies ≡ proxies)

go_on-Keeps :
    (admin : Option ℕ) (ks : List ℕ) (o : Option Bool) (n : Nexer) (r : Result)
    → (n.admin_server ≡ admin) × (n.proxies ≡ ks)
    → Keeps admin ks r
    → Keeps admin ks (go_on o n r)
unfolding go_on
go_on-Keeps admin ks none n r a b = a
go_on-Keeps admin ks (some false) n r a b = a
go_on-Keeps admin ks (some true) n r a b = b

start_dummies-Keeps :
    (answers : Ports) (ds : List Dummy) (n : Nexer)
    → Keeps n.admin_server n.proxies (start_dummies answers ds n)
unfolding start_dummies
start_dummies-Keeps answers [] n = (refl, refl)
start_dummies-Keeps answers (d ∷ ds) n =
    let m = record n { next = suc n.next } in
    go_on-Keeps n.admin_server n.proxies (start_dummy answers d.type d.port n.next) m
      (start_dummies answers ds m) (refl, refl) (start_dummies-Keeps answers ds m)

start_proxies-Keeps :
    (answers : Ports) (ps : List Proxy) (ds : List Dummy) (n : Nexer)
    → Keeps n.admin_server
        (n.proxies ++ listening answers n.next ps)
        (start_proxies answers ps ds n)
unfolding start_proxies
start_proxies-Keeps answers [] ds n =
    let (a, b) = start_dummies-Keeps answers ds n in (a, b ∙ sym (append-nil n.proxies))
start_proxies-Keeps answers (p ∷ ps) ds n =
    let m = record n { next = suc n.next; proxies = n.proxies ++ n.next ∷ [] } in
    let (a, b) = start_proxies-Keeps answers ps ds m in
    elim (listen (answers n.next p.port))
      as (λ c.
        Keeps n.admin_server
          (n.proxies ++ (if c then n.next ∷ listening answers (suc n.next) ps else []))
          (if c
            then start_proxies answers ps ds m
            else (refused, record n { next = suc n.next }))) [
              | true ↦
                  (a, b ∙ append_assoc n.proxies (n.next ∷ []) (listening answers (suc n.next) ps))
              | false ↦ (refl, sym (append-nil n.proxies))
            ]

-- The servers that are kept when `Start` reaches the loop or ends before it.
pub start_servers-Keeps :
    (answers : Ports) (port : ℤ) (ps : List Proxy) (ds : List Dummy)
    → Keeps
        (some 0)
        (if listen (answers 0 port) then listening answers 1 ps else [])
        (start_servers answers port ps ds new_nexer)
unfolding start_servers start_admin_server
start_servers-Keeps answers port ps ds =
    let m = (start_admin_server answers port new_nexer).1 in
    let r = start_proxies-Keeps answers ps ds m in
    elim (listen (answers 0 port))
      as (λ c.
        Keeps (some 0) (if c then listening answers 1 ps else [])
          (if c then start_proxies answers ps ds m else (refused, m))) [
            | true ↦ r
            | false ↦ (refl, refl)
          ]

start_dummy-ran :
    (answers : Ports) (t : DummyType) (port : ℤ) (k : ℕ) (n : Nexer) (r : Result)
    → has_run (go_on (start_dummy answers t port k) n r).0
      ≡ (not (is_http t) && (listen (answers k port) && has_run r.0))
unfolding start_dummy go_on
start_dummy-ran answers udp port k n r = ground arith
start_dummy-ran answers tcp port k n r = ground arith
start_dummy-ran answers http port k n r = refl

start_dummies-ran :
    (answers : Ports) (ds : List Dummy) (n : Nexer)
    → has_run (start_dummies answers ds n).0 ≡ dummies_listen answers n.next ds
unfolding start_dummies
start_dummies-ran answers [] n = refl
start_dummies-ran answers (d ∷ ds) n =
    start_dummy-ran answers d.type d.port n.next _ _
    ∙ ap (λ b. not (is_http d.type) && (listen (answers n.next d.port) && b))
        (start_dummies-ran answers ds (record n { next = suc n.next }))

has_run-if :
    (b c : Bool) (r : Result) (n : Nexer)
    → has_run r.0 ≡ c
    → has_run (if b then r else (refused, n)).0 ≡ (b && c)
has_run-if true c r n e = e
has_run-if false c r n e = refl

start_proxies-ran :
    (answers : Ports) (ps : List Proxy) (ds : List Dummy) (n : Nexer)
    → has_run (start_proxies answers ps ds n).0 ≡ all_listen answers n.next ps ds
unfolding start_proxies
start_proxies-ran answers [] ds n = start_dummies-ran answers ds n
start_proxies-ran answers (p ∷ ps) ds n =
    has_run-if (listen (answers n.next p.port)) _ _ _ (start_proxies-ran answers ps ds _)

pub start_servers-ran :
    (answers : Ports) (port : ℤ) (ps : List Proxy) (ds : List Dummy)
    → has_run (start_servers answers port ps ds new_nexer).0
      ≡ (listen (answers 0 port) && all_listen answers 1 ps ds)
unfolding start_servers start_admin_server
start_servers-ran answers port ps ds =
    has_run-if (listen (answers 0 port)) _ _ _ (start_proxies-ran answers ps ds _)

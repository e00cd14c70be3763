-- ===== src/Nexer/Serving.antt =====
-- What a nexer closes, in its loop and afterwards.
use nexer.Prelude.{
  ℕ, ◌≡◌, refl, ap, ◌∙◌, Bool, true, false, ◌&&◌, ◌||◌, Option, none, some, List, [], ◌∷◌, ◌++◌,
  map, append_assoc, append-nil, Bytes, codes, if◌then◌else◌,
}
use nexer.Prelude.Int.{ℤ}
use nexer.Config.Types.{Proxy, Dummy}
use nexer.Nexer.{
  Nexer, listen, Action, close_handle, end_response, new_nexer, Ports, start_nexer, start_servers,
  has_run, close_admin, close_nexer, same, on_admin_request, run_requests,
}
use nexer.Nexer.Start.{listening, all_listen, start_servers-Keeps, start_servers-ran}

-- The handles that a list of actions closes.
abbrev pub closed : List Action → List ℕ
closed [] = []
closed (close_handle k ∷ as_) = k ∷ closed as_
closed (end_response res ∷ as_) = closed as_

abbrev pub admin_of : Option ℕ → List ℕ
admin_of none = []
admin_of (some k) = k ∷ []

abbrev pub kept : Nexer → List ℕ
kept n = n.proxies ++ admin_of n.admin_server

close_all-closed :
    (ks : List ℕ) (admin : Option ℕ)
    → closed (map (λ k. close_handle k) ks ++ close_admin admin) ≡ ks ++ admin_of admin
close_all-closed [] none = refl
close_all-closed [] (some k) = refl
close_all-closed (k ∷ ks) admin = ap (λ l. k ∷ l) (close_all-closed ks admin)

close_nexer-closed :
    (n : Nexer) → let (m, as_) = close_nexer n in (closed as_ ≡ kept n) × ((close_nexer m).1 ≡ [])
unfolding close_nexer
close_nexer-closed n = (close_all-closed n.proxies n.admin_server, refl)

-- The responses that are ended with the status 200.
abbrev pub responses : List Action → List ℕ
responses [] = []
responses (close_handle k ∷ as_) = responses as_
responses (end_response res ∷ as_) = res ∷ responses as_

-- Whether one of the requests has the path `/shutdown`.
abbrev pub asks_shutdown : List (Bytes × ℕ) → Bool
asks_shutdown [] = false
asks_shutdown (r ∷ rs) = same r.0 (codes "/shutdown") || asks_shutdown rs

closed-append : (as_ bs : List Action) → closed (as_ ++ bs) ≡ closed as_ ++ closed bs
closed-append [] bs = refl
closed-append (close_handle k ∷ as_) bs = ap (λ l. k ∷ l) (closed-append as_ bs)
closed-append (end_response res ∷ as_) bs = closed-append as_ bs

responses-append : (as_ bs : List Action) → responses (as_ ++ bs) ≡ responses as_ ++ responses bs
responses-append [] bs = refl
responses-append (close_handle k ∷ as_) bs = responses-append as_ bs
responses-append (end_response res ∷ as_) bs = ap (λ l. res ∷ l) (responses-append as_ bs)

close_all-responses :
    (ks : List ℕ) (admin : Option ℕ)
    → responses (map (λ k. close_handle k) ks ++ close_admin admin) ≡ []
close_all-responses [] none = refl
close_all-responses [] (some k) = refl
close_all-responses (k ∷ ks) admin = close_all-responses ks admin

-- A nexer after some requests: what was closed and what is kept, and what was answered.
abbrev pub Served : Bool → List ℕ → Nexer → Nexer × List Action → Type 0
Served stops answered n (m, as_) =
    (m.admin_server ≡ (if stops then none else n.admin_server))
    × (m.proxies ≡ (if stops then [] else n.proxies))
    × (closed as_ ++ kept m ≡ kept n)
    × (responses as_ ≡ answered)

on_admin_request-Served :
    (path : Bytes) (res : ℕ) (n : Nexer)
    → Served (same path (codes "/shutdown")) (res ∷ []) n (on_admin_request path res n)
unfolding on_admin_request close_nexer
on_admin_request-Served path res n =
    let (c, d) = close_nexer-closed n in
    elim (same path (codes "/shutdown"))
      as (λ b. Served b (res ∷ []) n (
        if b
        then ((close_nexer n).0, (close_nexer n).1 ++ end_response res ∷ [])
        else (n, end_response res ∷ []))) [
          | true ↦ (
            refl,
            refl,
            append-nil _
                ∙ closed-append (close_nexer n).1 (end_response res ∷ [])
                ∙ append-nil _
                ∙ c,
            responses-append (close_nexer n).1 (end_response res ∷ [])
                ∙ ap (λ l. l ++ res ∷ []) (close_all-responses n.proxies n.admin_server),
          )
          | false ↦ (refl, refl, refl, refl)
        ]

twice-if {ℓ} :
    {A : Type ℓ}
    → (b c : Bool) (z y x w : A) → y ≡ (if b then z else x)
    → w ≡ (if c then z else y)
    → w ≡ (if b || c then z else x)
twice-if true true z y x w p q = q
twice-if true false z y x w p q = q ∙ p
twice-if false true z y x w p q = q
twice-if false false z y x w p q = q ∙ p

run_requests-Served :
    (rs : List (Bytes × ℕ)) (n : Nexer)
    → Served (asks_shutdown rs) (map (λ r. r.1) rs) n (run_requests rs n)
unfolding run_requests
run_requests-Served [] n = (refl, refl, refl, refl)
run_requests-Served (r ∷ rs) n =
    let (m, as_) = on_admin_request r.0 r.1 n in
    let (k, bs) = run_requests rs m in
    let (a, b, c, d) = on_admin_request-Served r.0 r.1 n in
    let (e, f, g, h) = run_requests-Served rs m in
    let stops = same r.0 (codes "/shutdown") in
    (
      twice-if stops (asks_shutdown rs) none m.admin_server n.admin_server k.admin_server a e,
      twice-if stops (asks_shutdown rs) [] m.proxies n.proxies k.proxies b f,
      ap (λ l. l ++ kept k) (closed-append as_ bs)
          ∙ append_assoc (closed as_) (closed bs) (kept k)
          ∙ ap (λ l. closed as_ ++ l) g
          ∙ c,
      responses-append as_ bs ∙ ap (λ l. l ++ responses bs) d ∙ ap (λ l. r.1 ∷ l) h,
    )

after_loop-Served :
    (c : Bool) (rs : List (Bytes × ℕ)) (m : Nexer)
    → Served
        (c && asks_shutdown rs)
        (if c then map (λ r. r.1) rs else [])
        m
        (if c then run_requests rs m else (m, []))
after_loop-Served true rs m = run_requests-Served rs m
after_loop-Served false rs m = (refl, refl, refl, refl)

-- Where the admin server, every proxy and every dummy can listen and no dummy is an HTTP server, and
-- only there, `Start` of a new nexer reaches its loop. It then answers each request of the admin
-- server once, in their order, and outside the loop none. It keeps the admin server and, if that
-- listens, exactly the proxies that listen before the first one that does not, in the order of the
-- configuration, unless a request with the path `/shutdown` comes in the loop: then it keeps none of
-- them. With what `Close` does afterwards, each of these servers is closed exactly once and no other,
-- so neither a proxy that cannot listen nor any dummy, and a further `Close` closes nothing.
pub start_nexer-Serves :
    (requests : List (Bytes × ℕ)) (answers : Ports) (port : ℤ) (ps : List Proxy) (ds : List Dummy)
    → let (ending, (n, as_)) = start_nexer requests answers port ps ds new_nexer in
      let proxies = if listen (answers 0 port) then listening answers 1 ps else [] in
      let stops = has_run ending && asks_shutdown requests in
      let (m, bs) = close_nexer n in
      (has_run ending ≡ (listen (answers 0 port) && all_listen answers 1 ps ds))
      × (responses as_ ≡ (if has_run ending then map (λ r. r.1) requests else []))
      × (n.admin_server ≡ (if stops then none else some 0))
      × (n.proxies ≡ (if stops then [] else proxies))
      × (closed (as_ ++ bs) ≡ proxies ++ 0 ∷ [])
      × ((close_nexer m).1 ≡ [])
unfolding start_nexer
start_nexer-Serves requests answers port ps ds =
    let (ending, k) = start_servers answers port ps ds new_nexer in
    let (n, as_) = (start_nexer requests answers port ps ds new_nexer).1 in
    let (a, b) = start_servers-Keeps answers port ps ds in
    let (p, q, r, t) = after_loop-Served (has_run ending) requests k in
    let (c, d) = close_nexer-closed n in
    let proxies = if listen (answers 0 port) then listening answers 1 ps else [] in
    let stops = has_run ending && asks_shutdown requests in
    (
      start_servers-ran answers port ps ds,
      t,
      p ∙ ap (λ o. if stops then none else o) a,
      q ∙ ap (λ l. if stops then [] else l) b,
      closed-append as_ (close_nexer n).1
          ∙ ap (λ l. closed as_ ++ l) c
          ∙ r
          ∙ ap (λ l. l ++ admin_of k.admin_server) b
          ∙ ap (λ o. proxies ++ admin_of o) a,
      d,
    )

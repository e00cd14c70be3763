-- ===== src/Nexer/Tests.antt =====
-- Two proxies, and two requests of the admin server.
use nexer.Prelude.{
  ℕ, true, none, Bytes, ◌++◌, ◌≡◌, refl, some, List, [], ◌∷◌, codes, ◌==◌, if◌then◌else◌,
}
use nexer.Prelude.Int.{pos, negsuc}
use nexer.Config.Types.{Proxy, new_proxy}
use nexer.Nexer.{
  start_servers, start_admin_server, start_proxies, start_dummies, Nexer, listen, Ports, new_nexer,
  start_nexer, close_nexer, close_handle, end_response, on_admin_request, has_run,
}
use nexer.Nexer.Serving.{start_nexer-Serves, closed, responses}

-- The second proxy cannot listen.
abbrev answers : Ports
answers k port = record { addr = pos 0; bind = if k == 2 then negsuc 97 else pos 0; begin = pos 0 }

abbrev proxies : List Proxy
proxies = new_proxy ∷ new_proxy ∷ []

abbrev running : Nexer
running = record { admin_server = some 0; proxies = 1 ∷ 2 ∷ []; next = 3 }

shutdown :
    (on_admin_request (codes "/shutdown") 7 running).1
    ≡ close_handle 1 ∷ close_handle 2 ∷ close_handle 0 ∷ end_response 7 ∷ []
unfolding on_admin_request close_nexer
shutdown = refl

abbrev requests : List (Bytes × ℕ)
requests = (codes "/", 7) ∷ (codes "/shutdown", 8) ∷ []

-- All proxies can listen.
abbrev free_ports : Ports
free_ports k port = record { addr = pos 0; bind = pos 0; begin = pos 0 }

-- The second proxy cannot listen, so the loop does not run.
refused_proxy :
    let (n, as_) = (start_nexer requests answers (pos 19500) proxies [] new_nexer).1 in
    (n.admin_server ≡ some 0) × (n.proxies ≡ 1 ∷ []) × (as_ ≡ [])
unfolding listen start_nexer start_servers start_admin_server start_proxies
refused_proxy = (refl, refl, refl)

start_nexer-Serves_example :
    let (ending, (n, as_)) = start_nexer requests free_ports (pos 19500) proxies [] new_nexer in
    let (m, bs) = close_nexer n in
    (has_run ending ≡ true)
    × (responses as_ ≡ 7 ∷ 8 ∷ [])
    × (n.admin_server ≡ none)
    × (n.proxies ≡ [])
    × (closed (as_ ++ bs) ≡ 1 ∷ 2 ∷ 0 ∷ [])
    × ((close_nexer m).1 ≡ [])
unfolding listen start_nexer start_servers start_admin_server start_proxies start_dummies
start_nexer-Serves_example = start_nexer-Serves requests free_ports (pos 19500) proxies []

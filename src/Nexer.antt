-- ===== src/Nexer.antt =====
-- `Nexer` of src/nexer.cc, with `TcpServer::Listen` and `UdpServer::Listen`. A handle is a number, in
-- the order in which the handles are made; what libuv answers when a handle is to listen at a port is
-- an argument, and so are the requests of the admin server that come while the loop runs. The servers'
-- connections are not modelled here.
pub mod Serving
pub mod Start
pub mod Tests
use Prim.Native.String.{String}
use nexer.Prelude.{
  ℕ, zero, suc, ◌+◌, ◌-◌, ◌*◌, ◌/◌, ◌%◌, ◌≤◌, ◌<◌, ◌≡◌, refl, sym, ap, ◌∙◌, ◌≢◌, ◌↔◌, ◌⊎◌, inl, inr,
  Bool, true, false, not, ◌&&◌, ◌||◌, Option, none, some, List, [], ◌∷◌, ◌++◌, map, append_assoc,
  append-nil, arith, Bytes, codes, length, length-append, take, drop, replicate, is_nil, All, ltb,
  leb, ◌==◌, if◌then◌else◌, lt→ltb, ltb→lt, ltb→le, leb→lt, leb→le, lt→leb, le→leb, ==_iff, ==-refl,
  Bool-cases, Option-cases, if_both, if_cases, if_false, and_true, is_nil→eq,
}
use nexer.Prelude.Int.{ℤ, pos, negsuc}
use nexer.Config.Types.{Proxy, Dummy, DummyType, udp, tcp, http}
use nexer.Tcp.{failed}

pub record Nexer : Type 0 where
  -- `admin_server_` and `proxies_`.
  pub admin_server : Option ℕ
  pub proxies : List ℕ
  -- The number of the next handle.
  pub next : ℕ

-- The answers of `uv_ip4_addr`, of `uv_tcp_bind` or `uv_udp_bind`, and of `uv_listen` or
-- `uv_udp_recv_start`.
pub record Net : Type 0 where
  pub addr : ℤ
  pub bind : ℤ
  pub begin : ℤ

-- `TcpServer::Listen` and `UdpServer::Listen`
unfoldable pub listen : Net → Bool
listen a =
    if failed a.addr
    then false
    else if failed a.bind
    then false
    else if failed a.begin
    then false
    else true

-- How `Start` goes: it reaches the event loop, ends with false before, or by `assert(0)`.
pub data Ending : Type 0 where
  ran refused aborted : Ending

pub data Action : Type 0 where
  close_handle : ℕ → Action
  -- `res.End(200)`
  end_response : ℕ → Action

abbrev pub same : Bytes → Bytes → Bool
same [] [] = true
same [] (d ∷ ds) = false
same (c ∷ cs) [] = false
same (c ∷ cs) (d ∷ ds) = c == d && same cs ds

-- `Nexer::Nexer`
abbrev pub new_nexer : Nexer
new_nexer = record { admin_server = none; proxies = []; next = 0 }

abbrev pub Result : Type 0
Result = Ending × Nexer

-- What libuv answers where a handle is to listen at a port.
abbrev pub Ports : Type 0
Ports = ℕ → ℤ → Net

-- `StartAdminServer`
unfoldable pub start_admin_server : Ports → ℤ → Nexer → Bool × Nexer
start_admin_server answers port n =
    (listen (answers n.next port), record n { admin_server = some n.next; next = suc n.next })

-- `StartDummyServer`, with `StartDummyTcpServer` and `StartDummyUdpServer`, for the handle of a
-- number; none where it aborts. The listeners of the dummies are left out.
unfoldable pub start_dummy : Ports → DummyType → ℤ → ℕ → Option Bool
start_dummy answers udp port k = some (listen (answers k port))
start_dummy answers tcp port k = some (listen (answers k port))
start_dummy answers http port k = none

-- Whether `Start` goes on after a dummy.
unfoldable pub go_on : Option Bool → Nexer → Result → Result
go_on none n r = (aborted, n)
go_on (some false) n r = (refused, n)
go_on (some true) n r = r

-- The loop over the dummies, after which the event loop is reached.
unfoldable pub start_dummies : Ports → List Dummy → Nexer → Result
start_dummies answers [] n = (ran, n)
start_dummies answers (d ∷ ds) n =
    let m = record n { next = suc n.next } in
    go_on (start_dummy answers d.type d.port n.next) m (start_dummies answers ds m)

-- The loop over the proxies.
unfoldable pub start_proxies : Ports → List Proxy → List Dummy → Nexer → Result
start_proxies answers [] ds n = start_dummies answers ds n
start_proxies answers (p ∷ ps) ds n =
    let m = record n { next = suc n.next } in
    let rest = start_proxies answers ps ds (record m { proxies = n.proxies ++ n.next ∷ [] }) in
    if listen (answers n.next p.port) then rest else (refused, m)

abbrev pub close_admin : Option ℕ → List Action
close_admin none = []
close_admin (some k) = close_handle k ∷ []

-- `Nexer::Close`
unfoldable pub close_nexer : Nexer → Nexer × List Action
close_nexer n = (
  record n { admin_server = none; proxies = [] },
  map (λ k. close_handle k) n.proxies ++ close_admin n.admin_server,
)

-- The listener of the admin server's requests, by the path of the request and the response.
unfoldable pub on_admin_request : Bytes → ℕ → Nexer → Nexer × List Action
on_admin_request path res n =
    let (m, as_) = close_nexer n in
    if same path (codes "/shutdown")
    then (m, as_ ++ end_response res ∷ [])
    else (n, end_response res ∷ [])

-- `loop_.Run()`, for the requests of the admin server that come while it runs, each with its path and
-- its response. Nothing else that the loop calls changes a nexer. The state is the one after the last
-- of the requests: `uv_run` goes on as long as there are open handles, and returns without a change.
unfoldable pub run_requests : List (Bytes × ℕ) → Nexer → Nexer × List Action
run_requests [] n = (n, [])
run_requests (r ∷ rs) n =
    let (m, as_) = on_admin_request r.0 r.1 n in let (k, bs) = run_requests rs m in (k, as_ ++ bs)

abbrev pub has_run : Ending → Bool
has_run ran = true
has_run refused = false
has_run aborted = false

-- The part of `Nexer::Start` before the loop.
unfoldable pub start_servers : Ports → ℤ → List Proxy → List Dummy → Nexer → Result
start_servers answers port ps ds n =
    let (ok, m) = start_admin_server answers port n in
    let rest = start_proxies answers ps ds m in if ok then rest else (refused, m)

-- `Nexer::Start`, with the requests that come in its loop.
unfoldable pub start_nexer :
    List (Bytes × ℕ) → Ports → ℤ → List Proxy → List Dummy → Nexer → Ending × (Nexer × List Action)
start_nexer requests answers port ps ds n =
    let (ending, m) = start_servers answers port ps ds n in
    (ending, if has_run ending then run_requests requests m else (m, []))

-- ===== src/Server/Connections.antt =====
-- Connections that come at a TCP server.
use nexer.Prelude.{
  ℕ, suc, ◌≡◌, refl, ap, ◌∙◌, inl, inr, true, false, List, [], ◌∷◌, ◌++◌, map, if◌then◌else◌,
  Bool-cases,
}
use nexer.Prelude.Int.{ℤ}
use nexer.Handle.Listeners.{invoke_all}
use nexer.Tcp.{failed}
use nexer.Server.{TcpServer, Accepting, report, make_client, read_start, connection, on_connection}

-- `OnConnection` again and again, each with its status and what `uv_accept` returns.
unfoldable pub on_connections : List (ℤ × ℤ) → TcpServer → List Accepting × TcpServer
on_connections [] s = ([], s)
on_connections ((status, answer) ∷ cs) s =
    let (es, t) = on_connection status answer s in
    let (more, u) = on_connections cs t in (es ++ more, u)

abbrev pub given : List Accepting → List ℕ
given [] = []
given (connection k ∷ es) = k ∷ given es
given (report f err ∷ es) = given es
given (make_client k ∷ es) = given es
given (read_start k ∷ es) = given es

-- The clients that are accepted, where the next one has the number `n`.
abbrev pub accepted_from : ℕ → List (ℤ × ℤ) → List ℕ
accepted_from n [] = []
accepted_from n ((status, answer) ∷ cs) =
    let others = accepted_from (suc n) cs in
    let without_client = accepted_from n cs in
    if failed status then without_client else if failed answer then others else n ∷ others

given-all_reports :
    (fs : List ℕ) (err : ℤ) (es : List Accepting)
    → given (map (λ f. report f err) fs ++ es) ≡ given es
given-all_reports [] err es = refl
given-all_reports (f ∷ fs) err es = given-all_reports fs err es

on_connection-accepted :
    (status answer : ℤ) (s : TcpServer)
    → failed status ≡ false
    → failed answer ≡ false
    → s.has_listener ≡ true
    → on_connection status answer s ≡ (
      make_client s.next_client ∷ read_start s.next_client ∷ connection s.next_client ∷ [],
      record s { next_client = suc s.next_client },
    )
unfolding on_connection
on_connection-accepted status answer s e g h = rw (e, g, h) refl

-- The listener of a server is given each client that is accepted, once and in the order in which they
-- come, and no other one, whatever fails in between.
pub given-on_connections :
    (cs : List (ℤ × ℤ)) (s : TcpServer)
    → s.has_listener ≡ true
    → given (on_connections cs s).0 ≡ accepted_from s.next_client cs
unfolding on_connections on_connection
given-on_connections [] s h = refl
given-on_connections ((status, answer) ∷ cs) s h =
    let fs = invoke_all s.listeners in
    let after = record s { next_client = suc s.next_client } in
    let rest = given-on_connections cs after h in
    elim (Bool-cases (failed status)) [
      | inl e ↦
          rw e (given-all_reports fs status (on_connections cs s).0 ∙ given-on_connections cs s h)
      | inr e ↦ elim (Bool-cases (failed answer)) [
        | inl g ↦ rw (e, g) (given-all_reports fs answer (on_connections cs after).0 ∙ rest)
        | inr g ↦
            rw (on_connection-accepted status answer s e g h, e, g)
              (ap (λ l. s.next_client ∷ l) rest)
      ]
    ]

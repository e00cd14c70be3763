-- ===== src/Http/Tests.antt =====
-- Runs of the callbacks, and the properties at concrete inputs.
use nexer.Prelude.{ℕ, ◌≡◌, refl, ◌≢◌, true, false, some, [], ◌∷◌, ◌++◌, Bytes, codes, List}
use nexer.Http.{
  Request, field_part, value_part, calls, reset, blank_url, call, on_header_field, on_header_value,
  change_last, arith, url_part, headers_done, message_done,
}
use nexer.Http.Response.{Response, reset_response, end_response}
use nexer.Http.Response.Framing.{set_all, HasNumber, end_response-framed}
use nexer.Buffer.Holds.{Holds}
use nexer.Prelude.Int.{pos}
use nexer.Http.Client.{Piece, header, content, get as client_get, Response as ClientResponse}
use nexer.Http.Client.Transfer.{get-Transfer}
use nexer.Http.Chunks.{with_headers}
use nexer.Http.Server.{Connection, on_client_data}
use nexer.Http.Server.Serving.{finished, grown}
use nexer.Http.Server.Sessions.{feed, feed-sent, on_client_data-pipelined}
use nexer.Http.Requests.{Delivery, head_calls, rest_calls, sent, calls-sent}

abbrev fresh : Request
fresh = record {
  header_field = false;
  complete = false;
  headers = [];
  body = [];
  url_string = [];
  url = blank_url;
}

-- A request whose URL and header are cut in two.
abbrev post : Delivery
post = record {
  url = codes "/a" ∷ codes "?b=c" ∷ [];
  headers =
      (codes "Ho" ∷ codes "st" ∷ [], codes "x" ∷ []) ∷ (codes "Via" ∷ [], [] ∷ codes "y" ∷ []) ∷ [];
  body = codes "1" ∷ [] ∷ codes "23" ∷ [];
}

some_code : (c : ℕ) (s : Bytes) → (c ∷ s) ≢ []
some_code c s e = cc

calls-run :
    calls (field_part (codes "A") ∷ value_part [] ∷ field_part (codes "B") ∷ []) fresh
    ≡ some (with_headers fresh (record { key = codes "AB"; value = [] } ∷ []) true)
unfolding calls call on_header_field on_header_value change_last
calls-run = refl

calls-sent_example :
    calls (head_calls post ++ rest_calls post) (reset (sent post)) ≡ some (sent post)
calls-sent_example =
    calls-sent post (sent post)
      ((some_code _ _, some_code _ _), ((some_code _ _, some_code _ _), tt))

abbrev name_of_status : ℕ → Bytes
name_of_status n = codes "OK"

abbrev old_response : Response
old_response = record { status = 404; start_line = codes "x"; head = codes "y"; body = codes "z" }

end_response-framed_example :
    let r = set_all ((codes "Via", codes "n") ∷ []) (reset_response old_response) in
    let w = (end_response name_of_status 200 (record r { body = codes "hello" })).1 in
    HasNumber (codes "HTTP/1.1 ") 200 (codes " OK\r\n") w.start
    × HasNumber
        (codes "Via: n\r\nConnection: Keep-Alive\r\nContent-Length: ")
        5
        (codes "\r\n\r\n")
        w.fields
    × (w.content ≡ codes "hello")
end_response-framed_example =
    end_response-framed name_of_status 200 old_response ((codes "Via", codes "n") ∷ [])
      (codes "hello") (omega arith)

-- A connection whose last request is complete.
abbrev idle : Connection
idle = record { request = sent post; served = []; closing = false }

abbrev get : Delivery
get = record { url = codes "/" ∷ []; headers = []; body = [] }

feed-sent_example :
    feed ((url_part (codes "/") ∷ []) ∷ (headers_done ∷ message_done ∷ []) ∷ []) idle
    ≡ some (record idle { request = sent get; served = sent get ∷ [] })
feed-sent_example =
    feed-sent get ((url_part (codes "/") ∷ []) ∷ []) (headers_done ∷ []) idle refl tt refl

on_client_data-pipelined_example :
    on_client_data
      ((head_calls post ++ rest_calls post) ++ (head_calls get ++ rest_calls get))
      false
      idle
    ≡ some (record idle {
      request = finished (grown get (sent post));
      served = sent post ∷ finished (grown get (sent post)) ∷ [];
    })
on_client_data-pipelined_example =
    on_client_data-pipelined post get idle refl
      ((some_code _ _, some_code _ _), ((some_code _ _, some_code _ _), tt)) tt

-- The headers of two responses, and a body in two pieces.
abbrev transfer : List Piece
transfer =
    header (codes "HTTP/1.1 301")
    ∷ header (codes "HTTP/1.1 200")
    ∷ content (codes "a")
    ∷ content (codes "bc")
    ∷ []

get-Transfer_example :
    (q : ClientResponse) × (client_get true transfer (pos 0) (pos 200) ≡ some q)
    × Holds q.head (codes "HTTP/1.1 301HTTP/1.1 200")
    × Holds q.body (codes "abc")
    × (q.status ≡ pos 200)
get-Transfer_example =
    get-Transfer transfer (pos 0) (pos 200) (refl, (refl, (refl, (refl, tt)))) (omega arith)
      (omega arith)

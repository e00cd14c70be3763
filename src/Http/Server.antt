-- ===== src/Http/Server.antt =====
-- The connections of `http::Server` of src/http_server.cc. A piece of data is the list of the calls
-- that the parser makes for it, and whether the parser then reports an error; what the server's
-- `on_request_` does with a request is left to the list of the requests that it was given.
pub mod Serving
pub mod Sessions
use nexer.Prelude.{Bool, true, false, Option, none, some, List, [], ◌∷◌, ◌++◌, if◌then◌else◌}
use nexer.Http.{
  Request, Callback, url_part, field_part, value_part, body_part, headers_done, message_done, call,
  reset,
}

pub record Connection : Type 0 where
  pub request : Request
  -- The requests that `on_request_` was given, and whether the client is closed.
  pub served : List Request
  pub closing : Bool

abbrev pub is_done : Callback → Bool
is_done (url_part s) = false
is_done (field_part s) = false
is_done (value_part s) = false
is_done (body_part s) = false
is_done headers_done = false
is_done message_done = true

-- `OnRequestComplete` after the parser's call.
unfoldable pub on_request_complete : Callback → Option Request → Connection → Option Connection
on_request_complete c none s = none
on_request_complete c (some r) s =
    some (record s { request = r; served = s.served ++ (if is_done c then r ∷ [] else []) })

unfoldable pub serve : Callback → Connection → Option Connection
serve c s = on_request_complete c (call c s.request) s

abbrev pub then_serve : Option Connection → (Connection → Option Connection) → Option Connection
then_serve none k = none
then_serve (some s) k = k s

unfoldable pub serve_all : List Callback → Connection → Option Connection
serve_all [] s = some s
serve_all (c ∷ cs) s = then_serve (serve c s) (serve_all cs)

-- The client's listener for data.
unfoldable pub on_client_data : List Callback → Bool → Connection → Option Connection
on_client_data cs error s =
    let r = if s.request.complete then reset s.request else s.request in
    then_serve (serve_all cs (record s { request = r }))
      (λ t. some (if error then record t { closing = true } else t))

-- The client's listener for errors.
unfoldable pub on_client_error : Connection → Connection
on_client_error s = record s { closing = true }

-- ===== src/Http.antt =====
-- `http::incoming` of include/http_message.h and src/http_message.cc: how the callbacks of the HTTP
-- parser (llhttp, outside this repository) put a request together. A body is the text that its
-- buffer holds, below the buffer's limit. `none` is `back()` of an empty vector.
pub mod Chunks
pub mod Requests
pub mod Response
pub mod Server
pub mod Client
pub mod Tests
use nexer.Prelude.{
  ℕ, zero, suc, ◌+◌, ◌-◌, ◌*◌, ◌/◌, ◌%◌, ◌≤◌, ◌<◌, ◌≡◌, refl, sym, ap, ◌∙◌, ◌≢◌, ◌↔◌, ◌⊎◌, inl, inr,
  Bool, true, false, not, ◌&&◌, ◌||◌, Option, none, some, List, [], ◌∷◌, ◌++◌, map, append_assoc,
  append-nil, arith, Bytes, codes, length, length-append, take, drop, replicate, is_nil, All, ltb,
  leb, ◌==◌, if◌then◌else◌, lt→ltb, ==_iff, ==-refl, Bool-cases, Option-cases, if_both, if_false,
  and_true, is_nil→eq,
}
use nexer.Url.{Url, parse_url}

pub record Header : Type 0 where
  pub key : Bytes
  pub value : Bytes

abbrev pub blank_url : Url
blank_url = record { scheme = []; host = []; port = []; path = []; query = []; fragment = [] }

-- `Request` with the parts of `Message` that the callbacks use.
pub record Request : Type 0 where
  pub header_field : Bool
  pub complete : Bool
  pub headers : List Header
  pub body : Bytes
  pub url_string : Bytes
  pub url : Url

-- `Request::Reset`, and what the constructors leave.
unfoldable pub reset : Request → Request
reset r = record {
  header_field = false;
  complete = false;
  headers = [];
  body = [];
  url_string = [];
  url = blank_url;
}

-- `headers_.back()` changed in its place.
unfoldable pub change_last : (Header → Header) → List Header → Option (List Header)
change_last f [] = none
change_last f (h ∷ []) = some (f h ∷ [])
change_last f (h ∷ i ∷ hs) = elim (change_last f (i ∷ hs)) [ none ↦ none | some js ↦ some (h ∷ js) ]

abbrev pub set_headers : Request → Bool → Option (List Header) → Option Request
set_headers r field none = none
set_headers r field (some hs) = some (record r { headers = hs; header_field = field })

abbrev pub add_key : Bytes → Header → Header
add_key s h = record h { key = h.key ++ s }

abbrev pub add_value : Bytes → Header → Header
add_value s h = record h { value = h.value ++ s }

unfoldable pub on_url : Bytes → Request → Option Request
on_url s r = if is_nil s then some r else some (record r { url_string = r.url_string ++ s })

unfoldable pub on_header_field : Bytes → Request → Option Request
on_header_field s r =
    if is_nil s
    then some r
    else if r.header_field
    then set_headers r true (change_last (add_key s) r.headers)
    else set_headers r true (some (r.headers ++ record { key = s; value = [] } ∷ []))

unfoldable pub on_header_value : Bytes → Request → Option Request
on_header_value s r =
    if is_nil s then some r else set_headers r false (change_last (add_value s) r.headers)

unfoldable pub on_headers_complete : Request → Option Request
on_headers_complete r = some (record r { url = parse_url r.url r.url_string })

unfoldable pub on_body : Bytes → Request → Option Request
on_body s r = if is_nil s then some r else some (record r { body = r.body ++ s })

-- What the server does with the complete request comes after.
unfoldable pub on_message_complete : Request → Option Request
on_message_complete r = some (record r { complete = true })

-- The calls that the parser makes while it reads.
pub data Callback : Type 0 where
  url_part field_part value_part body_part : Bytes → Callback
  headers_done message_done : Callback

unfoldable pub call : Callback → Request → Option Request
call (url_part s) r = on_url s r
call (field_part s) r = on_header_field s r
call (value_part s) r = on_header_value s r
call (body_part s) r = on_body s r
call headers_done r = on_headers_complete r
call message_done r = on_message_complete r

abbrev pub then_call : Option Request → (Request → Option Request) → Option Request
then_call none k = none
then_call (some r) k = k r

unfoldable pub calls : List Callback → Request → Option Request
calls [] r = some r
calls (c ∷ cs) r = then_call (call c r) (calls cs)

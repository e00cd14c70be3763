-- ===== src/Http/Requests.antt =====
-- Whole requests.
use nexer.Prelude.{◌≡◌, refl, ◌∙◌, ◌≢◌, true, false, some, List, [], ◌∷◌, ◌++◌, map, Bytes, All}
use nexer.Url.{parse_url}
use nexer.Http.{
  Header, Request, on_header_field, on_header_value, on_headers_complete, on_message_complete,
  Callback, url_part, field_part, value_part, body_part, headers_done, message_done, add_key,
  add_value, call, calls, reset, blank_url,
}
use nexer.Http.Chunks.{
  change_last-append, concat, calls-append, with_headers, url_parts, body_parts, header_parts,
  Pieces, whole, IsFilled, header_calls,
}

-- A request as the parser delivers it: the pieces of its URL, of its headers and of its body.
pub record Delivery : Type 0 where
  pub url : List Bytes
  pub headers : List Pieces
  pub body : List Bytes

abbrev pub head_calls : Delivery → List Callback
head_calls d = map url_part d.url ++ header_calls d.headers

abbrev pub rest_calls : Delivery → List Callback
rest_calls d = headers_done ∷ map body_part d.body ++ message_done ∷ []

-- The request that is sent, in one piece each.
abbrev pub sent : Delivery → Request
sent d = record {
  header_field = false;
  complete = true;
  headers = map whole d.headers;
  body = concat d.body;
  url_string = concat d.url;
  url = parse_url blank_url (concat d.url);
}

-- Wherever the parser cuts a request, the callbacks put together the request that was sent, if no
-- header has an empty name or an empty value: its headers in their order, its body, and its URL
-- parsed from the whole of its text. Nothing of the request before it is left.
pub calls-sent :
    (d : Delivery) (old : Request)
    → All IsFilled d.headers
    → calls (head_calls d ++ rest_calls d) (reset old) ≡ some (sent d)
unfolding calls call reset on_headers_complete on_message_complete
calls-sent d old f =
    let u = record (reset old) { url_string = concat d.url } in
    let h = with_headers u (map whole d.headers) false in
    let p = record h { url = parse_url blank_url (concat d.url) } in
    calls-append (head_calls d) (rest_calls d) (reset old)
    ∙ rw
        (
          calls-append (map url_part d.url) (header_calls d.headers) (reset old),
          url_parts d.url (reset old),
          header_parts d.headers u [] f,
        )
        (calls-append (map body_part d.body) (message_done ∷ []) p ∙ rw (body_parts d.body p))

-- A header with an empty value is not closed: the name of the next header is appended to its name,
-- and the two become one header.
pub calls-empty_value :
    (key next value : Bytes) (r : Request)
    → key ≢ []
    → next ≢ []
    → value ≢ []
    → calls
        (field_part key ∷ value_part [] ∷ field_part next ∷ value_part value ∷ [])
        (record r { header_field = false })
      ≡ some (with_headers r (r.headers ++ record { key = key ++ next; value = value } ∷ []) false)
unfolding calls call on_header_field on_header_value
calls-empty_value [] next value r k n v = absurd (k refl)
calls-empty_value (a ∷ s) [] value r k n v = absurd (n refl)
calls-empty_value (a ∷ s) (b ∷ t) [] r k n v = absurd (v refl)
calls-empty_value (a ∷ s) (b ∷ t) (c ∷ u) r k n v =
    let h : Header = record { key = a ∷ s; value = [] } in
    rw (
      change_last-append (add_key (b ∷ t)) r.headers h,
      change_last-append (add_value (c ∷ u)) r.headers (add_key (b ∷ t) h),
    )

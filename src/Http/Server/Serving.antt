-- ===== src/Http/Server/Serving.antt =====
-- One request on a connection.
use mathlib.Core.Option.{some-injective, none-ne-some}
use nexer.Prelude.{
  sym, ap, append-nil, append_assoc, map, ◌∙◌, true, some, ◌≡◌, refl, inl, inr, false, List, [],
  ◌∷◌, ◌++◌, Bytes, All, Option-cases,
}
use nexer.Url.{parse_url}
use nexer.Http.{
  Request, Callback, url_part, field_part, value_part, body_part, headers_done, message_done, call,
  calls, then_call, on_headers_complete, on_message_complete,
}
use nexer.Http.Chunks.{
  calls-append, url_parts, body_parts, header_parts, with_headers, whole, IsFilled, header_calls,
  concat, Pieces,
}
use nexer.Http.Requests.{Delivery, head_calls, rest_calls}
use nexer.Http.Server.{Connection, is_done, on_request_complete, serve, then_serve, serve_all}

pub serve_all-append :
    (cs ds : List Callback) (s : Connection)
    → serve_all (cs ++ ds) s ≡ then_serve (serve_all cs s) (serve_all ds)
unfolding serve_all
serve_all-append [] ds s = refl
serve_all-append (c ∷ cs) ds s = elim (Option-cases (serve c s)) [
  | inl e ↦ rw e refl
  | inr (t, e) ↦ rw e (serve_all-append cs ds t)
]

-- No message ends in these calls.
abbrev pub IsOpen : List Callback → Type 0
IsOpen = All (λ c. is_done c ≡ false)

pub IsOpen-append : (cs ds : List Callback) → IsOpen cs → IsOpen ds → IsOpen (cs ++ ds)
IsOpen-append [] ds a b = b
IsOpen-append (c ∷ cs) ds (h, a) b = (h, IsOpen-append cs ds a b)

-- Calls in which no message ends give nothing to the server.
pub serve_all-open :
    (cs : List Callback) (s : Connection) (r : Request)
    → IsOpen cs
    → calls cs s.request ≡ some r
    → serve_all cs s ≡ some (record s { request = r })
unfolding serve_all serve on_request_complete calls
serve_all-open [] s r o e = ap (λ q. some (record s { request = q })) (some-injective s.request r e)
serve_all-open (c ∷ cs) s r (h, o) e = elim (Option-cases (call c s.request)) [
  | inl n ↦ absurd (none-ne-some r (sym (ap (λ q. then_call q (calls cs)) n) ∙ e))
  | inr (q, n) ↦
      rw (n, h, append-nil s.served)
        (serve_all-open cs (record s { request = q }) r o
          (sym (ap (λ x. then_call x (calls cs)) n) ∙ e))
]

-- The calls of a request but for its end.
abbrev pub open_calls : Delivery → List Callback
open_calls d = head_calls d ++ headers_done ∷ map body_part d.body

pub IsOpen-map :
    (f : Bytes → Callback) (ss : List Bytes)
    → ((s : Bytes) → is_done (f s) ≡ false)
    → IsOpen (map f ss)
IsOpen-map f [] h = tt
IsOpen-map f (s ∷ ss) h = (h s, IsOpen-map f ss h)

pub IsOpen-headers : (ps : List Pieces) → IsOpen (header_calls ps)
IsOpen-headers [] = tt
IsOpen-headers ((ks, vs) ∷ ps) =
    IsOpen-append (map field_part ks ++ map value_part vs) (header_calls ps)
      (IsOpen-append (map field_part ks) (map value_part vs) (IsOpen-map field_part ks (λ s. refl))
        (IsOpen-map value_part vs (λ s. refl)))
      (IsOpen-headers ps)

pub open_calls-IsOpen : (d : Delivery) → IsOpen (open_calls d)
open_calls-IsOpen d =
    IsOpen-append (head_calls d) (headers_done ∷ map body_part d.body)
      (IsOpen-append (map url_part d.url) (header_calls d.headers)
        (IsOpen-map url_part d.url (λ s. refl)) (IsOpen-headers d.headers))
      (refl, IsOpen-map body_part d.body (λ s. refl))

-- What a request becomes with the calls of one that is sent.
abbrev pub grown : Delivery → Request → Request
grown d r = record {
  header_field = false;
  complete = r.complete;
  headers = r.headers ++ map whole d.headers;
  body = r.body ++ concat d.body;
  url_string = r.url_string ++ concat d.url;
  url = parse_url r.url (r.url_string ++ concat d.url);
}

pub calls-grown :
    (d : Delivery) (r : Request)
    → All IsFilled d.headers
    → calls (open_calls d) (with_headers r r.headers false) ≡ some (grown d r)
unfolding calls call on_headers_complete
calls-grown d r f =
    let start = with_headers r r.headers false in
    let u = record start { url_string = r.url_string ++ concat d.url } in
    let h = with_headers u (r.headers ++ map whole d.headers) false in
    let p = record h { url = parse_url r.url u.url_string } in
    calls-append (head_calls d) (headers_done ∷ map body_part d.body) start
    ∙ rw
        (
          calls-append (map url_part d.url) (header_calls d.headers) start,
          url_parts d.url start,
          header_parts d.headers u r.headers f,
        )
        (body_parts d.body p)

abbrev pub finished : Request → Request
finished r = record r { complete = true }

-- A whole request on a connection.
pub serve-request :
    (d : Delivery) (r : Request) (s : Connection)
    → All IsFilled d.headers
    → serve_all
        (head_calls d ++ rest_calls d)
        (record s { request = with_headers r r.headers false })
      ≡ some (record s {
        request = finished (grown d r);
        served = s.served ++ finished (grown d r) ∷ [];
      })
unfolding serve_all serve on_request_complete call on_message_complete
serve-request d r s f =
    let t = record s { request = with_headers r r.headers false } in
    ap (λ cs. serve_all cs t)
      (sym (append_assoc (head_calls d) (headers_done ∷ map body_part d.body) (message_done ∷ [])))
    ∙ serve_all-append (open_calls d) (message_done ∷ []) t
    ∙ rw (serve_all-open (open_calls d) t (grown d r) (open_calls-IsOpen d) (calls-grown d r f))
        refl

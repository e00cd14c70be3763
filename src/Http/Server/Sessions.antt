-- ===== src/Http/Server/Sessions.antt =====
-- Requests that follow each other on one connection.
use nexer.Prelude.{
  sym, ap, append_assoc, ◌∙◌, ◌≡◌, refl, true, false, some, none, List, [], ◌∷◌, ◌++◌, All, Option,
  Option-cases, if_both, Bool, if◌then◌else◌,
}
use mathlib.Core.Bool.{false≢true}
use mathlib.Core.Option.{none-ne-some}
use nexer.Http.{
  Request, Callback, url_part, field_part, value_part, body_part, headers_done, message_done, call,
  calls, then_call, reset, on_headers_complete, on_message_complete, on_url, on_header_field,
  on_header_value, on_body, set_headers, Header, is_nil, inl, inr,
}
use nexer.Http.Chunks.{IsFilled, calls-append}
use nexer.Http.Requests.{Delivery, head_calls, rest_calls, sent}
use nexer.Http.Server.{
  Connection, serve, then_serve, serve_all, on_client_data, is_done, on_request_complete,
}
use nexer.Http.Server.Serving.{
  IsOpen, serve_all-append, serve_all-open, open_calls, open_calls-IsOpen, calls-grown, grown,
  finished, serve-request,
}

-- Pieces of data without an error.
abbrev pub feed : List (List Callback) → Connection → Option Connection
feed [] s = some s
feed (p ∷ ps) s = then_serve (on_client_data p false s) (feed ps)

abbrev pub join : List (List Callback) → List Callback
join [] = []
join (p ∷ ps) = p ++ join ps

-- Only the end of a message changes whether the request is complete.
abbrev Keeps : Bool → Option Request → Type 0
Keeps b none = Unit
Keeps b (some q) = q.complete ≡ b

set_headers-Keeps :
    (r : Request) (b : Bool) (o : Option (List Header)) → Keeps r.complete (set_headers r b o)
set_headers-Keeps r b none = tt
set_headers-Keeps r b (some hs) = refl

call-Keeps : (c : Callback) (r : Request) → is_done c ≡ false → Keeps r.complete (call c r)
unfolding call on_url on_header_field on_header_value on_body on_headers_complete
call-Keeps (url_part s) r h = if_both (Keeps r.complete) (is_nil s) _ _ refl refl
call-Keeps (field_part s) r h =
    if_both (Keeps r.complete) (is_nil s) _ _ refl
      (if_both (Keeps r.complete) r.header_field _ _ (set_headers-Keeps r true _) refl)
call-Keeps (value_part s) r h =
    if_both (Keeps r.complete) (is_nil s) _ _ refl (set_headers-Keeps r false _)
call-Keeps (body_part s) r h = if_both (Keeps r.complete) (is_nil s) _ _ refl refl
call-Keeps headers_done r h = refl
call-Keeps message_done r h = absurd (false≢true (sym h))

calls-Keeps : (cs : List Callback) (r : Request) → IsOpen cs → Keeps r.complete (calls cs r)
unfolding calls
calls-Keeps [] r o = refl
calls-Keeps (c ∷ cs) r (h, o) = elim (Option-cases (call c r)) [
  | inl n ↦ rw n tt
  | inr (q, n) ↦
      let k : q.complete ≡ r.complete = rw n at (call-Keeps c r h) in
      rw (n, sym k) (calls-Keeps cs q o)
]

IsOpen-split : (cs ds : List Callback) → IsOpen (cs ++ ds) → IsOpen cs × IsOpen ds
IsOpen-split [] ds o = (tt, o)
IsOpen-split (c ∷ cs) ds (h, o) = let (a, b) = IsOpen-split cs ds o in ((h, a), b)

-- A piece that comes in the midst of a request.
data-begun :
    (p : List Callback) (s : Connection)
    → s.request.complete ≡ false
    → on_client_data p false s ≡ then_serve (serve_all p s) some
unfolding on_client_data
data-begun p s c =
    ap
      (λ b.
        then_serve (serve_all p (record s { request = if b then reset s.request else s.request }))
          (λ t. some t))
      c

data-open :
    (p : List Callback) (s : Connection) (q : Request)
    → s.request.complete ≡ false
    → IsOpen p
    → calls p s.request ≡ some q
    → on_client_data p false s ≡ some (record s { request = q })
data-open p s q c o e = data-begun p s c ∙ ap (λ x. then_serve x some) (serve_all-open p s q o e)

-- The last piece of a request.
data-last :
    (q : List Callback) (s : Connection) (r : Request)
    → s.request.complete ≡ false
    → IsOpen q
    → calls q s.request ≡ some r
    → on_client_data (q ++ message_done ∷ []) false s
      ≡ some (record s { request = finished r; served = s.served ++ finished r ∷ [] })
unfolding serve_all serve on_request_complete call on_message_complete
data-last q s r c o e =
    data-begun (q ++ message_done ∷ []) s c
    ∙ ap (λ x. then_serve x some)
        (serve_all-append q (message_done ∷ []) s
          ∙ ap (λ x. then_serve x (serve_all (message_done ∷ []))) (serve_all-open q s r o e))

feed-rest :
    (qs : List (List Callback)) (q : List Callback) (s : Connection) (r : Request)
    → s.request.complete ≡ false
    → IsOpen (join qs ++ q)
    → calls (join qs ++ q) s.request ≡ some r
    → feed (qs ++ (q ++ message_done ∷ []) ∷ []) s
      ≡ some (record s { request = finished r; served = s.served ++ finished r ∷ [] })
feed-rest [] q s r c o e = rw (data-last q s r c o e) refl
feed-rest (p ∷ qs) q s r c o e =
    let o' : IsOpen (p ++ (join qs ++ q)) = rw (append_assoc p (join qs) q) at o in
    let (a, b) = IsOpen-split p (join qs ++ q) o' in
    let e' : calls (p ++ (join qs ++ q)) s.request ≡ some r =
      ap (λ cs. calls cs s.request) (sym (append_assoc p (join qs) q)) ∙ e in
    let split = calls-append p (join qs ++ q) s.request in
    elim (Option-cases (calls p s.request)) [
      | inl n ↦
          absurd
            (none-ne-some r (sym (ap (λ x. then_call x (calls (join qs ++ q))) n) ∙ sym split ∙ e'))
      | inr (t, n) ↦
          let k : t.complete ≡ s.request.complete = rw n at (calls-Keeps p s.request a) in
          rw (data-open p s t c a n) (
            feed-rest qs q (record s { request = t }) r (k ∙ c) b
              (sym (ap (λ x. then_call x (calls (join qs ++ q))) n) ∙ sym split ∙ e'))
    ]

-- Data after a request that is complete begins a new one.
data-reset :
    (p : List Callback) (s : Connection)
    → s.request.complete ≡ true
    → on_client_data p false s ≡ on_client_data p false (record s { request = reset s.request })
unfolding on_client_data reset
data-reset p s c = rw c refl

feed-reset :
    (qs : List (List Callback)) (p : List Callback) (s : Connection)
    → s.request.complete ≡ true
    → feed (qs ++ p ∷ []) s ≡ feed (qs ++ p ∷ []) (record s { request = reset s.request })
feed-reset [] p s c = ap (λ x. then_serve x (feed [])) (data-reset p s c)
feed-reset (q ∷ qs) p s c = ap (λ x. then_serve x (feed (qs ++ p ∷ []))) (data-reset q s c)

-- On a connection whose last request is complete, a request that comes in any number of pieces of data,
-- wherever they cut it, is given to the server once, as it was sent, with nothing of the request before
-- it; and the connection is then ready for the next one.
pub feed-sent :
    (d : Delivery) (qs : List (List Callback)) (q : List Callback) (s : Connection)
    → s.request.complete ≡ true
    → All IsFilled d.headers
    → join qs ++ q ≡ open_calls d
    → feed (qs ++ (q ++ message_done ∷ []) ∷ []) s
      ≡ some (record s { request = sent d; served = s.served ++ sent d ∷ [] })
unfolding reset
feed-sent d qs q s c f cut =
    let r = reset s.request in
    feed-reset qs (q ++ message_done ∷ []) s c
    ∙ feed-rest qs q (record s { request = r }) (grown d r) refl (rw cut (open_calls-IsOpen d))
        (ap (λ cs. calls cs r) cut ∙ calls-grown d r f)

-- Where one piece of data brings two whole requests after a request that is complete, the server is
-- given the first as it was sent, and the second mixed with it: with the headers and the bodies of
-- both, and a URL that is parsed from both texts, one behind the other.
pub on_client_data-pipelined :
    (d e : Delivery) (s : Connection)
    → s.request.complete ≡ true
    → All IsFilled d.headers
    → All IsFilled e.headers
    → on_client_data ((head_calls d ++ rest_calls d) ++ (head_calls e ++ rest_calls e)) false s
      ≡ some (record s {
        request = finished (grown e (sent d));
        served = s.served ++ sent d ∷ finished (grown e (sent d)) ∷ [];
      })
unfolding on_client_data reset
on_client_data-pipelined d e s c f g =
    let t = record s { request = sent d; served = s.served ++ sent d ∷ [] } in
    rw
      (
        c,
        serve_all-append (head_calls d ++ rest_calls d) (head_calls e ++ rest_calls e)
            (record s { request = reset s.request }),
        serve-request d (reset s.request) s f,
        serve-request e (sent d) t g,
        append_assoc s.served (sent d ∷ []) (finished (grown e (sent d)) ∷ []),
      )
      refl

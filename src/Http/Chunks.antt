-- ===== src/Http/Chunks.antt =====
-- However the parser cuts a request into pieces, the same request is put together.
use nexer.Prelude.{
  ◌≡◌, refl, ◌∙◌, ◌≢◌, inl, inr, Bool, true, false, some, List, [], ◌∷◌, ◌++◌, map, append_assoc,
  append-nil, Bytes, All, Option-cases,
}
use nexer.Http.{
  Header, Request, change_last, add_key, add_value, on_url, on_header_field, on_header_value,
  on_body, Callback, url_part, field_part, value_part, body_part, call, calls, then_call,
}

abbrev pub concat : List Bytes → Bytes
concat [] = []
concat (s ∷ ss) = s ++ concat ss

pub calls-append :
    (cs ds : List Callback) (r : Request) → calls (cs ++ ds) r ≡ then_call (calls cs r) (calls ds)
unfolding calls
calls-append [] ds r = refl
calls-append (c ∷ cs) ds r = elim (Option-cases (call c r)) [
  | inl e ↦ rw e refl
  | inr (s, e) ↦ rw e (calls-append cs ds s)
]

pub change_last-append :
    (f : Header → Header) (hs : List Header) (h : Header)
    → change_last f (hs ++ h ∷ []) ≡ some (hs ++ f h ∷ [])
unfolding change_last
change_last-append f [] h = refl
change_last-append f (i ∷ []) h = refl
change_last-append f (i ∷ j ∷ hs) h = rw (change_last-append f (j ∷ hs) h)

-- Pieces of a URL.
pub url_parts :
    (ss : List Bytes) (r : Request)
    → calls (map url_part ss) r ≡ some (record r { url_string = r.url_string ++ concat ss })
unfolding calls call on_url
url_parts [] r = simp append-nil
url_parts ([] ∷ ss) r = url_parts ss r
url_parts ((c ∷ s) ∷ ss) r =
    url_parts ss (record r { url_string = r.url_string ++ c ∷ s })
    ∙ rw (append_assoc r.url_string (c ∷ s) (concat ss))

pub body_parts :
    (ss : List Bytes) (r : Request)
    → calls (map body_part ss) r ≡ some (record r { body = r.body ++ concat ss })
unfolding calls call on_body
body_parts [] r = simp append-nil
body_parts ([] ∷ ss) r = body_parts ss r
body_parts ((c ∷ s) ∷ ss) r =
    body_parts ss (record r { body = r.body ++ c ∷ s })
    ∙ rw (append_assoc r.body (c ∷ s) (concat ss))

abbrev pub with_headers : Request → List Header → Bool → Request
with_headers r hs field = record r { headers = hs; header_field = field }

-- More pieces of the key of the last header.
key_parts :
    (ss : List Bytes) (r : Request) (hs : List Header) (h : Header)
    → calls (map field_part ss) (with_headers r (hs ++ h ∷ []) true)
      ≡ some (with_headers r (hs ++ add_key (concat ss) h ∷ []) true)
unfolding calls call on_header_field
key_parts [] r hs h = simp append-nil
key_parts ([] ∷ ss) r hs h = key_parts ss r hs h
key_parts ((c ∷ s) ∷ ss) r hs h =
    rw (change_last-append (add_key (c ∷ s)) hs h)
      (key_parts ss r hs (add_key (c ∷ s) h) ∙ rw (append_assoc h.key (c ∷ s) (concat ss)))

first_key :
    (ss : List Bytes) (r : Request) (hs : List Header)
    → concat ss ≢ []
    → calls (map field_part ss) (with_headers r hs false)
      ≡ some (with_headers r (hs ++ record { key = concat ss; value = [] } ∷ []) true)
unfolding calls call on_header_field
first_key [] r hs n = absurd (n refl)
first_key ([] ∷ ss) r hs n = first_key ss r hs n
first_key ((c ∷ s) ∷ ss) r hs n = key_parts ss r hs (record { key = c ∷ s; value = [] })

value_parts :
    (ss : List Bytes) (r : Request) (hs : List Header) (h : Header)
    → calls (map value_part ss) (with_headers r (hs ++ h ∷ []) false)
      ≡ some (with_headers r (hs ++ add_value (concat ss) h ∷ []) false)
unfolding calls call on_header_value
value_parts [] r hs h = simp append-nil
value_parts ([] ∷ ss) r hs h = value_parts ss r hs h
value_parts ((c ∷ s) ∷ ss) r hs h =
    rw (change_last-append (add_value (c ∷ s)) hs h)
      (value_parts ss r hs (add_value (c ∷ s) h) ∙ rw (append_assoc h.value (c ∷ s) (concat ss)))

first_value :
    (ss : List Bytes) (r : Request) (hs : List Header) (h : Header)
    → concat ss ≢ []
    → calls (map value_part ss) (with_headers r (hs ++ h ∷ []) true)
      ≡ some (with_headers r (hs ++ add_value (concat ss) h ∷ []) false)
unfolding calls call on_header_value
first_value [] r hs h n = absurd (n refl)
first_value ([] ∷ ss) r hs h n = first_value ss r hs h n
first_value ((c ∷ s) ∷ ss) r hs h n =
    rw (change_last-append (add_value (c ∷ s)) hs h)
      (value_parts ss r hs (add_value (c ∷ s) h) ∙ rw (append_assoc h.value (c ∷ s) (concat ss)))

-- A header in pieces.
abbrev pub Pieces : Type 0
Pieces = List Bytes × List Bytes

abbrev pub whole : Pieces → Header
whole (ks, vs) = record { key = concat ks; value = concat vs }

abbrev pub IsFilled : Pieces → Type 0
IsFilled (ks, vs) = (concat ks ≢ []) × (concat vs ≢ [])

abbrev pub header_calls : List Pieces → List Callback
header_calls [] = []
header_calls ((ks, vs) ∷ ps) = map field_part ks ++ map value_part vs ++ header_calls ps

pub header_parts :
    (ps : List Pieces) (r : Request) (hs : List Header)
    → All IsFilled ps
    → calls (header_calls ps) (with_headers r hs false)
      ≡ some (with_headers r (hs ++ map whole ps) false)
unfolding calls
header_parts [] r hs a = simp append-nil
header_parts ((ks, vs) ∷ ps) r hs ((k, v), a) =
    let h : Header = record { key = concat ks; value = [] } in
    calls-append (map field_part ks ++ map value_part vs) (header_calls ps)
      (with_headers r hs false)
    ∙ rw
        (
          calls-append (map field_part ks) (map value_part vs) (with_headers r hs false),
          first_key ks r hs k,
          first_value vs r hs h v,
        )
        (header_parts ps r (hs ++ whole (ks, vs) ∷ []) a
          ∙ rw (append_assoc hs (whole (ks, vs) ∷ []) (map whole ps)))

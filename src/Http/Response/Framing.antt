-- ===== src/Http/Response/Framing.antt =====
-- What a client reads of a response.
use nexer.Prelude.{
  ℕ, ◌<◌, ◌≡◌, refl, ◌∙◌, true, List, [], ◌∷◌, ◌++◌, append_assoc, append-nil, Bytes, codes, length,
  All, ltb, lt→ltb,
}
use nexer.Http.Response.Decimal.{IsDigit, decimal, value_from, decimal-value, decimal-IsDigit}
use nexer.Http.Response.{Response, set_header, end_response, reset_response}

-- A text with a number between two others.
abbrev pub HasNumber : Bytes → ℕ → Bytes → Bytes → Type 0
HasNumber before n after text =
    (number : Bytes) × (text ≡ before ++ number ++ after)
    × All IsDigit number
    × (value_from 0 number ≡ n)

-- Headers set one after the other.
abbrev pub set_all : List (Bytes × Bytes) → Response → Response
set_all [] r = r
set_all ((k, v) ∷ hs) r = set_all hs (set_header k v r)

-- The lines of headers.
abbrev pub header_lines : List (Bytes × Bytes) → Bytes
header_lines [] = []
header_lines ((k, v) ∷ hs) = k ++ codes ": " ++ v ++ codes "\r\n" ++ header_lines hs

set_all-head :
    (hs : List (Bytes × Bytes)) (r : Response)
    → set_all hs r ≡ record r { head = r.head ++ header_lines hs }
unfolding set_header
set_all-head [] r = simp append-nil
set_all-head ((k, v) ∷ hs) r =
    let one = k ++ codes ": " ++ v ++ codes "\r\n" in
    set_all-head hs (record r { head = r.head ++ one })
    ∙ rw (append_assoc r.head one (header_lines hs))

-- A response that is reset, given headers and a body, and ended with a status above 0 is written
-- with that status in its first line, one line for each header in their order, the length of the
-- body as its content length, an empty line, and then the body.
pub end_response-framed :
    (status_name : ℕ → Bytes) (status : ℕ) (old : Response) (hs : List (Bytes × Bytes))
    (body : Bytes)
    → 0 < status
    → let r = set_all hs (reset_response old) in
      let w = (end_response status_name status (record r { body = body })).1 in
      HasNumber (codes "HTTP/1.1 ") status (codes " " ++ status_name status ++ codes "\r\n") w.start
      × HasNumber
          (header_lines hs ++ codes "Connection: Keep-Alive\r\nContent-Length: ")
          (length body)
          (codes "\r\n\r\n")
          w.fields
      × (w.content ≡ body)
unfolding end_response reset_response
end_response-framed status_name status old hs body p =
    let above : ltb 0 status ≡ true = lt→ltb 0 status p in
    rw (set_all-head hs (reset_response old), above)
      (
        (decimal status, simp append_assoc, decimal-IsDigit status, decimal-value status),
        (
          decimal (length body),
          simp append_assoc,
          decimal-IsDigit (length body),
          decimal-value (length body),
        ),
        refl,
      )

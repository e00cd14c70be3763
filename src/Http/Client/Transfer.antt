-- ===== src/Http/Client/Transfer.antt =====
-- What a transfer leaves in the response.
use mathlib.Core.Bool.{false≢true}
use nexer.Prelude.{
  suc, ◌+◌, ◌<◌, ◌≡◌, refl, sym, inl, inr, true, false, some, List, [], ◌∷◌, ◌++◌, append_assoc,
  append-nil, arith, Bytes, length, length-append, take, is_nil, All, ltb, ◌==◌, if◌then◌else◌,
  if_both,
}
use nexer.Prelude.Int.{ℤ}
use nexer.Buffer.{MyBuf, max_size, new_buf}
use nexer.Buffer.Memory.{take-past}
use nexer.Buffer.Holds.{Holds}
use nexer.Buffer.Contents.{write-Holds}
use nexer.Buffer.Text.{append, given_length}
use nexer.Http.Client.{
  Piece, header, content, Response, new_response, http_content_callback, is_status_line,
  http_header_callback, on_piece, on_pieces, is_ok, get,
}

-- The bytes of the pieces for the head, and of those for the body.
abbrev pub headers : List Piece → Bytes
headers [] = []
headers (header s ∷ ps) = s ++ headers ps
headers (content s ∷ ps) = headers ps

abbrev pub contents : List Piece → Bytes
contents [] = []
contents (header s ∷ ps) = contents ps
contents (content s ∷ ps) = s ++ contents ps

abbrev pub IsFilled : Piece → Type 0
IsFilled (header s) = is_nil s ≡ false
IsFilled (content s) = is_nil s ≡ false

append-Holds :
    (s : Bytes) (b : MyBuf) (t : Bytes)
    → Holds b t
    → is_nil s ≡ false
    → length t + length s < max_size
    → (c : MyBuf) × (append true s (length s) b ≡ some c) × Holds c (t ++ s)
unfolding append given_length
append-Holds [] b t h f l = absurd (false≢true (sym f))
append-Holds (x ∷ s) b t h f l =
    let n = suc (length s) in
    let some_bytes : (n == 0) ≡ false = ground arith in
    let enough : ltb n n ≡ false = ground arith in
    let whole : take n (x ∷ s) ≡ x ∷ s = take-past n (x ∷ s) (omega arith) in
    elim (write-Holds true (x ∷ s) b t h (omega arith)) [
      | inl (c, p, q) ↦ (c, rw (some_bytes, enough, whole, p) refl, q)
      | inr (p, inl g) ↦ absurd (false≢true (sym g))
      | inr (p, inr g) ↦ absurd (omega arith)
    ]

content-Holds :
    (s : Bytes) (b : MyBuf) (t : Bytes)
    → Holds b t
    → is_nil s ≡ false
    → length t + length s < max_size
    → (c : MyBuf) × (http_content_callback true s b ≡ some c) × Holds c (t ++ s)
unfolding http_content_callback
content-Holds s b t h f l = let (c, p, q) = append-Holds s b t h f l in (c, rw f p, q)

header-Holds :
    (s : Bytes) (b : MyBuf) (t : Bytes)
    → Holds b t
    → is_nil s ≡ false
    → length t + length s < max_size
    → (c : MyBuf) × (http_header_callback true s b ≡ some c) × Holds c (t ++ s)
unfolding http_header_callback
header-Holds s b t h f l =
    if_both
      (λ (d : MyBuf). (c : MyBuf) × (http_content_callback true s d ≡ some c) × Holds c (t ++ s))
      (is_status_line s) b b (content-Holds s b t h f l) (content-Holds s b t h f l)

on_pieces-Holds :
    (ps : List Piece) (r : Response) (t u : Bytes)
    → All IsFilled ps
    → Holds r.head t
    → Holds r.body u
    → length t + length (headers ps) < max_size
    → length u + length (contents ps) < max_size
    → (q : Response) × (on_pieces true ps r ≡ some q)
      × Holds q.head (t ++ headers ps)
      × Holds q.body (u ++ contents ps)
unfolding on_pieces on_piece
on_pieces-Holds [] r t u f h k l m = (r, refl, rw (append-nil t) h, rw (append-nil u) k)
on_pieces-Holds (header s ∷ ps) r t u (f, fs) h k l m =
    let n = length-append s (headers ps) in
    let w = length-append t s in
    let (c, p, g) = header-Holds s r.head t h f (omega arith) in
    let (q, e, x, y) =
      on_pieces-Holds ps (record r { head = c }) (t ++ s) u fs g k (omega arith) m in
    (q, rw p e, rw (sym (append_assoc t s (headers ps))) x, y)
on_pieces-Holds (content s ∷ ps) r t u (f, fs) h k l m =
    let n = length-append s (contents ps) in
    let w = length-append u s in
    let (c, p, g) = content-Holds s r.body u k f (omega arith) in
    let (q, e, x, y) =
      on_pieces-Holds ps (record r { body = c }) t (u ++ s) fs h g l (omega arith) in
    (q, rw p e, x, rw (sym (append_assoc u s (contents ps))) y)

new_buf-Holds : Holds new_buf []
new_buf-Holds = record { spare = 0; block = refl; ends = refl; small = omega arith }

-- Where no piece is empty, memory is found and neither the headers nor the content reach the limit of a
-- buffer, `Get` ends with the content of all pieces for the body, in their order, and with all header
-- lines of the whole transfer: those of an earlier response stay in front of those of the last one. The
-- status is the response code, or the code of the error.
pub get-Transfer :
    (ps : List Piece) (res rc : ℤ)
    → All IsFilled ps
    → length (headers ps) < max_size
    → length (contents ps) < max_size
    → (q : Response) × (get true ps res rc ≡ some q)
      × Holds q.head (headers ps)
      × Holds q.body (contents ps)
      × (q.status ≡ (if is_ok res then rc else res))
unfolding get
get-Transfer ps res rc f l m =
    let (q, e, x, y) =
      on_pieces-Holds ps new_response [] [] f new_buf-Holds new_buf-Holds (omega arith)
        (omega arith) in
    (record q { status = if is_ok res then rc else res }, rw e refl, x, y, refl)

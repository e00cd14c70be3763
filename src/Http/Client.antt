-- ===== src/Http/Client.antt =====
-- `HttpClient` of src/http_client.cc. The transfers are libcurl's: which pieces of headers and content
-- it passes to the two callbacks, in which order, and how the transfer ends, are arguments.
pub mod Transfer
use nexer.Prelude.{
  ℕ, ◌≡◌, Bool, true, false, Option, none, some, List, [], ◌∷◌, Bytes, length, is_nil, ◌==◌, ◌&&◌,
  ltb, if◌then◌else◌,
}
use nexer.Prelude.Int.{ℤ, pos, negsuc}
use nexer.Buffer.{MyBuf, new_buf}
use nexer.Buffer.Memory.{chain}
use nexer.Buffer.Text.{append}

-- A call of `http_header_callback` or of `http_content_callback`.
pub data Piece : Type 0 where
  header : Bytes → Piece
  content : Bytes → Piece

-- `http::Response`: its status, `head_` and `body_`.
pub record Response : Type 0 where
  pub status : ℤ
  pub head : MyBuf
  pub body : MyBuf

abbrev pub new_response : Response
new_response = record { status = pos 501; head = new_buf; body = new_buf }

-- `sb->Write(data, n)`; `none` too for no bytes, where `Write` looks for a zero byte that need not be
-- there.
unfoldable pub http_content_callback : Bool → Bytes → MyBuf → Option MyBuf
http_content_callback granted s b = if is_nil s then none else append granted s (length s) b

-- Whether a piece begins with `HTTP/`.
abbrev pub is_status_line : Bytes → Bool
is_status_line (a ∷ b ∷ c ∷ d ∷ e ∷ s) =
    (a == 72) && ((b == 84) && ((c == 84) && ((d == 80) && (e == 47))))
is_status_line [] = false
is_status_line (a ∷ []) = false
is_status_line (a ∷ b ∷ []) = false
is_status_line (a ∷ b ∷ c ∷ []) = false
is_status_line (a ∷ b ∷ c ∷ d ∷ []) = false

-- `sb->clear()`, which is `std::ostream`'s: it sets the stream's state to good and leaves the buffer.
abbrev pub clear_state : MyBuf → MyBuf
clear_state b = b

unfoldable pub http_header_callback : Bool → Bytes → MyBuf → Option MyBuf
http_header_callback granted s b =
    http_content_callback granted s (if is_status_line s then clear_state b else b)

unfoldable pub on_piece : Bool → Piece → Response → Option Response
on_piece granted (header s) r =
    chain (http_header_callback granted s r.head) (λ b. some (record r { head = b }))
on_piece granted (content s) r =
    chain (http_content_callback granted s r.body) (λ b. some (record r { body = b }))

unfoldable pub on_pieces : Bool → List Piece → Response → Option Response
on_pieces granted [] r = some r
on_pieces granted (p ∷ ps) r = chain (on_piece granted p r) (on_pieces granted ps)

abbrev pub is_ok : ℤ → Bool
is_ok (pos n) = n == 0
is_ok (negsuc n) = false

-- `Get`, where the transfer ends with `res`, and with the response code `rc` if that is `CURLE_OK`.
unfoldable pub get : Bool → List Piece → ℤ → ℤ → Option Response
get granted ps res rc =
    chain (on_pieces granted ps new_response)
      (λ r. some (record r { status = if is_ok res then rc else res }))

-- ===== src/Http/Response.antt =====
-- `Response` of include/http_message.h and `outgoing::Response` of src/http_message.cc. The three
-- buffers are the texts that they hold, below their limit, and the name of a status
-- (`llhttp_status_name`) is a parameter.
pub mod Decimal
pub mod Framing
use nexer.Prelude.{
  ℕ, zero, suc, ◌+◌, ◌-◌, ◌*◌, ◌/◌, ◌%◌, ◌≤◌, ◌<◌, ◌≡◌, refl, sym, ap, ◌∙◌, ◌≢◌, ◌↔◌, ◌⊎◌, inl, inr,
  Bool, true, false, not, ◌&&◌, ◌||◌, Option, none, some, List, [], ◌∷◌, ◌++◌, map, append_assoc,
  append-nil, arith, Bytes, codes, length, length-append, take, drop, replicate, is_nil, All, ltb,
  leb, ◌==◌, if◌then◌else◌, lt→ltb, ltb→lt, ltb→le, leb→lt, leb→le, lt→leb, le→leb, ==_iff, ==-refl,
  Bool-cases, Option-cases, if_both, if_false, and_true, is_nil→eq,
}
use Decimal.{decimal}

pub record Response : Type 0 where
  pub status : ℕ
  pub start_line : Bytes
  pub head : Bytes
  pub body : Bytes

-- The three buffers that are written in one call.
pub record Written : Type 0 where
  pub start : Bytes
  pub fields : Bytes
  pub content : Bytes

-- `Reset`
unfoldable pub reset_response : Response → Response
reset_response r = record { status = 501; start_line = []; head = []; body = [] }

-- `SetStatus`
unfoldable pub set_status : ℕ → Response → Response
set_status status r = record r { status = status }

-- `SetHeader`
unfoldable pub set_header : Bytes → Bytes → Response → Response
set_header name value r = record r {
  head = r.head ++ (name ++ codes ": " ++ value ++ codes "\r\n");
}

-- The line that `End` builds.
abbrev pub start_of : (ℕ → Bytes) → ℕ → Bytes
start_of status_name status =
    codes "HTTP/1.1 " ++ decimal status ++ codes " " ++ status_name status ++ codes "\r\n"

abbrev pub end_of_head : ℕ → Bytes
end_of_head n = codes "Content-Length: " ++ decimal n ++ codes "\r\n\r\n"

-- `End`: the new state, and what is written.
unfoldable pub end_response : (ℕ → Bytes) → ℕ → Response → Response × Written
end_response status_name status r =
    let s = if ltb 0 status then status else r.status in
    let start = r.start_line ++ start_of status_name s in
    let head = r.head ++ codes "Connection: Keep-Alive\r\n" ++ end_of_head (length r.body) in
    (
      record { status = s; start_line = start; head = head; body = r.body },
      record { start = start; fields = head; content = r.body },
    )

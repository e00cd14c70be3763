-- ===== src/Url/Decode/Encodes.antt =====
-- `DecodeUrlComponent` against the escapes of a URL component.
use mathlib.Core.Path.{subst}
use nexer.Url.Decode.{isxdigit, hex_value, decode, Bool, Bytes, ℕ, [], if◌then◌else◌, put, plain}
use nexer.Prelude.{
  ◌≢◌, ◌<◌, ltb, ◌≡◌, ◌∷◌, true, arith, ◌+◌, ◌*◌, ◌-◌, length, ◌/◌, ◌∙◌, ◌≤◌, ◌%◌, refl, suc,
  if_both, ◌==◌, All,
}

-- The digits of `n` below 16, in either case.
abbrev digit : Bool → ℕ → ℕ
digit upper n = if ltb n 10 then b'0' + n else (if upper then b'A' else b'a') + (n - 10)

-- `s` is a component that stands for the bytes `out`: a byte may stand for itself unless it is
-- zero, a percent sign or a plus, a plus stands for a space, and any byte may be escaped.
pub data Encodes : Bytes → Bytes → Type 0 where
  done : Encodes [] []
  itself :
      {c : ℕ} {s out : Bytes}
      → c ≢ 0
      → c ≢ b'%'
      → c ≢ b'+'
      → Encodes s out
      → Encodes (c ∷ s) (c ∷ out)
  space : {c : ℕ} {s out : Bytes} → c ≡ b'+' → Encodes s out → Encodes (c ∷ s) (b' ' ∷ out)
  escape :
      {c x y hi lo : ℕ} {s out : Bytes} (u v : Bool)
      → c ≡ b'%'
      → hi < 16
      → lo < 16
      → x ≡ digit u hi
      → y ≡ digit v lo
      → Encodes s out
      → Encodes (c ∷ x ∷ y ∷ s) ((hi * 16 + lo) ∷ out)

isxdigit-digit : (u : Bool) (n : ℕ) → n < 16 → isxdigit (digit u n) ≡ true
unfolding isxdigit
isxdigit-digit u n h = ground arith

hex_value-digit : (u : Bool) (n : ℕ) → n < 16 → hex_value (digit u n) ≡ n
unfolding hex_value
hex_value-digit u n h = ground arith

decode-plain : (c : ℕ) (s : Bytes) → c ≢ 0 → c ≢ b'%' → decode (c ∷ s) ≡ put (plain c) (decode s)
unfolding decode
decode-plain c [] h k = ground arith
decode-plain c (x ∷ []) h k = ground arith
decode-plain c (x ∷ y ∷ s) h k = ground arith

decode_escape :
    (u v : Bool) (hi lo : ℕ) (s : Bytes)
    → hi < 16
    → lo < 16
    → decode (b'%' ∷ digit u hi ∷ digit v lo ∷ s) ≡ put (hi * 16 + lo) (decode s)
decode_escape u v hi lo s h k =
    let small : (hi * 16 + lo) % 256 ≡ hi * 16 + lo = omega arith in
    unfold decode in
    rw (
      isxdigit-digit u hi h,
      isxdigit-digit v lo k,
      hex_value-digit u hi h,
      hex_value-digit v lo k,
      small,
    )

-- Decoding a component gives the bytes that it stands for, and their number.
pub decode-Encodes : {s out : Bytes} → Encodes s out → decode s ≡ (out, length out)
decode-Encodes done = unfold decode in refl
decode-Encodes (itself {c} {s} a b p e) =
    decode-plain c s a b ∙ rw (decode-Encodes e) (ground arith)
decode-Encodes (space {c} {s} p e) =
    decode-plain c s (omega arith) (omega arith) ∙ rw (decode-Encodes e, p)
decode-Encodes (escape {c} {x} {y} {hi} {lo} {s} u v p h k q r e) =
    rw (p, q, r, decode_escape u v hi lo s h k, decode-Encodes e)

-- The escape of every byte.
abbrev pub escape_all : Bytes → Bytes
escape_all [] = []
escape_all (b ∷ s) = b'%' ∷ digit true (b / 16) ∷ digit true (b % 16) ∷ escape_all s

abbrev Fits : ℕ → Bytes × ℕ → Type 0
Fits n r = (r.1 ≡ length r.0) × (r.1 ≤ n)

put-Fits : (n c : ℕ) (r : Bytes × ℕ) → Fits n r → Fits (suc n) (put c r)
put-Fits n c (dst, len) h = (omega arith, omega arith)

Fits-more : (n : ℕ) (r : Bytes × ℕ) → Fits n r → Fits (suc n) r
Fits-more n r h = (omega arith, omega arith)

-- The output is no longer than the input, so a buffer of the input's size, its closing zero byte
-- included, is large enough; the returned length is that of the output.
pub decode-length : (s : Bytes) → ((decode s).1 ≡ length (decode s).0) × ((decode s).1 ≤ length s)
unfolding decode
decode-length [] = omega arith
decode-length (c ∷ []) = if_both (Fits 1) (c == 0) _ _ (omega arith) (omega arith)
decode-length (c ∷ x ∷ []) =
    if_both (Fits 2) (c == 0) _ _ (omega arith) (put-Fits 1 (plain c) _ (decode-length (x ∷ [])))
decode-length (c ∷ x ∷ y ∷ s) =
    let n = suc (suc (length s)) in
    if_both (Fits (suc n)) (c == 0) _ _ (omega arith) (
      if_both (Fits (suc n)) _ _ _
        (put-Fits n ((hex_value x * 16 + hex_value y) % 256) _
          (Fits-more _ _ (Fits-more _ _ (decode-length s))))
        (put-Fits n (plain c) _ (decode-length (x ∷ y ∷ s))))

escape_all-Encodes : (out : Bytes) → All (λ b. b < 256) out → Encodes (escape_all out) out
escape_all-Encodes [] h = done
escape_all-Encodes (b ∷ s) (h, hs) =
    let whole : b / 16 * 16 + b % 16 ≡ b = omega arith in
    subst (λ v. Encodes (escape_all (b ∷ s)) (v ∷ s)) whole
      (escape true true refl (omega arith) (omega arith) refl refl (escape_all-Encodes s hs))

-- Every sequence of bytes can be sent as a component and is read back.
pub decode-escape_all :
    (out : Bytes) → All (λ b. b < 256) out → decode (escape_all out) ≡ (out, length out)
decode-escape_all out h = decode-Encodes (escape_all-Encodes out h)

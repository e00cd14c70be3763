-- ===== src/Url/Decode.antt =====
-- `DecodeUrlComponent` of src/url.cc. The result is what stands at `dst` before the closing zero
-- byte, with the length that is returned. A byte is a number below 256; a `char` above 127 is the
-- same byte.
pub mod Encodes
use nexer.Prelude.{
  ℕ, Bytes, Bool, if◌then◌else◌, ◌∷◌, leb, ltb, ◌==◌, suc, ◌&&◌, ◌-◌, [], ◌||◌, ◌+◌, ◌*◌, ◌%◌,
}

-- `isxdigit`
pub isxdigit : ℕ → Bool
isxdigit c = leb b'0' c && leb c b'9' || leb b'A' c && leb c b'F' || leb b'a' c && leb c b'f'

-- `toupper`
pub toupper : ℕ → ℕ
toupper c = if leb b'a' c && leb c b'z' then c - 32 else c

-- `char x = src[1] < 'A' ? src[1] - '0' : toupper(src[1]) - 'A' + 10`
pub hex_value : ℕ → ℕ
unfolding toupper
hex_value c = if ltb c b'A' then c - b'0' else toupper c - b'A' + 10

-- A byte that begins no escape.
abbrev pub plain : ℕ → ℕ
plain c = if c == b'+' then b' ' else c

-- One turn of the loop writes a byte and counts it.
abbrev pub put : ℕ → Bytes × ℕ → Bytes × ℕ
put c (dst, len) = (c ∷ dst, suc len)

-- The loop; past the end of the list stands the closing zero byte, which is no digit.
unfoldable pub decode : Bytes → Bytes × ℕ
unfolding isxdigit hex_value
decode [] = ([], 0)
decode (c ∷ []) = if c == 0 then ([], 0) else put (plain c) ([], 0)
decode (c ∷ x ∷ []) = let rest = decode (x ∷ []) in if c == 0 then ([], 0) else put (plain c) rest
decode (c ∷ x ∷ y ∷ s) =
    let escaped = decode s in
    let rest = decode (x ∷ y ∷ s) in
    if c == 0
    then ([], 0)
    else if c == b'%' && isxdigit x && isxdigit y
    then put ((hex_value x * 16 + hex_value y) % 256) escaped
    else put (plain c) rest

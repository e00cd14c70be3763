-- ===== src/Buffer/Holds.antt =====
-- The buffer as the text that it holds: the block has the text and then zero bytes only.
use nexer.Prelude.{
  ℕ, ◌+◌, ◌-◌, ◌≤◌, ◌<◌, ◌≡◌, refl, ap, ◌∙◌, false, some, ◌++◌, arith, Bytes, length, length-append,
  take, ltb, ◌⊎◌,
}
use Prim.Native.Nat.{◌^◌}
use nexer.Buffer.Memory.{zeros, length-zeros, take-append}
use nexer.Buffer.{
  MyBuf, cap, max_size, rounded, grow, reserve, Bool, pos, negsuc, Bool-cases, inr, inl, leb, true,
}

pub record Holds (b : MyBuf) (t : Bytes) : Type 0 where
  pub spare : ℕ
  pub block : b.base ≡ t ++ zeros spare
  pub ends : b.size ≡ length t
  pub small : length t + spare ≤ max_size

pub Holds-cap : (b : MyBuf) (t : Bytes) (h : Holds b t) → cap b ≡ length t + h.spare
Holds-cap b t h =
    ap length h.block ∙ omega (arith, length-append t (zeros h.spare), length-zeros h.spare)

pub rounded-least : (n : ℕ) → n < 2 ^ 64 - 511 → n ≤ rounded n
unfolding rounded
rounded-least n h = omega arith

rounded-over : (n : ℕ) → n < 2 ^ 64 - 511 → max_size < rounded n → max_size < n
unfolding rounded
rounded-over n h m = omega arith

-- The buffer as a text with anything behind it.
pub record Keeps (b : MyBuf) (t : Bytes) : Type 0 where
  pub rest : Bytes
  pub block : b.base ≡ t ++ rest
  pub ends : b.size ≡ length t
  pub small : length t + length rest ≤ max_size

pub Keeps-cap : (b : MyBuf) (t : Bytes) (h : Keeps b t) → cap b ≡ length t + length h.rest
Keeps-cap b t h = ap length h.block ∙ length-append t h.rest

pub Holds-Keeps : (b : MyBuf) (t : Bytes) → Holds b t → Keeps b t
Holds-Keeps b t h = record {
  rest = zeros h.spare;
  block = h.block;
  ends = h.ends;
  small = omega (arith, h.small, length-zeros h.spare);
}

grow-Holds :
    (b : MyBuf) (t : Bytes) (n : ℕ)
    → Keeps b t
    → cap b < n
    → n ≤ max_size
    → (c : MyBuf) × (grow n b ≡ some c) × Holds c t × (cap c ≡ n)
unfolding grow
grow-Holds b t n h l m =
    let e = Keeps-cap b t h in
    let fits : ltb n b.size ≡ false = ground (arith, e, h.ends) in
    let c : MyBuf = record b { base = take b.size b.base ++ zeros (n - b.size) } in
    let same : take b.size b.base ≡ t = rw (h.ends, h.block) (take-append t h.rest) in
    let r : Holds c t = record {
      spare = n - b.size;
      block = rw same refl;
      ends = h.ends;
      small = omega (arith, e, h.ends);
    } in
    (c, rw fits, r, omega (arith, Holds-cap c t r, e, h.ends))

-- What `Reserve` does where the block is too small.
abbrev pub Reserved : Bool → ℕ → MyBuf → Bytes → Type 0
Reserved granted n b t =
    ((c : MyBuf) × (reserve granted n b ≡ some (pos 0, c)) × Holds c t × (n ≤ cap c))
    ⊎ ((k : ℕ) × (reserve granted n b ≡ some (negsuc k, b)) × ((granted ≡ false) ⊎ (max_size < n)))

pub reserve-grows :
    (granted : Bool) (n : ℕ) (b : MyBuf) (t : Bytes)
    → Keeps b t
    → ltb (cap b) n ≡ true
    → n < 2 ^ 64 - 511
    → Reserved granted n b t
unfolding reserve
reserve-grows granted n b t h e l = elim (Bool-cases (leb (rounded n) max_size)) [
  | inr f ↦
      let over : max_size < rounded n = ground arith in
      inr (1, rw (e, f), inr (rounded-over n l over))
  | inl f ↦ elim (Bool-cases granted) [
    | inr g ↦ inr (0, rw (e, f, g), inl g)
    | inl g ↦
        let r = rounded-least n l in
        let big : cap b < n = ground arith in
        let fits : rounded n ≤ max_size = ground arith in
        let (c, p, q, k) = grow-Holds b t (rounded n) h (omega arith) fits in
        inl (c, rw (e, f, g, p), q, omega arith)
  ]
]

-- `Reserve` makes room and keeps the text, or fails and leaves the buffer as it was; it fails only
-- for want of memory or beyond the limit.
pub reserve-Holds :
    (granted : Bool) (n : ℕ) (b : MyBuf) (t : Bytes)
    → Holds b t
    → n < 2 ^ 64 - 511
    → ((c : MyBuf) × (reserve granted n b ≡ some (pos 0, c)) × Holds c t × (n ≤ cap c))
      ⊎ ((k : ℕ) × (reserve granted n b ≡ some (negsuc k, b))
          × ((granted ≡ false) ⊎ (max_size < n)))
unfolding reserve
reserve-Holds granted n b t h l = elim (Bool-cases (ltb (cap b) n)) [
  | inr e ↦ inl (b, rw e, h, ground arith)
  | inl e ↦ reserve-grows granted n b t (Holds-Keeps b t h) e l
]

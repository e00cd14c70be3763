-- ===== src/Buffer/Text.antt =====
-- `StringBuffer::Write`, `ends_with`, `operator==` and `operator[]` of include/string_buffer.h. A
-- text that is passed is the list of its bytes; a length of 0 stands for `strlen`.
use mathlib.Core.Bool.{false≢true}
use nexer.Prelude.{
  zero, ◌%◌, ℕ, suc, ◌+◌, ◌-◌, ◌≤◌, ◌≡◌, refl, sym, ap, ◌∙◌, ◌≢◌, ◌↔◌, inl, inr, Bool, true, false,
  ◌&&◌, Option, none, some, [], ◌∷◌, ◌++◌, arith, Bytes, length, length-append, take, drop, ltb,
  ◌==◌, if◌then◌else◌, ltb→le, ==_iff, ==-refl, Bool-cases, and_true,
}
use nexer.Buffer.Memory.{
  chain, zeros, take-append, drop-append, take-drop, length-drop, drop-append_front,
}
use nexer.Buffer.Holds.{Holds}
use nexer.Buffer.{MyBuf, write, pbump}
use nexer.Prelude.Int.{ℤ, pos, negsuc}

unfoldable pub strlen : Bytes → ℕ
strlen [] = 0
strlen (c ∷ s) = let n = strlen s in if c == 0 then 0 else suc n

-- `if (n == 0) n = strlen(s)`
unfoldable pub given_length : Bytes → ℕ → ℕ
given_length s n = if n == 0 then strlen s else n

-- `StringBuffer::Write`: a failure is not reported; `none` too where the text is shorter than said.
unfoldable pub append : Bool → Bytes → ℕ → MyBuf → Option MyBuf
append granted s n b =
    let len = given_length s n in
    if ltb (length s) len then none else chain (write granted (take len s) b) (λ r. some r.1)

-- `Write` of one character.
unfoldable pub append_char : Bool → ℕ → MyBuf → Option MyBuf
append_char granted c b = append granted (c % 256 ∷ []) 1 b

-- `appended`
unfoldable pub appended : ℕ → MyBuf → Option MyBuf
appended n b = pbump n b

-- The place that `operator[]` means; none before the block.
unfoldable pub index : ℤ → MyBuf → Option ℕ
index (pos n) b = some n
index (negsuc n) b = if ltb n b.size then some (b.size - suc n) else none

abbrev pub byte_at : ℕ → Bytes → Option ℕ
byte_at n [] = none
byte_at zero (c ∷ s) = some c
byte_at (suc n) (c ∷ s) = byte_at n s

-- `operator[]`, as the byte that it leads to; none out of the block.
unfoldable pub char_at : ℤ → MyBuf → Option ℕ
char_at n b = chain (index n b) (λ i. byte_at i b.base)

-- `!memcmp(a, b, n)` for two texts of one length.
unfoldable pub eq_bytes : Bytes → Bytes → Bool
eq_bytes [] [] = true
eq_bytes [] (d ∷ t) = false
eq_bytes (c ∷ s) [] = false
eq_bytes (c ∷ s) (d ∷ t) = (c == d) && eq_bytes s t

-- `operator==`
unfoldable pub equals : Bytes → MyBuf → Bool
equals s b = (b.size == strlen s) && eq_bytes (take b.size b.base) (take b.size s)

unfoldable pub ends_with : Bytes → ℕ → MyBuf → Bool
ends_with s n b =
    let len = given_length s n in
    if ltb b.size len then false else eq_bytes (take len (drop (b.size - len) b.base)) (take len s)

eq_bytes-eq : (s t : Bytes) → eq_bytes s t ≡ true → s ≡ t
unfolding eq_bytes
eq_bytes-eq [] [] e = refl
eq_bytes-eq [] (d ∷ t) e = cc
eq_bytes-eq (c ∷ s) [] e = cc
eq_bytes-eq (c ∷ s) (d ∷ t) e = elim (Bool-cases (c == d)) [
  | inl p ↦ rw ((==_iff c d).0 p, eq_bytes-eq s t (and_true (c == d) (eq_bytes s t) e))
  | inr p ↦ absurd (false≢true (rw p at e))
]

eq_bytes_refl : (s : Bytes) → eq_bytes s s ≡ true
unfolding eq_bytes
eq_bytes_refl [] = refl
eq_bytes_refl (c ∷ s) = rw (==-refl c) (eq_bytes_refl s)

take_self : (s : Bytes) → take (length s) s ≡ s
take_self [] = refl
take_self (c ∷ s) = ap (λ (s : Bytes). c ∷ s) (take_self s)

length-zero : (s : Bytes) → length s ≡ 0 → s ≡ []
length-zero [] e = refl
length-zero (c ∷ s) e = absurd (omega arith)

-- The bytes that `memcmp` reads in the buffer.
tail-Holds :
    (b : MyBuf) (t : Bytes) (k : ℕ)
    → Holds b t
    → k ≤ length t
    → take k (drop (b.size - k) b.base) ≡ drop (length t - k) t
tail-Holds b t k h l =
    let d = drop (length t - k) t in
    let ld = length-drop (length t - k) t (omega arith) in
    let same : k ≡ length d = omega arith in
    rw (h.ends, h.block, drop-append_front (length t - k) t (zeros h.spare) (omega arith))
      (ap (λ n. take n (d ++ zeros h.spare)) same ∙ take-append d (zeros h.spare))

-- `ends_with`, given the length of a text that is not empty, tells whether the buffer's text ends
-- with that text.
pub ends_with_iff :
    (b : MyBuf) (t s : Bytes)
    → Holds b t
    → s ≢ []
    → (ends_with s (length s) b ≡ true) ↔ ((u : Bytes) × (t ≡ u ++ s))
unfolding ends_with given_length
ends_with_iff b t s h n = elim (Bool-cases (length s == 0)) [
  | inl z ↦ absurd (n (length-zero s ((==_iff (length s) 0).0 z)))
  | inr z ↦ (
    (λ e. elim (Bool-cases (ltb b.size (length s))) [
      | inl f ↦ absurd (false≢true (rw (z, f) at e))
      | inr f ↦
          let le : length s ≤ length t = omega (arith, h.ends, ltb→le b.size (length s) f) in
          let p : eq_bytes (drop (length t - length s) t) s ≡ true =
            rw (z, f, tail-Holds b t (length s) h le, take_self s) at e in
          (
            take (length t - length s) t,
            sym (take-drop (length t - length s) t)
                ∙ ap (λ v. take (length t - length s) t ++ v) (eq_bytes-eq _ s p),
          )
    ]),
    (λ (u, e).
        let l = length-append u s in
        let lt : length t ≡ length u + length s = ap length e ∙ l in
        let f : ltb b.size (length s) ≡ false = ground (arith, h.ends) in
        let k : length t - length s ≡ length u = omega arith in
        let d : drop (length t - length s) t ≡ s = rw (k, e) (drop-append u s) in
        rw (z, f, tail-Holds b t (length s) h (omega arith), d, take_self s) (eq_bytes_refl s)),
  )
]

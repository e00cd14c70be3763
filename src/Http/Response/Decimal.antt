-- ===== src/Http/Response/Decimal.antt =====
-- The text of a number as `<<` prints it, and the value of such a text.
use nexer.Prelude.{
  ℕ, zero, suc, ◌+◌, ◌-◌, ◌*◌, ◌/◌, ◌%◌, ◌≤◌, ◌<◌, ◌≡◌, refl, inl, inr, [], ◌∷◌, ◌++◌, arith, Bytes,
  All, ltb, if◌then◌else◌, ltb→lt, ltb→le, Bool-cases,
}

abbrev pub IsDigit : ℕ → Type 0
IsDigit c = (b'0' ≤ c) × (c ≤ b'9')

-- Fuel above the number is enough.
unfoldable pub digits : ℕ → ℕ → Bytes
digits zero n = []
digits (suc k) n =
    let front = digits k (n / 10) in
    if ltb n 10 then (b'0' + n) ∷ [] else front ++ (b'0' + n % 10) ∷ []

unfoldable pub decimal : ℕ → Bytes
decimal n = digits (suc n) n

-- Reading on after a number.
abbrev pub value_from : ℕ → Bytes → ℕ
value_from acc [] = acc
value_from acc (c ∷ s) = value_from (acc * 10 + (c - b'0')) s

value_from-append :
    (s t : Bytes) (acc : ℕ) → value_from acc (s ++ t) ≡ value_from (value_from acc s) t
value_from-append [] t acc = refl
value_from-append (c ∷ s) t acc = value_from-append s t (acc * 10 + (c - b'0'))

digits-value : (k n : ℕ) → n < k → value_from 0 (digits k n) ≡ n
unfolding digits
digits-value zero n h = absurd (omega arith)
digits-value (suc k) n h = elim (Bool-cases (ltb n 10)) [
  | inl e ↦ rw e (omega arith)
  | inr e ↦
      let big = ltb→le n 10 e in
      rw
        (
          e,
          value_from-append (digits k (n / 10)) ((b'0' + n % 10) ∷ []) 0,
          digits-value k (n / 10) (omega arith),
        )
        (omega arith)
]

pub decimal-value : (n : ℕ) → value_from 0 (decimal n) ≡ n
unfolding decimal
decimal-value n = digits-value (suc n) n (omega arith)

All-snoc : (s : Bytes) (c : ℕ) → All IsDigit s → IsDigit c → All IsDigit (s ++ c ∷ [])
All-snoc [] c a d = (d, tt)
All-snoc (x ∷ s) c (p, a) d = (p, All-snoc s c a d)

digits-IsDigit : (k n : ℕ) → All IsDigit (digits k n)
unfolding digits
digits-IsDigit zero n = tt
digits-IsDigit (suc k) n = elim (Bool-cases (ltb n 10)) [
  | inl e ↦ let small = ltb→lt n 10 e in rw e ((omega arith, omega arith), tt)
  | inr e ↦ rw e (
      All-snoc (digits k (n / 10)) (b'0' + n % 10) (digits-IsDigit k (n / 10))
        (omega arith, omega arith))
]

pub decimal-IsDigit : (n : ℕ) → All IsDigit (decimal n)
unfolding decimal
decimal-IsDigit n = digits-IsDigit (suc n) n

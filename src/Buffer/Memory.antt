-- ===== src/Buffer/Memory.antt =====
-- A block of memory as the list of its bytes, and the writes of `memset`, `memcpy` and `memmove`.
use nexer.Prelude.{
  ℕ, zero, suc, ◌+◌, ◌≡◌, refl, ap, ◌∙◌, true, Option, none, some, [], ◌∷◌, ◌++◌, append_assoc,
  arith, Bytes, length, length-append, take, drop, replicate, leb, if◌then◌else◌, ◌≤◌,
}

-- Bytes written from a place on; `none` where they do not fit into the block.
unfoldable pub store_at : ℕ → Bytes → Bytes → Option Bytes
store_at i s base =
    if leb (i + length s) (length base)
    then some (take i base ++ s ++ drop (i + length s) base)
    else none

-- The next step, where the last one did not go out of bounds.
abbrev pub chain {ℓ κ} : {A : Type ℓ} {B : Type κ} → Option A → (A → Option B) → Option B
chain none k = none
chain (some a) k = k a

abbrev pub zeros : ℕ → Bytes
zeros n = replicate n 0

pub length-zeros : (n : ℕ) → length (zeros n) ≡ n
length-zeros zero = refl
length-zeros (suc n) = ap suc (length-zeros n)

pub zeros-add : (m n : ℕ) → zeros m ++ zeros n ≡ zeros (m + n)
zeros-add zero n = ap zeros (omega arith)
zeros-add (suc m) n =
    let e : suc (m + n) ≡ suc m + n = omega arith in
    ap (λ (s : Bytes). 0 ∷ s) (zeros-add m n) ∙ ap zeros e

pub take-append : (s t : Bytes) → take (length s) (s ++ t) ≡ s
take-append [] t = refl
take-append (c ∷ s) t = ap (λ (s : Bytes). c ∷ s) (take-append s t)

pub drop-append : (s t : Bytes) → drop (length s) (s ++ t) ≡ t
drop-append [] t = refl
drop-append (c ∷ s) t = drop-append s t

pub drop-append_front : (n : ℕ) (s t : Bytes) → n ≤ length s → drop n (s ++ t) ≡ drop n s ++ t
drop-append_front zero s t h = refl
drop-append_front (suc n) [] t h = absurd (omega arith)
drop-append_front (suc n) (c ∷ s) t h = drop-append_front n s t (omega arith)

pub take-drop : (n : ℕ) (s : Bytes) → take n s ++ drop n s ≡ s
take-drop zero s = refl
take-drop (suc n) [] = refl
take-drop (suc n) (c ∷ s) = ap (λ (s : Bytes). c ∷ s) (take-drop n s)

pub length-take : (n : ℕ) (s : Bytes) → n ≤ length s → length (take n s) ≡ n
length-take zero s h = refl
length-take (suc n) [] h = absurd (omega arith)
length-take (suc n) (c ∷ s) h = ap suc (length-take n s (omega arith))

pub length-drop : (n : ℕ) (s : Bytes) → n ≤ length s → n + length (drop n s) ≡ length s
length-drop n s h = omega (
  arith,
  length-take n s h,
  length-append (take n s) (drop n s),
  ap length {x = take n s ++ drop n s} (take-drop n s),
)

pub take-past : (n : ℕ) (s : Bytes) → length s ≤ n → take n s ≡ s
take-past zero [] h = refl
take-past zero (c ∷ s) h = absurd (omega arith)
take-past (suc n) [] h = refl
take-past (suc n) (c ∷ s) h = ap (λ (s : Bytes). c ∷ s) (take-past n s (omega arith))

-- A write over the middle of a block.
pub store_at-middle :
    (a m s c : Bytes)
    → length m ≡ length s
    → store_at (length a) s (a ++ m ++ c) ≡ some (a ++ s ++ c)
unfolding store_at
store_at-middle a m s c e =
    let l1 = length-append (a ++ m) c in
    let l2 = length-append a m in
    let ends : length a + length s ≡ length (a ++ m) = omega arith in
    let fits : leb (length a + length s) (length (a ++ m ++ c)) ≡ true = ground arith in
    let start : take (length a) (a ++ m ++ c) ≡ a =
      rw (append_assoc a m c) (take-append a (m ++ c)) in
    let rest : drop (length a + length s) (a ++ m ++ c) ≡ c = rw ends (drop-append (a ++ m) c) in
    rw (fits, start, rest)

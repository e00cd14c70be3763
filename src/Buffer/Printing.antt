-- ===== src/Buffer/Printing.antt =====
-- What `Printf` does to the text of the buffer.
use mathlib.Core.Path.{subst}
use nexer.Prelude.{
  ℕ, zero, suc, ◌+◌, ◌-◌, ◌*◌, ◌%◌, ◌≤◌, ◌<◌, ◌≡◌, refl, ◌∙◌, ◌⊎◌, inl, inr, Bool, true, false,
  Option, none, some, ◌++◌, arith, Bytes, length, ltb, Bool-cases,
}
use Prim.Native.Nat.{◌^◌}
use nexer.Buffer.Holds.{Holds, Holds-cap, Keeps, Holds-Keeps}
use nexer.Buffer.{MyBuf, cap, max_size}
use nexer.Buffer.Printf.{
  as_int, formatted, failed, vsnprintf, more_room, fits, make_room, Printed, vprintf_loop, vprintf,
}
use nexer.Buffer.Rounds.{loop-fits, vsnprintf-cut, round-more, make_room-Made, vsnprintf-failed}

-- How `Printf` ends: the text is appended, or it is not for want of room, and what was in the buffer
-- is kept.
abbrev pub Prints : Bool → Bytes → Bytes → Option (Option Printed) → Type 0
Prints granted t s r =
    ((c : MyBuf) × (r ≡ some (some (some (length s), c))) × Holds c (t ++ s))
    ⊎ ((c : MyBuf) × (r ≡ some (some (none, c)))
        × Keeps c t
        × ((granted ≡ false) ⊎ (max_size < length t + length s + 2)))

more_formatted :
    (s : Bytes) (m : ℕ) → length s < 2 ^ 31 - 1 → more_room (formatted s) m ≡ some (length s + 1)
unfolding more_room as_int
more_formatted s m l = let int : ltb (length s + 1) (2 ^ 31) ≡ true = ground arith in rw int refl

more_failed : (m : ℕ) → m < 2 ^ 30 → more_room failed m ≡ some (2 * m)
unfolding more_room as_int
more_failed m l = let int : ltb (2 * m) (2 ^ 31) ≡ true = ground arith in rw int refl

loop-cut :
    (fuel : ℕ) (granted : Bool) (s : Bytes) (b : MyBuf) (t : Bytes)
    → Holds b t
    → cap b - b.size ≤ length s
    → length s < 2 ^ 31 - 1
    → Prints granted t s (vprintf_loop (suc (suc fuel)) granted (formatted s) b)
loop-cut fuel granted s b t h l i =
    let need = length t + length s + 2 in
    let e = Holds-cap b t h in
    let small = h.small in
    let (c, v, k, same) = vsnprintf-cut s b t h l in
    let cut : fits (formatted s) (cap b - b.size) ≡ none = ground arith in
    let room = more_formatted s (cap b - b.size) i in
    let wrap : (c.size + (length s + 1) + 1) % 2 ^ 64 ≡ need = omega (arith, k.ends) in
    let step = λ (r : Bool × MyBuf) (p : make_room granted need c ≡ some r).
      round-more (suc fuel) granted (formatted s) b c r (length s + 1) need cut v room wrap p in
    elim (make_room-Made granted need c t k (ground (arith, h.ends)) (omega arith)) [
      | inl (d, p, q, room) ↦
          let (g, r, u) = loop-fits fuel granted s d t q (omega (arith, q.ends)) in
          inl (g, step (true, d) p ∙ r, u)
      | inr (p, why) ↦ inr (c, step (false, c) p, k, why)
    ]

loop-Prints :
    (fuel : ℕ) (granted : Bool) (s : Bytes) (b : MyBuf) (t : Bytes)
    → Holds b t
    → length s < 2 ^ 31 - 1
    → Prints granted t s (vprintf_loop (2 + fuel) granted (formatted s) b)
loop-Prints fuel granted s b t h l =
    let e : suc (suc fuel) ≡ 2 + fuel = omega arith in
    let fits_or_cut : Prints granted t s (vprintf_loop (suc (suc fuel)) granted (formatted s) b) =
      elim (Bool-cases (ltb (length s) (cap b - b.size))) [
        | inl f ↦ inl (loop-fits (suc fuel) granted s b t h (ground arith))
        | inr f ↦ loop-cut fuel granted s b t h (ground arith) l
      ] in
    subst (λ n. Prints granted t s (vprintf_loop n granted (formatted s) b)) e fits_or_cut

-- `Printf` of a text of less than 2 ^ 31 - 1 bytes appends it and returns its length; or it returns
-- -1, for want of memory or where the text with a zero byte and one more would grow beyond the
-- limit, and what was in the buffer is still there, though not followed by zero bytes. Two rounds of
-- its loop are enough, and it never writes out of the block.
pub vprintf-Prints :
    (fuel : ℕ) (granted : Bool) (s : Bytes) (b : MyBuf) (t : Bytes)
    → Holds b t
    → length s < 2 ^ 31 - 1
    → Prints granted t s (vprintf_loop (2 + fuel) granted (formatted s) b)
      × Prints granted t s (vprintf granted (formatted s) b)
unfolding vprintf
vprintf-Prints fuel granted s b t h l =
    (loop-Prints fuel granted s b t h l, loop-Prints 28 granted s b t h l)

-- Doubled once for each round, the room is above the limit.
abbrev Doubles : ℕ → ℕ → Type 0
Doubles zero m = max_size + 1 < m
Doubles (suc fuel) m = Doubles fuel (2 * m)

Doubles-mono : (fuel m n : ℕ) → m ≤ n → Doubles fuel m → Doubles fuel n
Doubles-mono zero m n l d = omega arith
Doubles-mono (suc fuel) m n l d = Doubles-mono fuel (2 * m) (2 * n) (omega arith) d

loop-failed :
    (fuel : ℕ) (granted : Bool) (b : MyBuf) (t : Bytes) (h : Holds b t)
    → Doubles fuel (h.spare + 1)
    → (c : MyBuf) × (vprintf_loop (suc fuel) granted failed b ≡ some (some (none, c))) × Holds c t
loop-failed zero granted b t h d = let small = h.small in absurd (omega arith)
loop-failed (suc fuel) granted b t h d =
    let m = cap b - b.size in
    let e = Holds-cap b t h in
    let small = h.small in
    let need = length t + 2 * h.spare + 1 in
    let room : m ≡ h.spare = omega (arith, h.ends) in
    let twice = more_failed m (omega (arith, h.ends)) in
    let wrap : (b.size + 2 * m + 1) % 2 ^ 64 ≡ need = omega (arith, h.ends) in
    let written : vsnprintf failed m b ≡ some b = vsnprintf-failed m b in
    elim (make_room-Made granted need b t (Holds-Keeps b t h) (ground arith) (omega arith)) [
      | inr (p, why) ↦ (
        b,
        round-more (suc fuel) granted failed b b (false, b) (2 * m) need refl written twice wrap p,
        h,
      )
      | inl (c, p, q, big) ↦
          let g = Holds-cap c t q in
          let (x, r, u) =
            loop-failed fuel granted c t q (Doubles-mono fuel _ _ (omega (arith, g, big)) d) in
          (
            x,
            round-more (suc fuel) granted failed b b (true, c) (2 * m) need refl written twice wrap
                  p
                ∙ r,
            u,
          )
    ]

-- `Printf` of a format that cannot be printed returns -1, whatever memory there is, and the buffer
-- still holds the text that it held: the room that is asked for doubles until it is refused, and 30
-- rounds are enough.
pub vprintf-failed :
    (granted : Bool) (b : MyBuf) (t : Bytes)
    → Holds b t
    → (c : MyBuf) × (vprintf granted failed b ≡ some (some (none, c))) × Holds c t
unfolding vprintf
vprintf-failed granted b t h =
    loop-failed 29 granted b t h (Doubles-mono 29 1 (h.spare + 1) (omega arith) (omega arith))

-- ===== src/Buffer/Rounds.antt =====
-- The rounds of `Printf`.
use nexer.Prelude.{
  ℕ, suc, ◌+◌, ◌-◌, ◌%◌, ◌≤◌, ◌<◌, ◌≡◌, refl, sym, ap, ◌∙◌, ◌⊎◌, inl, inr, Bool, true, false, none,
  some, [], ◌∷◌, ◌++◌, append_assoc, append-nil, arith, Bytes, length, length-append, take, ltb,
  ◌==◌, if◌then◌else◌, Bool-cases,
}
use Prim.Native.Nat.{◌^◌}
use nexer.Buffer.Memory.{
  store_at, zeros, length-zeros, zeros-add, store_at-middle, length-take, take-past,
}
use nexer.Buffer.Holds.{Holds, Holds-cap, Keeps, Keeps-cap, Holds-Keeps, reserve-grows}
use nexer.Buffer.{MyBuf, cap, max_size}
use nexer.Buffer.Printf.{
  Format, formatted, failed, vsnprintf, more_room, fits, make_room, vprintf_loop,
}

-- The text fits into the block.
pub loop-fits :
    (fuel : ℕ) (granted : Bool) (s : Bytes) (b : MyBuf) (t : Bytes)
    → Holds b t
    → length s < cap b - b.size
    → (c : MyBuf) × (vprintf_loop (suc fuel) granted (formatted s) b
        ≡ some (some (some (length s), c)))
      × Holds c (t ++ s)
unfolding vprintf_loop vsnprintf
loop-fits fuel granted s b t h l =
    let e = Holds-cap b t h in
    let small = h.small in
    let m = cap b - b.size in
    let n = length s in
    let rest = h.spare - n in
    let room : m ≡ h.spare = omega (arith, h.ends) in
    let some_room : (m == 0) ≡ false = ground arith in
    let cut : take (m - 1) s ≡ s = take-past (m - 1) s (omega arith) in
    let split : b.base ≡ t ++ zeros (n + 1) ++ zeros (rest - 1) =
      h.block
      ∙ ap (λ z. t ++ z)
          (sym (zeros-add (n + 1) (rest - 1) ∙ ap zeros {x = n + 1 + (rest - 1)} (omega arith)))
      ∙ sym (append_assoc t (zeros (n + 1)) (zeros (rest - 1))) in
    let ln = length-append s (0 ∷ []) in
    let stored : store_at b.size (s ++ 0 ∷ []) b.base
        ≡ some (t ++ (s ++ 0 ∷ []) ++ zeros (rest - 1)) =
      rw (split, h.ends)
        (store_at-middle t (zeros (n + 1)) (s ++ 0 ∷ []) (zeros (rest - 1))
          (length-zeros (n + 1) ∙ sym ln)) in
    let fit : ltb n m ≡ true = ground arith in
    let int : ltb n (2 ^ 31) ≡ true = ground arith in
    let c : MyBuf = record { base = t ++ (s ++ 0 ∷ []) ++ zeros (rest - 1); size = b.size + n } in
    (
      c,
      rw (some_room, cut, stored, fit, int),
      record {
        spare = rest;
        block =
            ap (λ z. z ++ zeros (rest - 1)) (sym (append_assoc t s (0 ∷ [])))
            ∙ append_assoc (t ++ s) (0 ∷ []) (zeros (rest - 1))
            ∙ ap (λ k. (t ++ s) ++ zeros k) {x = suc (rest - 1)} (omega arith);
        ends = omega (arith, h.ends, length-append t s);
        small = omega (arith, length-append t s);
      },
    )

store-rest :
    (x : Bytes) (b : MyBuf) (t : Bytes) (h : Holds b t)
    → length x ≡ h.spare
    → store_at b.size x b.base ≡ some (t ++ x ++ [])
store-rest x b t h e =
    rw (h.ends, h.block ∙ sym (append-nil (t ++ zeros h.spare)))
      (store_at-middle t (zeros h.spare) x [] (length-zeros h.spare ∙ sym e))

-- The text is cut, and the rest of the block is overwritten.
pub vsnprintf-cut :
    (s : Bytes) (b : MyBuf) (t : Bytes)
    → Holds b t
    → cap b - b.size ≤ length s
    → (c : MyBuf) × (vsnprintf (formatted s) (cap b - b.size) b ≡ some c)
      × Keeps c t
      × (cap c ≡ cap b)
unfolding vsnprintf
vsnprintf-cut s b t h l =
    let e = Holds-cap b t h in
    let m = cap b - b.size in
    let small = h.small in
    let room : m ≡ h.spare = omega (arith, h.ends) in
    elim (Bool-cases (m == 0)) [
      | inl z ↦ (b, rw z, Holds-Keeps b t h, refl)
      | inr z ↦
          let x = take (m - 1) s ++ 0 ∷ [] in
          let lt = length-take (m - 1) s (omega arith) in
          let lx = length-append (take (m - 1) s) (0 ∷ []) in
          let same : length x ≡ m = ground arith in
          let stored = store-rest x b t h (same ∙ room) in
          let c : MyBuf = record b { base = t ++ x ++ [] } in
          let k : Keeps c t = record {
            rest = x;
            block = append-nil (t ++ x);
            ends = h.ends;
            small = omega arith;
          } in
          (c, rw (z, stored), k, Keeps-cap c t k ∙ omega arith)
    ]

-- A round in which the text does not fit.
pub vsnprintf-failed : (m : ℕ) (b : MyBuf) → vsnprintf failed m b ≡ some b
unfolding vsnprintf
vsnprintf-failed m b = refl

pub round-more :
    (fuel : ℕ) (granted : Bool) (f : Format) (b c : MyBuf) (r : Bool × MyBuf) (k need : ℕ)
    → let m = cap b - b.size in
      fits f m ≡ none
      → vsnprintf f m b ≡ some c
      → more_room f m ≡ some k
      → (c.size + k + 1) % 2 ^ 64 ≡ need
      → make_room granted need c ≡ some r
      → vprintf_loop (suc fuel) granted f b
        ≡ (if r.0 then vprintf_loop fuel granted f r.1 else some (some (none, r.1)))
unfolding vprintf_loop
round-more fuel granted f b c r k need l v n w p = rw (v, l, n, w, p) refl

-- Room that is asked for.
abbrev pub Made : Bool → ℕ → MyBuf → Bytes → Type 0
Made granted need b t =
    ((c : MyBuf) × (make_room granted need b ≡ some (true, c)) × Holds c t × (need ≤ cap c))
    ⊎ ((make_room granted need b ≡ some (false, b)) × ((granted ≡ false) ⊎ (max_size < need)))

pub make_room-Made :
    (granted : Bool) (need : ℕ) (b : MyBuf) (t : Bytes)
    → Keeps b t
    → ltb (cap b) need ≡ true
    → need < 2 ^ 64 - 511
    → Made granted need b t
unfolding make_room
make_room-Made granted need b t k big l = elim (reserve-grows granted need b t k big l) [
  | inl (d, p, q, room) ↦ inl (d, rw (big, p), q, room)
  | inr (n, p, why) ↦ inr (rw (big, p), why)
]

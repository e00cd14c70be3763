-- ===== src/Buffer/Contents.antt =====
-- What `Write`, `Consume` and `Resize` do to the text of the buffer.
use mathlib.Core.Path.{subst}
use nexer.Prelude.{
  ℕ, ◌+◌, ◌-◌, ◌%◌, ◌≤◌, ◌<◌, ◌≡◌, refl, sym, ap, ◌∙◌, ◌≢◌, ◌⊎◌, inl, inr, Bool, true, false, none,
  some, [], ◌++◌, append_assoc, append-nil, arith, Bytes, length, length-append, take, drop, ltb,
  leb, ◌==◌, ==_iff, Bool-cases,
}
use Prim.Native.Nat.{◌^◌}
use nexer.Prelude.Int.{pos}
use nexer.Buffer.Memory.{
  take-drop, length-take, length-drop, take-past, drop-append_front, store_at, zeros, length-zeros,
  zeros-add, take-append, store_at-middle,
}
use nexer.Buffer.Holds.{rounded-least, Holds, Holds-cap, reserve-Holds}
use nexer.Buffer.{rounded, MyBuf, cap, max_size, reserve, copy_in, write, resize, consume}

copy_in-Holds :
    (s : Bytes) (b : MyBuf) (t : Bytes)
    → Holds b t
    → length t + length s ≤ cap b
    → (c : MyBuf) × (copy_in s b ≡ some (some (length s), c)) × Holds c (t ++ s)
unfolding copy_in
copy_in-Holds s b t h l =
    let e = Holds-cap b t h in
    let rest = h.spare - length s in
    let split : b.base ≡ t ++ zeros (length s) ++ zeros rest =
      h.block
      ∙ ap (λ z. t ++ z)
          (sym (zeros-add (length s) rest ∙ ap zeros {x = length s + rest} (omega arith)))
      ∙ sym (append_assoc t (zeros (length s)) (zeros rest)) in
    let stored : store_at b.size s b.base ≡ some (t ++ s ++ zeros rest) =
      rw (split, h.ends)
        (store_at-middle t (zeros (length s)) s (zeros rest) (length-zeros (length s))) in
    let small = h.small in
    let int : ltb (length s) (2 ^ 31) ≡ true = ground arith in
    (
      record { base = t ++ s ++ zeros rest; size = b.size + length s },
      rw (stored, int),
      record {
        spare = rest;
        block = refl;
        ends = omega (arith, h.ends, length-append t s);
        small = omega (arith, length-append t s);
      },
    )

write-copied :
    (granted : Bool) (s : Bytes) (b d : MyBuf) (t : Bytes) (need : ℕ)
    → (b.size + length s + 1) % 2 ^ 64 ≡ need
    → ltb (cap b) need ≡ true
    → reserve granted need b ≡ some (pos 0, d)
    → (c : MyBuf) × (copy_in s d ≡ some (some (length s), c)) × Holds c (t ++ s)
    → (c : MyBuf) × (write granted s b ≡ some (some (length s), c)) × Holds c (t ++ s)
unfolding write
write-copied granted s b d t need w f p (c, r, k) = (c, rw (w, f, p, r), k)

-- `Write` appends the bytes and returns their number, or returns -1 and leaves the buffer as it
-- was; it fails only for want of memory or where the text would grow beyond the limit.
pub write-Holds :
    (granted : Bool) (s : Bytes) (b : MyBuf) (t : Bytes)
    → Holds b t
    → length s < 2 ^ 63
    → ((c : MyBuf) × (write granted s b ≡ some (some (length s), c)) × Holds c (t ++ s))
      ⊎ ((write granted s b ≡ some (none, b))
          × ((granted ≡ false) ⊎ (max_size ≤ length t + length s)))
unfolding write
write-Holds granted s b t h l =
    let e = Holds-cap b t h in
    let small = h.small in
    let need = b.size + length s + 1 in
    let wrap : need % 2 ^ 64 ≡ need = omega (arith, h.ends) in
    elim (Bool-cases (ltb (cap b) need)) [
      | inr f ↦
          let (c, p, q) = copy_in-Holds s b t h (ground (arith, h.ends)) in
          inl (c, rw (wrap, f, p), q)
      | inl f ↦ elim (reserve-Holds granted need b t h (omega (arith, h.ends))) [
        | inl (d, p, q, room) ↦ inl (
            write-copied granted s b d t need wrap f p
              (copy_in-Holds s d t q (omega (arith, h.ends))))
        | inr (k, p, inl g) ↦ inr (rw (wrap, f, p), inl g)
        | inr (k, p, inr g) ↦ inr (rw (wrap, f, p), inr (omega (arith, h.ends)))
      ]
    ]

abbrev Shrunk : Bool → MyBuf → ℕ → Bytes → Type 0
Shrunk granted b n a = (c : MyBuf) × (resize granted n b ≡ some c) × Holds c a

resize-shrink :
    (granted : Bool) (b : MyBuf) (a m : Bytes) (k : ℕ)
    → b.base ≡ a ++ m ++ zeros k
    → b.size ≡ length a + length m
    → 0 < length m
    → length a + length m + k ≤ max_size
    → Shrunk granted b (length a) a
unfolding resize
resize-shrink granted b a m k e z p small =
    let cut : ltb (length a) b.size ≡ true = ground (arith, z) in
    let d : b.size - length a ≡ length m = omega (arith, z) in
    let int : ltb (length a) (2 ^ 31) ≡ true = ground arith in
    let stored : store_at (length a) (zeros (length m)) b.base
        ≡ some (a ++ zeros (length m) ++ zeros k) =
      rw e (store_at-middle a m (zeros (length m)) (zeros k) (sym (length-zeros (length m)))) in
    (
      record { base = a ++ zeros (length m) ++ zeros k; size = 0 + length a },
      rw (cut, d, stored, int),
      record {
        spare = length m + k;
        block =
            append_assoc a (zeros (length m)) (zeros k) ∙ ap (λ z. a ++ z) (zeros-add (length m) k);
        ends = omega arith;
        small = omega arith;
      },
    )

consume-moved :
    (n : ℕ) (b : MyBuf) (a tail : Bytes)
    → (n == 0) ≡ false
    → ltb b.size n ≡ false
    → b.size - n ≡ length a
    → take (length a) (drop n b.base) ≡ a
    → store_at 0 a b.base ≡ some (a ++ tail)
    → Shrunk true (record b { base = a ++ tail }) (length a) a
    → (c : MyBuf) × (consume n b ≡ some c) × Holds c a
unfolding consume
consume-moved n b a tail f within rest moved stored (c, p, q) =
    (c, rw (f, within, rest, moved, stored, p), q)

-- `Consume` drops that many bytes from the front of the text.
pub consume-Holds :
    (n : ℕ) (b : MyBuf) (t : Bytes)
    → Holds b t
    → n ≤ length t
    → (c : MyBuf) × (consume n b ≡ some c) × Holds c (drop n t)
unfolding consume
consume-Holds n b t h l = elim (Bool-cases (n == 0)) [
  | inl f ↦ (b, rw f, rw ((==_iff n 0).0 f) h)
  | inr f ↦
      let j = length t - n in
      let le : j ≤ length t = omega arith in
      let a = drop n t in
      let m = drop j t in
      let tail = m ++ zeros h.spare in
      let la = length-drop n t l in
      let lm = length-drop j t le in
      let lj : length a ≡ j = omega arith in
      let some_left : n ≢ 0 = ground arith in
      let within : ltb b.size n ≡ false = ground (arith, h.ends) in
      let rest : b.size - n ≡ length a = omega (arith, h.ends) in
      let moved : take (length a) (drop n b.base) ≡ a =
        rw (h.block, drop-append_front n t (zeros h.spare) l) (take-append a (zeros h.spare)) in
      let split : b.base ≡ [] ++ take j t ++ tail =
        h.block
        ∙ ap (λ s. s ++ zeros h.spare) (sym (take-drop j t))
        ∙ append_assoc (take j t) m (zeros h.spare) in
      let stored : store_at 0 a b.base ≡ some (a ++ tail) =
        rw split (store_at-middle [] (take j t) a tail (length-take j t le ∙ sym lj)) in
      consume-moved n b a tail f within rest moved stored (
        resize-shrink true (record b { base = a ++ tail }) a m h.spare
          (sym (append_assoc a m (zeros h.spare))) (omega (arith, h.ends)) (omega arith)
          (omega (arith, h.small)))
]

-- `Resize` to a length that the block has room for cuts the text or fills it up with zero bytes.
pub resize-Holds :
    (granted : Bool) (n : ℕ) (b : MyBuf) (t : Bytes)
    → Holds b t
    → n ≤ cap b
    → (c : MyBuf) × (resize granted n b ≡ some c) × Holds c (take n t ++ zeros (n - length t))
unfolding resize
resize-Holds granted n b t h l =
    let e = Holds-cap b t h in
    let small = h.small in
    elim (Bool-cases (ltb n b.size)) [
      | inl f ↦
          let lt : n < length t = ground (arith, h.ends) in
          let none_left : n - length t ≡ 0 = omega arith in
          let same : take n t ≡ take n t ++ zeros (n - length t) =
            sym (ap (λ k. take n t ++ zeros k) none_left ∙ append-nil (take n t)) in
          subst (Shrunk granted b n) same (
            subst (λ k. Shrunk granted b k (take n t)) (length-take n t (omega arith))
              (resize-shrink granted b (take n t) (drop n t) h.spare (rw (take-drop n t) h.block)
                (omega (arith, h.ends, length-take n t, length-drop n t))
                (omega (arith, length-drop n t))
                (omega (arith, length-take n t, length-drop n t, h.small))))
      | inr f ↦
          let le : length t ≤ n = ground (arith, h.ends) in
          let room : ltb (cap b) n ≡ false = ground arith in
          let int : ltb n (2 ^ 31) ≡ true = ground arith in
          let more = n - length t in
          (
            record b { size = 0 + n },
            rw (f, room, int),
            rw (take-past n t le) (record {
              spare = h.spare - more;
              block =
                  h.block
                  ∙ ap (λ z. t ++ z)
                      (ap zeros {x = h.spare} {y = more + (h.spare - more)} (omega arith)
                        ∙ sym (zeros-add more (h.spare - more)))
                  ∙ sym (append_assoc t (zeros more) (zeros (h.spare - more)));
              ends = omega (arith, length-append t (zeros more), length-zeros more);
              small = omega (arith, length-append t (zeros more), length-zeros more);
            }),
          )
    ]

-- `Resize` beyond the limit is carried out although no room was made for it: the end of the text
-- is then behind the end of the block.
pub resize-past_end :
    (granted : Bool) (n : ℕ) (b : MyBuf) (t : Bytes)
    → Holds b t
    → max_size < n
    → n < 2 ^ 31
    → resize granted n b ≡ some (record b { size = n }) × (cap b < n)
unfolding resize reserve
resize-past_end granted n b t h l m =
    let e = Holds-cap b t h in
    let small = h.small in
    let keeps : ltb n b.size ≡ false = ground (arith, h.ends) in
    let grows : ltb (cap b) n ≡ true = ground arith in
    let r = rounded-least n (omega arith) in
    let over : leb (rounded n) max_size ≡ false = ground arith in
    let int : ltb n (2 ^ 31) ≡ true = ground arith in
    let z : 0 + n ≡ n = omega arith in (rw (keeps, grows, over, int, z), omega arith)

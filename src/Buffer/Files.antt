-- ===== src/Buffer/Files.antt =====
-- `Load` and `Save` of include/string_buffer.h. A file is its content, and how many bytes of it
-- `fread` gives.
use mathlib.Core.Bool.{false≢true}
use nexer.Prelude.{
  zero, suc, [], ◌∷◌, sym, ap, ==_iff, ℕ, ◌+◌, ◌-◌, ◌%◌, ◌≤◌, ◌≡◌, refl, ◌∙◌, Bool, true, false,
  Option, none, some, ◌++◌, arith, Bytes, length, length-append, take, ltb, ◌==◌, if◌then◌else◌,
  ◌<◌, ◌⊎◌,
}
use Prim.Native.Nat.{◌^◌, suc}
use nexer.Buffer.Memory.{
  chain, store_at, zeros, length-zeros, zeros-add, store_at-middle, take-past, take-append,
}
use nexer.Buffer.Holds.{Holds, Holds-cap, reserve-Holds}
use nexer.Buffer.{
  MyBuf, cap, reserve, resize, clear_buf, pos, negsuc, leb, ==-refl, max_size, Bool-cases, inr, inl,
  ◌∷◌,
}

pub record File : Type 0 where
  pub content : Bytes
  pub readable : ℕ

-- `read`: the result of `Reserve` is not looked at.
unfoldable pub read_file : Bool → ℕ → Bytes → MyBuf → Option (Bool × MyBuf)
read_file granted n got b = chain (reserve granted ((b.size + n) % 2 ^ 64) b) (λ r.
    chain (store_at r.1.size got r.1.base) (λ m.
      let c = record r.1 { base = m } in
      if length got == n
      then chain (resize granted (c.size + n) c) (λ d. some (true, d))
      else some (false, c)))

-- `Load`; none for a file that cannot be opened.
unfoldable pub load : Bool → Option File → MyBuf → Option (Bool × MyBuf)
load granted none b = some (false, b)
load granted (some f) b =
    read_file granted (length f.content) (take f.readable f.content) (clear_buf b)

-- `Save`: whether it succeeds, and the content of the file, of which `written` bytes can be written.
unfoldable pub save : ℕ → MyBuf → Bool × Bytes
save written b = let s = take written (take b.size b.base) in (length s == b.size, s)

clear_buf-Holds : (b : MyBuf) (t : Bytes) → Holds b t → Holds (clear_buf b) []
unfolding clear_buf
clear_buf-Holds b t h =
    let e = Holds-cap b t h in
    record { spare = cap b; block = refl; ends = refl; small = omega (arith, h.small) }

-- The bytes of the file are read into an empty buffer that has room for them.
read-Holds :
    (granted : Bool) (s : Bytes) (c : MyBuf)
    → Holds c []
    → length s ≤ cap c
    → (m : Bytes) × (d : MyBuf) × (store_at c.size s c.base ≡ some m)
      × (resize granted (c.size + length s) (record c { base = m }) ≡ some d)
      × Holds d s
unfolding resize
read-Holds granted s c h l =
    let e = Holds-cap c [] h in
    let n = length s in
    let rest = h.spare - n in
    let m = s ++ zeros rest in
    let small = h.small in
    let split : c.base ≡ zeros n ++ zeros rest =
      h.block ∙ sym (zeros-add n rest ∙ ap zeros {x = n + rest} (omega arith)) in
    let lm = length-append s (zeros rest) in
    let lz = length-zeros rest in
    let keeps : ltb (c.size + n) c.size ≡ false = ground arith in
    let room : ltb (length m) (c.size + n) ≡ false = ground (arith, h.ends) in
    let int : ltb (c.size + n) (2 ^ 31) ≡ true = ground (arith, h.ends) in
    (
      m,
      record { base = m; size = 0 + (c.size + n) },
      rw (split, h.ends) (store_at-middle [] (zeros n) s (zeros rest) (length-zeros n)),
      rw (keeps, room, int) refl,
      record { spare = rest; block = refl; ends = omega (arith, h.ends); small = omega arith },
    )

read_file-steps :
    (granted : Bool) (s : Bytes) (b c d : MyBuf) (m : Bytes)
    → b.size ≡ 0
    → length s < 2 ^ 31
    → reserve granted (length s) b ≡ some (pos 0, c)
    → store_at c.size s c.base ≡ some m
    → resize granted (c.size + length s) (record c { base = m }) ≡ some d
    → read_file granted (length s) s b ≡ some (true, d)
unfolding read_file
read_file-steps granted s b c d m z l p w r =
    let wrap : (b.size + length s) % 2 ^ 64 ≡ length s = omega arith in
    rw (wrap, p, w, ==-refl (length s), r) refl

read_file-fault :
    (granted : Bool) (s : Bytes) (b c : MyBuf) (k : ℕ)
    → b.size ≡ 0
    → length s < 2 ^ 31
    → reserve granted (length s) b ≡ some (negsuc k, c)
    → store_at c.size s c.base ≡ none
    → read_file granted (length s) s b ≡ none
unfolding read_file
read_file-fault granted s b c k z l p w =
    let wrap : (b.size + length s) % 2 ^ 64 ≡ length s = omega arith in rw (wrap, p, w) refl

store_at-none : (i : ℕ) (s base : Bytes) → length base < i + length s → store_at i s base ≡ none
unfolding store_at
store_at-none i s base l =
    let f : leb (i + length s) (length base) ≡ false = ground arith in rw f refl

reserve-room :
    (granted : Bool) (n : ℕ) (b : MyBuf)
    → ltb (cap b) n ≡ false
    → reserve granted n b ≡ some (pos 0, b)
unfolding reserve
reserve-room granted n b e = rw e refl

-- `Load` of a file of less than 2 ^ 31 bytes that can be read to its end makes the file's content the
-- text of the buffer; or it writes out of the block, which is where the block is too small and cannot
-- grow, for want of memory or beyond the limit.
pub load-Loads :
    (granted : Bool) (f : File) (b : MyBuf) (t : Bytes)
    → Holds b t
    → length f.content < 2 ^ 31
    → length f.content ≤ f.readable
    → ((c : MyBuf) × (load granted (some f) b ≡ some (true, c)) × Holds c f.content)
      ⊎ ((load granted (some f) b ≡ none)
          × (cap b < length f.content)
          × ((granted ≡ false) ⊎ (max_size < length f.content)))
unfolding load clear_buf
load-Loads granted f b t h l r =
    let s = f.content in
    let empty = clear_buf b in
    let k = clear_buf-Holds b t h in
    let whole : take f.readable s ≡ s = take-past f.readable s r in
    let same : cap empty ≡ cap b = length-zeros (cap b) in
    elim (Bool-cases (ltb (cap b) (length s))) [
      | inr g ↦
          let (m, d, w, x, y) = read-Holds granted s empty k (ground arith) in
          inl (
            d,
            rw whole (
                read_file-steps granted s empty empty d m refl l
                  (reserve-room granted (length s) empty (rw same g)) w x),
            y,
          )
      | inl g ↦ elim (reserve-Holds granted (length s) empty [] k (omega arith)) [
        | inl (c, p, q, room) ↦
            let (m, d, w, x, y) = read-Holds granted s c q room in
            inl (d, rw whole (read_file-steps granted s empty c d m refl l p w x), y)
        | inr (n, p, why) ↦
            let small : cap b < length s = ground arith in
            inr (
              rw whole (
                  read_file-fault granted s empty empty n refl l p
                    (store_at-none 0 s empty.base (omega arith))),
              small,
              why,
            )
      ]
    ]

take-all : (n : ℕ) (s : Bytes) → length (take n s) ≡ length s → take n s ≡ s
take-all zero [] e = refl
take-all zero (c ∷ s) e = absurd (omega arith)
take-all (suc n) [] e = refl
take-all (suc n) (c ∷ s) e = ap (λ (s : Bytes). c ∷ s) (take-all n s (omega arith))

-- A text that is saved, and loaded into any buffer, is the text of that buffer, if there is memory.
pub load-save :
    (written readable : ℕ) (b d : MyBuf) (t u : Bytes)
    → Holds b t
    → Holds d u
    → (save written b).0 ≡ true
    → length t ≤ readable
    → (c : MyBuf) × (load true
          (some (record { content = (save written b).1; readable = readable }))
          d
        ≡ some (true, c))
      × Holds c t
unfolding save
load-save written readable b d t u h k ok r =
    let small = h.small in
    let text : take b.size b.base ≡ t = rw (h.ends, h.block) (take-append t (zeros h.spare)) in
    let ok' : (length (take written t) == length t) ≡ true = rw (text, h.ends) at ok in
    let all : take written t ≡ t = take-all written t ((==_iff _ _).0 ok') in
    let f : File = record { content = t; readable = readable } in
    let same : take written (take b.size b.base) ≡ t = ap (take written) text ∙ all in
    rw same (elim (load-Loads true f d u k (omega arith) r) [
      | inl x ↦ x
      | inr (p, over, inl g) ↦ absurd (false≢true (sym g))
      | inr (p, over, inr g) ↦ absurd (omega arith)
    ])

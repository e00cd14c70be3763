-- ===== src/Buffer/Printf.antt =====
-- `StringBuffer::Printf` of include/string_buffer.h. What `vsnprintf` makes of the format and its
-- arguments is a parameter: the whole text, or an error, which is taken to write
-- nothing.
use nexer.Prelude.{
  ℕ, zero, suc, ◌+◌, ◌-◌, ◌*◌, ◌%◌, Bool, Option, none, some, [], ◌∷◌, ◌++◌, Bytes, length, take,
  ltb, ◌==◌, if◌then◌else◌,
}
use Prim.Native.Nat.{◌^◌}
use nexer.Buffer.Memory.{chain, store_at}
use nexer.Buffer.{MyBuf, cap, reserve, pbump, is_zero, true}

pub data Format : Type 0 where
  formatted : Bytes → Format
  failed : Format

-- `vsnprintf(base + size, m, ...)`: the text is cut to `m - 1` bytes and ended by a zero byte.
unfoldable pub vsnprintf : Format → ℕ → MyBuf → Option MyBuf
vsnprintf failed m b = some b
vsnprintf (formatted s) m b =
    if m == 0
    then some b
    else chain (store_at b.size (take (m - 1) s ++ 0 ∷ []) b.base)
        (λ base. some (record b { base = base }))

-- The result of an `int` operation; none where it overflows.
unfoldable pub as_int : ℕ → Option ℕ
as_int n = if ltb n (2 ^ 31) then some n else none

-- The room to ask for after a round: `n + 1`, or `2 * m` after an error.
unfoldable pub more_room : Format → ℕ → Option ℕ
more_room failed m = as_int (2 * m)
more_room (formatted s) m = as_int (length s + 1)

abbrev pub fits : Format → ℕ → Option ℕ
fits failed m = none
fits (formatted s) m = if ltb (length s) m then some (length s) else none

-- Room for another round, and whether there is.
unfoldable pub make_room : Bool → ℕ → MyBuf → Option (Bool × MyBuf)
make_room granted need b =
    if ltb (cap b) need
    then chain (reserve granted need b) (λ r. some (is_zero r.0, r.1))
    else some (true, b)

-- How a call ends: with the length, or none for -1.
abbrev pub Printed : Type 0
Printed = Option ℕ × MyBuf

-- The loop of `vprintf`. The outer `none` is a fault, a write out of the block or an overflow, and the
-- next one the end of the fuel.
unfoldable pub vprintf_loop : ℕ → Bool → Format → MyBuf → Option (Option Printed)
vprintf_loop zero granted f b = some none
vprintf_loop (suc fuel) granted f b =
    let m = cap b - b.size in
    chain (vsnprintf f m b) (λ c. elim (fits f m) [
      | some n ↦ chain (pbump n c) (λ d. some (some (some n, d)))
      | none ↦ chain (more_room f m) (λ k.
          chain (make_room granted ((c.size + k + 1) % 2 ^ 64) c) (λ r.
            let next = vprintf_loop fuel granted f r.1 in
            if r.0 then next else some (some (none, r.1))))
    ])

-- Rounds that are enough.
abbrev pub rounds : ℕ
rounds = 30

-- `vprintf`
unfoldable pub vprintf : Bool → Format → MyBuf → Option (Option Printed)
vprintf granted f b = vprintf_loop rounds granted f b

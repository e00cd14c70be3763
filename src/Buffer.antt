-- ===== src/Buffer.antt =====
-- include/string_buffer.h. The block that `base` leads to is the list of its bytes, whose length
-- is `cap`; `size` is the distance from `pbase()` to `pptr()`, which `setp` and `pbump` set.
-- `size_t` has 64 bits. A write out of the block, a pointer moved before it, and a count for
-- `pbump` that is no `int` give `none`. Whether `realloc` finds the memory is an argument.
pub mod Memory
pub mod Holds
pub mod Contents
pub mod Printf
pub mod Rounds
pub mod Printing
pub mod Files
pub mod Text
pub mod Tests
use nexer.Prelude.{
  ℕ, zero, suc, ◌+◌, ◌-◌, ◌*◌, ◌/◌, ◌%◌, ◌≤◌, ◌<◌, ◌≡◌, refl, sym, ap, ◌∙◌, ◌≢◌, ◌↔◌, ◌⊎◌, inl, inr,
  Bool, true, false, not, ◌&&◌, ◌||◌, Option, none, some, List, [], ◌∷◌, ◌++◌, map, append_assoc,
  append-nil, arith, Bytes, codes, length, length-append, take, drop, replicate, is_nil, All, ltb,
  leb, ◌==◌, if◌then◌else◌, lt→ltb, ==_iff, ==-refl, Bool-cases, Option-cases, if_both, if_false,
  and_true, is_nil→eq,
}
use Prim.Native.Nat.{◌^◌}
use nexer.Prelude.Int.{ℤ, pos, negsuc}
use Memory.{store_at, chain, zeros}

pub record MyBuf : Type 0 where
  pub base : Bytes
  pub size : ℕ

abbrev pub cap : MyBuf → ℕ
cap b = length b.base

abbrev pub new_buf : MyBuf
new_buf = record { base = []; size = 0 }

abbrev pub min_size : ℕ
min_size = 512

abbrev pub max_size : ℕ
max_size = 268435456

-- The next multiple of `MIN_SIZE`, in 64 bits.
unfoldable pub rounded : ℕ → ℕ
rounded n = (n + (min_size - 1)) % 2 ^ 64 / min_size * min_size

-- `realloc` keeps the old bytes; those past `size` are then set to zero.
unfoldable pub grow : ℕ → MyBuf → Option MyBuf
grow n b =
    if ltb n b.size
    then none
    else some (record b { base = take b.size b.base ++ zeros (n - b.size) })

-- `MyBuf::Reserve`
unfoldable pub reserve : Bool → ℕ → MyBuf → Option (ℤ × MyBuf)
reserve granted n b =
    if ltb (cap b) n
    then (if leb (rounded n) max_size
        then (if granted
            then chain (grow (rounded n) b) (λ c. some (pos 0, c))
            else some (negsuc 0, b))
        else some (negsuc 1, b))
    else some (pos 0, b)

-- `pbump(n)`
abbrev pub pbump : ℕ → MyBuf → Option MyBuf
pbump n b = if ltb n (2 ^ 31) then some (record b { size = b.size + n }) else none

-- `setp(base, base + cap)` and `pbump(n)`
abbrev pub place : ℕ → MyBuf → Option MyBuf
place n b = pbump n (record b { size = 0 })

-- `MyBuf::Resize`: the result of `Reserve` is not looked at.
unfoldable pub resize : Bool → ℕ → MyBuf → Option MyBuf
resize granted n b =
    if ltb n b.size
    then chain (store_at n (zeros (b.size - n)) b.base) (λ m. place n (record b { base = m }))
    else if ltb (cap b) n
    then chain (reserve granted n b) (λ r. place n r.1)
    else place n b

-- `MyBuf::Consume`
unfoldable pub consume : ℕ → MyBuf → Option MyBuf
consume n b =
    if n == 0
    then some b
    else if ltb b.size n
    then none
    else chain (store_at 0 (take (b.size - n) (drop n b.base)) b.base)
        (λ m. resize true (b.size - n) (record b { base = m }))

-- `MyBuf::Clear`
unfoldable pub clear_buf : MyBuf → MyBuf
clear_buf b = record { base = zeros (cap b); size = 0 }

-- `MyBuf::overflow` for a byte: the result of `Reserve` is not looked at.
unfoldable pub overflow : Bool → ℕ → MyBuf → Option MyBuf
overflow granted c b =
    chain (reserve granted ((cap b + 1) % 2 ^ 64) b)
      (λ r. chain (store_at r.1.size (c ∷ []) r.1.base) (λ m. pbump 1 (record r.1 { base = m })))

abbrev pub is_zero : ℤ → Bool
is_zero (pos zero) = true
is_zero (pos (suc n)) = false
is_zero (negsuc n) = false

-- `memcpy` and `pbump` at the end of `MyBuf::Write`.
unfoldable pub copy_in : Bytes → MyBuf → Option (Option ℕ × MyBuf)
copy_in s b =
    chain (store_at b.size s b.base)
      (λ m. chain (pbump (length s) (record b { base = m })) (λ c. some (some (length s), c)))

-- `MyBuf::Write`: the length, or none for -1.
unfoldable pub write : Bool → Bytes → MyBuf → Option (Option ℕ × MyBuf)
write granted s b =
    let need = (b.size + length s + 1) % 2 ^ 64 in
    if ltb (cap b) need
    then chain (reserve granted need b)
        (λ r. if is_zero r.0 then copy_in s r.1 else some (none, r.1))
    else copy_in s b

-- `StringBuffer::Reserve`
unfoldable pub reserve_more : Bool → ℕ → MyBuf → Option (Bool × MyBuf)
reserve_more granted n b =
    if ltb (cap b - b.size) n
    then chain (reserve granted ((b.size + n) % 2 ^ 64) b) (λ r. some (is_zero r.0, r.1))
    else some (true, b)

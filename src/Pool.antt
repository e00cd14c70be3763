-- ===== src/Pool.antt =====
-- `FixedSizeMemoryPool` of include/memory_pool.h. The heap gives the header of the block at each
-- address; `none` is a pointer that leads to no block, and a step that follows one is `none`. What
-- `malloc` answers is an argument: an address and whatever the header holds there, or null.
pub mod Faults
pub mod Ending
pub mod Freeing
pub mod Giving
pub mod History
pub mod Lists
pub mod Segments
pub mod Taking
pub mod Tests
pub mod Wild
use Prim.Native.Nat.{◌^◌}
use nexer.Prelude.{
  ℕ, zero, suc, ◌+◌, ◌-◌, ◌*◌, ◌/◌, ◌%◌, ◌≤◌, ◌<◌, ◌≡◌, refl, sym, ap, ◌∙◌, ◌≢◌, ◌↔◌, ◌⊎◌, inl, inr,
  Bool, true, false, not, ◌&&◌, ◌||◌, Option, none, some, List, [], ◌∷◌, ◌++◌, map, append_assoc,
  append-nil, arith, Bytes, codes, length, length-append, take, drop, replicate, is_nil, All, ltb,
  leb, ◌==◌, if◌then◌else◌, lt→ltb, ltb→lt, ltb→le, leb→lt, leb→le, lt→leb, le→leb, ==_iff, ==-refl,
  Bool-cases, Option-cases, if_both, if_false, and_true, is_nil→eq,
}

pub record Block : Type 0 where
  pub prev : Option ℕ
  pub next : Option ℕ

pub record Pool : Type 0 where
  pub max_size : ℕ
  pub free_list : Option ℕ
  pub allocated : Option ℕ
  pub heap : ℕ → Option Block

abbrev pub block_size : ℕ
block_size = 16

-- `max_size_ - sizeof(Block)`, in 64 bits.
abbrev pub usable : ℕ → ℕ
usable n = (n + (2 ^ 64 - block_size)) % 2 ^ 64

abbrev pub new_pool : ℕ → Pool
new_pool max_size = record {
  max_size = max_size;
  free_list = none;
  allocated = none;
  heap = λ p. none;
}

abbrev pub put_block : ℕ → Block → Pool → Pool
put_block p b s = record s { heap = λ q. if q == p then some b else s.heap q }

abbrev pub on_block {ℓ} : {A : Type ℓ} → Option Block → (Block → Option A) → Option A
on_block none k = none
on_block (some b) k = k b

-- A block read through a pointer.
abbrev pub with_block {ℓ} : {A : Type ℓ} → ℕ → Pool → (Block → Option A) → Option A
with_block p s = on_block (s.heap p)

unfoldable pub set_prev : ℕ → Option ℕ → Pool → Option Pool
set_prev p q s = with_block p s (λ b. some (put_block p (record b { prev = q }) s))

unfoldable pub set_next : ℕ → Option ℕ → Pool → Option Pool
set_next p q s = with_block p s (λ b. some (put_block p (record b { next = q }) s))

abbrev pub then_pool {ℓ} : {A : Type ℓ} → Option Pool → (Pool → Option A) → Option A
then_pool none k = none
then_pool (some s) k = k s

-- `if (p) p->prev = q`
unfoldable pub link_prev : Option ℕ → Option ℕ → Pool → Option Pool
link_prev none q s = some s
link_prev (some p) q s = set_prev p q s

-- `if (p) p->next = q`
unfoldable pub link_next : Option ℕ → Option ℕ → Pool → Option Pool
link_next none q s = some s
link_next (some p) q s = set_next p q s

-- `if (block == free_)`: the head of the free list is taken off.
unfoldable pub unlink_free : ℕ → Pool → Option Pool
unlink_free p s =
    with_block p s
      (λ b. then_pool (link_prev b.next none s) (λ t. some (record t { free_list = b.next })))

-- The rest of `Allocate(block, size)`, with the pointer and the size that it returns.
unfoldable pub link_allocated : ℕ → Pool → Option ((ℕ × ℕ) × Pool)
link_allocated p s = then_pool (link_prev s.allocated (some p) s) (λ t.
    then_pool (set_next p t.allocated t)
      (λ u. some ((p + block_size, usable u.max_size), record u { allocated = some p })))

-- `Allocate(size)`: a null pointer from `malloc` equals `free_` and is followed.
unfoldable pub allocate_block : Option (ℕ × Block) → Pool → Option ((ℕ × ℕ) × Pool)
allocate_block answer s = elim s.free_list [
  | some p ↦ then_pool (unlink_free p s) (link_allocated p)
  | none ↦ elim answer [ none ↦ none | some (p, b) ↦ link_allocated p (put_block p b s) ]
]

-- `if (block == allocated_)`: the head of the allocated list is taken off.
unfoldable pub unlink_allocated : ℕ → Pool → Option Pool
unlink_allocated p s = elim s.allocated [
  | none ↦ some s
  | some a ↦
      if a == p
      then with_block p s
          (λ b. then_pool (link_prev b.next none s) (λ t. some (record t { allocated = b.next })))
      else some s
]

-- The rest of `Free(block)`.
unfoldable pub link_free : ℕ → Pool → Option Pool
link_free p s = with_block p s (λ b. then_pool (link_prev b.next b.prev s) (λ t.
    then_pool (link_next b.prev b.next t) (λ u. then_pool (set_prev p none u) (λ v.
      then_pool (set_next p v.free_list v) (λ w.
        then_pool (link_prev w.free_list (some p) w)
          (λ x. some (record x { free_list = some p })))))))

-- `Free(ptr)`
unfoldable pub free_block : Option ℕ → Pool → Option Pool
free_block none s = some s
free_block (some ptr) s = let p = ptr - block_size in then_pool (unlink_allocated p s) (link_free p)

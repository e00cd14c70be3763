-- ===== src/Pool/History.antt =====
-- Whole runs of a pool, against two stacks of blocks.
use mathlib.Core.Bool.{false≢true}
use mathlib.Core.Path.{subst}
use nexer.Prelude.{
  ℕ, ◌+◌, ◌-◌, ◌≡◌, refl, sym, ap, inl, inr, Bool, true, false, ◌||◌, Option, none, some, List, [],
  ◌∷◌, ◌++◌, ◌==◌, if◌then◌else◌, ==_iff, Bool-cases, ==-refl, ◌⊎◌, ◌∙◌,
}
use nexer.Pool.{Block, Pool, new_pool, block_size, allocate_block, free_block}
use nexer.Pool.Giving.{IsSettled}
use nexer.Pool.Taking.{prev_taken, IsPool, IsFresh, taken, rest_of, allocate_block-IsPool}
use nexer.Pool.Freeing.{free_block-IsPool}

-- Calls of `Allocate`, with what `malloc` answers if it is called, and of `Free` with a pointer.
pub data Request : Type 0 where
  allocating : Option (ℕ × Block) → Request
  freeing : Option ℕ → Request

abbrev pub hand_out : Option ((ℕ × ℕ) × Pool) → Option (List ℕ × Pool)
hand_out none = none
hand_out (some ((ptr, size), s)) = some (ptr ∷ [], s)

abbrev pub nothing_out : Option Pool → Option (List ℕ × Pool)
nothing_out none = none
nothing_out (some s) = some ([], s)

unfoldable pub pool_step : Request → Pool → Option (List ℕ × Pool)
pool_step (allocating answer) s = hand_out (allocate_block answer s)
pool_step (freeing ptr) s = nothing_out (free_block ptr s)

abbrev pub prepend : List ℕ → Option (List ℕ × Pool) → Option (List ℕ × Pool)
prepend out none = none
prepend out (some (more, t)) = some (out ++ more, t)

abbrev pub and_then :
    Option (List ℕ × Pool) → (Pool → Option (List ℕ × Pool)) → Option (List ℕ × Pool)
and_then none k = none
and_then (some (out, s)) k = prepend out (k s)

-- The pointers that a run hands out, in order.
unfoldable pub pool_run : List Request → Pool → Option (List ℕ × Pool)
pool_run [] s = some ([], s)
pool_run (r ∷ rs) s = and_then (pool_step r s) (pool_run rs)

-- The free blocks and the others, each as a stack; a block that is freed is taken out of the second.
-- `newest_prev` is what `prev` of the newest used block holds.
pub record Stacks : Type 0 where
  pub free : List ℕ
  pub used : List ℕ
  pub newest_prev : Option ℕ

abbrev pub take_out : ℕ → List ℕ → List ℕ
take_out p [] = []
take_out p (x ∷ xs) = let rest = take_out p xs in if x == p then xs else x ∷ rest

abbrev pub is_used : ℕ → List ℕ → Bool
is_used p [] = false
is_used p (x ∷ xs) = x == p || is_used p xs

-- Whether a block is the newest used one.
abbrev pub is_newest : ℕ → List ℕ → Bool
is_newest p [] = false
is_newest p (x ∷ xs) = x == p

abbrev pub stack_step : Request → Stacks → List ℕ × Stacks
stack_step (allocating answer) l = (
  (taken answer l.free + block_size) ∷ [],
  record {
    free = rest_of l.free;
    used = taken answer l.free ∷ l.used;
    newest_prev = prev_taken answer l.free;
  },
)
stack_step (freeing none) l = ([], l)
stack_step (freeing (some ptr)) l =
    let p = ptr - block_size in ([], record l { free = p ∷ l.free; used = take_out p l.used })

abbrev pub stack_run : List Request → Stacks → List ℕ × Stacks
stack_run [] l = ([], l)
stack_run (r ∷ rs) l =
    let (out, m) = stack_step r l in let (more, n) = stack_run rs m in (out ++ more, n)

-- `malloc` gives new blocks, and a pointer is freed only if its block is used; and the newest used block
-- only if its `prev` is null.
abbrev pub IsFair : Request → Stacks → Type 0
IsFair (allocating answer) l = IsFresh answer l.free l.used
IsFair (freeing none) l = Unit
IsFair (freeing (some ptr)) l =
    let p = ptr - block_size in
    (is_used p l.used ≡ true) × ((is_newest p l.used ≡ false) ⊎ (l.newest_prev ≡ none))

abbrev pub AllFair : List Request → Stacks → Type 0
AllFair [] l = Unit
AllFair (r ∷ rs) l = IsFair r l × AllFair rs (stack_step r l).1

is_used-parts :
    (p : ℕ) (xs : List ℕ)
    → is_used p xs ≡ true
    → (front : List ℕ) × (back : List ℕ) × (xs ≡ front ++ p ∷ back)
      × (take_out p xs ≡ front ++ back)
is_used-parts p [] e = absurd (false≢true e)
is_used-parts p (x ∷ xs) e = elim (Bool-cases (x == p)) [
  | inl f ↦ ([], xs, ap (λ y. y ∷ xs) ((==_iff x p).0 f), rw f refl)
  | inr f ↦
      let (front, back, g, h) = is_used-parts p xs (rw f at e) in
      (x ∷ front, back, ap (λ l. x ∷ l) g, rw f (ap (λ l. x ∷ l) h))
]

-- A pool whose lists are the two stacks.
abbrev pub Refines : Stacks → Pool → Type 0
Refines l s = IsPool s l.newest_prev l.free l.used

front-IsSettled :
    (p : ℕ) (raw : Option ℕ) (front back : List ℕ)
    → (is_newest p (front ++ p ∷ back) ≡ false) ⊎ (raw ≡ none)
    → IsSettled raw front
front-IsSettled p raw [] back (inl e) = absurd (false≢true (sym e ∙ ==-refl p))
front-IsSettled p raw [] back (inr e) = e
front-IsSettled p raw (x ∷ front) back e = tt

pool_step-Refines :
    (r : Request) (l : Stacks) (s : Pool)
    → IsFair r l
    → Refines l s
    → (t : Pool) × (pool_step r s ≡ some ((stack_step r l).0, t)) × Refines (stack_step r l).1 t
unfolding pool_step free_block
pool_step-Refines (allocating answer) l s f i =
    let (t, e, j, z) = allocate_block-IsPool answer l.newest_prev l.free l.used s i f in
    (t, ap hand_out e, j)
pool_step-Refines (freeing none) l s f i = (s, refl, i)
pool_step-Refines (freeing (some ptr)) l s (f, n) i =
    let p = ptr - block_size in
    let raw = l.newest_prev in
    let (front, back, g, h) = is_used-parts p l.used f in
    let settled =
      front-IsSettled p raw front back
        (subst (λ used. (is_newest p used ≡ false) ⊎ (raw ≡ none)) g n) in
    let (t, e, j, z) =
      free_block-IsPool s ptr raw l.free front back settled (subst (IsPool s raw l.free) g i) in
    (t, ap nothing_out e, subst (IsPool t raw (p ∷ l.free)) (sym h) j)

-- Whatever the blocks hold that `malloc` gives: as long as they are blocks that the pool does not have,
-- and only pointers to used blocks are freed, and the newest used block only if its `prev` is null (it is
-- not set for a block from `malloc` until another block is allocated), no run of a pool follows a bad
-- pointer; it hands out the same pointers as two stacks would, of which the free blocks are one: the
-- block that was freed last is handed out first. In the end the pool's two lists, linked both ways but
-- for that `prev`, are the two stacks, and no block is in them twice.
pub pool_run-Refines :
    (rs : List Request) (l : Stacks) (s : Pool)
    → AllFair rs l
    → Refines l s
    → (t : Pool) × (pool_run rs s ≡ some ((stack_run rs l).0, t)) × Refines (stack_run rs l).1 t
unfolding pool_run
pool_run-Refines [] l s f i = (s, refl, i)
pool_run-Refines (r ∷ rs) l s (f, g) i =
    let (t, e, j) = pool_step-Refines r l s f i in
    let (u, h, k) = pool_run-Refines rs (stack_step r l).1 t g j in (u, rw (e, h) refl, k)

abbrev pub no_blocks : Stacks
no_blocks = record { free = []; used = []; newest_prev = none }

pub new_pool-Refines : (max_size : ℕ) → Refines no_blocks (new_pool max_size)
new_pool-Refines max_size = record {
  frees = refl;
  allocs = refl;
  free_links = tt;
  used_links = tt;
  free_distinct = tt;
  used_distinct = tt;
  apart = tt;
}

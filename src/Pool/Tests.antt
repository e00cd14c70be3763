-- ===== src/Pool/Tests.antt =====
-- The runs of test/test_memory_pool.cc, and the property of the pool at a concrete input.
use nexer.Prelude.{
  ℕ, ◌≡◌, refl, Option, none, some, List, [], ◌∷◌, ◌++◌, arith, inl, inr, ◌==◌, if◌then◌else◌,
}
use nexer.Pool.Ending.{destroy, AllGone, destroy-pool_run}
use nexer.Pool.Segments.{Distinct, Apart}
use nexer.Pool.Wild.{pool_run-wild}
use nexer.Pool.{allocate_block, link_allocated, link_prev, set_next, Block, Pool, new_pool}
use nexer.Pool.History.{
  Request, allocating, freeing, pool_run, stack_run, Refines, pool_run-Refines, new_pool-Refines,
  no_blocks, AllFair, pool_step,
}

-- A block from `malloc` with any header.
abbrev fresh : ℕ → Option (ℕ × Block)
fresh p = some (p, record { prev = some 7; next = some 9 })

-- Two blocks, of which the first is freed and taken again; then both are freed, and one is taken.
abbrev requests : List Request
requests =
    allocating (fresh 1000)
    ∷ allocating (fresh 2000)
    ∷ freeing (some 1016)
    ∷ allocating none
    ∷ freeing (some 1016)
    ∷ freeing (some 2016)
    ∷ allocating none
    ∷ []

fair : AllFair requests no_blocks
fair =
    (tt, ((refl, tt), ((refl, inl refl), (tt, ((refl, inr refl), ((refl, inr refl), (tt, tt)))))))

requests-out : (stack_run requests no_blocks).0 ≡ 1016 ∷ 2016 ∷ 1016 ∷ 2016 ∷ []
requests-out = refl

pool_run-Refines_example :
    (t : Pool) × (pool_run requests (new_pool 512) ≡ some ((stack_run requests no_blocks).0, t))
    × Refines (stack_run requests no_blocks).1 t
pool_run-Refines_example =
    pool_run-Refines requests no_blocks (new_pool 512) fair (new_pool-Refines 512)

destroy-pool_run_example :
    let free = (stack_run requests no_blocks).1.free in
    let used = (stack_run requests no_blocks).1.used in
    (t : Pool) × (u : Pool) × (pool_run requests (new_pool 512)
      ≡ some ((stack_run requests no_blocks).0, t))
    × (destroy 1 t ≡ some (free ++ used, u))
    × Distinct free
    × Distinct used
    × Apart free used
    × AllGone free u
    × AllGone used u
destroy-pool_run_example =
    destroy-pool_run requests no_blocks (new_pool 512) 1 fair (new_pool-Refines 512) (omega arith)
      (omega arith)

abbrev one_block : Pool
one_block = record {
  max_size = 512;
  free_list = none;
  allocated = some 1000;
  heap = λ q.
      if q == 1000
      then some (record { prev = some 7; next = none })
      else if q == 1000
      then some (record { prev = some 7; next = some 9 })
      else none;
}

pool_run-wild_example : pool_step (freeing (some 1016)) one_block ≡ none
unfolding pool_run pool_step allocate_block link_allocated link_prev set_next
pool_run-wild_example =
    pool_run-wild (allocating (fresh 1000) ∷ []) no_blocks (new_pool 512) one_block 1016 7 []
      (1016 ∷ []) (tt, tt) (new_pool-Refines 512) refl refl refl refl

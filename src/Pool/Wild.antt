-- ===== src/Pool/Wild.antt =====
-- The newest block while the pool has not set its `prev`.
use mathlib.Core.Path.{subst}
use nexer.Prelude.{
  ℕ, ◌-◌, ◌≡◌, refl, sym, ap, ◌∙◌, inl, inr, Option, none, some, List, [], ◌∷◌, ◌==◌, ==_iff,
  Bool-cases,
}
use nexer.Pool.{
  Block, Pool, block_size, link_prev, link_next, set_next, link_free, free_block, then_pool,
}
use nexer.Pool.Segments.{Out, first_of, IsLinked, link_prev-front}
use nexer.Pool.Freeing.{unlink_allocated-head}
use nexer.Pool.Taking.{IsPool}
use nexer.Pool.History.{
  Stacks, Refines, Request, freeing, pool_step, nothing_out, pool_run, stack_run, AllFair,
  pool_run-Refines,
}

none-some : {A : Type 0} (a : A) → (none ≡ some a) → ⊥
none-some a e = cc

-- An address without a block is none of the blocks.
IsLinked-Out :
    (h : ℕ → Option Block) (w : ℕ) (q : Option ℕ) (xs : List ℕ) (n : Option ℕ)
    → h w ≡ none
    → IsLinked h q xs n
    → Out w xs
IsLinked-Out h w q [] n e l = tt
IsLinked-Out h w q (x ∷ xs) n e (f, l) = (
  elim (Bool-cases (x == w)) [
    | inl y ↦ absurd (none-some _ (sym e ∙ ap h (sym ((==_iff x w).0 y)) ∙ f))
    | inr y ↦ y
  ],
  IsLinked-Out h w (some x) xs n e l,
)

link_free-fault :
    (p w : ℕ) (n : Option ℕ) (s u : Pool)
    → s.heap p ≡ some (record { prev = some w; next = n })
    → link_prev n (some w) s ≡ some u
    → u.heap w ≡ none
    → link_free p s ≡ none
unfolding link_free link_next set_next
link_free-fault p w n s u e f g = rw (e, f, g) refl

pub IsPool-wild :
    (s : Pool) (ptr w : ℕ) (free back : List ℕ)
    → IsPool s (some w) free ((ptr - block_size) ∷ back)
    → s.heap w ≡ none
    → free_block (some ptr) s ≡ none
unfolding free_block
IsPool-wild s ptr w free back i h =
    let p = ptr - block_size in
    let after = first_of back none in
    let (ob, db) = i.used_distinct in
    let (at, lb) = i.used_links in
    let ow = IsLinked-Out s.heap w (some p) back none h lb in
    let (t, e, lt, k) = link_prev-front (some p) none back none s db lb in
    let t' = record t { allocated = after } in
    let (u, f, lu, m) = link_prev-front none (some w) back none t' db lt in
    let b : Block = record { prev = some w; next = after } in
    ap (λ o. then_pool o (link_free p)) (unlink_allocated-head p b s t i.allocs at e)
    ∙ link_free-fault p w after t' u (k.kept p ob ∙ at) f (m.kept w ow ∙ k.kept w ow ∙ h)

-- After a run of a pool in which `malloc` gives blocks that the pool does not have, and only pointers to
-- used blocks are freed, and the newest used block only if its `prev` is null: where the `prev` of the
-- newest used block is what `malloc` left there, and is an address without a block, freeing that block is
-- an invalid access.
pub pool_run-wild :
    (rs : List Request) (l : Stacks) (s t : Pool) (ptr w : ℕ) (back out : List ℕ)
    → AllFair rs l
    → Refines l s
    → pool_run rs s ≡ some (out, t)
    → (stack_run rs l).1.used ≡ (ptr - block_size) ∷ back
    → (stack_run rs l).1.newest_prev ≡ some w
    → t.heap w ≡ none
    → pool_step (freeing (some ptr)) t ≡ none
unfolding pool_step
pool_run-wild rs l s t ptr w back out f i run used raw h =
    let (u, e, j) = pool_run-Refines rs l s f i in
    let same : u ≡ t = ap (λ o. elim o [ none ↦ u | some (x, v) ↦ v ]) (sym e ∙ run) in
    let k =
      subst
        (λ v.
          IsPool v (stack_run rs l).1.newest_prev (stack_run rs l).1.free (stack_run rs l).1.used)
        same j in
    ap nothing_out (
      IsPool-wild t ptr w (stack_run rs l).1.free back
        (subst (λ q. IsPool t q (stack_run rs l).1.free ((ptr - block_size) ∷ back)) raw
          (subst (IsPool t (stack_run rs l).1.newest_prev (stack_run rs l).1.free) used k))
        h)

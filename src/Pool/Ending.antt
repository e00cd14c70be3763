-- ===== src/Pool/Ending.antt =====
-- The destructor of the pool, `FreeBlock` on each list. `none` is the use of a block that is gone, and
-- the end of the fuel for the loop.
use nexer.Prelude.{
  ℕ, zero, suc, ◌≤◌, ◌≡◌, refl, ap, ◌∙◌, Option, none, some, List, [], ◌∷◌, ◌++◌, arith, length,
  All, ◌==◌, if◌then◌else◌, ==-refl,
}
use nexer.Pool.{Pool, with_block}
use nexer.Pool.Segments.{
  Apart, Distinct, first_of, IsLinked, Touches, IsLinked-kept, Out-one, ==-flip, Touches-refl,
}
use nexer.Pool.Lists.{Apart-flip}
use nexer.Pool.History.{
  and_then, prepend, Request, Stacks, stack_run, pool_run, AllFair, Refines, pool_run-Refines,
}

-- `free(p)`
abbrev pub drop_block : ℕ → Pool → Pool
drop_block p s = record s { heap = λ q. if q == p then none else s.heap q }

-- The loop of `FreeBlock`, with the blocks that it frees.
unfoldable pub free_chain : ℕ → Option ℕ → Pool → Option (List ℕ × Pool)
free_chain zero none s = some ([], s)
free_chain zero (some p) s = none
free_chain (suc fuel) none s = some ([], s)
free_chain (suc fuel) (some p) s =
    with_block p s (λ b. and_then (some (p ∷ [], drop_block p s)) (free_chain fuel b.next))

unfoldable pub destroy : ℕ → Pool → Option (List ℕ × Pool)
destroy fuel s = and_then (free_chain fuel s.free_list s) (free_chain fuel s.allocated)

drop_block-Touches : (p : ℕ) (s : Pool) → Touches (p ∷ []) s (drop_block p s)
drop_block-Touches p s = record {
  kept = λ r (e, u). rw (==-flip p r e) refl;
  frees = refl;
  allocs = refl;
  sizes = refl;
}

-- What the first of some blocks is leaves alone, and what the others then do.
Touches-first :
    (p : ℕ) (ps : List ℕ) (s t u : Pool)
    → Touches (p ∷ []) s t
    → Touches ps t u
    → Touches (p ∷ ps) s u
Touches-first p ps s t u k l = record {
  kept = λ r (e, o). l.kept r o ∙ k.kept r (e, tt);
  frees = l.frees ∙ k.frees;
  allocs = l.allocs ∙ k.allocs;
  sizes = l.sizes ∙ k.sizes;
}

-- The blocks are gone.
abbrev pub AllGone : List ℕ → Pool → Type 0
AllGone ps s = All (λ p. s.heap p ≡ none) ps

AllGone-Touches :
    (ps zs : List ℕ) (s t : Pool) → Touches zs s t → Apart ps zs → AllGone ps s → AllGone ps t
AllGone-Touches [] zs s t k a g = tt
AllGone-Touches (p ∷ ps) zs s t k (o, a) (e, g) = (k.kept p o ∙ e, AllGone-Touches ps zs s t k a g)

free_chain-AllGone :
    (fuel : ℕ) (q : Option ℕ) (ps : List ℕ) (s : Pool)
    → length ps ≤ fuel
    → Distinct ps
    → IsLinked s.heap q ps none
    → (t : Pool) × (free_chain fuel (first_of ps none) s ≡ some (ps, t))
      × AllGone ps t
      × Touches ps s t
unfolding free_chain
free_chain-AllGone zero q [] s l d k = (s, refl, tt, Touches-refl s)
free_chain-AllGone (suc fuel) q [] s l d k = (s, refl, tt, Touches-refl s)
free_chain-AllGone zero q (p ∷ ps) s l d k = absurd (omega arith)
free_chain-AllGone (suc fuel) q (p ∷ ps) s l (o, d) (e, k) =
    let s' = drop_block p s in
    let one = drop_block-Touches p s in
    let links = IsLinked-kept s s' (some p) ps (p ∷ []) none one (Out-one p ps o) k in
    let (t, w, g, m) = free_chain-AllGone fuel (some p) ps s' (omega arith) d links in
    let gone : s'.heap p ≡ none = rw (==-refl p) refl in
    (t, rw (e, w) refl, (m.kept p o ∙ gone, g), Touches-first p ps s s' t one m)

-- After any run of a pool in which `malloc` gives blocks that the pool does not have, whatever they
-- hold, and only pointers to used blocks are freed, and the newest used block only if its `prev` is
-- null, the destructor ends, with fuel for as many rounds as the longer of the two lists has blocks;
-- it follows no pointer into a block that it has freed, and frees the free blocks and then the used
-- ones, each once; they are then gone.
pub destroy-pool_run :
    (rs : List Request) (l : Stacks) (s : Pool) (fuel : ℕ)
    → AllFair rs l
    → Refines l s
    → length (stack_run rs l).1.free ≤ fuel
    → length (stack_run rs l).1.used ≤ fuel
    → let free = (stack_run rs l).1.free in
      let used = (stack_run rs l).1.used in
      (t : Pool) × (u : Pool) × (pool_run rs s ≡ some ((stack_run rs l).0, t))
      × (destroy fuel t ≡ some (free ++ used, u))
      × Distinct free
      × Distinct used
      × Apart free used
      × AllGone free u
      × AllGone used u
unfolding destroy
destroy-pool_run rs l s fuel f i m n =
    let free = (stack_run rs l).1.free in
    let used = (stack_run rs l).1.used in
    let raw = (stack_run rs l).1.newest_prev in
    let (t, e, j) = pool_run-Refines rs l s f i in
    let (a, w, g, k) = free_chain-AllGone fuel none free t m j.free_distinct j.free_links in
    let links =
      IsLinked-kept t a raw used free none k (Apart-flip free used j.apart) j.used_links in
    let w' = ap (λ m. free_chain fuel m t) j.frees ∙ w in
    let (b, x, h, y) = free_chain-AllGone fuel raw used a n j.used_distinct links in
    let x' = ap (λ m. free_chain fuel m a) j.allocs ∙ x in
    (
      t,
      b,
      e,
      ap (λ o. and_then o (free_chain fuel t.allocated)) w' ∙ ap (prepend free) x',
      j.free_distinct,
      j.used_distinct,
      j.apart,
      AllGone-Touches free used a b y j.apart g,
      h,
    )

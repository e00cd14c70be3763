-- ===== src/Pool/Freeing.antt =====
-- What `Free` does to the two lists.
use mathlib.Core.Path.{subst}
use nexer.Pool.Giving.{IsSettled, IsFreeing, link_free-IsPool}
use nexer.Prelude.{
  sym, Option, if◌then◌else◌, ==-refl, ◌==◌, ◌++◌, false, ◌-◌, ℕ, ◌≡◌, refl, ap, ◌∙◌, none, some,
  List, [], ◌∷◌,
}
use nexer.Pool.{
  then_pool, with_block, block_size, unlink_allocated, free_block, Block, Pool, link_prev,
  link_free,
}
use nexer.Pool.Segments.{first_of, IsLinked-kept, link_prev-front}
use nexer.Pool.Lists.{Apart-uncons, Apart-append, Apart-nil, Distinct-append, IsLinked-append}
use nexer.Pool.Taking.{IsPool}

pub unlink_allocated-head :
    (p : ℕ) (b : Block) (s t : Pool)
    → s.allocated ≡ some p
    → s.heap p ≡ some b
    → link_prev b.next none s ≡ some t
    → unlink_allocated p s ≡ some (record t { allocated = b.next })
unfolding unlink_allocated
unlink_allocated-head p b s t e f g =
    let step = λ (s : Pool) (a : ℕ).
      if a == p
      then with_block p s
          (λ b. then_pool (link_prev b.next none s) (λ t. some (record t { allocated = b.next })))
      else some s in
    ap (λ m. elim m [ none ↦ some s | some a ↦ step s a ]) e ∙ rw (==-refl p, f, g) refl

unlink_allocated-other :
    (p a : ℕ) (s : Pool) → s.allocated ≡ some a → (a == p) ≡ false → unlink_allocated p s ≡ some s
unfolding unlink_allocated
unlink_allocated-other p a s e f =
    let step = λ (s : Pool) (a : ℕ).
      if a == p
      then with_block p s
          (λ b. then_pool (link_prev b.next none s) (λ t. some (record t { allocated = b.next })))
      else some s in
    ap (λ m. elim m [ none ↦ some s | some a ↦ step s a ]) e ∙ rw f refl

-- A block that is not the first of the used ones.
other-IsFreeing :
    (s : Pool) (p a : ℕ) (raw : Option ℕ) (free front back : List ℕ)
    → IsPool s raw free (a ∷ front ++ p ∷ back)
    → IsFreeing s p raw (some p) (some p) free (a ∷ front) back
other-IsFreeing s p a raw free front back i =
    let (df, (ob, db), af) = Distinct-append (a ∷ front) (p ∷ back) i.used_distinct in
    let (of, between) = Apart-uncons p (a ∷ front) back af in
    let (ff, afree) = Apart-append free (a ∷ front) (p ∷ back) i.apart in
    let (ofree, fb) = Apart-uncons p free back afree in
    let (lf, (at, lb)) = IsLinked-append s.heap raw (a ∷ front) (p ∷ back) none i.used_links in
    record {
      header = at;
      frees = i.frees;
      allocs = i.allocs;
      free_links = i.free_links;
      front_links = lf;
      settled = tt;
      back_links = lb;
      free_distinct = i.free_distinct;
      front_distinct = df;
      back_distinct = db;
      between = between;
      free_front = ff;
      free_back = fb;
      out_free = ofree;
      out_front = of;
      out_back = ob;
    }

-- The first of the used blocks, once it is taken off.
unlink_allocated-IsFreeing :
    (s : Pool) (p : ℕ) (free back : List ℕ)
    → IsPool s none free (p ∷ back)
    → (t : Pool) × (unlink_allocated p s ≡ some t)
      × IsFreeing t p none none none free [] back
      × (t.max_size ≡ s.max_size)
unlink_allocated-IsFreeing s p free back i =
    let (ob, db) = i.used_distinct in
    let (ofree, fb) = Apart-uncons p free back i.apart in
    let (at, lb) = i.used_links in
    let (t, e, l, k) = link_prev-front (some p) none back none s db lb in
    (
      record t { allocated = first_of back none },
      unlink_allocated-head p (record { prev = none; next = first_of back none }) s t i.allocs at e,
      record {
        header = k.kept p ob ∙ at;
        frees = k.frees ∙ i.frees;
        allocs = refl;
        free_links = IsLinked-kept s t none free back none k fb i.free_links;
        front_links = tt;
        settled = refl;
        back_links = l;
        free_distinct = i.free_distinct;
        front_distinct = tt;
        back_distinct = db;
        between = tt;
        free_front = Apart-nil free;
        free_back = fb;
        out_free = ofree;
        out_front = tt;
        out_back = ob;
      },
      k.sizes,
    )

pub free_block-IsPool :
    (s : Pool) (ptr : ℕ) (raw : Option ℕ) (free front back : List ℕ)
    → IsSettled raw front
    → IsPool s raw free (front ++ (ptr - block_size) ∷ back)
    → (t : Pool) × (free_block (some ptr) s ≡ some t)
      × IsPool t raw ((ptr - block_size) ∷ free) (front ++ back)
      × (t.max_size ≡ s.max_size)
unfolding free_block
free_block-IsPool s ptr raw free [] back r i0 =
    let p = ptr - block_size in
    let i = subst (λ q. IsPool s q free (p ∷ back)) r i0 in
    let (t, e, j, z) = unlink_allocated-IsFreeing s p free back i in
    let (u, f, k, y) = link_free-IsPool t p none none none free [] back j in
    (
      u,
      ap (λ o. then_pool o (link_free p)) e ∙ f,
      subst (λ q. IsPool u q (p ∷ free) back) (sym r) k,
      y ∙ z,
    )
free_block-IsPool s ptr raw free (a ∷ front) back r i =
    let p = ptr - block_size in
    let j = other-IsFreeing s p a raw free front back i in
    let (u, f, k, y) = link_free-IsPool s p raw (some p) (some p) free (a ∷ front) back j in
    (
      u,
      ap (λ o. then_pool o (link_free p)) (unlink_allocated-other p a s i.allocs j.out_front.0) ∙ f,
      k,
      y,
    )

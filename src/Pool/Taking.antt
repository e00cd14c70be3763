-- ===== src/Pool/Taking.antt =====
-- The pool as two lists of blocks, and what `Allocate` does to them.
use nexer.Prelude.{ℕ, ◌+◌, ◌≡◌, refl, ap, ◌∙◌, Option, none, some, List, [], ◌∷◌}
use nexer.Pool.{
  then_pool, Block, Pool, put_block, set_next, link_prev, block_size, usable, link_allocated,
  unlink_free, allocate_block,
}
use nexer.Pool.Segments.{
  Out, Apart, Distinct, first_of, IsLinked, IsLinked-kept, put_block-at, put_block-Touches,
  link_prev-front, Out-one,
}
use nexer.Pool.Lists.{Apart-flip, Apart-cons}

-- The free blocks and the others, in the order of the two lists: each list is linked both ways, and no
-- block is in them twice. `raw` is what stands in front of the newest used block.
pub record IsPool (s : Pool) (raw : Option ℕ) (free used : List ℕ) : Type 0 where
  pub frees : s.free_list ≡ first_of free none
  pub allocs : s.allocated ≡ first_of used none
  pub free_links : IsLinked s.heap none free none
  pub used_links : IsLinked s.heap raw used none
  pub free_distinct : Distinct free
  pub used_distinct : Distinct used
  pub apart : Apart free used

pub link_allocated-IsPool :
    (p : ℕ) (q n raw : Option ℕ) (free used : List ℕ) (s : Pool)
    → s.heap p ≡ some (record { prev = q; next = n })
    → Out p free
    → Out p used
    → IsPool s raw free used
    → (t : Pool) × (link_allocated p s ≡ some ((p + block_size, usable s.max_size), t))
      × IsPool t q free (p ∷ used)
      × (t.max_size ≡ s.max_size)
unfolding link_allocated set_next
link_allocated-IsPool p q n raw free used s e of ou i =
    let (t, w, l, k) = link_prev-front raw (some p) used none s i.used_distinct i.used_links in
    let w' = ap (λ a. link_prev a (some p) s) i.allocs ∙ w in
    let at : t.heap p ≡ some (record { prev = q; next = n }) = k.kept p ou ∙ e in
    let b : Block = record { prev = q; next = t.allocated } in
    let u = put_block p b t in
    let v = put_block-Touches p b t in
    (
      record u { allocated = some p },
      rw (w', at, k.sizes) refl,
      record {
        frees = k.frees ∙ i.frees;
        allocs = refl;
        free_links =
            IsLinked-kept t u none free (p ∷ []) none v (Out-one p free of)
              (IsLinked-kept s t none free used none k i.apart i.free_links);
        used_links = (
          put_block-at p b t ∙ ap (λ m. some (record { prev = q; next = m })) (k.allocs ∙ i.allocs),
          IsLinked-kept t u (some p) used (p ∷ []) none v (Out-one p used ou) l,
        );
        free_distinct = i.free_distinct;
        used_distinct = (ou, i.used_distinct);
        apart = Apart-cons p free used of i.apart;
      },
      k.sizes,
    )

-- The free blocks after the next call.
abbrev pub rest_of : List ℕ → List ℕ
rest_of [] = []
rest_of (p ∷ free) = free

unlink_free-IsPool :
    (p : ℕ) (raw : Option ℕ) (free used : List ℕ) (s : Pool)
    → IsPool s raw (p ∷ free) used
    → (t : Pool) × (unlink_free p s ≡ some t)
      × IsPool t raw free used
      × (t.heap p ≡ some (record { prev = none; next = first_of free none }))
      × (t.max_size ≡ s.max_size)
unfolding unlink_free
unlink_free-IsPool p raw free used s i =
    let (o, d) = i.free_distinct in
    let (ou, a) = i.apart in
    let (e, links) = i.free_links in
    let (t, w, l, k) = link_prev-front (some p) none free none s d links in
    (
      record t { free_list = first_of free none },
      rw (e, w) refl,
      record {
        frees = refl;
        allocs = k.allocs ∙ i.allocs;
        free_links = l;
        used_links = IsLinked-kept s t raw used free none k (Apart-flip free used a) i.used_links;
        free_distinct = d;
        used_distinct = i.used_distinct;
        apart = a;
      },
      k.kept p o ∙ e,
      k.sizes,
    )

put_block-IsPool :
    (p : ℕ) (b : Block) (raw : Option ℕ) (free used : List ℕ) (s : Pool)
    → Out p free
    → Out p used
    → IsPool s raw free used
    → IsPool (put_block p b s) raw free used
put_block-IsPool p b raw free used s of ou i =
    let t = put_block p b s in
    let k = put_block-Touches p b s in
    record {
      frees = i.frees;
      allocs = i.allocs;
      free_links = IsLinked-kept s t none free (p ∷ []) none k (Out-one p free of) i.free_links;
      used_links = IsLinked-kept s t raw used (p ∷ []) none k (Out-one p used ou) i.used_links;
      free_distinct = i.free_distinct;
      used_distinct = i.used_distinct;
      apart = i.apart;
    }

-- What `malloc` answers where it is called: a block that the pool does not have.
abbrev pub IsFresh : Option (ℕ × Block) → List ℕ → List ℕ → Type 0
IsFresh answer (p ∷ free) used = Unit
IsFresh none [] used = ⊥
IsFresh (some (p, b)) [] used = Out p used

abbrev pub taken : Option (ℕ × Block) → List ℕ → ℕ
taken answer (p ∷ free) = p
taken none [] = 0
taken (some (p, b)) [] = p

-- The `prev` in the header of that block: that of a free block is null, and that of a block from
-- `malloc` is whatever the memory holds.
abbrev pub prev_taken : Option (ℕ × Block) → List ℕ → Option ℕ
prev_taken answer (p ∷ free) = none
prev_taken none [] = none
prev_taken (some (p, b)) [] = b.prev

allocate_block-fresh :
    (p : ℕ) (b : Block) (s : Pool)
    → s.free_list ≡ none
    → allocate_block (some (p, b)) s ≡ link_allocated p (put_block p b s)
unfolding allocate_block
allocate_block-fresh p b s e =
    ap
      (λ m. elim m [
        | some q ↦ then_pool (unlink_free q s) (link_allocated q)
        | none ↦ link_allocated p (put_block p b s)
      ])
      e

allocate_block-reused :
    (answer : Option (ℕ × Block)) (p : ℕ) (s t : Pool)
    → s.free_list ≡ some p
    → unlink_free p s ≡ some t
    → allocate_block answer s ≡ link_allocated p t
unfolding allocate_block
allocate_block-reused answer p s t e w =
    ap
      (λ m. elim m [
        | some q ↦ then_pool (unlink_free q s) (link_allocated q)
        | none ↦ elim answer [ none ↦ none | some (q, b) ↦ link_allocated q (put_block q b s) ]
      ])
      e
    ∙ ap (λ o. then_pool o (link_allocated p)) w

pub allocate_block-IsPool :
    (answer : Option (ℕ × Block)) (raw : Option ℕ) (free used : List ℕ) (s : Pool)
    → IsPool s raw free used
    → IsFresh answer free used
    → (t : Pool) × (allocate_block answer s
        ≡ some ((taken answer free + block_size, usable s.max_size), t))
      × IsPool t (prev_taken answer free) (rest_of free) (taken answer free ∷ used)
      × (t.max_size ≡ s.max_size)
unfolding allocate_block
allocate_block-IsPool answer raw (p ∷ free) used s i f =
    let (t, w, j, e, m) = unlink_free-IsPool p raw free used s i in
    let (o, d) = i.free_distinct in
    let (ou, a) = i.apart in
    let (u, x, k, z) = link_allocated-IsPool p none (first_of free none) raw free used t e o ou j in
    (
      u,
      allocate_block-reused answer p s t i.frees w
          ∙ x
          ∙ ap (λ n. some ((p + block_size, usable n), u)) m,
      k,
      z ∙ m,
    )
allocate_block-IsPool none raw [] used s i f = absurd f
allocate_block-IsPool (some (p, b)) raw [] used s i o =
    let j = put_block-IsPool p b raw [] used s tt o i in
    let at = put_block-at p b s in
    let (u, x, k, z) =
      link_allocated-IsPool p b.prev b.next raw [] used (put_block p b s) at tt o j in
    (u, allocate_block-fresh p b s i.frees ∙ x, k, z)

-- ===== src/Pool/Giving.antt =====
-- What `Free(Block*)` does once the block is off the head of the used ones.
use nexer.Prelude.{◌++◌, ℕ, ◌≡◌, refl, ap, ◌∙◌, Option, none, some, List, [], ◌∷◌}
use nexer.Pool.{Block, Pool, put_block, set_prev, set_next, link_prev, link_next, link_free}
use nexer.Pool.Segments.{
  Out, Apart, Distinct, first_of, last_of, IsLinked, Touches, IsLinked-kept, put_block-at,
  put_block-Touches, link_prev-front, link_next-back, Out-one, Touches-refl,
}
use nexer.Pool.Lists.{Apart-flip, Apart-join, Distinct-join, IsLinked-join, Out-join}
use nexer.Pool.Taking.{IsPool}

Touches-trans : (zs : List ℕ) (s t u : Pool) → Touches zs s t → Touches zs t u → Touches zs s u
Touches-trans zs s t u k l = record {
  kept = λ r o. l.kept r o ∙ k.kept r o;
  frees = l.frees ∙ k.frees;
  allocs = l.allocs ∙ k.allocs;
  sizes = l.sizes ∙ k.sizes;
}

set_prev-put :
    (p : ℕ) (q : Option ℕ) (b : Block) (s : Pool)
    → s.heap p ≡ some b
    → set_prev p q s ≡ some (put_block p (record b { prev = q }) s)
unfolding set_prev
set_prev-put p q b s e = rw e refl

set_next-put :
    (p : ℕ) (q : Option ℕ) (b : Block) (s : Pool)
    → s.heap p ≡ some b
    → set_next p q s ≡ some (put_block p (record b { next = q }) s)
unfolding set_next
set_next-put p q b s e = rw e refl

-- There is a block, or no pointer that would be followed in its place.
abbrev pub IsSettled : Option ℕ → List ℕ → Type 0
IsSettled raw [] = raw ≡ none
IsSettled raw (x ∷ xs) = Unit

link_next-last :
    (raw : Option ℕ) (xs : List ℕ) (n m : Option ℕ) (s : Pool)
    → IsSettled raw xs
    → Distinct xs
    → IsLinked s.heap raw xs n
    → (t : Pool) × (link_next (last_of raw xs) m s ≡ some t)
      × IsLinked t.heap raw xs m
      × Touches xs s t
unfolding link_next
link_next-last raw [] n m s e d l = (s, rw e refl, tt, Touches-refl s)
link_next-last raw (x ∷ xs) n m s e d l = link_next-back raw x xs n m s d l

-- The steps of `Free` one by one.
link_free-steps :
    (p : ℕ) (b : Block) (s t u v w x : Pool)
    → s.heap p ≡ some b
    → link_prev b.next b.prev s ≡ some t
    → link_next b.prev b.next t ≡ some u
    → set_prev p none u ≡ some v
    → set_next p v.free_list v ≡ some w
    → link_prev w.free_list (some p) w ≡ some x
    → link_free p s ≡ some (record x { free_list = some p })
unfolding link_free
link_free-steps p b s t u v w x e f g h i j = rw (e, f, g, h, i, j) refl

-- A block that is about to be freed, with the used blocks in front of it and behind it.
pub record IsFreeing (s : Pool) (p : ℕ) (raw q n : Option ℕ) (free front back : List ℕ)
    : Type 0 where
  pub header : s.heap p ≡ some (record { prev = last_of raw front; next = first_of back none })
  pub frees : s.free_list ≡ first_of free none
  pub allocs : s.allocated ≡ first_of (front ++ back) none
  pub free_links : IsLinked s.heap none free none
  pub front_links : IsLinked s.heap raw front n
  pub settled : IsSettled raw front
  pub back_links : IsLinked s.heap q back none
  pub free_distinct : Distinct free
  pub front_distinct : Distinct front
  pub back_distinct : Distinct back
  pub between : Apart front back
  pub free_front : Apart free front
  pub free_back : Apart free back
  pub out_free : Out p free
  pub out_front : Out p front
  pub out_back : Out p back

pub link_free-IsPool :
    (s : Pool) (p : ℕ) (raw q n : Option ℕ) (free front back : List ℕ)
    → IsFreeing s p raw q n free front back
    → (t : Pool) × (link_free p s ≡ some t)
      × IsPool t raw (p ∷ free) (front ++ back)
      × (t.max_size ≡ s.max_size)
link_free-IsPool s p raw q n free front back i =
    let before = last_of raw front in
    let after = first_of back none in
    let (t, e, lb, k) = link_prev-front q before back none s i.back_distinct i.back_links in
    let (u, f, lf, l) =
      link_next-last raw front n after t i.settled i.front_distinct
        (IsLinked-kept s t raw front back n k i.between i.front_links) in
    let at : u.heap p ≡ some (record { prev = before; next = after }) =
      l.kept p i.out_front ∙ k.kept p i.out_back ∙ i.header in
    let v = put_block p (record { prev = none; next = after }) u in
    let w = put_block p (record { prev = none; next = u.free_list }) v in
    let two : Touches (p ∷ []) u w =
      Touches-trans (p ∷ []) u v w (put_block-Touches p (record { prev = none; next = after }) u)
        (put_block-Touches p (record { prev = none; next = u.free_list }) v) in
    let at_v = put_block-at p (record { prev = none; next = after }) u in
    let first_free : u.free_list ≡ first_of free none = l.frees ∙ k.frees ∙ i.frees in
    let free_u =
      IsLinked-kept t u none free front none l i.free_front
        (IsLinked-kept s t none free back none k i.free_back i.free_links) in
    let free_w = IsLinked-kept u w none free (p ∷ []) none two (Out-one p free i.out_free) free_u in
    let (x, g, lx, m) = link_prev-front none (some p) free none w i.free_distinct free_w in
    let front_x =
      IsLinked-kept w x raw front free after m (Apart-flip free front i.free_front)
        (IsLinked-kept u w raw front (p ∷ []) after two (Out-one p front i.out_front) lf) in
    let back_x = IsLinked-kept w x before back free none m (Apart-flip free back i.free_back) (
      IsLinked-kept u w before back (p ∷ []) none two (Out-one p back i.out_back)
        (IsLinked-kept t u before back front none l (Apart-flip front back i.between) lb)) in
    (
      record x { free_list = some p },
      link_free-steps p (record { prev = before; next = after }) s t u v w x i.header e f
          (set_prev-put p none (record { prev = before; next = after }) u at)
          (set_next-put p v.free_list (record { prev = none; next = after }) v at_v)
          (ap (λ m. link_prev m (some p) w) first_free ∙ g),
      record {
        frees = refl;
        allocs = m.allocs ∙ l.allocs ∙ k.allocs ∙ i.allocs;
        free_links = (
          m.kept p i.out_free
              ∙ put_block-at p (record { prev = none; next = u.free_list }) v
              ∙ ap (λ m. some (record { prev = none; next = m })) first_free,
          lx,
        );
        used_links = IsLinked-join x.heap raw front back none front_x back_x;
        free_distinct = (i.out_free, i.free_distinct);
        used_distinct = Distinct-join front back i.front_distinct i.back_distinct i.between;
        apart = (
          Out-join p front back i.out_front i.out_back,
          Apart-join free front back i.free_front i.free_back,
        );
      },
      m.sizes ∙ l.sizes ∙ k.sizes,
    )

-- ===== src/Pool/Segments.antt =====
-- Doubly linked lists in the pool's heap, and what a change of one block leaves alone.
use nexer.Prelude.{
  ℕ, ◌≡◌, refl, ◌∙◌, false, Option, none, some, List, [], ◌∷◌, arith, ◌==◌, ==-refl,
}
use nexer.Pool.{Block, Pool, put_block, set_prev, set_next, link_prev, link_next}

-- `p` is none of them.
abbrev pub Out : ℕ → List ℕ → Type 0
Out p [] = Unit
Out p (x ∷ xs) = ((x == p) ≡ false) × Out p xs

abbrev pub Apart : List ℕ → List ℕ → Type 0
Apart [] ys = Unit
Apart (x ∷ xs) ys = Out x ys × Apart xs ys

abbrev pub Distinct : List ℕ → Type 0
Distinct [] = Unit
Distinct (x ∷ xs) = Out x xs × Distinct xs

abbrev pub first_of : List ℕ → Option ℕ → Option ℕ
first_of [] n = n
first_of (x ∷ xs) n = some x

abbrev pub last_of : Option ℕ → List ℕ → Option ℕ
last_of q [] = q
last_of q (x ∷ xs) = last_of (some x) xs

-- The blocks are linked both ways; `q` is in front of the first one, and `n` behind the last one.
abbrev pub IsLinked : (ℕ → Option Block) → Option ℕ → List ℕ → Option ℕ → Type 0
IsLinked h q [] n = Unit
IsLinked h q (x ∷ xs) n =
    (h x ≡ some (record { prev = q; next = first_of xs n })) × IsLinked h (some x) xs n

-- Two pools that differ in no more than these blocks.
pub record Touches (zs : List ℕ) (s t : Pool) : Type 0 where
  pub kept : (r : ℕ) → Out r zs → t.heap r ≡ s.heap r
  pub frees : t.free_list ≡ s.free_list
  pub allocs : t.allocated ≡ s.allocated
  pub sizes : t.max_size ≡ s.max_size

pub ==-flip : (m n : ℕ) → (m == n) ≡ false → (n == m) ≡ false
==-flip m n e = ground arith

pub put_block-at : (p : ℕ) (b : Block) (s : Pool) → (put_block p b s).heap p ≡ some b
put_block-at p b s = rw (==-refl p) refl

pub put_block-Touches : (p : ℕ) (b : Block) (s : Pool) → Touches (p ∷ []) s (put_block p b s)
put_block-Touches p b s = record {
  kept = λ r (e, u). rw (==-flip p r e) refl;
  frees = refl;
  allocs = refl;
  sizes = refl;
}

pub Touches-refl : (s : Pool) → Touches [] s s
Touches-refl s = record { kept = λ r o. refl; frees = refl; allocs = refl; sizes = refl }

pub IsLinked-kept :
    (s t : Pool) (q : Option ℕ) (xs zs : List ℕ) (n : Option ℕ)
    → Touches zs s t
    → Apart xs zs
    → IsLinked s.heap q xs n
    → IsLinked t.heap q xs n
IsLinked-kept s t q [] zs n k a l = tt
IsLinked-kept s t q (x ∷ xs) zs n k (o, a) (e, l) =
    (k.kept x o ∙ e, IsLinked-kept s t (some x) xs zs n k a l)

pub Touches-more : (x : ℕ) (zs : List ℕ) (s t : Pool) → Touches (x ∷ []) s t → Touches (x ∷ zs) s t
Touches-more x zs s t k = record {
  kept = λ r (e, o). k.kept r (e, tt);
  frees = k.frees;
  allocs = k.allocs;
  sizes = k.sizes;
}

Touches-under : (x : ℕ) (zs : List ℕ) (s t : Pool) → Touches zs s t → Touches (x ∷ zs) s t
Touches-under x zs s t k = record {
  kept = λ r (e, o). k.kept r o;
  frees = k.frees;
  allocs = k.allocs;
  sizes = k.sizes;
}

pub Out-one : (p : ℕ) (xs : List ℕ) → Out p xs → Apart xs (p ∷ [])
Out-one p [] o = tt
Out-one p (x ∷ xs) (e, o) = ((==-flip x p e, tt), Out-one p xs o)

-- What comes before the first block is changed.
pub link_prev-front :
    (q r : Option ℕ) (ys : List ℕ) (n : Option ℕ) (s : Pool)
    → Distinct ys
    → IsLinked s.heap q ys n
    → (t : Pool) × (link_prev (first_of ys none) r s ≡ some t)
      × IsLinked t.heap r ys n
      × Touches ys s t
unfolding link_prev set_prev
link_prev-front q r [] n s d l = (s, refl, tt, Touches-refl s)
link_prev-front q r (y ∷ ys) n s (o, d) (e, l) =
    let b : Block = record { prev = r; next = first_of ys n } in
    let t = put_block y b s in
    let k = put_block-Touches y b s in
    (
      t,
      rw e refl,
      (put_block-at y b s, IsLinked-kept s t (some y) ys (y ∷ []) n k (Out-one y ys o) l),
      Touches-more y ys s t k,
    )

-- What comes after the last block is changed.
pub link_next-back :
    (q : Option ℕ) (x : ℕ) (xs : List ℕ) (n m : Option ℕ) (s : Pool)
    → Distinct (x ∷ xs)
    → IsLinked s.heap q (x ∷ xs) n
    → (t : Pool) × (link_next (last_of (some x) xs) m s ≡ some t)
      × IsLinked t.heap q (x ∷ xs) m
      × Touches (x ∷ xs) s t
unfolding link_next set_next
link_next-back q x [] n m s d (e, l) =
    let b : Block = record { prev = q; next = m } in
    (put_block x b s, rw e refl, (put_block-at x b s, tt), put_block-Touches x b s)
link_next-back q x (y ∷ ys) n m s (o, d) (e, l) =
    let (t, w, g, k) = link_next-back (some x) y ys n m s d l in
    (t, w, (k.kept x o ∙ e, g), Touches-under x (y ∷ ys) s t k)

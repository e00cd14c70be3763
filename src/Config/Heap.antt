-- ===== src/Config/Heap.antt =====
-- The apps as a heap: growing it and writing through a pointer.
use Prim.Native.String.{String}
use nexer.Prelude.{
  ℕ, zero, suc, ◌<◌, ◌≡◌, refl, sym, ap, Option, none, some, List, [], ◌∷◌, ◌++◌, arith, length,
  All,
}
use nexer.Config.Types.{App}
use nexer.Config.Parser.{assign}

-- The name of the app that a pointer leads to.
abbrev pub name_of : List App → ℕ → Option String
name_of [] p = none
name_of (a ∷ heap) zero = some a.name
name_of (a ∷ heap) (suc p) = name_of heap p

abbrev pub AllBelow : ℕ → List ℕ → Type 0
AllBelow n = All (λ p. p < n)

pub All-mono {ℓ κ μ} :
    {A : Type ℓ} (P : A → Type κ) (Q : A → Type μ) (xs : List A)
    → ((a : A) → P a → Q a)
    → All P xs
    → All Q xs
All-mono P Q [] h v = tt
All-mono P Q (x ∷ xs) h (p, v) = (h x p, All-mono P Q xs h v)

pub All-append {ℓ κ} :
    {A : Type ℓ} (P : A → Type κ) (xs ys : List A) → All P xs → All P ys → All P (xs ++ ys)
All-append P [] ys v w = w
All-append P (x ∷ xs) ys (p, v) w = (p, All-append P xs ys v w)

pub length-assign : (heap : List App) (p : ℕ) (a : App) → length (assign heap p a) ≡ length heap
unfolding assign
length-assign [] p a = refl
length-assign (x ∷ heap) zero a = refl
length-assign (x ∷ heap) (suc p) a = ap suc (length-assign heap p a)

-- A write that keeps the name keeps all names.
pub name_of-assign :
    (heap : List App) (p q : ℕ) (a : App)
    → name_of heap p ≡ some a.name
    → name_of (assign heap p a) q ≡ name_of heap q
unfolding assign
name_of-assign [] p q a h = refl
name_of-assign (x ∷ heap) zero zero a h = sym h
name_of-assign (x ∷ heap) zero (suc q) a h = refl
name_of-assign (x ∷ heap) (suc p) zero a h = refl
name_of-assign (x ∷ heap) (suc p) (suc q) a h = name_of-assign heap p q a h

pub name_of-append :
    (heap rest : List App) (p : ℕ) (n : String)
    → name_of heap p ≡ some n
    → name_of (heap ++ rest) p ≡ some n
name_of-append [] rest p n h = cc
name_of-append (x ∷ heap) rest zero n h = h
name_of-append (x ∷ heap) rest (suc p) n h = name_of-append heap rest p n h

pub name_of-length :
    (heap : List App) (a : App) → name_of (heap ++ a ∷ []) (length heap) ≡ some a.name
name_of-length [] a = refl
name_of-length (x ∷ heap) a = name_of-length heap a

pub name_of-lt : (heap : List App) (p : ℕ) (n : String) → name_of heap p ≡ some n → p < length heap
name_of-lt [] p n h = cc
name_of-lt (x ∷ heap) zero n h = omega arith
name_of-lt (x ∷ heap) (suc p) n h = omega (arith, name_of-lt heap p n h)

pub All-assign {κ} :
    (P : App → Type κ) (heap : List App) (p : ℕ) (a : App)
    → P a
    → All P heap
    → All P (assign heap p a)
unfolding assign
All-assign P [] p a h v = tt
All-assign P (x ∷ heap) zero a h (w, v) = (h, v)
All-assign P (x ∷ heap) (suc p) a h (w, v) = (w, All-assign P heap p a h v)

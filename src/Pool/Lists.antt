-- ===== src/Pool/Lists.antt =====
-- Lists of blocks that hold no block twice.
use nexer.Prelude.{ℕ, ◌≡◌, refl, sym, ap, ◌∙◌, Option, some, List, [], ◌∷◌, ◌++◌}
use nexer.Pool.{Block}
use nexer.Pool.Segments.{Out, Apart, Distinct, first_of, last_of, IsLinked, ==-flip}

pub Out-append : (p : ℕ) (xs ys : List ℕ) → Out p (xs ++ ys) → Out p xs × Out p ys
Out-append p [] ys o = (tt, o)
Out-append p (x ∷ xs) ys (e, o) = let (a, b) = Out-append p xs ys o in ((e, a), b)

pub Out-join : (p : ℕ) (xs ys : List ℕ) → Out p xs → Out p ys → Out p (xs ++ ys)
Out-join p [] ys a b = b
Out-join p (x ∷ xs) ys (e, a) b = (e, Out-join p xs ys a b)

pub Apart-nil : (xs : List ℕ) → Apart xs []
Apart-nil [] = tt
Apart-nil (x ∷ xs) = (tt, Apart-nil xs)

pub Apart-append : (xs ys zs : List ℕ) → Apart xs (ys ++ zs) → Apart xs ys × Apart xs zs
Apart-append [] ys zs a = (tt, tt)
Apart-append (x ∷ xs) ys zs (o, a) =
    let (b, c) = Out-append x ys zs o in let (d, e) = Apart-append xs ys zs a in ((b, d), (c, e))

pub Apart-join : (xs ys zs : List ℕ) → Apart xs ys → Apart xs zs → Apart xs (ys ++ zs)
Apart-join [] ys zs a b = tt
Apart-join (x ∷ xs) ys zs (o, a) (u, b) = (Out-join x ys zs o u, Apart-join xs ys zs a b)

pub Apart-cons : (p : ℕ) (xs ys : List ℕ) → Out p xs → Apart xs ys → Apart xs (p ∷ ys)
Apart-cons p [] ys o a = tt
Apart-cons p (x ∷ xs) ys (e, o) (u, a) = ((==-flip x p e, u), Apart-cons p xs ys o a)

pub Apart-uncons : (p : ℕ) (xs ys : List ℕ) → Apart xs (p ∷ ys) → Out p xs × Apart xs ys
Apart-uncons p [] ys a = (tt, tt)
Apart-uncons p (x ∷ xs) ys ((e, o), a) =
    let (b, c) = Apart-uncons p xs ys a in ((==-flip p x e, b), (o, c))

pub Apart-flip : (xs ys : List ℕ) → Apart xs ys → Apart ys xs
Apart-flip [] ys a = Apart-nil ys
Apart-flip (x ∷ xs) ys (o, a) = Apart-cons x ys xs o (Apart-flip xs ys a)

pub Distinct-append :
    (xs ys : List ℕ) → Distinct (xs ++ ys) → Distinct xs × Distinct ys × Apart xs ys
Distinct-append [] ys d = (tt, d, tt)
Distinct-append (x ∷ xs) ys (o, d) =
    let (a, b, c) = Distinct-append xs ys d in
    let (u, v) = Out-append x xs ys o in ((u, a), b, (v, c))

pub Distinct-join : (xs ys : List ℕ) → Distinct xs → Distinct ys → Apart xs ys → Distinct (xs ++ ys)
Distinct-join [] ys d e a = e
Distinct-join (x ∷ xs) ys (o, d) e (u, a) = (Out-join x xs ys o u, Distinct-join xs ys d e a)

first_of-append :
    (xs ys : List ℕ) (n : Option ℕ) → first_of (xs ++ ys) n ≡ first_of xs (first_of ys n)
first_of-append [] ys n = refl
first_of-append (x ∷ xs) ys n = refl

pub IsLinked-append :
    (h : ℕ → Option Block) (q : Option ℕ) (xs ys : List ℕ) (n : Option ℕ)
    → IsLinked h q (xs ++ ys) n
    → IsLinked h q xs (first_of ys n) × IsLinked h (last_of q xs) ys n
IsLinked-append h q [] ys n l = (tt, l)
IsLinked-append h q (x ∷ xs) ys n (e, l) =
    let (a, b) = IsLinked-append h (some x) xs ys n l in
    ((e ∙ ap (λ m. some (record { prev = q; next = m })) (first_of-append xs ys n), a), b)

pub IsLinked-join :
    (h : ℕ → Option Block) (q : Option ℕ) (xs ys : List ℕ) (n : Option ℕ)
    → IsLinked h q xs (first_of ys n)
    → IsLinked h (last_of q xs) ys n
    → IsLinked h q (xs ++ ys) n
IsLinked-join h q [] ys n a b = b
IsLinked-join h q (x ∷ xs) ys n (e, a) b = (
  e ∙ ap (λ m. some (record { prev = q; next = m })) (sym (first_of-append xs ys n)),
  IsLinked-join h (some x) xs ys n a b,
)

-- ===== src/Server/Patches.antt =====
-- What a write leaves alone in a block of memory, and what is read back.
use mathlib.Core.Path.{subst}
use nexer.Prelude.{
  ℕ, zero, suc, ◌+◌, ◌≤◌, ◌≡◌, refl, ap, ◌∙◌, true, some, [], ◌∷◌, ◌++◌, append_assoc, arith, Bytes,
  length, length-append, take, drop, leb,
}
use nexer.Buffer.Memory.{drop-append, take-append, store_at, length-take, length-drop}

take-patched : (n i : ℕ) (m x : Bytes) → n ≤ i → i ≤ length m → take n (take i m ++ x) ≡ take n m
take-patched zero i m x h l = refl
take-patched (suc n) zero m x h l = absurd (omega arith)
take-patched (suc n) (suc i) [] x h l = absurd (omega arith)
take-patched (suc n) (suc i) (c ∷ m) x h l =
    ap (λ (s : Bytes). c ∷ s) (take-patched n i m x (omega arith) (omega arith))

drop-patched :
    (n : ℕ) (x m : Bytes)
    → length x ≤ n
    → length x ≤ length m
    → drop n (x ++ drop (length x) m) ≡ drop n m
drop-patched n [] m h l = refl
drop-patched zero (c ∷ x) m h l = absurd (omega arith)
drop-patched (suc n) (c ∷ x) [] h l = absurd (omega arith)
drop-patched (suc n) (c ∷ x) (d ∷ m) h l = drop-patched n x m (omega arith) (omega arith)

-- A write of `s` from `i` on, which changes nothing before `low` and nothing from `high` on.
pub record Written (i low high : ℕ) (s m t : Bytes) : Type 0 where
  pub stored : store_at i s m ≡ some t
  pub size : length t ≡ length m
  pub before : take low t ≡ take low m
  pub behind : drop high t ≡ drop high m
  pub back : take (length s) (drop i t) ≡ s

pub store_at-Written :
    (i low high : ℕ) (s m : Bytes)
    → low ≤ i
    → i + length s ≤ high
    → i + length s ≤ length m
    → (t : Bytes) × Written i low high s m t
unfolding store_at
store_at-Written i low high s m a b c =
    let x = take i m in
    let rest = drop (i + length s) m in
    let lx = length-take i m (omega arith) in
    let lr = length-drop (i + length s) m c in
    let l1 = length-append (x ++ s) rest in
    let l3 = length-append x s in
    let both : length (x ++ s) ≡ i + length s = omega arith in
    let fits : leb (i + length s) (length m) ≡ true = ground arith in
    (
      x ++ s ++ rest,
      record {
        stored = rw fits refl;
        size = omega arith;
        before = rw (append_assoc x s rest) (take-patched low i m (s ++ rest) a (omega arith));
        behind =
            subst (λ k. drop high (x ++ s ++ drop k m) ≡ drop high m) both
              (drop-patched high (x ++ s) m (omega arith) (omega arith));
        back =
            ap (take (length s)) (
              ap (drop i) (append_assoc x s rest)
              ∙ subst (λ k. drop k (x ++ (s ++ rest)) ≡ s ++ rest) lx (drop-append x (s ++ rest)))
            ∙ take-append s rest;
      },
    )

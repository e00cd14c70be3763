-- ===== src/Handle/Listeners.antt =====
-- `FunctionList` of include/function_list.h. A function is a number, and so is the node of the list
-- that holds it; a node's number is not used again. A function that is invoked leaves the list alone.
use nexer.Prelude.{
  ℕ, suc, ◌≡◌, refl, sym, ap, ◌∙◌, inl, inr, Bool, true, false, ◌||◌, Option, none, some, List, [],
  ◌∷◌, ◌++◌, map, append_assoc, append-nil, ◌==◌, if◌then◌else◌, Bool-cases,
}

pub record FunctionList : Type 0 where
  pub fn_list : List (ℕ × ℕ)
  pub next : ℕ

abbrev pub new_list : FunctionList
new_list = record { fn_list = []; next = 0 }

-- `Add`; the function that it returns removes the node of the number `next`.
unfoldable pub add : ℕ → FunctionList → FunctionList
add f l = record { fn_list = l.fn_list ++ (l.next, f) ∷ []; next = suc l.next }

abbrev pub has_node : ℕ → List (ℕ × ℕ) → Bool
has_node k [] = false
has_node k ((n, f) ∷ ns) = k == n || has_node k ns

abbrev pub without : ℕ → List (ℕ × ℕ) → List (ℕ × ℕ)
without k [] = []
without k ((n, f) ∷ ns) = let rest = without k ns in if k == n then rest else (n, f) ∷ rest

-- The function that `Add` returned; none where the node is gone.
unfoldable pub remove_node : ℕ → FunctionList → Option FunctionList
remove_node k l =
    if has_node k l.fn_list then some (record l { fn_list = without k l.fn_list }) else none

-- `Invoke`: the functions that are called, in order.
unfoldable pub invoke_all : FunctionList → List ℕ
invoke_all l = map (λ (n, f). f) l.fn_list

pub data Change : Type 0 where
  added : ℕ → Change
  removed : ℕ → Change

abbrev pub then_change :
    Option FunctionList → (FunctionList → Option FunctionList) → Option FunctionList
then_change none k = none
then_change (some l) k = k l

unfoldable pub changes : List Change → FunctionList → Option FunctionList
changes [] l = some l
changes (added f ∷ cs) l = changes cs (add f l)
changes (removed k ∷ cs) l = then_change (remove_node k l) (changes cs)

-- Each node that is removed is in the list.
abbrev pub IsFair : List Change → FunctionList → Type 0
IsFair [] l = Unit
IsFair (added f ∷ cs) l = IsFair cs (add f l)
IsFair (removed k ∷ cs) l =
    (has_node k l.fn_list ≡ true) × IsFair cs (record l { fn_list = without k l.fn_list })

-- Whether a node is removed later on.
abbrev pub is_removed : ℕ → List Change → Bool
is_removed k [] = false
is_removed k (added f ∷ cs) = is_removed k cs
is_removed k (removed n ∷ cs) = n == k || is_removed k cs

-- The nodes of a list that are not removed.
abbrev pub stays : List Change → List (ℕ × ℕ) → List (ℕ × ℕ)
stays cs [] = []
stays cs ((n, f) ∷ ns) = let rest = stays cs ns in if is_removed n cs then rest else (n, f) ∷ rest

-- The nodes that are added and not removed, the number of the first one `n`.
abbrev pub survivors : ℕ → List Change → List (ℕ × ℕ)
survivors n [] = []
survivors n (added f ∷ cs) =
    let rest = survivors (suc n) cs in if is_removed n cs then rest else (n, f) ∷ rest
survivors n (removed k ∷ cs) = survivors n cs

stays-none : (ns : List (ℕ × ℕ)) → stays [] ns ≡ ns
stays-none [] = refl
stays-none ((n, f) ∷ ns) = ap (λ l. (n, f) ∷ l) (stays-none ns)

stays-append :
    (cs : List Change) (ns : List (ℕ × ℕ)) (n f : ℕ)
    → stays cs (ns ++ (n, f) ∷ []) ≡ stays cs ns ++ (if is_removed n cs then [] else (n, f) ∷ [])
stays-append cs [] n f = refl
stays-append cs ((k, g) ∷ ns) n f = elim (Bool-cases (is_removed k cs)) [
  | inl e ↦ rw e (stays-append cs ns n f)
  | inr e ↦ rw e (ap (λ l. (k, g) ∷ l) (stays-append cs ns n f))
]

stays-added : (f : ℕ) (cs : List Change) (ns : List (ℕ × ℕ)) → stays (added f ∷ cs) ns ≡ stays cs ns
stays-added f cs [] = refl
stays-added f cs ((n, g) ∷ ns) = rw (stays-added f cs ns) refl

stays-without :
    (k : ℕ) (cs : List Change) (ns : List (ℕ × ℕ))
    → stays cs (without k ns) ≡ stays (removed k ∷ cs) ns
stays-without k cs [] = refl
stays-without k cs ((n, f) ∷ ns) = elim (Bool-cases (k == n)) [
  | inl e ↦ rw e (stays-without k cs ns)
  | inr e ↦ elim (Bool-cases (is_removed n cs)) [
    | inl g ↦ rw (e, g) (stays-without k cs ns)
    | inr g ↦ rw (e, g) (ap (λ l. (n, f) ∷ l) (stays-without k cs ns))
  ]
]

survivors-added :
    (f : ℕ) (cs : List Change) (ns : List (ℕ × ℕ)) (n : ℕ)
    → stays cs (ns ++ (n, f) ∷ []) ++ survivors (suc n) cs
      ≡ stays (added f ∷ cs) ns ++ survivors n (added f ∷ cs)
survivors-added f cs ns n = elim (Bool-cases (is_removed n cs)) [
  | inl e ↦ rw (stays-append cs ns n f, stays-added f cs ns, e, append-nil (stays cs ns)) refl
  | inr e ↦
      rw (stays-append cs ns n f, stays-added f cs ns, e)
        (append_assoc (stays cs ns) ((n, f) ∷ []) (survivors (suc n) cs))
]

changes-stays :
    (cs : List Change) (l : FunctionList)
    → IsFair cs l
    → (m : FunctionList) × (changes cs l ≡ some m)
      × (m.fn_list ≡ stays cs l.fn_list ++ survivors l.next cs)
unfolding changes add remove_node
changes-stays [] l h = (l, refl, sym (append-nil (stays [] l.fn_list) ∙ stays-none l.fn_list))
changes-stays (added f ∷ cs) l h =
    let (m, e, s) = changes-stays cs (add f l) h in
    (m, e, s ∙ survivors-added f cs l.fn_list l.next)
changes-stays (removed k ∷ cs) l (g, h) =
    let (m, e, s) = changes-stays cs (record l { fn_list = without k l.fn_list }) h in
    (m, rw g e, s ∙ ap (λ x. x ++ survivors l.next cs) (stays-without k cs l.fn_list))

-- Where each function that `Add` returned is called at most once, and after it was returned, `Invoke`
-- calls exactly the functions that were added and not removed, in the order in which they were added.
pub invoke_all-changes :
    (cs : List Change)
    → IsFair cs new_list
    → (m : FunctionList) × (changes cs new_list ≡ some m)
      × (invoke_all m ≡ map (λ (n, f). f) (survivors 0 cs))
unfolding invoke_all
invoke_all-changes cs h =
    let (m, e, s) = changes-stays cs new_list h in (m, e, ap (map (λ (n, f). f)) s)

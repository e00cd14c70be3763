-- ===== src/Manager/Clear.antt =====
-- `ClearCallbacks` answers each client that waits once.
use nexer.Prelude.{
  append_assoc, sym, ap, length-append, ◌∙◌, arith, append-nil, ℕ, suc, ◌≡◌, refl, Option, none,
  some, List, [], ◌∷◌, ◌++◌, map, length, ==-refl,
}
use nexer.Prelude.Int.{ℤ}
use nexer.Manager.{
  App, Call, Did, Manager, get_app, put_app, say, Next, client, clear, invoke, called,
}
use nexer.Manager.Steps.{nth, clear_from, do_invoke, step, run}

pub get_app-put_app : (i : ℕ) (a : App) (m : Manager) → get_app i (put_app i a m) ≡ a
unfolding get_app
get_app-put_app i a m = rw (==-refl i) refl

nth-clients :
    (ds : List ℕ) (c : ℕ) (cs : List ℕ)
    → nth (length ds) (map client (ds ++ c ∷ cs)) ≡ some (client c)
nth-clients [] c cs = refl
nth-clients (d ∷ ds) c cs = nth-clients ds c cs

nth-end : (ds : List ℕ) → nth (length ds) (map client ds) ≡ none
nth-end [] = refl
nth-end (d ∷ ds) = nth-end ds

-- The calls of clients with one process and one error.
abbrev pub calls : Option ℕ → ℤ → List ℕ → List Did
calls process err = map (λ c. called c process err)

abbrev pub cleared : ℕ → Manager → Manager
cleared i m = put_app i (record (get_app i m) { callbacks = [] }) m

pub run-next :
    (fuel : ℕ) (c : Call) (cs : List Call) (m n : Manager) (made : List Call)
    → step c m ≡ (n, made)
    → run (suc fuel) (c ∷ cs) m ≡ run fuel (made ++ cs) n
unfolding run
run-next fuel c cs m n made e = ap (λ (s : Next). run fuel (s.1 ++ cs) s.0) e

length-snoc : (ds : List ℕ) (c : ℕ) → length (ds ++ c ∷ []) ≡ suc (length ds)
length-snoc ds c = length-append ds (c ∷ []) ∙ omega arith

-- Enough fuel to call clients, and `fuel` more.
abbrev pub fuel_for : List ℕ → ℕ → ℕ
fuel_for [] fuel = suc fuel
fuel_for (c ∷ cs) fuel = suc (suc (fuel_for cs fuel))

clear_rest :
    (i : ℕ) (err : ℤ) (ds cs : List ℕ) (m : Manager) (more : List Call) (fuel : ℕ)
    → (get_app i m).callbacks ≡ map client (ds ++ cs)
    → run (fuel_for cs fuel) (clear i err (length ds) ∷ more) m
      ≡ run fuel more (cleared i (record m { past = m.past ++ calls (get_app i m).process err cs }))
unfolding step clear_from do_invoke get_app
clear_rest i err ds [] m more fuel w =
    run-next fuel (clear i err (length ds)) more m (cleared i m) [] (
      ap (λ o. clear_from i err (length ds) o m)
        (ap (nth (length ds)) (w ∙ ap (map client) (append-nil ds)) ∙ nth-end ds))
    ∙ ap (λ past. run fuel more (cleared i (record m { past = past }))) (sym (append-nil m.past))
clear_rest i err ds (c ∷ cs) m more fuel w =
    let p = (get_app i m).process in
    let n = say (called c p err) m in
    let next =
      clear_rest i err (ds ++ c ∷ []) cs n more fuel
        (w ∙ ap (map client) (sym (append_assoc ds (c ∷ []) cs))) in
    run-next (suc (fuel_for cs fuel)) (clear i err (length ds)) more m m
      (invoke (client c) p err ∷ clear i err (suc (length ds)) ∷ [])
      (ap (λ o. clear_from i err (length ds) o m) (ap (nth (length ds)) w ∙ nth-clients ds c cs))
    ∙ run-next (fuel_for cs fuel) (invoke (client c) p err) (clear i err (suc (length ds)) ∷ more) m
        n [] refl
    ∙ ap (λ k. run (fuel_for cs fuel) (clear i err k ∷ more) n) (sym (length-snoc ds c))
    ∙ next
    ∙ ap (λ past. run fuel more (cleared i (record m { past = past })))
        (append_assoc m.past (called c p err ∷ []) (calls p err cs))

-- Where only clients wait for an application, `ClearCallbacks` calls each of them exactly once, in
-- the order in which they asked, with the application's process and the error, forgets them, changes
-- nothing else, and ends, whatever calls are left to do.
pub run-clear :
    (i : ℕ) (err : ℤ) (cs : List ℕ) (m : Manager) (more : List Call) (fuel : ℕ)
    → (get_app i m).callbacks ≡ map client cs
    → run (fuel_for cs fuel) (clear i err 0 ∷ more) m
      ≡ run fuel more (cleared i (record m { past = m.past ++ calls (get_app i m).process err cs }))
run-clear i err cs m more fuel w = clear_rest i err [] cs m more fuel w

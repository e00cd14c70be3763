-- ===== src/Manager/Queue.antt =====
-- Clients that require an application after the first one wait.
use nexer.Prelude.{
  ℕ, suc, ◌≡◌, refl, ap, ◌∙◌, true, false, List, [], ◌∷◌, ◌++◌, map, append_assoc, append-nil,
  arith, length, length-append, ltb, ◌==◌, lt→ltb,
}
use nexer.Manager.{Callback, App, Call, Manager, get_app, put_app, client, require}
use nexer.Manager.Steps.{do_require, step, run}
use nexer.Manager.Clear.{get_app-put_app, run-next, fuel_for}
use nexer.Manager.Launch.{waiting}
use nexer.Manager.Preamble.{suc_zero}

-- Calls of `Require`, one for each client.
abbrev pub requires : ℕ → List ℕ → List Call
requires i = map (λ c. require i (client c))

more_than_one :
    (x : Callback) (xs : List Callback) (y : Callback) → ltb 1 (length ((x ∷ xs) ++ y ∷ [])) ≡ true
more_than_one x xs y = let n = length-append xs (y ∷ []) in lt→ltb 1 _ (omega arith)

require-queues :
    (i : ℕ) (x : Callback) (xs : List Callback) (cb : Callback) (m : Manager)
    → (get_app i m).callbacks ≡ x ∷ xs
    → step (require i cb) m
      ≡ (put_app i (record (get_app i m) { callbacks = (get_app i m).callbacks ++ cb ∷ [] }) m, [])
unfolding step do_require
require-queues i x xs cb m w = rw (w, more_than_one x xs cb) refl

abbrev pub queue_fuel : List ℕ → ℕ → ℕ
queue_fuel [] fuel = fuel
queue_fuel (c ∷ cs) fuel = suc (queue_fuel cs fuel)

pub run-requires :
    (i : ℕ) (cs : List ℕ) (x : Callback) (xs : List Callback) (m : Manager) (more : List Call)
    (fuel : ℕ)
    → (get_app i m).callbacks ≡ x ∷ xs
    → run (queue_fuel cs fuel) (requires i cs ++ more) m ≡ run fuel more (waiting i cs m)
run-requires i [] x xs m more fuel w = refl
run-requires i (c ∷ cs) x xs m more fuel w =
    let n = waiting i (c ∷ []) m in
    run-next (queue_fuel cs fuel) (require i (client c)) (requires i cs ++ more) m n []
      (require-queues i x xs (client c) m w)
    ∙ run-requires i cs x (xs ++ client c ∷ []) n more fuel
        (ap (λ (a : App). a.callbacks) (get_app-put_app i _ m) ∙ ap (λ l. l ++ client c ∷ []) w)

-- Fuel for a first `Require`, the other ones, and a tick.
abbrev pub enough : ℕ → List ℕ → ℕ
enough c cs =
    suc (suc (suc (suc (suc (suc (suc (queue_fuel cs (suc (suc (suc (fuel_for (c ∷ cs) 1)))))))))))

pub is_zero-clients : (c : ℕ) (cs : List ℕ) → (length (map client (c ∷ cs)) == 0) ≡ false
is_zero-clients c cs = suc_zero (length (map client cs))

-- What waiting leaves.
pub record Waits (i : ℕ) (cs : List ℕ) (m n : Manager) : Type 0 where
  pub config : n.config ≡ m.config
  pub past : n.past ≡ m.past
  pub app :
      get_app i n ≡ record (get_app i m) { callbacks = (get_app i m).callbacks ++ map client cs }

pub waiting-Waits : (i : ℕ) (cs : List ℕ) (m : Manager) → Waits i cs m (waiting i cs m)
waiting-Waits i [] m = record { config = refl; past = refl; app = simp append-nil }
waiting-Waits i (c ∷ cs) m =
    let n = waiting i (c ∷ []) m in
    let h = waiting-Waits i cs n in
    record {
      config = h.config;
      past = h.past;
      app =
          h.app
          ∙ ap (λ (a : App). record a { callbacks = a.callbacks ++ map client cs })
              (get_app-put_app i _ m)
          ∙ ap (λ l. record (get_app i m) { callbacks = l })
              (append_assoc (get_app i m).callbacks (client c ∷ []) (map client cs));
    }

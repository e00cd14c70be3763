-- ===== src/Handle/Life.antt =====
-- The life of a handle.

use nexer.Prelude.{
  ℕ, suc, ◌+◌, ◌≡◌, refl, ap, ◌∙◌, inl, inr, true, false, Option, none, some, List, [], ◌∷◌, ◌++◌,
  map, arith, if◌then◌else◌, Bool-cases,
}
use nexer.Prelude.Int.{ℤ}
use nexer.Handle.{
  Handle, Effect, call_close, call_error, call_freer, begin_close, delete_self, new_handle, Step,
  listen_close, listen_error, set_data, close, free_data, on_closed, report_error,
}
use nexer.Handle.Listeners.{invoke_all}

pub data Event : Type 0 where
  close_listener error_listener : ℕ → Event
  new_data : Option ℕ → Option ℕ → Event
  closing closed : Event
  error : ℤ → Event

unfoldable pub handle_step : Event → Handle → Step
handle_step (close_listener f) h = listen_close f h
handle_step (error_listener f) h = listen_error f h
handle_step (new_data d freer) h = set_data d freer h
handle_step closing h = close h
handle_step closed h = on_closed h
handle_step (error err) h = report_error err h

-- A handle is used until it is deleted, and the loop closes one that is closing.
abbrev pub Allowed : Event → Handle → Type 0
Allowed (close_listener f) h = h.deleted ≡ false
Allowed (error_listener f) h = h.deleted ≡ false
Allowed (new_data d freer) h = h.deleted ≡ false
Allowed closing h = h.deleted ≡ false
Allowed closed h = (h.deleted ≡ false) × (h.closing ≡ true)
Allowed (error err) h = h.deleted ≡ false

-- A handle and all that it did.
pub data IsReachable : Handle → List Effect → Type 0 where
  born : IsReachable new_handle []
  later :
      (e : Event) (h : Handle) (es : List Effect)
      → Allowed e h
      → IsReachable h es
      → IsReachable (handle_step e h).0 (es ++ (handle_step e h).1)

-- The listeners of the end that are called, and how often the handle is closed and deleted.
abbrev pub close_calls : List Effect → List ℕ
close_calls [] = []
close_calls (call_close f ∷ es) = f ∷ close_calls es
close_calls (call_error f err ∷ es) = close_calls es
close_calls (call_freer f ∷ es) = close_calls es
close_calls (begin_close ∷ es) = close_calls es
close_calls (delete_self ∷ es) = close_calls es

abbrev pub ends : List Effect → ℕ × ℕ
ends [] = (0, 0)
ends (begin_close ∷ es) = let (a, b) = ends es in (suc a, b)
ends (delete_self ∷ es) = let (a, b) = ends es in (a, suc b)
ends (call_close f ∷ es) = ends es
ends (call_error f err ∷ es) = ends es
ends (call_freer f ∷ es) = ends es

close_calls-append :
    (es fs : List Effect) → close_calls (es ++ fs) ≡ close_calls es ++ close_calls fs
close_calls-append [] fs = refl
close_calls-append (call_close f ∷ es) fs = ap (λ l. f ∷ l) (close_calls-append es fs)
close_calls-append (call_error f err ∷ es) fs = close_calls-append es fs
close_calls-append (call_freer f ∷ es) fs = close_calls-append es fs
close_calls-append (begin_close ∷ es) fs = close_calls-append es fs
close_calls-append (delete_self ∷ es) fs = close_calls-append es fs

ends-append :
    (es fs : List Effect)
    → ((ends (es ++ fs)).0 ≡ (ends es).0 + (ends fs).0)
      × ((ends (es ++ fs)).1 ≡ (ends es).1 + (ends fs).1)
ends-append [] fs = (omega arith, omega arith)
ends-append (call_close f ∷ es) fs = ends-append es fs
ends-append (call_error f err ∷ es) fs = ends-append es fs
ends-append (call_freer f ∷ es) fs = ends-append es fs
ends-append (begin_close ∷ es) fs = let (a, b) = ends-append es fs in (omega arith, b)
ends-append (delete_self ∷ es) fs = let (a, b) = ends-append es fs in (a, omega arith)

error-quiet :
    (err : ℤ) (fs : List ℕ)
    → let es = map (λ f. call_error f err) fs in (close_calls es ≡ []) × (ends es ≡ (0, 0))
error-quiet err [] = (refl, refl)
error-quiet err (f ∷ fs) = error-quiet err fs

closed-parts :
    (fs : List ℕ) (d f : Option ℕ)
    → let es = map (λ f. call_close f) fs ++ free_data d f ++ delete_self ∷ [] in
      (close_calls es ≡ fs) × (ends es ≡ (0, 1))
closed-parts [] none f = (refl, refl)
closed-parts [] (some d) none = (refl, refl)
closed-parts [] (some d) (some f) = (refl, refl)
closed-parts (f ∷ fs) d freer = let (a, b) = closed-parts fs d freer in (ap (λ l. f ∷ l) a, b)

-- What a step adds, to a handle that is not deleted.
record Adds (h : Handle) (r : Step) : Type 0 where
  closes : (if h.closing then 1 else 0) + (ends r.1).0 ≡ (if r.0.closing then 1 else 0)
  deletes : (ends r.1).1 ≡ (if r.0.deleted then 1 else 0)
  calls : close_calls r.1 ≡ (if r.0.deleted then invoke_all r.0.on_close else [])

handle_step-Adds :
    (e : Event) (h : Handle) → Allowed e h → h.deleted ≡ false → Adds h (handle_step e h)
unfolding handle_step listen_close listen_error set_data close on_closed report_error
handle_step-Adds (close_listener f) h a d = record {
  closes = ground arith;
  deletes = rw d refl;
  calls = rw d refl;
}
handle_step-Adds (error_listener f) h a d = record {
  closes = ground arith;
  deletes = rw d refl;
  calls = rw d refl;
}
handle_step-Adds (new_data x freer) h a d = record {
  closes = ground arith;
  deletes = rw d refl;
  calls = rw d refl;
}
handle_step-Adds closing h a d = elim (Bool-cases h.closing) [
  | inl e ↦ record { closes = rw e refl; deletes = rw (e, d) refl; calls = rw (e, d) refl }
  | inr e ↦ record { closes = rw e refl; deletes = rw (e, d) refl; calls = rw (e, d) refl }
]
handle_step-Adds closed h (a, c) d = record {
  closes =
      rw (ap (λ p. p.0) (closed-parts (invoke_all h.on_close) h.user_data h.data_freer).1)
        (omega arith);
  deletes = ap (λ p. p.1) (closed-parts (invoke_all h.on_close) h.user_data h.data_freer).1;
  calls = (closed-parts (invoke_all h.on_close) h.user_data h.data_freer).0;
}
handle_step-Adds (error err) h a d =
    let (x, y) = error-quiet err (invoke_all h.on_error) in
    record { closes = rw y (omega arith); deletes = rw (y, d) refl; calls = rw (x, d) refl }

-- The loop was asked at most once to close the handle, just when it is closing; the handle was deleted
-- at most once, just when it is deleted; and the listeners of the end were called once each and in order
-- where it is deleted, else not at all.
pub record IsSound (h : Handle) (es : List Effect) : Type 0 where
  pub closes : (ends es).0 ≡ (if h.closing then 1 else 0)
  pub deletes : (ends es).1 ≡ (if h.deleted then 1 else 0)
  pub calls : close_calls es ≡ (if h.deleted then invoke_all h.on_close else [])

Allowed-alive : (e : Event) (h : Handle) → Allowed e h → h.deleted ≡ false
Allowed-alive (close_listener f) h a = a
Allowed-alive (error_listener f) h a = a
Allowed-alive (new_data d freer) h a = a
Allowed-alive closing h a = a
Allowed-alive closed h (a, c) = a
Allowed-alive (error err) h a = a

IsSound-append :
    (h : Handle) (es : List Effect) (r : Step)
    → h.deleted ≡ false
    → IsSound h es
    → Adds h r
    → IsSound r.0 (es ++ r.1)
IsSound-append h es r d s a =
    let z : (ends es).1 ≡ 0 = s.deletes ∙ rw d refl in
    let dead : close_calls es ≡ [] = s.calls ∙ rw d refl in
    record {
      closes = (ends-append es r.1).0 ∙ ap (λ n. n + (ends r.1).0) s.closes ∙ a.closes;
      deletes = let x = (ends-append es r.1).1 in let y = a.deletes in omega arith;
      calls = close_calls-append es r.1 ∙ ap (λ l. l ++ close_calls r.1) dead ∙ a.calls;
    }

-- However a handle is used until it is deleted, its listeners, its data, its errors and calls of `Close`
-- in any order, and with the loop closing it only where it is closing: the loop was asked to close it
-- once if it is closing and else never, it was deleted once if it is deleted and else never, and the
-- listeners of its end were called once each and in the order of the list where it is deleted, else not
-- at all.
pub IsReachable-IsSound : (h : Handle) (es : List Effect) → IsReachable h es → IsSound h es
IsReachable-IsSound h es born = record { closes = refl; deletes = refl; calls = refl }
IsReachable-IsSound h es (later e g fs a r) =
    let d = Allowed-alive e g a in
    IsSound-append g fs (handle_step e g) d (IsReachable-IsSound g fs r) (handle_step-Adds e g a d)

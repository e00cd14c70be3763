-- ===== src/Loop.antt =====
-- `EventLoop` of src/event_loop.cc and `AsyncWork` of src/async_work.cc. The loop is libuv's: what its
-- functions answer is an argument.
pub mod Closing
pub mod Tests
use nexer.Prelude.{
  ℕ, zero, suc, ◌+◌, ◌-◌, ◌*◌, ◌/◌, ◌%◌, ◌≤◌, ◌<◌, ◌≡◌, refl, sym, ap, ◌∙◌, ◌≢◌, ◌↔◌, ◌⊎◌, inl, inr,
  Bool, true, false, not, ◌&&◌, ◌||◌, Option, none, some, List, [], ◌∷◌, ◌++◌, map, append_assoc,
  append-nil, arith, Bytes, codes, length, length-append, take, drop, replicate, is_nil, All, ltb,
  leb, ◌==◌, if◌then◌else◌, lt→ltb, ltb→lt, ltb→le, leb→lt, leb→le, lt→leb, le→leb, ==_iff, ==-refl,
  Bool-cases, Option-cases, if_both, if_cases, if_false, and_true, is_nil→eq,
}
use nexer.Prelude.Int.{ℤ, pos, negsuc}
use nexer.Tcp.{failed}

-- A handle of the loop, and whether it is closing.
pub record LoopHandle : Type 0 where
  pub number : ℕ
  pub closing : Bool

-- `uv_loop_close`, given the handles of the loop and the number of its active requests: it refuses as
-- long as there is a handle, also one that is closing, or an active request.
pub record LoopClose : Type 0 where
  pub answer : List LoopHandle → ℕ → ℤ
  pub busy :
      (h : LoopHandle) (hs : List LoopHandle) (requests : ℕ)
      → failed (answer (h ∷ hs) requests) ≡ true
  pub active : (hs : List LoopHandle) (r : ℕ) → failed (answer hs (suc r)) ≡ true

pub data LoopDid : Type 0 where
  warn fail : ℤ → LoopDid
  -- `uv_close` without a callback.
  close_bare : ℕ → LoopDid

-- `close_walk_cb`
abbrev pub close_walk_cb : LoopHandle → List LoopDid × LoopHandle
close_walk_cb h =
    if h.closing then ([], h) else (close_bare h.number ∷ [], record h { closing = true })

-- `uv_walk`
abbrev pub walk : List LoopHandle → List LoopDid × List LoopHandle
walk [] = ([], [])
walk (h ∷ hs) = let (did, g) = close_walk_cb h in let (more, gs) = walk hs in (did ++ more, g ∷ gs)

-- `EventLoop::Close`, of a loop with some handles and some number of active requests.
unfoldable pub close_loop : LoopClose → List LoopHandle → ℕ → List LoopDid × List LoopHandle
close_loop c hs requests =
    let status = c.answer hs requests in
    let (did, gs) = walk hs in
    let again = c.answer gs requests in
    if failed status
    then (warn status ∷ did ++ (if failed again then fail again ∷ [] else []), gs)
    else ([], hs)

-- `EventLoop::Run`, given what `uv_run` returns.
abbrev pub run_loop : ℤ → Bool
run_loop status = not (failed status)

-- `AsyncWork`: `work_`, `on_end_`, and whether the request is in the queue.
pub record AsyncWork : Type 0 where
  pub work : Option ℕ
  pub on_end : Option ℕ
  pub queued : Bool

pub data WorkDid : Type 0 where
  worked : ℕ → WorkDid
  ended : ℕ → ℤ → WorkDid

-- `Start`; `none` where the request is in the queue already, which libuv does not allow.
unfoldable pub start_work : ℕ → AsyncWork → Option AsyncWork
start_work f w = if w.queued then none else some (record w { work = some f; queued = true })

-- `Work` and then `AfterWork`, which the loop calls.
unfoldable pub finish_work : ℤ → AsyncWork → Option (List WorkDid × AsyncWork)
finish_work status w = elim w.work [
  | none ↦ none
  | some f ↦ some (
    worked f ∷ (elim w.on_end [ none ↦ [] | some g ↦ ended g status ∷ [] ]),
    record w { queued = false },
  )
]

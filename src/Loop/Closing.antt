-- ===== src/Loop/Closing.antt =====
-- What closing a loop does to its handles.
use nexer.Prelude.{
  suc, true, ℕ, ◌≡◌, refl, ap, inl, inr, List, [], ◌∷◌, ◌++◌, map, if◌then◌else◌, Bool-cases,
}
use nexer.Tcp.{failed}
use nexer.Loop.{
  LoopHandle, LoopClose, LoopDid, warn, fail, close_bare, close_walk_cb, walk, close_loop, true,
}

-- The handles that are not closing.
abbrev pub open_ones : List LoopHandle → List ℕ
open_ones [] = []
open_ones (h ∷ hs) = let rest = open_ones hs in if h.closing then rest else h.number ∷ rest

abbrev pub bare_closes : List ℕ → List LoopDid
bare_closes ks = map (λ k. close_bare k) ks

walk-open_ones :
    (hs : List LoopHandle)
    → ((walk hs).0 ≡ bare_closes (open_ones hs)) × (open_ones (walk hs).1 ≡ [])
walk-open_ones [] = (refl, refl)
walk-open_ones (h ∷ hs) =
    let (e, f) = walk-open_ones hs in
    elim (Bool-cases h.closing) [
      | inl g ↦ (rw g e, rw g f)
      | inr g ↦ (rw g (ap (λ l. close_bare h.number ∷ l) e), rw g f)
    ]

-- Where `uv_loop_close` refuses before and after the walk, each handle that is not closing is closed,
-- once and without a callback.
close_loop-open_ones :
    (c : LoopClose) (hs : List LoopHandle) (requests : ℕ)
    → failed (c.answer hs requests) ≡ true
    → failed (c.answer (walk hs).1 requests) ≡ true
    → let (did, gs) = close_loop c hs requests in
      (did
        ≡ warn (c.answer hs requests) ∷ bare_closes (open_ones hs)
          ++ fail (c.answer gs requests) ∷ [])
      × (open_ones gs ≡ [])
unfolding close_loop
close_loop-open_ones c hs requests p q =
    let (e, f) = walk-open_ones hs in
    (
      rw (p, q)
          (ap (λ l. warn (c.answer hs requests) ∷ l ++ fail (c.answer (walk hs).1 requests) ∷ [])
            e),
      rw p f,
    )

-- No handle of a loop is left open where there is one, or an active request.
close_loop-handle :
    (c : LoopClose) (h : LoopHandle) (hs : List LoopHandle) (requests : ℕ)
    → open_ones (close_loop c (h ∷ hs) requests).1 ≡ []
close_loop-handle c h hs requests =
    (close_loop-open_ones c (h ∷ hs) requests (c.busy h hs requests)
      (c.busy (close_walk_cb h).1 (walk hs).1 requests)).1

close_loop-request :
    (c : LoopClose) (hs : List LoopHandle) (r : ℕ) → open_ones (close_loop c hs (suc r)).1 ≡ []
close_loop-request c hs r =
    (close_loop-open_ones c hs (suc r) (c.active hs r) (c.active (walk hs).1 r)).1

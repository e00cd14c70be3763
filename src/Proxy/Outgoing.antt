-- ===== src/Proxy/Outgoing.antt =====
-- What becomes of the outgoing connections of a proxy.
use nexer.Prelude.{
  All, if_cases, ==-refl, ℕ, ◌+◌, ◌≡◌, refl, ◌∙◌, true, Option, none, some, List, [], ◌∷◌, ◌++◌,
  arith, ◌==◌, if◌then◌else◌,
}
use nexer.Prelude.Int.{ℤ, pos}
use nexer.Proxy.{
  has, insert, Step, check_upstream, Proxy, Action, require, connect, set_outgoing, close_incoming,
  close_outgoing, assert_failed, Event, accepted, required, connected, forwarder_closed,
  after_check, on_connection, after_connect, remove, proxy_step, proxy_run, failed,
}

-- How often an outgoing connection is given to a forwarder or closed, and how often it is made.
abbrev pub settled_by : ℕ → Action → ℕ
settled_by o (set_outgoing f c) = if o == c then 1 else 0
settled_by o (close_outgoing c) = if o == c then 1 else 0
settled_by o (require i f) = 0
settled_by o (connect f) = 0
settled_by o (close_incoming f) = 0
settled_by o assert_failed = 0

abbrev pub settled : ℕ → List Action → ℕ
settled o [] = 0
settled o (a ∷ as_) = settled_by o a + settled o as_

abbrev pub made_by : ℕ → Event → ℕ
made_by o (connected f (some c)) = if o == c then 1 else 0
made_by o (connected f none) = 0
made_by o (accepted f) = 0
made_by o (required f err) = 0
made_by o (forwarder_closed f) = 0

abbrev pub made : ℕ → List Event → ℕ
made o [] = 0
made o (e ∷ es) = made_by o e + made o es

-- An action on a forwarder is one on a forwarder of the proxy.
abbrev pub IsLive : Proxy → Action → Type 0
IsLive p (set_outgoing f o) = has f p.forwarders ≡ true
IsLive p (close_incoming f) = has f p.forwarders ≡ true
IsLive p (close_outgoing o) = Unit
IsLive p (require i f) = has f p.forwarders ≡ true
IsLive p (connect f) = Unit
IsLive p assert_failed = Unit

settled-append :
    (o : ℕ) (as_ bs : List Action) → settled o (as_ ++ bs) ≡ settled o as_ + settled o bs
settled-append o [] bs = omega arith
settled-append o (a ∷ as_) bs = omega (arith, settled-append o as_ bs)

after_check-settled : (o f : ℕ) (err : ℤ) (p : Proxy) → settled o (after_check f err p).1 ≡ 0
unfolding after_check
after_check-settled o f err p = ground arith

check_upstream-settled :
    (o f : ℕ) (app : Option ℕ) (p : Proxy) → settled o (check_upstream f app p).1 ≡ 0
unfolding check_upstream
check_upstream-settled o f none p = after_check-settled o f (pos 0) p
check_upstream-settled o f (some i) p = refl

settled-step : (o : ℕ) (e : Event) (p : Proxy) → settled o (proxy_step e p).1 ≡ made_by o e
unfolding proxy_step on_connection after_connect remove
settled-step o (accepted f) p = check_upstream-settled o f p.app _
settled-step o (required f err) p = after_check-settled o f err p
settled-step o (connected f none) p = ground arith
settled-step o (connected f (some c)) p = ground arith
settled-step o (forwarder_closed f) p = ground arith

-- Whatever clients come and go and however the checks and the connections end, each outgoing
-- connection that is made is given to a forwarder or closed exactly as often as it is made: none is
-- lost and none is both given and closed.
pub settled-proxy_run :
    (o : ℕ) (es : List Event) (p : Proxy) → settled o (proxy_run es p).1 ≡ made o es
unfolding proxy_run
settled-proxy_run o [] p = refl
settled-proxy_run o (e ∷ es) p =
    let q = (proxy_step e p).0 in
    settled-append o (proxy_step e p).1 (proxy_run es q).1
    ∙ omega (arith, settled-step o e p, settled-proxy_run o es q)

has_first : (f : ℕ) (fs : List ℕ) → has f (f ∷ fs) ≡ true
unfolding has
has_first f fs = rw (==-refl f) refl

has-insert : (f : ℕ) (fs : List ℕ) → has f (insert f fs) ≡ true
unfolding insert
has-insert f fs =
    if_cases (λ l. has f l ≡ true) (has f fs) fs (f ∷ fs) (λ h. h) (λ h. has_first f fs)

after_check-Live :
    (f : ℕ) (err : ℤ) (p : Proxy) → let (q, as_) = after_check f err p in All (IsLive q) as_
unfolding after_check
after_check-Live f err p =
    if_cases (All (IsLive p)) (failed err) _ (connect f ∷ [])
      (λ k.
        if_cases (All (IsLive p)) (has f p.forwarders) (close_incoming f ∷ []) [] (λ h. (h, tt))
          (λ h. tt))
      (λ k. (tt, tt))

check_upstream-Live :
    (f : ℕ) (app : Option ℕ) (p : Proxy)
    → has f p.forwarders ≡ true
    → let (q, as_) = check_upstream f app p in All (IsLive q) as_
unfolding check_upstream
check_upstream-Live f none p h = after_check-Live f (pos 0) p
check_upstream-Live f (some i) p h = (h, tt)

remove-Live : (f : ℕ) (p : Proxy) → let (q, as_) = remove f p in All (IsLive q) as_
unfolding remove
remove-Live f p =
    if_cases (λ (s : Step). All (IsLive s.0) s.1) (has f p.forwarders) _ _ (λ h. tt) (λ h. (tt, tt))

-- In every step of a proxy, an application is required, an outgoing connection handed over and an
-- incoming one closed only for a forwarder that the proxy has after the step; so no connection that
-- is already gone is touched, however late an answer comes.
pub proxy_step-Live : (e : Event) (p : Proxy) → let (q, as_) = proxy_step e p in All (IsLive q) as_
unfolding proxy_step on_connection after_connect
proxy_step-Live (accepted f) p =
    check_upstream-Live f p.app (record p { forwarders = insert f p.forwarders })
      (has-insert f p.forwarders)
proxy_step-Live (required f err) p = after_check-Live f err p
proxy_step-Live (connected f none) p =
    if_cases (All (IsLive p)) (has f p.forwarders) (close_incoming f ∷ []) [] (λ h. (h, tt))
      (λ h. tt)
proxy_step-Live (connected f (some o)) p =
    if_cases (All (IsLive p)) (has f p.forwarders) (set_outgoing f o ∷ []) (close_outgoing o ∷ [])
      (λ h. (h, tt)) (λ h. (tt, tt))
proxy_step-Live (forwarder_closed f) p = remove-Live f p

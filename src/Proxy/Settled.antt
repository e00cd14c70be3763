-- ===== src/Proxy/Settled.antt =====
-- Which forwarder gets an outgoing connection.
use nexer.Prelude.{
  ◌&&◌, not, ℕ, ◌≡◌, Bool, false, ◌||◌, none, some, List, [], ◌∷◌, ◌++◌, ◌==◌, if◌then◌else◌,
}
use nexer.Proxy.{
  has, Proxy, Action, require, connect, set_outgoing, close_incoming, close_outgoing, assert_failed,
  Event, accepted, required, connected, forwarder_closed,
}

-- What is done with outgoing connections, in order.
abbrev pub settlements : List Action → List Action
settlements [] = []
settlements (set_outgoing f o ∷ as_) = set_outgoing f o ∷ settlements as_
settlements (close_outgoing o ∷ as_) = close_outgoing o ∷ settlements as_
settlements (require i f ∷ as_) = settlements as_
settlements (connect f ∷ as_) = settlements as_
settlements (close_incoming f ∷ as_) = settlements as_
settlements (assert_failed ∷ as_) = settlements as_

-- The forwarders that are there after an event: each from its client's coming to its own end.
abbrev pub there_after : Event → (ℕ → Bool) → ℕ → Bool
there_after (accepted f) there g = g == f || there g
there_after (forwarder_closed f) there g = not (g == f) && there g
there_after (required f err) there g = there g
there_after (connected f o) there g = there g

-- Each connection that is made goes to its forwarder if that is there, and is closed if not.
abbrev pub settled_at : Event → (ℕ → Bool) → List Action
settled_at (connected f (some o)) there =
    (if there f then set_outgoing f o else close_outgoing o) ∷ []
settled_at (connected f none) there = []
settled_at (required f err) there = []
settled_at (accepted f) there = []
settled_at (forwarder_closed f) there = []

abbrev pub expected : (ℕ → Bool) → List Event → List Action
expected there [] = []
expected there (e ∷ es) = settled_at e there ++ expected (there_after e there) es

-- The set of forwarders holds none twice.
abbrev pub HasNoTwins : List ℕ → Type 0
HasNoTwins [] = Unit
HasNoTwins (x ∷ xs) = (has x xs ≡ false) × HasNoTwins xs

-- A proxy whose set holds these forwarders.
record Holds (p : Proxy) (there : ℕ → Bool) : Type 0 where
  set : HasNoTwins p.forwarders
  holds : (g : ℕ) → has g p.forwarders ≡ there g

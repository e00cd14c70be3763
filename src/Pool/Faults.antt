-- ===== src/Pool/Faults.antt =====
-- A block that `malloc` gives and that is freed at once.
use nexer.Prelude.{ℕ, ◌+◌, ◌-◌, ◌≡◌, false, Option, none, some, arith, ◌==◌, ==-refl}
use nexer.Pool.{
  usable, Block, Pool, new_pool, put_block, set_prev, set_next, link_prev, link_next, unlink_free,
  link_allocated, allocate_block, unlink_allocated, link_free, free_block, block_size,
}

-- The next steps, where the last one followed no bad pointer.
abbrev pub after {ℓ κ} :
    {A : Type ℓ} {B : Type κ} → Option (A × Pool) → (A → Pool → Option B) → Option B
after none k = none
after (some (a, s)) k = k a s

-- A block is allocated from a new pool and freed at once.
abbrev pub used_once : ℕ → ℕ → Block → Option Pool
used_once max_size p b =
    after (allocate_block (some (p, b)) (new_pool max_size)) (λ r s. free_block (some r.0) s)

back : (p : ℕ) → p + block_size - block_size ≡ p
back p = omega arith

-- The new pool once it has handed out its first block.
abbrev held : ℕ → ℕ → Block → Pool
held max_size p b =
    record (put_block p (record b { next = none }) (put_block p b (new_pool max_size))) {
      allocated = some p;
    }

first_held :
    (max_size p : ℕ) (b : Block)
    → allocate_block (some (p, b)) (new_pool max_size)
      ≡ some ((p + block_size, usable max_size), held max_size p b)
unfolding allocate_block link_allocated link_prev set_next
first_held max_size p b = simp (==-refl p)

-- `Allocate` leaves the `prev` of a block from `malloc` as it was, and `Free` follows it: if it
-- happens to be an address that holds no block, freeing the only block is an invalid access.
pub used_once-wild :
    (max_size p q : ℕ) (next : Option ℕ)
    → (q == p) ≡ false
    → used_once max_size p (record { prev = some q; next = next }) ≡ none
unfolding free_block unlink_allocated link_free link_prev link_next set_prev set_next
used_once-wild max_size p q next n =
    rw (first_held max_size p (record { prev = some q; next = next }), back p) (simp (==-refl p, n))

abbrev bare : Block
bare = record { prev = none; next = none }

-- The pool once its only block is freed.
abbrev freed : ℕ → ℕ → Pool → Pool
freed max_size p s = record (put_block p bare (put_block p bare s)) {
  free_list = some p;
  allocated = none;
}

used_once-freed :
    (max_size p : ℕ) (next : Option ℕ)
    → used_once max_size p (record { prev = none; next = next })
      ≡ some (freed max_size p (held max_size p (record { prev = none; next = next })))
unfolding free_block unlink_allocated link_free link_prev link_next set_prev set_next
used_once-freed max_size p next =
    rw (first_held max_size p (record { prev = none; next = next }), back p) (simp (==-refl p))

allocate-freed :
    (max_size p : ℕ) (s : Pool) (answer : Option (ℕ × Block))
    → (t : Pool) × (allocate_block answer (freed max_size p s)
        ≡ some ((p + block_size, usable s.max_size), t))
unfolding allocate_block link_allocated unlink_free link_prev set_next
allocate-freed max_size p s answer = (
  record (put_block p bare (freed max_size p s)) { free_list = none; allocated = some p },
  simp (==-refl p),
)

-- If the `prev` in the header of a block from `malloc` happens to be null, the first block of a
-- pool, freed at once, is freed, and the next call of `Allocate` returns it again, whatever `malloc`
-- would give.
pub used_once-reused :
    (max_size p : ℕ) (next : Option ℕ) (answer : Option (ℕ × Block))
    → (s : Pool) × (t : Pool) × (used_once max_size p (record { prev = none; next = next })
        ≡ some s)
      × (allocate_block answer s ≡ some ((p + block_size, usable max_size), t))
used_once-reused max_size p next answer =
    let h = held max_size p (record { prev = none; next = next }) in
    let (t, e) = allocate-freed max_size p h answer in
    (freed max_size p h, t, used_once-freed max_size p next, e)

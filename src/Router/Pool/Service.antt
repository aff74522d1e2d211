-- ===== src/Router/Pool/Service.antt =====
-- apps/router/src/pool.ts: whom a connection that comes back serves, and whom it does not.
use just_postgres.Shared.{
  ℕ, ◌+◌, ◌<◌, ◌≡◌, refl, true, false, List, [], ◌∷◌, ◌++◌, arith, length, Bool-cases, inl, inr,
  ◌==◌, map,
}
use just_postgres.Router.Text.{Utf8}
use just_postgres.Router.Pool.Ids.{count, remove, length-remove}
use just_postgres.Router.Pool.{
  ProjectPool, Connections, resolves, rejects, ready, waits, close, close_all, acquire,
  acquire_more, forget, reset, hand_over, release, discard, drain,
}
use just_postgres.Router.Pool.Bounds.{IsBounded}

module _ (utf8 : Utf8) (now c : ℕ) (p : ProjectPool) where
  -- A live connection that is released goes to the waiter that waits longest, after the reset
  -- statement, and the other waiters keep their order; with no waiter it becomes the idle
  -- connection that is taken next. In both cases the pool keeps it.
  pub release_live :
      p.connections.is_closed c ≡ false
      → (w : ℕ) (ws : List ℕ)
      → ((release utf8 now c (record p { waiters = w ∷ ws })).1
          ≡ reset utf8 c p.config.reset_query ++ resolves w c ∷ [])
        × ((release utf8 now c (record p { waiters = w ∷ ws })).0.waiters ≡ ws)
        × ((release utf8 now c (record p { waiters = w ∷ ws })).0.idle ≡ p.idle)
        × ((release utf8 now c (record p { waiters = w ∷ ws })).0.all ≡ p.all)
        × ((release utf8 now c (record p { waiters = [] })).1 ≡ reset utf8 c p.config.reset_query)
        × ((release utf8 now c (record p { waiters = [] })).0.idle ≡ c ∷ p.idle)
        × ((release utf8 now c (record p { waiters = [] })).0.all ≡ p.all)
  unfolding release hand_over
  release_live live w ws = ground arith

-- A connection of the pool that is discarded leaves room for another, but wakes nobody: every
-- waiter goes on waiting, although the pool is then below its size.
pub discard_strands :
    (c : ℕ) (p : ProjectPool)
    → IsBounded p
    → 0 < count c p.all
    → ((discard c p).waiters ≡ p.waiters)
      × (length (discard c p).all + (discard c p).opening < (discard c p).config.size)
unfolding discard forget
discard_strands c p b h = (refl, omega (arith, length-remove c p.all h))

-- When the idle connection that is taken first is closed, it is dropped from the idle ones but
-- still counted; with the pool at its size the caller then waits, whatever other idle
-- connections there are.
pub acquire_stale :
    (now waiter c : ℕ) (rest : List ℕ) (p : ProjectPool)
    → p.idle ≡ c ∷ rest
    → p.connections.is_closed c ≡ true
    → length p.all + p.opening ≡ p.config.size
    → ((acquire now waiter p).1 ≡ waits)
      × ((acquire now waiter p).0.all ≡ p.all)
      × ((acquire now waiter p).0.idle ≡ rest)
      × ((acquire now waiter p).0.waiters ≡ p.waiters ++ waiter ∷ [])
unfolding acquire acquire_more
acquire_stale now waiter c rest p e closed full = ground arith

-- A connection that `acquire` hands out at once was idle and is not closed.
pub acquire_ready :
    (now waiter c : ℕ) (p : ProjectPool)
    → (acquire now waiter p).1 ≡ ready c
    → (p.connections.is_closed c ≡ false) × (p.idle ≡ c ∷ (acquire now waiter p).0.idle)
unfolding acquire acquire_more
acquire_ready now waiter c p e = ground arith

close_all-keeps :
    (d : ℕ) (cs : List ℕ) (conns : Connections)
    → conns.is_closed d ≡ true
    → (close_all cs conns).is_closed d ≡ true
unfolding close_all
close_all-keeps d [] conns h = h
close_all-keeps d (c ∷ cs) conns h = close_all-keeps d cs (close c conns) (ground arith)

close_all-closes :
    (d : ℕ) (cs : List ℕ) (conns : Connections)
    → 0 < count d cs
    → (close_all cs conns).is_closed d ≡ true
unfolding close_all count
close_all-closes d [] conns h = elim h [ ]
close_all-closes d (c ∷ cs) conns h = elim (Bool-cases (c == d)) [
  | inl same ↦ close_all-keeps d cs (close c conns) (ground arith)
  | inr other ↦ close_all-closes d cs (close c conns) (ground arith)
]

-- Draining closes every connection of the pool, rejects every waiter once and in order, and
-- leaves the pool empty; a connection that a session still holds is then closed, and its release
-- does not bring it back.
pub drain_lem :
    (utf8 : Utf8) (now c : ℕ) (p : ProjectPool)
    → 0 < count c p.all
    → ((drain p).1 ≡ map rejects p.waiters)
      × ((drain p).0.waiters ≡ [])
      × ((drain p).0.all ≡ [])
      × ((drain p).0.connections.is_closed c ≡ true)
      × ((release utf8 now c (drain p).0).0.idle ≡ [])
      × ((release utf8 now c (drain p).0).0.all ≡ [])
      × ((release utf8 now c (drain p).0).1 ≡ [])
unfolding drain release forget remove
drain_lem utf8 now c p h =
    let shut = close_all-closes c p.all p.connections h in
    (refl, refl, refl, shut, rw shut, rw shut, rw shut)

-- ===== src/Router/Pool/Ownership.antt =====
-- apps/router/src/pool.ts: a connection has one owner at a time.
use just_postgres.Shared.{ℕ, ◌+◌, ◌≤◌, ◌<◌, ◌≡◌, List, [], ◌∷◌, ◌++◌, arith, Bool-cases, inl, inr}
use just_postgres.Router.Text.{Utf8, Text}
use just_postgres.Router.Routes.{Route}
use just_postgres.Router.Pool.Ids.{
  count, remove, Below, Below-count, Below-suc, Below-remove, count-remove_self, count-remove_ne,
  count-remove_le,
}
use just_postgres.Router.Pool.{
  ProjectPool, PoolConfig, Effect, acquire, acquire_more, open_succeeds, forget, reset, hand_over,
  evict, use_at, open_fails, on_close, time_out, release, discard, sweep_idle, drain, update_route,
  project_pool,
}
use just_postgres.Router.Pool.Sweep.{sweep_inv}
use just_postgres.Router.Pool.Steps.{
  World, Step, acquires, opened, open_failed, closes, breaks, times_out, releases, discards, sweeps,
  drains, reroutes, Reach, here, next, start, taken, granted,
}

-- The connection `d` is idle once, or held once, or neither.
abbrev IsOwned : ℕ → List ℕ → List ℕ → Type 0
IsOwned d idle held = count d idle + count d held ≤ 1

granted-reset :
    (utf8 : Utf8) (c : ℕ) (query : Text) (es : List Effect) (held : List ℕ)
    → granted (reset utf8 c query ++ es) held ≡ granted es held
unfolding reset
granted-reset utf8 c query es held = ground arith

granted-reset_only :
    (utf8 : Utf8) (c : ℕ) (query : Text) (held : List ℕ) → granted (reset utf8 c query) held ≡ held
unfolding reset
granted-reset_only utf8 c query held = ground arith

-- Whoever had the connection gives it up, and one owner gets it.
count-moved :
    (c d : ℕ) (idle held : List ℕ)
    → 0 < count c held
    → (count d (c ∷ remove c held) ≡ count d held)
      × (count d (c ∷ idle) + count d (remove c held) ≡ count d idle + count d held)
unfolding count
count-moved c d idle held h = ground (arith, count-remove_self c held, count-remove_ne c d held)

hand_over-IsOwned :
    (utf8 : Utf8) (c d : ℕ) (ws : List ℕ) (p : ProjectPool) (held : List ℕ)
    → 0 < count c held
    → IsOwned d p.idle held
    → IsOwned d (hand_over utf8 c ws p).0.idle (granted (hand_over utf8 c ws p).1 (remove c held))
unfolding hand_over
hand_over-IsOwned utf8 c d [] p held k h =
    rw (granted-reset_only utf8 c p.config.reset_query (remove c held))
      (omega (arith, (count-moved c d p.idle held k).1))
hand_over-IsOwned utf8 c d (w ∷ ws) p held k h =
    rw
      (
        granted-reset utf8 c p.config.reset_query _ (remove c held),
        (count-moved c d p.idle held k).0,
      )
      h

release-IsOwned :
    (utf8 : Utf8) (now c d : ℕ) (p : ProjectPool) (held : List ℕ)
    → 0 < count c held
    → IsOwned d p.idle held
    → IsOwned d (release utf8 now c p).0.idle (granted (release utf8 now c p).1 (remove c held))
unfolding release forget
release-IsOwned utf8 now c d p held k h = elim (Bool-cases (p.connections.is_closed c)) [
  | inl closed ↦ rw closed (omega (arith, count-remove_le c d p.idle, count-remove_le c d held))
  | inr live ↦ rw live (hand_over-IsOwned utf8 c d p.waiters (use_at c now p) held k h)
]

evict-IsOwned :
    (d : ℕ) (held : List ℕ) (c : ℕ) (p : ProjectPool)
    → IsOwned d p.idle held
    → IsOwned d (evict c p).idle held
unfolding evict forget
evict-IsOwned d held c p h =
    omega (arith, count-remove_le c d p.idle, count-remove_le c d (remove c p.idle))

acquire-IsOwned :
    (now waiter d : ℕ) (p : ProjectPool) (held : List ℕ)
    → IsOwned d p.idle held
    → IsOwned d (acquire now waiter p).0.idle (taken (acquire now waiter p).1 held)
unfolding acquire acquire_more count
acquire-IsOwned now waiter d p held h = ground arith

-- The ids that were given out are below the next one.
abbrev IsBelow : World → Type 0
IsBelow w = Below w.next_id w.pool.idle × Below w.next_id w.held

Step-IsOwned :
    (utf8 : Utf8) (d : ℕ) {v w : World}
    → Step utf8 v w
    → IsBelow v
    → IsOwned d v.pool.idle v.held
    → IsOwned d w.pool.idle w.held
unfolding open_succeeds open_fails on_close time_out discard forget sweep_idle drain update_route
Step-IsOwned utf8 d {v} (acquires now waiter) b h = acquire-IsOwned now waiter d v.pool v.held h
Step-IsOwned utf8 d {v} (opened k) b h =
    unfold count in
    ground (arith, Below-count v.next_id v.pool.idle b.0, Below-count v.next_id v.held b.1)
Step-IsOwned utf8 d {v} (open_failed k) b h = h
Step-IsOwned utf8 d {v} (closes c k) b h = omega (arith, count-remove_le c d v.pool.idle)
Step-IsOwned utf8 d {v} (breaks c) b h = h
Step-IsOwned utf8 d {v} (times_out waiter) b h = h
Step-IsOwned utf8 d {v} (releases now c k) b h = release-IsOwned utf8 now c d v.pool v.held k h
Step-IsOwned utf8 d {v} (discards c k) b h =
    omega (arith, count-remove_le c d v.pool.idle, count-remove_le c d v.held)
Step-IsOwned utf8 d {v} (sweeps now) b h =
    sweep_inv (λ q. IsOwned d q.idle v.held) (evict-IsOwned d v.held) _ v.pool.idle v.pool h
Step-IsOwned utf8 d {v} drains b h = unfold count in omega arith
Step-IsOwned utf8 d {v} (reroutes route) b h = unfold count in ground arith

-- `Below` is kept too.
hand_over-IsBelow :
    (utf8 : Utf8) (n c : ℕ) (ws : List ℕ) (p : ProjectPool) (held : List ℕ)
    → c < n
    → Below n p.idle × Below n held
    → Below n (hand_over utf8 c ws p).0.idle
      × Below n (granted (hand_over utf8 c ws p).1 (remove c held))
unfolding hand_over
hand_over-IsBelow utf8 n c [] p held k h =
    rw (granted-reset_only utf8 c p.config.reset_query (remove c held))
      ((k, h.0), Below-remove n c held h.1)
hand_over-IsBelow utf8 n c (w ∷ ws) p held k h =
    rw (granted-reset utf8 c p.config.reset_query _ (remove c held))
      (h.0, (k, Below-remove n c held h.1))

release-IsBelow :
    (utf8 : Utf8) (n now c : ℕ) (p : ProjectPool) (held : List ℕ)
    → c < n
    → Below n p.idle × Below n held
    → Below n (release utf8 now c p).0.idle
      × Below n (granted (release utf8 now c p).1 (remove c held))
unfolding release forget
release-IsBelow utf8 n now c p held k h = elim (Bool-cases (p.connections.is_closed c)) [
  | inl closed ↦ rw closed (Below-remove n c p.idle h.0, Below-remove n c held h.1)
  | inr live ↦ rw live (hand_over-IsBelow utf8 n c p.waiters (use_at c now p) held k h)
]

evict-IsBelow : (n c : ℕ) (p : ProjectPool) → Below n p.idle → Below n (evict c p).idle
unfolding evict forget
evict-IsBelow n c p h = Below-remove n c _ (Below-remove n c p.idle h)

acquire-IsBelow :
    (now waiter n : ℕ) (p : ProjectPool) (held : List ℕ)
    → Below n p.idle × Below n held
    → Below n (acquire now waiter p).0.idle × Below n (taken (acquire now waiter p).1 held)
unfolding acquire acquire_more
acquire-IsBelow now waiter n p held h = ground arith

Below-lt : (n c : ℕ) (xs : List ℕ) → Below n xs → 0 < count c xs → c < n
unfolding count
Below-lt n c [] h k = elim k [ ]
Below-lt n c (x ∷ xs) h k = ground (arith, Below-lt n c xs h.1)

Step-IsBelow : (utf8 : Utf8) {v w : World} → Step utf8 v w → IsBelow v → IsBelow w
unfolding open_succeeds open_fails on_close time_out discard forget sweep_idle drain update_route
Step-IsBelow utf8 {v} (acquires now waiter) b = acquire-IsBelow now waiter v.next_id v.pool v.held b
Step-IsBelow utf8 {v} (opened k) b =
    (Below-suc v.next_id v.pool.idle b.0, (omega arith, Below-suc v.next_id v.held b.1))
Step-IsBelow utf8 {v} (open_failed k) b = b
Step-IsBelow utf8 {v} (closes c k) b = (Below-remove v.next_id c v.pool.idle b.0, b.1)
Step-IsBelow utf8 {v} (breaks c) b = b
Step-IsBelow utf8 {v} (times_out waiter) b = b
Step-IsBelow utf8 {v} (releases now c k) b =
    release-IsBelow utf8 v.next_id now c v.pool v.held (Below-lt v.next_id c v.held b.1 k) b
Step-IsBelow utf8 {v} (discards c k) b =
    (Below-remove v.next_id c v.pool.idle b.0, Below-remove v.next_id c v.held b.1)
Step-IsBelow utf8 {v} (sweeps now) b = (
  sweep_inv (λ q. Below v.next_id q.idle) (evict-IsBelow v.next_id) _ v.pool.idle v.pool b.0,
  b.1,
)
Step-IsBelow utf8 {v} drains b = (tt, b.1)
Step-IsBelow utf8 {v} (reroutes route) b = ground arith

Reach-IsBelow :
    (utf8 : Utf8) (route : Route) (config : PoolConfig) {w : World}
    → Reach utf8 (start route config) w
    → IsBelow w
unfolding project_pool
Reach-IsBelow utf8 route config here = (tt, tt)
Reach-IsBelow utf8 route config (next r s) = Step-IsBelow utf8 s (Reach-IsBelow utf8 route config r)

-- Whatever clients, servers and timers do, no connection is held by two sessions, and none is
-- held by a session while it is idle in the pool.
pub Reach-IsOwned :
    (utf8 : Utf8) (route : Route) (config : PoolConfig) (d : ℕ) {w : World}
    → Reach utf8 (start route config) w
    → count d w.pool.idle + count d w.held ≤ 1
unfolding project_pool
Reach-IsOwned utf8 route config d here = unfold count in omega arith
Reach-IsOwned utf8 route config d (next r s) =
    Step-IsOwned utf8 d s (Reach-IsBelow utf8 route config r) (Reach-IsOwned utf8 route config d r)

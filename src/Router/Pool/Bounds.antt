-- ===== src/Router/Pool/Bounds.antt =====
-- apps/router/src/pool.ts: the pool stays within its size.
use just_postgres.Shared.{ℕ, ◌+◌, ◌-◌, ◌≤◌, ◌≡◌, refl, List, arith, length}
use just_postgres.Router.Text.{Utf8}
use just_postgres.Router.Routes.{Route}
use just_postgres.Router.Pool.Ids.{length-remove_le, length-add_le}
use just_postgres.Router.Pool.{
  ProjectPool, PoolConfig, acquire, acquire_more, open_succeeds, forget, hand_over, evict,
  open_fails, on_close, time_out, release, discard, sweep, sweep_idle, drain, update_route,
  project_pool,
}
use just_postgres.Router.Pool.Sweep.{sweep_inv}
use just_postgres.Router.Pool.Steps.{
  World, Step, acquires, opened, open_failed, closes, breaks, times_out, releases, discards, sweeps,
  drains, reroutes, Reach, here, next, start,
}

abbrev pub IsBounded : ProjectPool → Type 0
IsBounded p = length p.all + p.opening ≤ p.config.size

-- The pool has no more connections, and opens no more, under the same configuration.
abbrev Shrinks : ProjectPool → ProjectPool → Type 0
Shrinks p q =
    (length q.all + q.opening ≤ length p.all + p.opening) × (q.config.size ≡ p.config.size)

acquire-IsBounded :
    (now waiter : ℕ) (p : ProjectPool) → IsBounded p → IsBounded (acquire now waiter p).0
unfolding acquire acquire_more
acquire-IsBounded now waiter p h = ground arith

evict-Shrinks : (p : ProjectPool) (c : ℕ) (q : ProjectPool) → Shrinks p q → Shrinks p (evict c q)
unfolding evict forget
evict-Shrinks p c q h = ground (arith, length-remove_le c q.all)

sweep-Shrinks : (cutoff : ℕ) (cs : List ℕ) (p : ProjectPool) → Shrinks p (sweep cutoff cs p)
sweep-Shrinks cutoff cs p = sweep_inv (Shrinks p) (evict-Shrinks p) cutoff cs p (omega arith, refl)

release-Shrinks : (utf8 : Utf8) (now c : ℕ) (p : ProjectPool) → Shrinks p (release utf8 now c p).0
unfolding release forget hand_over
release-Shrinks utf8 now c p = ground (arith, length-remove_le c p.all)

-- One step of the event loop keeps the pool within its size.
Step-IsBounded : (utf8 : Utf8) {v w : World} → Step utf8 v w → IsBounded v.pool → IsBounded w.pool
unfolding open_succeeds open_fails on_close time_out discard forget sweep_idle drain update_route
Step-IsBounded utf8 {v} (acquires now waiter) h = acquire-IsBounded now waiter v.pool h
Step-IsBounded utf8 {v} (opened k) h = ground (arith, length-add_le v.next_id v.pool.all)
Step-IsBounded utf8 {v} (open_failed k) h = ground arith
Step-IsBounded utf8 {v} (closes c k) h = ground (arith, length-remove_le c v.pool.all)
Step-IsBounded utf8 {v} (breaks c) h = ground arith
Step-IsBounded utf8 {v} (times_out waiter) h = ground arith
Step-IsBounded utf8 {v} (releases now c k) h = ground (arith, release-Shrinks utf8 now c v.pool)
Step-IsBounded utf8 {v} (discards c k) h = ground (arith, length-remove_le c v.pool.all)
Step-IsBounded utf8 {v} (sweeps now) h =
    ground (arith, sweep-Shrinks (now - v.pool.config.idle_timeout_ms) v.pool.idle v.pool)
Step-IsBounded utf8 {v} drains h = ground arith
Step-IsBounded utf8 {v} (reroutes route) h = ground arith

start-IsBounded : (route : Route) (config : PoolConfig) → IsBounded (start route config).pool
unfolding project_pool
start-IsBounded route config = omega arith

-- Whatever clients, servers and timers do, the connections of the pool and those being opened
-- together never exceed the configured size.
pub Reach-IsBounded :
    (utf8 : Utf8) (route : Route) (config : PoolConfig) {w : World}
    → Reach utf8 (start route config) w
    → IsBounded w.pool
Reach-IsBounded utf8 route config here = start-IsBounded route config
Reach-IsBounded utf8 route config (next r s) =
    Step-IsBounded utf8 s (Reach-IsBounded utf8 route config r)

-- ===== src/Router/Pool/Steps.antt =====
-- apps/router/src/pool.ts with the sessions round it: what the event loop may do, one call at a
-- time. `held` is what sessions hold: they release or discard only that, and each only once.
use just_postgres.Shared.{ℕ, ◌+◌, ◌<◌, ◌≡◌, false, List, [], ◌∷◌}
use just_postgres.Router.Text.{Utf8}
use just_postgres.Router.Routes.{Route}
use just_postgres.Router.Pool.Ids.{count, remove}
use just_postgres.Router.Pool.{
  ProjectPool, PoolConfig, Effect, sends, resolves, rejects, Acquired, ready, opens, waits, acquire,
  open_succeeds, open_fails, on_close, destroy, time_out, release, discard, sweep_idle, drain,
  update_route, project_pool,
}

pub record World : Type 0 where
  pub pool : ProjectPool
  pub held : List ℕ
  pub next_id : ℕ

abbrev pub taken : Acquired → List ℕ → List ℕ
taken (ready c) held = c ∷ held
taken opens held = held
taken waits held = held

-- A waiter whose promise is resolved holds the connection.
abbrev pub granted : List Effect → List ℕ → List ℕ
granted [] held = held
granted (resolves w c ∷ es) held = c ∷ granted es held
granted (sends c b ∷ es) held = granted es held
granted (rejects w ∷ es) held = granted es held

module _ (utf8 : Utf8) where
  pub data Step (v : World) : World → Type 0 where
    acquires :
        (now waiter : ℕ)
        → Step v (record v {
          pool = (acquire now waiter v.pool).0;
          held = taken (acquire now waiter v.pool).1 v.held;
        })
    opened :
        0 < v.pool.opening
        → Step v (record v {
          pool = open_succeeds v.next_id v.pool;
          held = v.next_id ∷ v.held;
          next_id = v.next_id + 1;
        })
    open_failed : 0 < v.pool.opening → Step v (record v { pool = open_fails v.pool })
    closes :
        (c : ℕ)
        → v.pool.connections.is_closed c ≡ false
        → Step v (record v { pool = on_close c v.pool })
    breaks : (c : ℕ) → Step v (record v { pool = destroy c v.pool })
    times_out : (waiter : ℕ) → Step v (record v { pool = (time_out waiter v.pool).0 })
    releases :
        (now c : ℕ)
        → 0 < count c v.held
        → Step v (record v {
          pool = (release utf8 now c v.pool).0;
          held = granted (release utf8 now c v.pool).1 (remove c v.held);
        })
    discards :
        (c : ℕ)
        → 0 < count c v.held
        → Step v (record v { pool = discard c v.pool; held = remove c v.held })
    sweeps : (now : ℕ) → Step v (record v { pool = sweep_idle now v.pool })
    drains : Step v (record v { pool = (drain v.pool).0 })
    reroutes : (route : Route) → Step v (record v { pool = (update_route route v.pool).0 })

  pub data Reach (v : World) : World → Type 0 where
    here : Reach v v
    next : {u w : World} → Reach v u → Step u w → Reach v w

abbrev pub start : Route → PoolConfig → World
start route config = record { pool = project_pool route config; held = []; next_id = 1 }

-- ===== src/Router/Tests/Pooling.antt =====
-- apps/router/src/pool.ts with one or two connections.
use just_postgres.Shared.{◌+◌, ◌≤◌, [], ◌∷◌, arith}
use just_postgres.Router.Text.{text}
use just_postgres.Router.Routes.{Route}
use just_postgres.Router.Pool.Ids.{count, remove}
use just_postgres.Router.Pool.{
  PoolConfig, acquire, acquire_more, open_succeeds, release, project_pool,
}
use just_postgres.Router.Pool.Steps.{
  World, Reach, here, next, acquires, opened, releases, start, taken, granted,
}
use just_postgres.Router.Pool.Bounds.{IsBounded, Reach-IsBounded}
use just_postgres.Router.Pool.Ownership.{Reach-IsOwned}
use just_postgres.Router.Tests.Codec.{codec}

abbrev route : Route
route = record {
  project_id = text "p1";
  ref = text "shop";
  name = text "Shop";
  state = text "running";
  host = text "127.0.0.1";
  port = 55000;
  role = text "app";
  database = text "postgres";
  password = text "secret";
}

abbrev config : PoolConfig
config = record { size = 2; idle_timeout_ms = 1000; reset_query = text "DISCARD ALL" }

-- A session asks, gets connection 1 when it is open, and releases it.
abbrev asked : World
asked = record (start route config) {
  pool = (acquire 5 1 (start route config).pool).0;
  held = taken (acquire 5 1 (start route config).pool).1 [];
}

abbrev serving : World
serving = record asked {
  pool = open_succeeds asked.next_id asked.pool;
  held = asked.next_id ∷ asked.held;
  next_id = asked.next_id + 1;
}

abbrev served : World
served = record serving {
  pool = (release codec 9 1 serving.pool).0;
  held = granted (release codec 9 1 serving.pool).1 (remove 1 serving.held);
}

reached : Reach codec (start route config) served
unfolding acquire acquire_more project_pool open_succeeds count
reached =
    next (next (next here (acquires 5 1)) (opened (omega arith))) (releases 9 1 (ground arith))

Reach-IsOwned_example : count 1 served.pool.idle + count 1 served.held ≤ 1
Reach-IsOwned_example = Reach-IsOwned codec route config 1 reached

Reach-IsBounded_example : IsBounded served.pool
Reach-IsBounded_example = Reach-IsBounded codec route config reached

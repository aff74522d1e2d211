-- ===== src/Router/Pool.antt =====
-- apps/router/src/pool.ts (ProjectPool), with the state of each ServerConnection of
-- apps/router/src/backend.ts that the pool reads. A connection is its id; time is an argument; a
-- promise is the waiter's id, and what settles it is an effect. The log is left out.
pub mod Ids
pub mod Steps
pub mod Sweep
pub mod Bounds
pub mod Ownership
pub mod Service
use just_postgres.Shared.{
  ℕ, ◌+◌, ◌-◌, Bool, true, false, ◌||◌, Option, none, some, List, [], ◌∷◌, ◌++◌, map, ltb, ◌==◌,
  if◌then◌else◌, length, is_empty, not,
}
use just_postgres.Router.Bytes.{Buffer}
use just_postgres.Router.Text.{Text, Utf8, ◌===◌, lookup, insert}
use just_postgres.Router.Routes.{Route}
use just_postgres.Router.Protocol.Startup.{Parameters}
use just_postgres.Router.Protocol.FrontendMessage
use just_postgres.Router.Protocol.Messages.{encode_message}
use Ids.{member, remove, add}

pub record PoolConfig : Type 0 where
  pub size : ℕ
  pub idle_timeout_ms : ℕ
  pub reset_query : Text

-- The objects that sessions and the pool share: `closed` and `lastUsedAt` of each connection.
pub record Connections : Type 0 where
  pub is_closed : ℕ → Bool
  pub last_used_at : ℕ → ℕ

pub record ProjectPool : Type 0 where
  pub route : Route
  pub config : PoolConfig
  pub connections : Connections
  pub idle : List ℕ
  pub all : List ℕ
  pub waiters : List ℕ
  pub opening : ℕ
  pub opened : ℕ
  pub closed : ℕ
  pub cached_parameters : Option Parameters

pub data Effect : Type 0 where
  sends : ℕ → Buffer → Effect
  resolves : ℕ → ℕ → Effect
  rejects : ℕ → Effect

-- What `acquire` does: it returns a ready connection, starts to open one, or waits.
pub data Acquired : Type 0 where
  ready : ℕ → Acquired
  opens waits : Acquired

abbrev pub close : ℕ → Connections → Connections
close c conns = record conns { is_closed = λ d. if d == c then true else conns.is_closed d }

abbrev pub touch : ℕ → ℕ → Connections → Connections
touch c now conns = record conns {
  last_used_at = λ d. if d == c then now else conns.last_used_at d;
}

abbrev pub use_at : ℕ → ℕ → ProjectPool → ProjectPool
use_at c now p = record p { connections = touch c now p.connections }

-- `connection.destroy()`: the close event that follows finds `closed` set, and calls nothing.
abbrev pub destroy : ℕ → ProjectPool → ProjectPool
destroy c p = record p { connections = close c p.connections }

unfoldable pub forget : ℕ → ProjectPool → ProjectPool
forget c p = record p { all = remove c p.all; idle = remove c p.idle }

-- `acquire` behind the look at the idle connections.
unfoldable pub acquire_more : ℕ → ProjectPool → ProjectPool × Acquired
acquire_more waiter p =
    if ltb (length p.all + p.opening) p.config.size
    then (record p { opening = p.opening + 1 }, opens)
    else (record p { waiters = p.waiters ++ waiter ∷ [] }, waits)

unfoldable pub acquire : ℕ → ℕ → ProjectPool → ProjectPool × Acquired
acquire now waiter p = elim p.idle [
  | [] ↦ acquire_more waiter p
  | c ∷ rest ↦
      if p.connections.is_closed c
      then acquire_more waiter (record p { idle = rest })
      else (use_at c now (record p { idle = rest }), ready c)
]

-- The end of `open`: the connection, or the error, and then `finally`.
unfoldable pub open_succeeds : ℕ → ProjectPool → ProjectPool
open_succeeds c p = record p { all = add c p.all; opened = p.opened + 1; opening = p.opening - 1 }

unfoldable pub open_fails : ProjectPool → ProjectPool
open_fails p = record p { opening = p.opening - 1 }

-- `connection.onClose`, which the socket's close event calls after it has set `closed`.
unfoldable pub on_close : ℕ → ProjectPool → ProjectPool
on_close c p = record p {
  connections = close c p.connections;
  closed = p.closed + 1;
  idle = remove c p.idle;
  all = remove c p.all;
}

-- The timer of a waiter.
unfoldable pub time_out : ℕ → ProjectPool → ProjectPool × List Effect
time_out waiter p = (record p { waiters = remove waiter p.waiters }, rejects waiter ∷ [])

module _ (utf8 : Utf8) where
  -- The reset statement, if one is configured.
  unfoldable pub reset : ℕ → Text → List Effect
  reset c query =
      if is_empty query
      then []
      else elim (encode_message FrontendMessage.query (utf8.encode (query ++ 0 ∷ []))) [
        | none ↦ []
        | some message ↦ sends c message ∷ []
      ]

  unfoldable pub hand_over : ℕ → List ℕ → ProjectPool → ProjectPool × List Effect
  hand_over c [] p = (record p { idle = c ∷ p.idle }, reset c p.config.reset_query)
  hand_over c (w ∷ ws) p =
      (record p { waiters = ws }, reset c p.config.reset_query ++ resolves w c ∷ [])

  unfoldable pub release : ℕ → ℕ → ProjectPool → ProjectPool × List Effect
  release now c p =
      if p.connections.is_closed c
      then (forget c (use_at c now p), [])
      else hand_over c p.waiters (use_at c now p)

  -- `parameters` behind `acquire`, with the connection and what the backend reported on it.
  unfoldable pub parameters_acquired : ℕ → ℕ → Parameters → ProjectPool → ProjectPool × List Effect
  parameters_acquired now c reported p =
      release now c (record p { cached_parameters = some reported })

unfoldable pub discard : ℕ → ProjectPool → ProjectPool
discard c p = forget c (destroy c p)

-- The body of the `if` in `sweepIdle`.
unfoldable pub evict : ℕ → ProjectPool → ProjectPool
evict c p = forget c (destroy c (record p { idle = remove c p.idle }))

-- The loop of `sweepIdle` over the array, from its end.
unfoldable pub sweep : ℕ → List ℕ → ProjectPool → ProjectPool
sweep cutoff [] p = p
sweep cutoff (c ∷ cs) p = sweep cutoff cs (
    if ltb (p.connections.last_used_at c) cutoff || p.connections.is_closed c then evict c p else p)

unfoldable pub sweep_idle : ℕ → ProjectPool → ProjectPool
sweep_idle now p = sweep (now - p.config.idle_timeout_ms) p.idle p

unfoldable pub close_all : List ℕ → Connections → Connections
close_all [] conns = conns
close_all (c ∷ cs) conns = close_all cs (close c conns)

unfoldable pub drain : ProjectPool → ProjectPool × List Effect
drain p = (
  record p {
    connections = close_all p.all p.connections;
    all = [];
    idle = [];
    waiters = [];
    cached_parameters = none;
  },
  map rejects p.waiters,
)

unfoldable pub update_route : Route → ProjectPool → ProjectPool × List Effect
update_route route p =
    if not (route.port == p.route.port) || not (route.password === p.route.password)
    then (record (drain p).0 { route = route }, (drain p).1)
    else (record p { route = route }, [])

pub record PoolStats : Type 0 where
  pub size : ℕ
  pub idle : ℕ
  pub busy : ℕ
  pub waiting : ℕ
  pub opened : ℕ
  pub closed : ℕ

unfoldable pub stats : ProjectPool → PoolStats
stats p = record {
  size = length p.all;
  idle = length p.idle;
  busy = length p.all - length p.idle;
  waiting = length p.waiters;
  opened = p.opened;
  closed = p.closed;
}

unfoldable pub project_pool : Route → PoolConfig → ProjectPool
project_pool route config = record {
  route = route;
  config = config;
  connections = record { is_closed = λ c. false; last_used_at = λ c. 0 };
  idle = [];
  all = [];
  waiters = [];
  opening = 0;
  opened = 0;
  closed = 0;
  cached_parameters = none;
}

-- The map of PoolManager, by project id.
abbrev pub Pools : Type 0
Pools = List (Text × ProjectPool)

unfoldable pub for_route : PoolConfig → Route → Pools → Pools × List Effect
for_route config route pools = elim (lookup route.project_id pools) [
  | some existing ↦ (
    insert route.project_id (update_route route existing).0 pools,
    (update_route route existing).1,
  )
  | none ↦ (insert route.project_id (project_pool route config) pools, [])
]

-- ===== src/Router/Routes.antt =====
-- apps/router/src/routes.ts: the routing table, read from the control plane's database. The query
-- and decryptSecret (packages/secrets, over node:crypto) are arguments; the log is left out.
pub mod Laws
use just_postgres.Shared.{
  ℕ, ◌-◌, Option, none, some, List, [], ◌∷◌, ltb, if◌then◌else◌, ◌>>=◌, length,
}
use just_postgres.Router.Text.{Text, text, lookup, insert}

pub record Route : Type 0 where
  pub project_id : Text
  pub ref : Text
  pub name : Text
  pub state : Text
  pub host : Text
  pub port : ℕ
  pub role : Text
  pub database : Text
  pub password : Text

-- A row of the query: the null columns of a project without a port or credentials are `none`.
pub record ProjectCredentialRow : Type 0 where
  pub id : Text
  pub ref : Text
  pub name : Text
  pub state : Text
  pub host_port : Option ℕ
  pub role : Option Text
  pub database : Option Text
  pub password_enc : Option Text

pub record RouteStore : Type 0 where
  pub by_ref : List (Text × Route)
  pub last_refresh_at : ℕ
  pub last_error : Option Text

abbrev pub database_of : Option Text → Text
database_of none = text "postgres"
database_of (some d) = d

abbrev pub add_route : Option Route → Text → List (Text × Route) → List (Text × Route)
add_route none ref table = table
add_route (some route) ref table = insert ref route table

-- What the query gives: rows, or the message of what it throws.
pub data Query : Type 0 where
  rows : List ProjectCredentialRow → Query
  fails : Text → Query

-- decryptSecret with the master key (`none` where it throws), and the configured backend host.
module _ (decrypt : Text → Option Text) (backend_host : Text) where
  -- The route of a row; `none` where the loop of `refresh` goes on with the next row.
  unfoldable pub route_of : ProjectCredentialRow → Option Route
  route_of row = do
    port ← row.host_port
    role ← row.role
    password_enc ← row.password_enc
    password ← decrypt password_enc
    some (record {
      project_id = row.id;
      ref = row.ref;
      name = row.name;
      state = row.state;
      host = backend_host;
      port = port;
      role = role;
      database = database_of row.database;
      password = password;
    })

  unfoldable pub build : List ProjectCredentialRow → List (Text × Route) → List (Text × Route)
  build [] table = table
  build (row ∷ later) table = build later (add_route (route_of row) row.ref table)

  unfoldable pub refresh : ℕ → Query → RouteStore → RouteStore
  refresh now (rows rs) store = record {
    by_ref = build rs [];
    last_refresh_at = now;
    last_error = none;
  }
  refresh now (fails message) store = record store { last_error = some message }

  -- A miss more than half a second after the last refresh refreshes the table and looks again.
  unfoldable pub lookup_route : ℕ → Query → Text → RouteStore → Option Route × RouteStore
  lookup_route now query ref store = elim (lookup ref store.by_ref) [
    | some hit ↦ (some hit, store)
    | none ↦
        if ltb 500 (now - store.last_refresh_at)
        then (lookup ref (refresh now query store).by_ref, refresh now query store)
        else (none, store)
  ]

  unfoldable pub size : RouteStore → ℕ
  size store = length store.by_ref

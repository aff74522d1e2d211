-- ===== src/ControlPlane/Naming.antt =====
-- apps/control-plane/src/projects/naming.ts, buildEndpoints, and ConnectionEndpoint of
-- packages/shared/src/projects.ts. `show` is the text of a number.
pub mod Endpoints
use just_postgres.Shared.{
  ℕ, Bool, true, false, Option, none, some, List, [], ◌∷◌, ◌++◌, if◌then◌else◌,
}
use just_postgres.Router.Text.{Text, text}

pub data ConnectionKind : Type 0 where
  direct pooled container : ConnectionKind

pub record ConnectionEndpoint : Type 0 where
  pub kind : ConnectionKind
  pub label : Text
  pub description : Text
  pub caveat : Option Text
  pub host : Text
  pub port : ℕ
  pub user : Text
  pub database : Text
  pub url : Option Text
  pub masked_url : Text
  pub psql : Option Text

pub record NamingConfig : Type 0 where
  pub router_enabled : Bool
  pub router_host : Text
  pub session_port : ℕ
  pub pool_port : ℕ
  pub public_host : Text

pub record EndpointOptions : Type 0 where
  pub config : NamingConfig
  pub ref : Text
  pub role : Text
  pub password : Text
  pub database : Text
  pub container_port : Option ℕ
  pub reveal : Bool

module _ (show : ℕ → Text) (opts : EndpointOptions) where
  -- `postgresql://${user}:${secret}@${host}:${port}/${database}`
  abbrev pub url_of : Text → Text → ℕ → Text → Text
  url_of user host port secret =
      text "postgresql://"
      ++ user
      ++ text ":"
      ++ secret
      ++ text "@"
      ++ host
      ++ text ":"
      ++ show port
      ++ text "/"
      ++ opts.database

  unfoldable pub make :
      ConnectionKind → Text → Text → Text → ℕ → Text → Option Text → ConnectionEndpoint
  make kind label description host port user caveat = record {
    kind = kind;
    label = label;
    description = description;
    caveat = caveat;
    host = host;
    port = port;
    user = user;
    database = opts.database;
    url = if opts.reveal then some (url_of user host port opts.password) else none;
    masked_url = url_of user host port (text "••••••••");
    psql =
        if opts.reveal
        then some (text "psql \"" ++ url_of user host port opts.password ++ text "\"")
        else none;
  }

  -- `${role}.${ref}`
  abbrev pub routed_user : Text
  routed_user = opts.role ++ b'.' ∷ opts.ref

  abbrev pub direct_endpoint : ConnectionEndpoint
  direct_endpoint =
      make direct (text "Direct")
        (text
          "Session mode. Use for migrations, pg_dump, LISTEN/NOTIFY, and long-lived application connections.")
        opts.config.router_host opts.config.session_port routed_user none

  abbrev pub pooled_endpoint : ConnectionEndpoint
  pooled_endpoint =
      make pooled (text "Pooled")
        (text
          "Transaction mode. Use for serverless and anything that opens many short-lived connections.")
        opts.config.router_host opts.config.pool_port routed_user
        (some (
          text
            "Session state does not survive a transaction: SET, LISTEN, session advisory locks, WITH HOLD cursors and named prepared statements will not work. Use the direct string for those."))

  abbrev pub container_endpoint : ℕ → ConnectionEndpoint
  container_endpoint port =
      make container (if opts.config.router_enabled then text "Container port" else text "Direct")
        (if opts.config.router_enabled
          then text
              "Bypasses the router entirely and talks to the container. Useful for debugging the router itself."
          else text
              "Session mode, straight to the container. The router is not deployed on this instance.")
        opts.config.public_host port opts.role none

  abbrev pub container_endpoints : Option ℕ → List ConnectionEndpoint
  container_endpoints none = []
  container_endpoints (some port) = container_endpoint port ∷ []

  unfoldable pub build_endpoints : List ConnectionEndpoint
  build_endpoints =
      (if opts.config.router_enabled then direct_endpoint ∷ pooled_endpoint ∷ [] else [])
      ++ container_endpoints opts.container_port

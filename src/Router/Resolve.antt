-- ===== src/Router/Resolve.antt =====
-- apps/router/src/resolve.ts: which project a connection is for. The texts of messages and hints
-- are left out but for the explanation of a state; an error is told by its kind and its code.
pub mod Laws
use just_postgres.Shared.{
  ℕ, suc, ◌-◌, ◌&&◌, Bool, true, false, Option, none, some, List, [], ◌∷◌, ◌++◌, ltb, leb, ◌==◌,
  if◌then◌else◌, length, take, drop, is_empty, not,
}
use just_postgres.Router.Text.{Text, text, ◌===◌, lookup}
use just_postgres.Router.Protocol.Startup.{Parameters}
use just_postgres.Router.Routes.{Route, RouteStore, Query, lookup_route}

pub data RoutingMode : Type 0 where
  sni username : RoutingMode

pub record Resolution : Type 0 where
  pub route : Route
  pub mode : RoutingMode
  pub role : Text

pub data RoutingError : Type 0 where
  missing_user unknown_host undetermined : RoutingError
  not_accepting : Option Text → RoutingError

abbrev pub error_code : RoutingError → Text
error_code missing_user = text "08P01"
error_code unknown_host = text "3D000"
error_code undetermined = text "3D000"
error_code (not_accepting explanation) = text "57P03"

pub data Outcome : Type 0 where
  resolved : Resolution → Outcome
  refused : RoutingError → Outcome

-- `text.lastIndexOf(".")`; `none` is -1.
unfoldable pub last_index_of_dot : Text → Option ℕ
last_index_of_dot [] = none
last_index_of_dot (c ∷ cs) = elim (last_index_of_dot cs) [
  | some i ↦ some (suc i)
  | none ↦ if c == b'.' then some 0 else none
]

-- `s.endsWith(suffix)`
unfoldable pub ends_with : Text → Text → Bool
ends_with suffix s =
    leb (length suffix) (length s) && (drop (length s - length suffix) s === suffix)

-- `text.replace(/^\./, "")`
unfoldable pub strip_dot : Text → Text
strip_dot [] = []
strip_dot (c ∷ cs) = if c == b'.' then cs else c ∷ cs

-- The hint for a route that is not running.
abbrev pub explanation : Text → Option Text
explanation state = lookup state (
    (text "creating", text "The project is still being provisioned.")
    ∷ (text "stopped", text "The project is stopped. Start it from the control plane.")
    ∷ (text "failed", text "The project failed to start. Check the control plane for the error.")
    ∷ (text "deleting", text "The project is being deleted.")
    ∷ [])

-- `assertRoutable(route)`, and then the resolution.
unfoldable pub routable : Route → RoutingMode → Text → Outcome
routable route mode role =
    if route.state === text "running"
    then resolved (record { route = route; mode = mode; role = role })
    else refused (not_accepting (explanation route.state))

-- `if (opts.servername && config.domainSuffix)` and `endsWith`: the ref in the hostname.
unfoldable pub sni_ref : Option Text → Option Text → Option Text
sni_ref none suffix = none
sni_ref (some servername) none = none
sni_ref (some servername) (some suffix) =
    let dotted = b'.' ∷ strip_dot suffix in
    if not (is_empty servername) && (not (is_empty suffix) && ends_with dotted servername)
    then some (take (length servername - length dotted) servername)
    else none

-- The role and the ref of `<role>.<ref>`, neither of them empty.
unfoldable pub username_ref : Text → Option (Text × Text)
username_ref user = elim (last_index_of_dot user) [
  | none ↦ none
  | some i ↦
      if ltb 0 i && ltb i (length user - 1) then some (take i user, drop (suc i) user) else none
]

unfoldable pub resolve_host : Text → Option Route × RouteStore → Outcome × RouteStore
resolve_host user (none, store) = (refused unknown_host, store)
resolve_host user (some route, store) = (routable route sni user, store)

unfoldable pub resolve_name : Text → Option Route × RouteStore → Outcome × RouteStore
resolve_name role (none, store) = (refused undetermined, store)
resolve_name role (some route, store) = (routable route username role, store)

module _ (decrypt : Text → Option Text) (backend_host : Text) (domain_suffix : Option Text)
    (now : ℕ) (query : Query) where
  unfoldable pub resolve_user : RouteStore → Option Text → Text → Outcome × RouteStore
  resolve_user store servername user = elim (sni_ref servername domain_suffix) [
    | some ref ↦ resolve_host user (lookup_route decrypt backend_host now query ref store)
    | none ↦ elim (username_ref user) [
      | none ↦ (refused undetermined, store)
      | some (role, ref) ↦ resolve_name role (lookup_route decrypt backend_host now query ref store)
    ]
  ]

  -- The store is passed on: looking a route up may refresh the table.
  unfoldable pub resolve_route : RouteStore → Option Text → Parameters → Outcome × RouteStore
  resolve_route store servername parameters = elim (lookup (text "user") parameters) [
    | none ↦ (refused missing_user, store)
    | some user ↦
        if is_empty user then (refused missing_user, store) else resolve_user store servername user
  ]

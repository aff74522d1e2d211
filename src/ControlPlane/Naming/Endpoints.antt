-- ===== src/ControlPlane/Naming/Endpoints.antt =====
-- apps/control-plane/src/projects/naming.ts and apps/router/src/resolve.ts: what the router makes
-- of the connection strings that the control plane shows.
use just_postgres.Shared.{
  ℕ, ◌≡◌, ◌≢◌, refl, ap, Bool, true, false, Option, none, some, List, [], ◌∷◌, ◌++◌, if◌then◌else◌,
  All,
}
use just_postgres.Router.Text.{Text, text, ===_refl, ◌===◌, lookup}
use just_postgres.Router.Protocol.Startup.{Parameters}
use just_postgres.Router.Routes.{Route, RouteStore, Query, lookup_route}
use just_postgres.Router.Resolve.{
  username, resolved, refused, not_accepting, explanation, sni_ref, resolve_route,
}
use just_postgres.Router.Resolve.Laws.{resolve_route_username}
use just_postgres.ControlPlane.Naming.{
  direct, pooled, container, ConnectionEndpoint, EndpointOptions, make, routed_user,
  container_endpoints, build_endpoints, direct_endpoint, pooled_endpoint,
}

-- The endpoints that lead to the router.
unfoldable pub routed : List ConnectionEndpoint → List ConnectionEndpoint
routed [] = []
routed (e ∷ es) = elim e.kind [
  | container ↦ routed es
  | direct ↦ e ∷ routed es
  | pooled ↦ e ∷ routed es
]

-- The startup parameters of a client that connects with an endpoint.
abbrev pub parameters_of : ConnectionEndpoint → Parameters
parameters_of e = (text "user", e.user) ∷ (text "database", e.database) ∷ []

module _ (show : ℕ → Text) (opts : EndpointOptions) where
  routed_part :
      (b : Bool) (port : Option ℕ)
      → All
          (λ e. e.user ≡ routed_user show opts)
          (routed (
            (if b then direct_endpoint show opts ∷ pooled_endpoint show opts ∷ [] else [])
            ++ container_endpoints show opts port))
  unfolding routed make
  routed_part true none = (refl, (refl, tt))
  routed_part true (some port) = (refl, (refl, tt))
  routed_part false none = tt
  routed_part false (some port) = tt

  routed_users : All (λ e. e.user ≡ routed_user show opts) (routed (build_endpoints show opts))
  unfolding build_endpoints
  routed_users = routed_part opts.config.router_enabled opts.container_port

All-map :
    (P Q : ConnectionEndpoint → Type 0) (es : List ConnectionEndpoint)
    → ((e : ConnectionEndpoint) → P e → Q e)
    → All P es
    → All Q es
All-map P Q [] f h = tt
All-map P Q (e ∷ es) f h = (f e h.0, All-map P Q es f h.1)

-- Every endpoint that leads to the router, for a role and a ref that are not empty and a ref that
-- holds no dot, is one that the router resolves to the project of that ref and under that role,
-- when no host name decides: the project is served if it runs, and otherwise the client is refused
-- with the explanation of its state.
pub build_endpoints-resolve_route :
    (show : ℕ → Text) (opts : EndpointOptions) (decrypt : Text → Option Text) (backend_host : Text)
    (domain_suffix : Option Text) (now : ℕ) (query : Query) (store : RouteStore)
    (servername : Option Text) (route : Route)
    → opts.role ≢ []
    → opts.ref ≢ []
    → All (λ c. c ≢ b'.') opts.ref
    → sni_ref servername domain_suffix ≡ none
    → (lookup_route decrypt backend_host now query opts.ref store).0 ≡ some route
    → All
        (λ e.
          (resolve_route decrypt backend_host domain_suffix now query store servername
            (parameters_of e)).0
          ≡ (if route.state === text "running"
              then resolved (record { route = route; mode = username; role = opts.role })
              else refused (not_accepting (explanation route.state))))
        (routed (build_endpoints show opts))
unfolding lookup
build_endpoints-resolve_route show opts decrypt backend_host domain_suffix now query store
      servername route r f plain h found =
    All-map (λ e. e.user ≡ routed_user show opts) _ (routed (build_endpoints show opts))
      (λ e same.
        resolve_route_username decrypt backend_host domain_suffix now query store servername
          (parameters_of e) opts.role opts.ref route r f plain
          (rw (lookup, ===_refl (text "user")) (ap some same)) h found)
      (routed_users show opts)

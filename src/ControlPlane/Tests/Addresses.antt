-- ===== src/ControlPlane/Tests/Addresses.antt =====
-- apps/control-plane/src/projects/naming.ts, buildEndpoints, for one project.
use just_postgres.Shared.{
  ℕ, ◌≡◌, refl, true, Option, none, some, [], ◌∷◌, arith, if◌then◌else◌, All,
}
use just_postgres.Router.Text.{Text, text, lookup, ◌===◌}
use just_postgres.Router.Routes.{Route, RouteStore, fails, lookup_route}
use just_postgres.Router.Resolve.{
  username, resolved, refused, not_accepting, explanation, sni_ref, resolve_route,
}
use just_postgres.ControlPlane.Naming.{EndpointOptions, build_endpoints}
use just_postgres.ControlPlane.Naming.Endpoints.{
  routed, parameters_of, build_endpoints-resolve_route,
}

abbrev decrypt : Text → Option Text
decrypt t = some t

abbrev show : ℕ → Text
show n = text "6432"

abbrev opts : EndpointOptions
opts = record {
  config = record {
    router_enabled = true;
    router_host = text "db.local";
    session_port = 6432;
    pool_port = 6432;
    public_host = text "db.local";
  };
  ref = text "shop";
  role = text "app";
  password = text "secret";
  database = text "postgres";
  container_port = some 6432;
  reveal = true;
}

abbrev shop : Route
shop = record {
  project_id = text "p1";
  ref = text "shop";
  name = text "Shop";
  state = text "running";
  host = text "127.0.0.1";
  port = 55000;
  role = text "app";
  database = text "postgres";
  password = text "secret";
}

abbrev table : RouteStore
table = record { by_ref = (text "shop", shop) ∷ []; last_refresh_at = 1000; last_error = none }

build_endpoints-resolve_route_example :
    All
      (λ e.
        (resolve_route decrypt
          (text "127.0.0.1")
          none
          1200
          (fails [])
          table
          none
          (parameters_of e)).0
        ≡ (if shop.state === text "running"
            then resolved (record { route = shop; mode = username; role = text "app" })
            else refused (not_accepting (explanation shop.state))))
      (routed (build_endpoints show opts))
unfolding sni_ref lookup_route lookup ◌===◌
build_endpoints-resolve_route_example =
    build_endpoints-resolve_route show opts decrypt (text "127.0.0.1") none 1200 (fails []) table
      none shop (λ e. cc) (λ e. cc)
      (
        (λ e. omega (arith, e)),
        ((λ e. omega (arith, e)), ((λ e. omega (arith, e)), ((λ e. omega (arith, e)), tt))),
      )
      refl refl

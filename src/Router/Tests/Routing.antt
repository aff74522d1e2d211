-- ===== src/Router/Tests/Routing.antt =====
-- apps/router/src/routes.ts and resolve.ts at one project.
use just_postgres.Shared.{◌≡◌, ◌⊎◌, refl, Option, none, some, [], ◌∷◌}
use just_postgres.Router.Text.{Text, text, lookup, ◌===◌}
use just_postgres.Router.Protocol.Startup.{Parameters}
use just_postgres.Router.Routes.{
  Route, ProjectCredentialRow, RouteStore, rows, fails, refresh, lookup_route, route_of,
}
use just_postgres.Router.Routes.Laws.{last_route, lookup-refresh}
use just_postgres.Router.Resolve.{
  Resolution, username, resolve_route, resolve_user, resolve_name, sni_ref, username_ref,
  last_index_of_dot, routable,
}
use just_postgres.Router.Resolve.Laws.{ByHost, ByUser, resolve_route_sound}

abbrev decrypt : Text → Option Text
decrypt t = some t

abbrev host : Text
host = text "127.0.0.1"

abbrev shop_row : ProjectCredentialRow
shop_row = record {
  id = text "p1";
  ref = text "shop";
  name = text "Shop";
  state = text "running";
  host_port = some 55000;
  role = some (text "app");
  database = none;
  password_enc = some (text "sealed");
}

abbrev shop : Route
shop = record {
  project_id = text "p1";
  ref = text "shop";
  name = text "Shop";
  state = text "running";
  host = host;
  port = 55000;
  role = text "app";
  database = text "postgres";
  password = text "sealed";
}

abbrev table : RouteStore
table = record { by_ref = (text "shop", shop) ∷ []; last_refresh_at = 1000; last_error = none }

abbrev portless_row : ProjectCredentialRow
portless_row = record shop_row { host_port = none }

lookup-refresh_example :
    lookup
      (text "shop")
      (refresh decrypt host 2000 (rows (shop_row ∷ portless_row ∷ [])) table).by_ref
    ≡ some shop
unfolding last_route route_of ◌===◌
lookup-refresh_example =
    lookup-refresh decrypt host 2000 (shop_row ∷ portless_row ∷ []) table (text "shop")

abbrev login : Parameters
login = (text "user", text "app.shop") ∷ []

abbrev found : Resolution
found = record { route = shop; mode = username; role = text "app" }

resolve_route_sound_example :
    (user : Text) × (lookup (text "user") login ≡ some user)
    × (shop.state ≡ text "running")
    × (ByHost decrypt host none 1200 (fails []) table none user found
        ⊎ ByUser decrypt host none 1200 (fails []) table none user found)
unfolding resolve_route resolve_user resolve_name sni_ref username_ref last_index_of_dot routable
    lookup_route lookup ◌===◌
resolve_route_sound_example =
    resolve_route_sound decrypt host none 1200 (fails []) table none login found table refl

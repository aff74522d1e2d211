-- ===== src/Router/Routes/Laws.antt =====
-- apps/router/src/routes.ts: what a refresh puts into the table, and what it keeps.
use just_postgres.Shared.{
  ℕ, ◌≡◌, refl, ◌∙◌, Option, none, some, List, [], ◌∷◌, arith, if◌then◌else◌, ap,
}
use just_postgres.Router.Text.{Text, lookup, ◌===◌, lookup-insert}
use just_postgres.Router.Routes.{
  Route, ProjectCredentialRow, RouteStore, route_of, add_route, build, rows, fails, refresh,
  lookup_route,
}

module _ (decrypt : Text → Option Text) (backend_host : Text) where
  -- The last row with the ref that has a route gives the route: the table by scanning the rows.
  unfoldable pub last_route : Text → List ProjectCredentialRow → Option Route → Option Route
  last_route ref [] found = found
  last_route ref (row ∷ rs) found = last_route ref rs (elim (route_of decrypt backend_host row) [
    | none ↦ found
    | some route ↦ if row.ref === ref then some route else found
  ])

  lookup-add_route :
      (route : Option Route) (key ref : Text) (table : List (Text × Route))
      → lookup ref (add_route route key table) ≡ (elim route [
        | none ↦ lookup ref table
        | some r ↦ if key === ref then some r else lookup ref table
      ])
  lookup-add_route none key ref table = refl
  lookup-add_route (some r) key ref table = lookup-insert key ref r table

  lookup-build :
      (ref : Text) (rs : List ProjectCredentialRow) (table : List (Text × Route))
      → lookup ref (build decrypt backend_host rs table) ≡ last_route ref rs (lookup ref table)
  unfolding build last_route
  lookup-build ref [] table = refl
  lookup-build ref (row ∷ rs) table =
      lookup-build ref rs (add_route (route_of decrypt backend_host row) row.ref table)
      ∙ ap (last_route ref rs)
          (lookup-add_route (route_of decrypt backend_host row) row.ref ref table)

  -- After a refresh that reads the rows, looking a ref up gives the route of the last row with
  -- that ref that has a port, credentials and a password that decrypts, and nothing if there is
  -- no such row: a row that has none is skipped and hides no other.
  pub lookup-refresh :
      (now : ℕ) (rs : List ProjectCredentialRow) (store : RouteStore) (ref : Text)
      → lookup ref (refresh decrypt backend_host now (rows rs) store).by_ref
        ≡ last_route ref rs none
  unfolding refresh
  lookup-refresh now rs store ref = lookup-build ref rs [] ∙ unfold lookup in refl

  -- A query that fails changes no answer: a lookup gives what the table held, and keeps the table.
  pub lookup_route_fails :
      (now : ℕ) (message ref : Text) (store : RouteStore)
      → ((lookup_route decrypt backend_host now (fails message) ref store).0
          ≡ lookup ref store.by_ref)
        × ((lookup_route decrypt backend_host now (fails message) ref store).1.by_ref
            ≡ store.by_ref)
  unfolding lookup_route refresh
  lookup_route_fails now message ref store = ground arith

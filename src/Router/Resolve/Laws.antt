-- ===== src/Router/Resolve/Laws.antt =====
-- apps/router/src/resolve.ts: whom a resolution serves, and which user names reach a project.
use mathlib.Core.Option.{some-injective}
use just_postgres.Shared.{
  ℕ, zero, suc, ◌-◌, ◌≡◌, ◌≢◌, refl, sym, ap, ◌∙◌, ◌⊎◌, inl, inr, false, Option, none, some, [],
  ◌∷◌, ◌++◌, arith, if◌then◌else◌, length, take, drop, is_empty, Bool-cases, Option-cases,
  length-append, take-length, take-append-drop, All,
}
use just_postgres.Router.Text.{Text, text, ◌===◌, ===_sound, lookup}
use just_postgres.Router.Protocol.Startup.{Parameters}
use just_postgres.Router.Routes.{Route, RouteStore, Query, lookup_route}
use just_postgres.Router.Resolve.{
  RoutingMode, sni, username, Resolution, resolved, refused, last_index_of_dot, ends_with,
  strip_dot, routable, sni_ref, username_ref, resolve_host, resolve_name, resolve_user,
  resolve_route, not_accepting, explanation,
}

no_dot : (ref : Text) → All (λ c. c ≢ b'.') ref → last_index_of_dot ref ≡ none
unfolding last_index_of_dot
no_dot [] h = refl
no_dot (c ∷ cs) h = rw (no_dot cs h.1) (ground arith)

-- The last dot of `role.ref` is the one before a ref that has none.
last_index_of_dot-append :
    (role ref : Text)
    → All (λ c. c ≢ b'.') ref
    → last_index_of_dot (role ++ b'.' ∷ ref) ≡ some (length role)
unfolding last_index_of_dot
last_index_of_dot-append [] ref h = rw (no_dot ref h)
last_index_of_dot-append (c ∷ cs) ref h = rw (last_index_of_dot-append cs ref h)

last_index_of_dot_sound :
    (s : Text) (i : ℕ) → last_index_of_dot s ≡ some i → s ≡ take i s ++ b'.' ∷ drop (suc i) s
unfolding last_index_of_dot
last_index_of_dot_sound [] i e = cc
last_index_of_dot_sound (c ∷ cs) zero e = ground arith
last_index_of_dot_sound (c ∷ cs) (suc i) e = ground (arith, last_index_of_dot_sound cs i)

drop-suc : (xs ys : Text) (d : ℕ) → drop (suc (length xs)) (xs ++ d ∷ ys) ≡ ys
drop-suc [] ys d = refl
drop-suc (x ∷ xs) ys d = drop-suc xs ys d

username_ref_sound :
    (user role ref : Text) → username_ref user ≡ some (role, ref) → user ≡ role ++ b'.' ∷ ref
unfolding username_ref
username_ref_sound user role ref e = elim (Option-cases (last_index_of_dot user)) [
  | inl missing ↦ cc (rw (missing, username_ref) at e)
  | inr (i, found) ↦ ground (arith, last_index_of_dot_sound user i found)
]

username_ref_complete :
    (role ref : Text)
    → role ≢ []
    → ref ≢ []
    → All (λ c. c ≢ b'.') ref
    → username_ref (role ++ b'.' ∷ ref) ≡ some (role, ref)
unfolding username_ref
username_ref_complete [] ref r f h = absurd (r refl)
username_ref_complete (c ∷ cs) [] r f h = absurd (f refl)
username_ref_complete (c ∷ cs) (d ∷ ds) r f h =
    let role : Text = c ∷ cs in
    let ref : Text = d ∷ ds in
    rw (last_index_of_dot-append role ref h, username_ref)
      (ground
        (arith, length-append cs (b'.' ∷ ref), take-length cs (b'.' ∷ ref), drop-suc cs ref b'.'))

sni_ref_sound :
    (servername suffix : Option Text) (ref : Text)
    → sni_ref servername suffix ≡ some ref
    → (name domain : Text) × (servername ≡ some name)
      × (suffix ≡ some domain)
      × (name ≡ ref ++ b'.' ∷ strip_dot domain)
unfolding sni_ref ends_with
sni_ref_sound none suffix ref e = cc
sni_ref_sound (some name) none ref e = cc
sni_ref_sound (some name) (some domain) ref e =
    let dotted : Text = b'.' ∷ strip_dot domain in
    let cut : ℕ = length name - length dotted in
    (
      name,
      domain,
      refl,
      refl,
      ground (arith, take-append-drop cut name, ===_sound (drop cut name) dotted),
    )

routable_sound :
    (route : Route) (mode : RoutingMode) (role : Text) (r : Resolution)
    → routable route mode role ≡ resolved r
    → (route.state ≡ text "running") × (r.route ≡ route) × (r.mode ≡ mode) × (r.role ≡ role)
unfolding routable
routable_sound route mode role r e = ground (arith, ===_sound route.state (text "running"))

resolve_host_sound :
    (user : Text) (found : Option Route × RouteStore) (r : Resolution) (after : RouteStore)
    → resolve_host user found ≡ (resolved r, after)
    → (r.route.state ≡ text "running") × (found.0 ≡ some r.route) × (r.mode ≡ sni) × (r.role ≡ user)
unfolding resolve_host
resolve_host_sound user (none, store) r after e = cc
resolve_host_sound user (some route, store) r after e =
    let (running, same, mode, role) = routable_sound route sni user r (ap (λ p. p.0) e) in
    (ap (λ (q : Route). q.state) same ∙ running, ap some (sym same), mode, role)

resolve_name_sound :
    (name : Text) (found : Option Route × RouteStore) (r : Resolution) (after : RouteStore)
    → resolve_name name found ≡ (resolved r, after)
    → (r.route.state ≡ text "running")
      × (found.0 ≡ some r.route)
      × (r.mode ≡ username)
      × (r.role ≡ name)
unfolding resolve_name
resolve_name_sound name (none, store) r after e = cc
resolve_name_sound name (some route, store) r after e =
    let (running, same, mode, role) = routable_sound route username name r (ap (λ p. p.0) e) in
    (ap (λ (q : Route). q.state) same ∙ running, ap some (sym same), mode, role)

resolve_name_found :
    (role : Text) (found : Option Route × RouteStore) (route : Route)
    → found.0 ≡ some route
    → (resolve_name role found).0 ≡ (
        if route.state === text "running"
        then resolved (record { route = route; mode = username; role = role })
        else refused (not_accepting (explanation route.state)))
unfolding resolve_name routable
resolve_name_found role (none, store) route e = cc
resolve_name_found role (some other, store) route e =
    ap (λ r. (resolve_name role (some r, store)).0) (some-injective other route e)

is_empty-append : (xs ys : Text) → xs ≢ [] → is_empty (xs ++ ys) ≡ false
is_empty-append [] ys h = absurd (h refl)
is_empty-append (x ∷ xs) ys h = refl

module _ (decrypt : Text → Option Text) (backend_host : Text) (domain_suffix : Option Text)
    (now : ℕ) (query : Query) (store : RouteStore) (servername : Option Text) where
  -- The route that looking a ref up gives.
  abbrev pub finds : Text → Option Route
  finds ref = (lookup_route decrypt backend_host now query ref store).0

  -- What a resolution by host name, or by user name, must have found.
  abbrev pub ByHost : Text → Resolution → Type 0
  ByHost user r =
      (ref : Text) × (name : Text) × (domain : Text) × (r.mode ≡ sni)
      × (r.role ≡ user)
      × (servername ≡ some name)
      × (domain_suffix ≡ some domain)
      × (name ≡ ref ++ b'.' ∷ strip_dot domain)
      × (finds ref ≡ some r.route)

  abbrev pub ByUser : Text → Resolution → Type 0
  ByUser user r =
      (ref : Text) × (r.mode ≡ username)
      × (user ≡ r.role ++ b'.' ∷ ref)
      × (finds ref ≡ some r.route)

  resolve_user_sound :
      (user : Text) (r : Resolution) (after : RouteStore)
      → resolve_user decrypt backend_host domain_suffix now query store servername user
        ≡ (resolved r, after)
      → (r.route.state ≡ text "running") × (ByHost user r ⊎ ByUser user r)
  unfolding resolve_user
  resolve_user_sound user r after e = elim (Option-cases (sni_ref servername domain_suffix)) [
    | inr (ref, host) ↦
        let (name, domain, named, suffixed, split) =
          sni_ref_sound servername domain_suffix ref host in
        let (running, found, mode, role) =
          resolve_host_sound user _ r after (rw (host, resolve_user) at e) in
        (running, inl (ref, name, domain, mode, role, named, suffixed, split, found))
    | inl no_host ↦ elim (Option-cases (username_ref user)) [
      | inl no_name ↦ cc (rw (no_host, resolve_user, no_name) at e)
      | inr ((name, ref), split) ↦
          let (running, found, mode, role) =
            resolve_name_sound name _ r after (rw (no_host, resolve_user, split) at e) in
          (
            running,
            inr (
              ref,
              mode,
              username_ref_sound user name ref split ∙ ap (λ n. n ++ b'.' ∷ ref) (sym role),
              found,
            ),
          )
    ]
  ]

  -- Every resolution serves a running project whose route the table gives for the ref that the
  -- client named: in a host name `<ref>.<suffix>` under the configured suffix, with the user name
  -- as the role, or in a user name `<role>.<ref>`, with the suffix stripped.
  pub resolve_route_sound :
      (parameters : Parameters) (r : Resolution) (after : RouteStore)
      → resolve_route decrypt backend_host domain_suffix now query store servername parameters
        ≡ (resolved r, after)
      → (user : Text) × (lookup (text "user") parameters ≡ some user)
        × (r.route.state ≡ text "running")
        × (ByHost user r ⊎ ByUser user r)
  unfolding resolve_route
  resolve_route_sound parameters r after e = elim (Option-cases (lookup (text "user") parameters)) [
    | inl missing ↦ cc (rw (missing, resolve_route) at e)
    | inr (user, given) ↦
        let e' = rw (given, resolve_route) at e in
        elim (Bool-cases (is_empty user)) [
          | inl blank ↦ cc (rw blank at e')
          | inr named ↦
              let (running, way) = resolve_user_sound user r after (rw named at e') in
              (user, given, running, way)
        ]
  ]

  -- A user name `<role>.<ref>`, with a role that may hold dots and a ref that holds none, reaches
  -- the project that the ref names, under that role, when no host name decides: it is resolved
  -- if the project runs, and otherwise refused with the explanation of the project's state.
  pub resolve_route_username :
      (parameters : Parameters) (role ref : Text) (route : Route)
      → role ≢ []
      → ref ≢ []
      → All (λ c. c ≢ b'.') ref
      → lookup (text "user") parameters ≡ some (role ++ b'.' ∷ ref)
      → sni_ref servername domain_suffix ≡ none
      → finds ref ≡ some route
      → (resolve_route decrypt backend_host domain_suffix now query store servername parameters).0
        ≡ (if route.state === text "running"
            then resolved (record { route = route; mode = username; role = role })
            else refused (not_accepting (explanation route.state)))
  unfolding resolve_route resolve_user
  resolve_route_username parameters role ref route r f plain given no_host found =
      rw
        (
          given,
          resolve_route,
          is_empty-append role (b'.' ∷ ref) r,
          no_host,
          resolve_user,
          username_ref_complete role ref r f plain,
        )
        (resolve_name_found role _ route found)

-- ===== src/ControlPlane/Auth/Sessions.antt =====
-- apps/control-plane/src/auth/service.ts: how long a session token opens the account.
use just_postgres.Shared.{
  ℕ, ◌+◌, ◌≡◌, ◌≢◌, refl, sym, ap, ◌∙◌, Bool, true, false, Option, none, some, List, [], ◌∷◌, ◌++◌,
  arith, ltb, leb, if◌then◌else◌, Bool-cases, Option-cases, inl, inr,
}
use just_postgres.Router.Text.{Text, ◌===◌, ===_sound, ===_refl}
use just_postgres.ControlPlane.Strings.{trim}
use just_postgres.ControlPlane.Auth.{
  AuthConfig, AdminRow, SessionRow, PublicAdmin, LoginContext, AuthState, key_of, lockout_remaining,
  ok, to_public_admin, find_admin, find_session, delete_sessions, update_admins,
}
use just_postgres.ControlPlane.Auth.Access.{
  LoginResult, Pending, login_start, new_session, admit, refuse, decide, login_finish, finish_login,
  login, validate_row, validate_session, logout, change_password,
}

find_session-append :
    (id : Text) (r : SessionRow) (rs : List SessionRow)
    → find_session id rs ≡ none
    → (r.id === id) ≡ true
    → find_session id (rs ++ r ∷ []) ≡ some r
unfolding find_session
find_session-append id r [] h e = rw e
find_session-append id r (q ∷ rs) h e = elim (Bool-cases (q.id === id)) [
  | inl k ↦ cc (rw k at h)
  | inr k ↦ rw k (find_session-append id r rs (rw k at h) e)
]

find_session-delete_sessions :
    (id : Text) (rs : List SessionRow)
    → find_session id (delete_sessions (λ r. r.id === id) rs) ≡ none
unfolding find_session delete_sessions
find_session-delete_sessions id [] = refl
find_session-delete_sessions id (r ∷ rs) = elim (Bool-cases (r.id === id)) [
  | inl k ↦ rw k (find_session-delete_sessions id rs)
  | inr k ↦ rw (k, k) (find_session-delete_sessions id rs)
]

-- What is left after a deletion does not meet its condition.
find_session-kept :
    (t : SessionRow → Bool) (id : Text) (rs : List SessionRow) (r : SessionRow)
    → find_session id (delete_sessions t rs) ≡ some r
    → t r ≡ false
unfolding find_session delete_sessions
find_session-kept t id [] r h = cc
find_session-kept t id (q ∷ rs) r h = elim (Bool-cases (t q)) [
  | inl k ↦ find_session-kept t id rs r (rw k at h)
  | inr k ↦
      let h' = rw k at h in
      elim (Bool-cases (q.id === id)) [
        | inl e ↦ let same : q ≡ r = cc (rw e at h') in ap t (sym same) ∙ k
        | inr e ↦ find_session-kept t id rs r (rw e at h')
      ]
]

find_admin_sound :
    (t : AdminRow → Bool) (rs : List AdminRow) (r : AdminRow)
    → find_admin t rs ≡ some r
    → t r ≡ true
unfolding find_admin
find_admin_sound t [] r h = cc
find_admin_sound t (q ∷ rs) r h = elim (Bool-cases (t q)) [
  | inl k ↦ let same : q ≡ r = cc (rw k at h) in ap t (sym same) ∙ k
  | inr k ↦ find_admin_sound t rs r (rw k at h)
]

-- A row that one condition finds is one that its id finds, after an update that keeps ids.
find_admin-update_admins :
    (t u : AdminRow → Bool) (f : AdminRow → AdminRow) (rs : List AdminRow) (r : AdminRow)
    → ((q : AdminRow) → (f q).id ≡ q.id)
    → find_admin t rs ≡ some r
    → (q : AdminRow) × (find_admin (λ x. x.id === r.id) (update_admins u f rs) ≡ some q)
      × (q.id ≡ r.id)
unfolding find_admin update_admins
find_admin-update_admins t u f [] r keep h = cc
find_admin-update_admins t u f (q ∷ rs) r keep h =
    let q' = if u q then f q else q in
    let kept : q'.id ≡ q.id = elim (Bool-cases (u q)) [ inl e ↦ rw e (keep q) | inr e ↦ rw e ] in
    elim (Bool-cases (q'.id === r.id)) [
      | inl e ↦ (q', rw e, ===_sound q'.id r.id e)
      | inr e ↦ elim (Bool-cases (t q)) [
        | inl k ↦
            let same : q ≡ r = cc (rw k at h) in cc (e, kept ∙ ap (λ x. x.id) same, ===_refl r.id)
        | inr k ↦
            let (found, it, ids) = find_admin-update_admins t u f rs r keep (rw k at h) in
            (found, rw e it, ids)
      ]
    ]

module _ (config : AuthConfig) (verify : Text → Text → Bool) (hash_token : Text → Text)
    (lower : Text → Text) where
  admitted :
      (now : ℕ) (token : Text) (p : Pending) (row : Option AdminRow) (verified : Bool)
      (s : AuthState) (result : LoginResult)
      → (decide config verify hash_token lower now token p row verified s).0 ≡ ok result
      → (r : AdminRow) × (row ≡ some r)
        × (verified ≡ true)
        × (result ≡ record {
          token = token;
          expires_at = now + config.session_ttl_ms;
          admin = to_public_admin (record r { last_login_at = some now });
        })
        × (decide config verify hash_token lower now token p row verified s
            ≡ admit config verify hash_token lower now token p r s)
  unfolding decide refuse admit
  admitted now token p none verified s result h = cc
  admitted now token p (some r) true s result h = (r, refl, refl, cc, refl)
  admitted now token p (some r) false s result h = cc

  -- A login that succeeds found its row by the e-mail address, and enters a session for it.
  login_succeeds :
      (now : ℕ) (token email password : Text) (ctx : LoginContext) (s : AuthState)
      (result : LoginResult)
      → (login config verify hash_token lower now token email password ctx s).0 ≡ ok result
      → (r : AdminRow) × (p : Pending) × (find_admin (λ q. q.email === lower (trim email)) s.admins
          ≡ some r)
        × (result.admin.id ≡ r.id)
        × (login config verify hash_token lower now token email password ctx s
            ≡ admit config verify hash_token lower now token p r s)
  unfolding login login_start finish_login login_finish
  login_succeeds now token email password ctx s result h =
      elim (Bool-cases (ltb 0 (lockout_remaining now (key_of ctx) s))) [
        | inl e ↦ cc (rw (e, login, login_start, finish_login) at h)
        | inr e ↦
            let (r, found, good, it, whole) =
              admitted now token _ _ _ s result
                (rw (e, login, login_start, finish_login, login_finish) at h) in
            let p : Pending = record {
              key = key_of ctx;
              context = ctx;
              row = find_admin (λ q. q.email === lower (trim email)) s.admins;
              password = password;
            } in
            (
              r,
              p,
              found,
              ap (λ x. x.admin.id) it,
              rw (e, login, login_start, finish_login, login_finish) whole,
            )
      ]

  validate_row-lasts :
      (later : ℕ) (id : Text) (session : SessionRow) (o : Option AdminRow) (q : AdminRow)
      (s : AuthState)
      → o ≡ some q
      → (validate_row config verify hash_token lower later id session o s).0
        ≡ (if leb session.expires_at later then none else some (to_public_admin q))
  unfolding validate_row
  validate_row-lasts later id session none q s e = cc
  validate_row-lasts later id session (some a) q s e = ground arith

  admit-validate_session :
      (now later : ℕ) (token : Text) (p : Pending) (r : AdminRow) (s : AuthState) (q : AdminRow)
      → find_session (hash_token token) s.sessions ≡ none
      → find_admin
          (λ x. x.id === r.id)
          (update_admins (λ x. x.id === r.id) (λ x. record x { last_login_at = some now }) s.admins)
        ≡ some q
      → (validate_session config verify hash_token lower later token
          (admit config verify hash_token lower now token p r s).1).0
        ≡ (if leb (now + config.session_ttl_ms) later then none else some (to_public_admin q))
  unfolding validate_session admit new_session
  admit-validate_session now later token p r s q new_id found =
      let session = new_session config verify hash_token lower now token p.context r in
      rw
        (
          (find_session-append (hash_token token) session s.sessions new_id
              (===_refl (hash_token token))),
          validate_session,
        )
        (validate_row-lasts later (hash_token token) session _ q _ found)

  no_session :
      (later : ℕ) (token : Text) (s : AuthState)
      → find_session (hash_token token) s.sessions ≡ none
      → (validate_session config verify hash_token lower later token s).0 ≡ none
  unfolding validate_session
  no_session later token s h = rw (h, validate_session)

  validate_row-admin :
      (later : ℕ) (i : Text) (session : SessionRow) (o : Option AdminRow) (s : AuthState)
      (who : PublicAdmin)
      → (validate_row config verify hash_token lower later i session o s).0 ≡ some who
      → (a : AdminRow) × (o ≡ some a) × (a.id ≡ who.id)
  unfolding validate_row
  validate_row-admin later i session none s who h = cc
  validate_row-admin later i session (some a) s who h = (a, refl, ground arith)

  changed_sessions :
      (hash_password : Text → Text → Text) (now : ℕ) (salt id current new_password : Text)
      (s : AuthState)
      → (change_password verify hash_password now salt id current new_password s).0 ≡ ok tt
      → (change_password verify hash_password now salt id current new_password s).1.sessions
        ≡ delete_sessions (λ r. r.admin_id === id) s.sessions
  unfolding change_password
  changed_sessions hash_password now salt id current new_password s h =
      elim (Option-cases (find_admin (λ r. r.id === id) s.admins)) [
        | inl e ↦ cc (rw (e, change_password) at h)
        | inr (row, e) ↦ ground (arith, rw (e, change_password) at h, e)
      ]

  changed :
      (hash_password : Text → Text → Text) (now later : ℕ)
      (salt id current new_password token : Text) (s : AuthState) (who : PublicAdmin)
      → (change_password verify hash_password now salt id current new_password s).0 ≡ ok tt
      → (validate_session config verify hash_token lower later token
          (change_password verify hash_password now salt id current new_password s).1).0
        ≢ some (record who { id = id })
  unfolding validate_session
  changed hash_password now later salt id current new_password token s who h = λ opens.
      let s' = (change_password verify hash_password now salt id current new_password s).1 in
      let left = changed_sessions hash_password now salt id current new_password s h in
      elim (Option-cases (find_session (hash_token token) s'.sessions)) [
        | inl e ↦ cc (rw (e, validate_session) at opens)
        | inr (session, e) ↦
            let other : (session.admin_id === id) ≡ false =
              find_session-kept (λ r. r.admin_id === id) (hash_token token) s.sessions session
                (ap (find_session (hash_token token)) (sym left) ∙ e) in
            let (a, found, named) =
              validate_row-admin later (hash_token token) session _ s' (record who { id = id })
                (rw (e, validate_session) at opens) in
            let own = find_admin_sound (λ r. r.id === session.admin_id) s'.admins a found in
            let ids : session.admin_id ≡ id = sym (===_sound a.id session.admin_id own) ∙ named in
            cc (other, ap (λ i. i === id) ids, ===_refl id)
      ]

  -- A login that succeeds gives a token that opens that administrator's account, for the configured
  -- time and no longer unless it is used in between; the token's hash is new.
  pub login-validate_session :
      (now later : ℕ) (token email password : Text) (ctx : LoginContext) (s : AuthState)
      (result : LoginResult)
      → (login config verify hash_token lower now token email password ctx s).0 ≡ ok result
      → find_session (hash_token token) s.sessions ≡ none
      → (who : PublicAdmin) × (who.id ≡ result.admin.id)
        × ((validate_session config verify hash_token lower later token
              (login config verify hash_token lower now token email password ctx s).1).0
            ≡ (if leb (now + config.session_ttl_ms) later then none else some who))
  login-validate_session now later token email password ctx s result h new_id =
      let (r, p, found, ids, whole) = login_succeeds now token email password ctx s result h in
      let (q, again, same) =
        find_admin-update_admins (λ x. x.email === lower (trim email)) (λ x. x.id === r.id)
          (λ x. record x { last_login_at = some now }) s.admins r (λ x. refl) found in
      (
        to_public_admin q,
        same ∙ sym ids,
        ap (λ t. (validate_session config verify hash_token lower later token t.1).0) whole
            ∙ admit-validate_session now later token p r s q new_id again,
      )

  -- Logging a token out, or changing the password, ends what it opens: after the first the token
  -- opens nothing, and after the second no token opens that administrator's account.
  pub sessions_end :
      (hash_password : Text → Text → Text) (now later : ℕ)
      (salt id current new_password token : Text) (s : AuthState) (who : PublicAdmin)
      → (change_password verify hash_password now salt id current new_password s).0 ≡ ok tt
      → ((validate_session config verify hash_token lower later token
            (logout config verify hash_token lower token s)).0
          ≡ none)
        × ((validate_session config verify hash_token lower later token
              (change_password verify hash_password now salt id current new_password s).1).0
            ≢ some (record who { id = id }))
  unfolding logout
  sessions_end hash_password now later salt id current new_password token s who h = (
    no_session later token (logout config verify hash_token lower token s)
        (find_session-delete_sessions (hash_token token) s.sessions),
    changed hash_password now later salt id current new_password token s who h,
  )

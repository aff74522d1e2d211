-- ===== src/ControlPlane/Auth/Access.antt =====
-- apps/control-plane/src/auth/service.ts: the methods that a password or a session token opens.
use just_postgres.Shared.{
  ℕ, ◌+◌, ◌-◌, Bool, not, Option, none, some, [], ◌∷◌, ◌++◌, ltb, leb, if◌then◌else◌, length,
}
use just_postgres.Router.Text.{Text, text, ◌===◌, erase}
use just_postgres.ControlPlane.Strings.{trim}
use just_postgres.ControlPlane.Auth.{
  AuthConfig, AdminRow, SessionRow, PublicAdmin, LoginContext, AuthState, invalid_credentials,
  weak_password, locked_out, Result, ok, error, min_password_length, to_public_admin, find_admin,
  find_session, delete_sessions, update_sessions, update_admins, key_of, lockout_remaining,
  record_failure,
}

pub record LoginResult : Type 0 where
  pub token : Text
  pub expires_at : ℕ
  pub admin : PublicAdmin

-- A login whose password is being checked: the row that was read before.
pub record Pending : Type 0 where
  pub key : Text
  pub context : LoginContext
  pub row : Option AdminRow
  pub password : Text

-- `DUMMY_HASH`
abbrev pub dummy_hash : Text
dummy_hash =
    text "scrypt$16384$8$1$AAAAAAAAAAAAAAAAAAAAAA==$"
    ++ text "Ki8vTFVYQlpDR0hLTk9SVVhaYWRnamttcHN2eXpBQkNERUZHSElKS0xNTk9QUVJTVFVWV1hZWmFiY2Q="

abbrev pub stored_hash : Option AdminRow → Text
stored_hash none = dummy_hash
stored_hash (some row) = row.password_hash

module _ (config : AuthConfig) (verify : Text → Text → Bool) (hash_token : Text → Text)
    (lower : Text → Text) where
  unfoldable pub login_start : ℕ → Text → Text → LoginContext → AuthState → Result Pending
  login_start now email password ctx s =
      if ltb 0 (lockout_remaining now (key_of ctx) s)
      then error (locked_out (lockout_remaining now (key_of ctx) s))
      else ok (record {
        key = key_of ctx;
        context = ctx;
        row = find_admin (λ r. r.email === lower (trim email)) s.admins;
        password = password;
      })

  unfoldable pub new_session : ℕ → Text → LoginContext → AdminRow → SessionRow
  new_session now token ctx row = record {
    id = hash_token token;
    admin_id = row.id;
    created_at = now;
    expires_at = now + config.session_ttl_ms;
    last_seen_at = now;
    user_agent = ctx.user_agent;
    ip = ctx.ip;
  }

  unfoldable pub admit : ℕ → Text → Pending → AdminRow → AuthState → Result LoginResult × AuthState
  admit now token p row s = (
    ok (record {
      token = token;
      expires_at = now + config.session_ttl_ms;
      admin = to_public_admin (record row { last_login_at = some now });
    }),
    record s {
      failures = erase p.key s.failures;
      sessions = s.sessions ++ new_session now token p.context row ∷ [];
      admins =
          update_admins (λ r. r.id === row.id) (λ r. record r { last_login_at = some now })
            s.admins;
    },
  )

  unfoldable pub refuse : ℕ → Pending → AuthState → Result LoginResult × AuthState
  refuse now p s = (error invalid_credentials, record_failure config now p.key s)

  unfoldable pub decide :
      ℕ → Text → Pending → Option AdminRow → Bool → AuthState → Result LoginResult × AuthState
  decide now token p none verified s = refuse now p s
  decide now token p (some row) verified s =
      if verified then admit now token p row s else refuse now p s

  -- `login` behind the check of the password.
  unfoldable pub login_finish : ℕ → Text → Pending → AuthState → Result LoginResult × AuthState
  login_finish now token p s = decide now token p p.row (verify p.password (stored_hash p.row)) s

  unfoldable pub finish_login :
      ℕ → Text → Result Pending → AuthState → Result LoginResult × AuthState
  finish_login now token (error e) s = (error e, s)
  finish_login now token (ok p) s = login_finish now token p s

  -- A login with no other call in between.
  unfoldable pub login :
      ℕ → Text → Text → Text → LoginContext → AuthState → Result LoginResult × AuthState
  login now token email password ctx s =
      finish_login now token (login_start now email password ctx s) s

  -- `validateSession` on the session and the admin that it joins.
  unfoldable pub validate_row :
      ℕ → Text → SessionRow → Option AdminRow → AuthState → Option PublicAdmin × AuthState
  validate_row now id session none s = (none, s)
  validate_row now id session (some admin) s =
      if leb session.expires_at now
      then (none, record s { sessions = delete_sessions (λ r. r.id === id) s.sessions })
      else (
        some (to_public_admin admin),
        if ltb 60000 (now - session.last_seen_at)
            then record s {
              sessions =
                  update_sessions (λ r. r.id === id)
                    (λ r. record r { last_seen_at = now; expires_at = now + config.session_ttl_ms })
                    s.sessions;
            }
            else s,
      )

  unfoldable pub validate_session : ℕ → Text → AuthState → Option PublicAdmin × AuthState
  validate_session now token s = elim (find_session (hash_token token) s.sessions) [
    | none ↦ (none, s)
    | some session ↦
        validate_row now (hash_token token) session
          (find_admin (λ r. r.id === session.admin_id) s.admins) s
  ]

  unfoldable pub logout : Text → AuthState → AuthState
  logout token s = record s {
    sessions = delete_sessions (λ r. r.id === hash_token token) s.sessions;
  }

module _ (verify : Text → Text → Bool) (hash_password : Text → Text → Text) where
  -- `changePassword` with no other call in between.
  unfoldable pub change_password :
      ℕ → Text → Text → Text → Text → AuthState → Result (Unit {0}) × AuthState
  change_password now salt admin_id current new_password s =
      elim (find_admin (λ r. r.id === admin_id) s.admins) [
        | none ↦ (error invalid_credentials, s)
        | some row ↦
            if not (verify current row.password_hash)
            then (error invalid_credentials, s)
            else if ltb (length new_password) min_password_length
            then (error weak_password, s)
            else (
              ok tt,
              record s {
                admins =
                    update_admins (λ r. r.id === admin_id)
                      (λ r. record r {
                        password_hash = hash_password salt new_password;
                        updated_at = now;
                      })
                      s.admins;
                sessions = delete_sessions (λ r. r.admin_id === admin_id) s.sessions;
              },
            )
      ]

unfoldable pub sweep_expired_sessions : ℕ → AuthState → ℕ × AuthState
sweep_expired_sessions now s = (
  length s.sessions - length (delete_sessions (λ r. ltb r.expires_at now) s.sessions),
  record s { sessions = delete_sessions (λ r. ltb r.expires_at now) s.sessions },
)

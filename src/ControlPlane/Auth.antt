-- ===== src/ControlPlane/Auth.antt =====
-- apps/control-plane/src/auth/service.ts, AuthService, over the tables admins, sessions and
-- settings of db/schema.ts. A method stops where it awaits: `login` is `login_start`, up to the
-- check of the password, and `login_finish`; `createInitialAdmin` is `claim_start` and
-- `claim_finish`. The time, ids, salts and tokens are arguments, as are
-- hashPassword and verifyPassword (over scrypt), SHA-256 and `toLowerCase`.
pub mod Access
pub mod Lockout
pub mod Sessions
pub mod Setup
use just_postgres.Shared.{
  ℕ, suc, ◌+◌, ◌-◌, ◌*◌, ◌^◌, ◌&&◌, Bool, true, false, not, Option, none, some, List, [], ◌∷◌, ◌++◌,
  ltb, leb, if◌then◌else◌, length, is_empty, is_some, min, or_default,
}
use just_postgres.Router.Text.{Text, text, ◌===◌, lookup, insert}
use just_postgres.ControlPlane.Strings.{trim}

pub record AuthConfig : Type 0 where
  pub setup_token : Option Text
  pub max_login_attempts : ℕ
  pub lockout_ms : ℕ
  pub session_ttl_ms : ℕ

pub record AdminRow : Type 0 where
  pub id : Text
  pub email : Text
  pub password_hash : Text
  pub created_at : ℕ
  pub updated_at : ℕ
  pub last_login_at : Option ℕ

pub record SessionRow : Type 0 where
  pub id : Text
  pub admin_id : Text
  pub created_at : ℕ
  pub expires_at : ℕ
  pub last_seen_at : ℕ
  pub user_agent : Option Text
  pub ip : Option Text

pub record PublicAdmin : Type 0 where
  pub id : Text
  pub email : Text
  pub created_at : ℕ
  pub last_login_at : Option ℕ

pub record LoginContext : Type 0 where
  pub ip : Option Text
  pub user_agent : Option Text

pub record Failure : Type 0 where
  pub count : ℕ
  pub locked_until : ℕ

-- The tables, the setting `setup_token`, and the map of failures.
pub record AuthState : Type 0 where
  pub admins : List AdminRow
  pub sessions : List SessionRow
  pub setup_setting : Option Text
  pub failures : List (Text × Failure)

-- What is thrown; `email_taken` is the error of the database on a second row with an address.
pub data AuthError : Type 0 where
  invalid_credentials weak_password already_setup invalid_setup_token email_taken : AuthError
  locked_out : ℕ → AuthError

-- A result, or what is thrown.
pub data Result {ℓ} (A : Type ℓ) : Type ℓ where
  ok : A → Result A
  error : AuthError → Result A

abbrev pub min_password_length : ℕ
min_password_length = 12

abbrev pub to_public_admin : AdminRow → PublicAdmin
to_public_admin r = record {
  id = r.id;
  email = r.email;
  created_at = r.created_at;
  last_login_at = r.last_login_at;
}

unfoldable pub find_admin : (AdminRow → Bool) → List AdminRow → Option AdminRow
find_admin test [] = none
find_admin test (r ∷ rs) = if test r then some r else find_admin test rs

unfoldable pub find_session : Text → List SessionRow → Option SessionRow
find_session id [] = none
find_session id (r ∷ rs) = if r.id === id then some r else find_session id rs

-- `DELETE FROM sessions WHERE ...`
unfoldable pub delete_sessions : (SessionRow → Bool) → List SessionRow → List SessionRow
delete_sessions test [] = []
delete_sessions test (r ∷ rs) =
    let rest = delete_sessions test rs in if test r then rest else r ∷ rest

unfoldable pub update_sessions :
    (SessionRow → Bool) → (SessionRow → SessionRow) → List SessionRow → List SessionRow
update_sessions test f [] = []
update_sessions test f (r ∷ rs) = (if test r then f r else r) ∷ update_sessions test f rs

unfoldable pub update_admins :
    (AdminRow → Bool) → (AdminRow → AdminRow) → List AdminRow → List AdminRow
update_admins test f [] = []
update_admins test f (r ∷ rs) = (if test r then f r else r) ∷ update_admins test f rs

abbrev pub setup_required : AuthState → Bool
setup_required s = is_empty s.admins

-- The address that failures are counted for.
abbrev pub key_of : LoginContext → Text
key_of ctx = or_default (text "unknown") ctx.ip

abbrev pub remaining : ℕ → Option Failure → ℕ
remaining now none = 0
remaining now (some entry) = entry.locked_until - now

unfoldable pub lockout_remaining : ℕ → Text → AuthState → ℕ
lockout_remaining now key s = remaining now (lookup key s.failures)

module _ (config : AuthConfig) where
  -- The entry after one failure more.
  unfoldable pub failed_again : ℕ → Failure → Failure
  failed_again now entry =
      if leb config.max_login_attempts (entry.count + 1)
      then record {
        count = entry.count + 1;
        locked_until =
            now + config.lockout_ms * 2 ^ min 5 (entry.count + 1 - config.max_login_attempts);
      }
      else record entry { count = entry.count + 1 }

  unfoldable pub record_failure : ℕ → Text → AuthState → AuthState
  record_failure now key s = record s {
    failures =
        insert key
          (failed_again now
            (or_default (record { count = 0; locked_until = 0 }) (lookup key s.failures)))
          s.failures;
  }

  -- The token, which is made at the first call; `generated` is a new random one.
  unfoldable pub setup_token : Text → AuthState → Option Text × AuthState
  setup_token generated s = if not (setup_required s) then (none, s) else elim s.setup_setting [
    | some token ↦ (some token, s)
    | none ↦ (
      some (or_default generated config.setup_token),
      record s { setup_setting = some (or_default generated config.setup_token) },
    )
  ]

  -- `createInitialAdmin` behind `setup_token`, up to its await of hashPassword.
  unfoldable pub check_claim : Text → Text → Option Text × AuthState → Result (Unit {0}) × AuthState
  check_claim password presented (none, s) = (error already_setup, s)
  check_claim password presented (some expected, s) =
      if is_empty expected
      then (error already_setup, s)
      else if not (presented === expected)
      then (error invalid_setup_token, s)
      else if ltb (length password) min_password_length
      then (error weak_password, s)
      else (ok tt, s)

  unfoldable pub claim_start : Text → Text → Text → AuthState → Result (Unit {0}) × AuthState
  claim_start generated password presented s =
      if not (setup_required s)
      then (error already_setup, s)
      else check_claim password presented (setup_token generated s)

  module _ (hash_password : Text → Text → Text) (lower : Text → Text) where
    unfoldable pub new_admin : ℕ → Text → Text → Text → Text → AdminRow
    new_admin now id salt email password = record {
      id = id;
      email = lower (trim email);
      password_hash = hash_password salt password;
      created_at = now;
      updated_at = now;
      last_login_at = none;
    }

    -- `createInitialAdmin` behind its await of hashPassword.
    unfoldable pub claim_finish :
        ℕ → Text → Text → Text → Text → AuthState → Result PublicAdmin × AuthState
    claim_finish now id salt email password s =
        elim (find_admin (λ r. r.email === lower (trim email)) s.admins) [
          | some r ↦ (error email_taken, s)
          | none ↦ (
            ok (to_public_admin (new_admin now id salt email password)),
            record s {
              admins = s.admins ++ new_admin now id salt email password ∷ [];
              setup_setting = none;
            },
          )
        ]

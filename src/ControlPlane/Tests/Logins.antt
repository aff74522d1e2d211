-- ===== src/ControlPlane/Tests/Logins.antt =====
-- apps/control-plane/src/auth/service.ts with one administrator.
use just_postgres.Shared.{ℕ, ◌≤◌, ◌≡◌, ◌≢◌, refl, Bool, none, some, List, [], ◌∷◌, arith, length}
use just_postgres.Router.Text.{Text, text, ◌===◌, lookup, insert}
use just_postgres.ControlPlane.Strings.{trim_start, trim_end}
use just_postgres.ControlPlane.Auth.{
  AuthConfig, AdminRow, PublicAdmin, LoginContext, AuthState, setup_token, check_claim, claim_start,
  claim_finish, find_admin, find_session, lockout_remaining, record_failure, failed_again,
}
use just_postgres.ControlPlane.Auth.Access.{
  LoginResult, login, login_start, finish_login, login_finish, decide, admit, refuse,
  validate_session, logout, change_password,
}
use just_postgres.ControlPlane.Auth.Lockout.{
  Attempt, run_logins, finish_all, count_checked, login_budget, login_parallel,
}
use just_postgres.ControlPlane.Auth.Sessions.{login-validate_session, sessions_end}
use just_postgres.ControlPlane.Auth.Setup.{setup_parallel}

abbrev config : AuthConfig
config = record {
  setup_token = none;
  max_login_attempts = 2;
  lockout_ms = 1000;
  session_ttl_ms = 500;
}

-- Stands for scrypt: the hash is the password.
abbrev verify : Text → Text → Bool
verify password stored = password === stored

abbrev hash_password : Text → Text → Text
hash_password salt password = password

abbrev same : Text → Text
same t = t

abbrev admin : AdminRow
admin = record {
  id = text "a";
  email = text "me";
  password_hash = text "right";
  created_at = 1;
  updated_at = 1;
  last_login_at = none;
}

abbrev context : LoginContext
context = record { ip = some (text "10.0.0.9"); user_agent = none }

abbrev claimed : AuthState
claimed = record { admins = admin ∷ []; sessions = []; setup_setting = none; failures = [] }

abbrev guess : ℕ → Attempt
guess at = record {
  at = at;
  token = text "t";
  email = text "me";
  password = text "wrong";
  context = context;
}

abbrev guesses : List Attempt
guesses = guess 100 ∷ guess 200 ∷ guess 300 ∷ []

login_budget_example :
    count_checked (run_logins config verify same same guesses claimed).0 ≤ config.max_login_attempts
unfolding run_logins login login_start finish_login login_finish decide refuse admit
    lockout_remaining record_failure failed_again lookup insert find_admin trim_start trim_end ◌===◌
login_budget_example =
    login_budget config verify same same (text "10.0.0.9") 100 guesses claimed (omega arith)
      (
        (refl, omega arith, omega arith),
        ((refl, omega arith, omega arith), ((refl, omega arith, omega arith), tt)),
      )
      refl (refl, (refl, (refl, tt)))

login_parallel_example :
    count_checked (finish_all config verify same same guesses claimed claimed).0 ≡ length guesses
unfolding lockout_remaining lookup
login_parallel_example =
    login_parallel config verify same same guesses claimed claimed (refl, (refl, (refl, tt)))

abbrev entered : LoginResult
entered = record {
  token = text "t";
  expires_at = 600;
  admin = record { id = text "a"; email = text "me"; created_at = 1; last_login_at = some 100 };
}

login-validate_session_example :
    (who : PublicAdmin) × (who.id ≡ text "a")
    × ((validate_session config verify same same 300
          (text "t")
          (login config verify same same 100
            (text "t")
            (text "me")
            (text "right")
            context
            claimed).1).0
        ≡ some who)
unfolding login login_start finish_login login_finish decide admit lockout_remaining lookup
    find_admin find_session trim_start trim_end ◌===◌
login-validate_session_example =
    login-validate_session config verify same same 100 300 (text "t") (text "me") (text "right")
      context claimed entered refl refl

abbrev who : PublicAdmin
who = record { id = text "a"; email = text "me"; created_at = 1; last_login_at = none }

sessions_end_example :
    ((validate_session config verify same same 300
        (text "t")
        (logout config verify same same (text "t") claimed)).0
      ≡ none)
    × ((validate_session config verify same same 300
          (text "t")
          (change_password verify hash_password 200 []
            (text "a")
            (text "right")
            (text "correct horse")
            claimed).1).0
        ≢ some who)
unfolding change_password find_admin ◌===◌
sessions_end_example =
    sessions_end config verify same same hash_password 200 300 [] (text "a") (text "right")
      (text "correct horse") (text "t") claimed who refl

abbrev unclaimed : AuthState
unclaimed = record { admins = []; sessions = []; setup_setting = some (text "jp"); failures = [] }

-- The state after a claim has ended.
abbrev claimed_once : AuthState
claimed_once =
    (claim_finish config hash_password same 5 (text "a") [] (text "me") (text "correct horse")
      unclaimed).1

setup_parallel_example :
    length
      (claim_finish config hash_password same 5
        (text "b")
        []
        (text "you")
        (text "another one 1")
        (claim_finish config hash_password same 5
          (text "a")
          []
          (text "me")
          (text "correct horse")
          (claim_start config [] (text "another one 1") (text "jp") unclaimed).1).1).1.admins
    ≡ 2
unfolding claim_start check_claim setup_token trim_start trim_end ◌===◌
setup_parallel_example =
    setup_parallel config hash_password same 5 [] (text "a") (text "b") [] [] (text "me")
      (text "you") (text "correct horse") (text "another one 1") (text "jp") unclaimed unclaimed
      refl refl refl

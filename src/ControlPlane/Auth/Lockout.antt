-- ===== src/ControlPlane/Auth/Lockout.antt =====
-- apps/control-plane/src/auth/service.ts: how many passwords an address may try.
use native.Mathlib.Nat.{le-mul_of_pos_right}
use just_postgres.Shared.{
  power_positive, min, or_default, ℕ, suc, ◌+◌, ◌-◌, ◌*◌, ◌^◌, ◌≤◌, ◌<◌, ◌≡◌, refl, sym, ap, ◌∙◌,
  Bool, true, false, Option, none, some, List, [], ◌∷◌, arith, ltb, leb, if◌then◌else◌, length, All,
  Bool-cases, inl, inr, ◌⊎◌, subst,
}
use just_postgres.Router.Text.{Text, ===_refl, lookup, lookup-insert}
use just_postgres.ControlPlane.Auth.{
  AuthConfig, AdminRow, LoginContext, Failure, AuthState, invalid_credentials, locked_out, Result,
  ok, error, key_of, remaining, lockout_remaining, failed_again, record_failure,
}
use just_postgres.ControlPlane.Auth.Access.{
  LoginResult, Pending, login_start, admit, refuse, decide, login_finish, finish_login, login,
}

-- One call of `login`.
pub record Attempt : Type 0 where
  pub at : ℕ
  pub token : Text
  pub email : Text
  pub password : Text
  pub context : LoginContext

-- Whether the password of an attempt was checked.
abbrev pub is_checked {ℓ} : {A : Type ℓ} → Result A → Bool
is_checked (ok a) = true
is_checked (error (locked_out ms)) = false
is_checked (error e) = true

abbrev pub is_ok {ℓ} : {A : Type ℓ} → Result A → Bool
is_ok (ok a) = true
is_ok (error e) = false

unfoldable pub count_checked {ℓ} : {A : Type ℓ} → List (Result A) → ℕ
count_checked [] = 0
count_checked (r ∷ rs) = if is_checked r then suc (count_checked rs) else count_checked rs

abbrev pub count_of : Option Failure → ℕ
count_of none = 0
count_of (some entry) = entry.count

-- An entry below the threshold, or one that is locked until `time` at least.
abbrev IsLocking : ℕ → ℕ → Option Failure → Type 0
IsLocking threshold time none = 0 < threshold
IsLocking threshold time (some entry) = (entry.count < threshold) ⊎ (time ≤ entry.locked_until)

module _ (config : AuthConfig) (verify : Text → Text → Bool) (hash_token : Text → Text)
    (lower : Text → Text) where
  -- Logins one after the other.
  unfoldable pub run_logins : List Attempt → AuthState → List (Result LoginResult) × AuthState
  run_logins [] s = ([], s)
  run_logins (a ∷ later_ones) s =
      let t = login config verify hash_token lower a.at a.token a.email a.password a.context s in
      let later = run_logins later_ones t.1 in (t.0 ∷ later.0, later.1)

  -- Logins that all begin before the first of them ends.
  unfoldable pub finish_all :
      List Attempt → AuthState → AuthState → List (Result LoginResult) × AuthState
  finish_all [] before s = ([], s)
  finish_all (a ∷ later_ones) before s =
      let t =
        finish_login config verify hash_token lower a.at a.token
          (login_start config verify hash_token lower a.at a.email a.password a.context before) s in
      let later = finish_all later_ones before t.1 in (t.0 ∷ later.0, later.1)

  decide-cases :
      (now : ℕ) (token : Text) (p : Pending) (row : Option AdminRow) (verified : Bool)
      (s : AuthState)
      → (is_ok (decide config verify hash_token lower now token p row verified s).0 ≡ true)
        ⊎ (decide config verify hash_token lower now token p row verified s
            ≡ (error invalid_credentials, record_failure config now p.key s))
  unfolding decide refuse admit
  decide-cases now token p none verified s = inr refl
  decide-cases now token p (some row) true s = inl refl
  decide-cases now token p (some row) false s = inr refl

  login-locked :
      (a : Attempt) (s : AuthState)
      → 0 < lockout_remaining a.at (key_of a.context) s
      → login config verify hash_token lower a.at a.token a.email a.password a.context s
        ≡ (error (locked_out (lockout_remaining a.at (key_of a.context) s)), s)
  unfolding login login_start finish_login
  login-locked a s h = ground arith

  -- A login that is let through: it is admitted, or it is counted as a failure.
  login-open :
      (a : Attempt) (s : AuthState)
      → lockout_remaining a.at (key_of a.context) s ≡ 0
      → (is_ok (login config verify hash_token lower a.at a.token a.email a.password a.context s).0
          ≡ true)
        ⊎ (login config verify hash_token lower a.at a.token a.email a.password a.context s
            ≡ (error invalid_credentials, record_failure config a.at (key_of a.context) s))
  unfolding login login_start finish_login login_finish
  login-open a s h = rw h (decide-cases a.at a.token _ _ _ s)

  login_entry :
      (now : ℕ) (key : Text) (s : AuthState)
      → lookup key (record_failure config now key s).failures
        ≡ some (
            failed_again config now
              (or_default (record { count = 0; locked_until = 0 }) (lookup key s.failures)))
  unfolding record_failure
  login_entry now key s = rw (
    lookup-insert key key
        (failed_again config now
          (or_default (record { count = 0; locked_until = 0 }) (lookup key s.failures)))
        s.failures,
    ===_refl key,
  )

  locks_on :
      (start now : ℕ) (o : Option Failure)
      → start ≤ now
      → IsLocking config.max_login_attempts
          (start + config.lockout_ms)
          (some (failed_again config now (or_default (record { count = 0; locked_until = 0 }) o)))
  unfolding failed_again
  locks_on start now o h =
      let entry = or_default (record { count = 0; locked_until = 0 }) o in
      let power = min 5 (entry.count + 1 - config.max_login_attempts) in
      let longer : config.lockout_ms ≤ config.lockout_ms * 2 ^ power =
        le-mul_of_pos_right config.lockout_ms (power_positive power) in
      elim (Bool-cases (leb config.max_login_attempts (entry.count + 1))) [
        | inl e ↦ rw e (inr (omega (arith, longer)))
        | inr e ↦ rw e (inl (ground arith))
      ]

  count-failed_again :
      (now : ℕ) (o : Option Failure)
      → (failed_again config now (or_default (record { count = 0; locked_until = 0 }) o)).count
        ≡ count_of o + 1
  unfolding failed_again
  count-failed_again now none = ground arith
  count-failed_again now (some entry) = ground arith

  below_entry :
      (start now : ℕ) (o : Option Failure)
      → IsLocking config.max_login_attempts (start + config.lockout_ms) o
      → now < start + config.lockout_ms
      → remaining now o ≡ 0
      → count_of o < config.max_login_attempts
  below_entry start now none i l z = i
  below_entry start now (some entry) (inl i) l z = i
  below_entry start now (some entry) (inr i) l z = omega arith

  below :
      (start now : ℕ) (key : Text) (s : AuthState)
      → IsLocking config.max_login_attempts (start + config.lockout_ms) (lookup key s.failures)
      → now < start + config.lockout_ms
      → lockout_remaining now key s ≡ 0
      → count_of (lookup key s.failures) < config.max_login_attempts
  unfolding lockout_remaining
  below start now key s i l z = below_entry start now (lookup key s.failures) i l z

  -- An attempt from an address, in the time of one lockout.
  abbrev pub IsWithin : Text → ℕ → Attempt → Type 0
  IsWithin key start a =
      (key_of a.context ≡ key) × (start ≤ a.at) × (a.at < start + config.lockout_ms)

  login_step :
      (key : Text) (start : ℕ) (a : Attempt) (s : AuthState)
      → IsWithin key start a
      → IsLocking config.max_login_attempts (start + config.lockout_ms) (lookup key s.failures)
      → is_ok (login config verify hash_token lower a.at a.token a.email a.password a.context s).0
        ≡ false
      → ((is_checked
              (login config verify hash_token lower a.at a.token a.email a.password a.context s).0
            ≡ false)
          × ((login config verify hash_token lower a.at a.token a.email a.password a.context s).1
              ≡ s))
        ⊎ ((count_of (lookup key s.failures) < config.max_login_attempts)
            × ((login config verify hash_token lower a.at a.token a.email a.password a.context s)
                ≡ (error invalid_credentials, record_failure config a.at key s)))
  login_step key start a s (same, _, before) i never =
      elim (Bool-cases (ltb 0 (lockout_remaining a.at (key_of a.context) s))) [
        | inl e ↦
            let locked = login-locked a s (ground arith) in
            inl (ap (λ t. is_checked t.0) locked, ap (λ t. t.1) locked)
        | inr e ↦
            let zero_left : lockout_remaining a.at (key_of a.context) s ≡ 0 = ground arith in
            elim (login-open a s zero_left) [
              | inl admitted ↦ cc (admitted, never)
              | inr refused ↦ inr (
                below start a.at key s i before
                    (ap (λ k. lockout_remaining a.at k s) (sym same) ∙ zero_left),
                refused
                    ∙ ap (λ k. (error invalid_credentials, record_failure config a.at k s)) same,
              )
            ]
      ]

  budget :
      (key : Text) (start : ℕ) (attempts : List Attempt) (s : AuthState)
      → All (IsWithin key start) attempts
      → IsLocking config.max_login_attempts (start + config.lockout_ms) (lookup key s.failures)
      → All (λ r. is_ok r ≡ false) (run_logins attempts s).0
      → count_checked (run_logins attempts s).0
        ≤ config.max_login_attempts - count_of (lookup key s.failures)
  unfolding run_logins count_checked
  budget key start [] s w i never = omega arith
  budget key start (a ∷ rest) s (here, later) i (first, others) =
      elim (login_step key start a s here i first) [
        | inl (skipped, same) ↦
            rw (skipped, same) (budget key start rest s later i (rw same at others))
        | inr (under, refused) ↦
            let s' = record_failure config a.at key s in
            let entry = login_entry a.at key s in
            let more =
              budget key start rest s' later
                (subst (IsLocking config.max_login_attempts (start + config.lockout_ms)) (sym entry)
                  (locks_on start a.at (lookup key s.failures) here.1))
                (rw refused at others) in
            let counted : count_of (lookup key s'.failures) ≡ count_of (lookup key s.failures) + 1 =
              ap count_of entry ∙ count-failed_again a.at (lookup key s.failures) in
            rw refused (omega (arith, more, counted))
      ]

  -- Of any number of logins, one after the other, from one address with no failures so far, within
  -- the time of one lockout and none of them admitted, at most as many have their password checked
  -- as the configuration allows attempts.
  pub login_budget :
      (key : Text) (start : ℕ) (attempts : List Attempt) (s : AuthState)
      → 0 < config.max_login_attempts
      → All (IsWithin key start) attempts
      → (lookup key s.failures ≡ none)
      → All (λ r. is_ok r ≡ false) (run_logins attempts s).0
      → count_checked (run_logins attempts s).0 ≤ config.max_login_attempts
  login_budget key start attempts s p w fresh never =
      let i : IsLocking config.max_login_attempts (start + config.lockout_ms)
          (lookup key s.failures) =
        subst (IsLocking config.max_login_attempts (start + config.lockout_ms)) (sym fresh) p in
      omega (arith, budget key start attempts s w i never)

  decide-checked :
      (now : ℕ) (token : Text) (p : Pending) (row : Option AdminRow) (verified : Bool)
      (s : AuthState)
      → is_checked (decide config verify hash_token lower now token p row verified s).0 ≡ true
  unfolding decide refuse admit
  decide-checked now token p none verified s = refl
  decide-checked now token p (some row) true s = refl
  decide-checked now token p (some row) false s = refl

  started :
      (a : Attempt) (before s : AuthState)
      → lockout_remaining a.at (key_of a.context) before ≡ 0
      → is_checked
          (finish_login config verify hash_token lower a.at a.token
            (login_start config verify hash_token lower a.at a.email a.password a.context before)
            s).0
        ≡ true
  unfolding login_start finish_login login_finish
  started a before s h = rw h (decide-checked a.at a.token _ _ _ s)

  -- However many logins from an address that is not locked begin before the first of them ends,
  -- every one of them has its password checked: the number of allowed attempts does not bound them.
  pub login_parallel :
      (attempts : List Attempt) (before s : AuthState)
      → All (λ a. lockout_remaining a.at (key_of a.context) before ≡ 0) attempts
      → count_checked (finish_all attempts before s).0 ≡ length attempts
  unfolding finish_all count_checked
  login_parallel [] before s h = refl
  login_parallel (a ∷ rest) before s (open_now, others) =
      rw (started a before s open_now) (ap suc (login_parallel rest before _ others))

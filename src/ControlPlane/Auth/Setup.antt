-- ===== src/ControlPlane/Auth/Setup.antt =====
-- apps/control-plane/src/auth/service.ts: who may claim an instance, and how often.
use just_postgres.Shared.{
  ℕ, ◌≤◌, ◌≡◌, refl, sym, ap, ◌∙◌, true, false, Option, none, some, List, [], ◌∷◌, ◌++◌, arith, ltb,
  Bool-cases, Option-cases, inl, inr, is_empty, length,
}
use just_postgres.Router.Text.{Text, ◌===◌, ===_sound}
use just_postgres.ControlPlane.Strings.{trim}
use just_postgres.ControlPlane.Auth.{
  AuthConfig, AdminRow, AuthState, ok, setup_required, setup_token, new_admin, to_public_admin,
  find_admin, check_claim, claim_start, claim_finish,
}

is_empty_sound : (rs : List AdminRow) → is_empty rs ≡ true → rs ≡ []
is_empty_sound [] h = refl
is_empty_sound (r ∷ rs) h = cc

check_claim_passes :
    (config : AuthConfig) (password presented : Text) (t : Option Text × AuthState)
    → (check_claim config password presented t).0 ≡ ok tt
    → (t.0 ≡ some presented)
      × (12 ≤ length password)
      × ((check_claim config password presented t).1 ≡ t.1)
unfolding check_claim
check_claim_passes config password presented (none, s) h = cc
check_claim_passes config password presented (some expected, s) h =
    elim (Bool-cases (is_empty expected)) [
      | inl none_given ↦ cc (rw (none_given, check_claim) at h)
      | inr given ↦
          let h' = rw (given, check_claim) at h in
          elim (Bool-cases (presented === expected)) [
            | inr e ↦ cc (rw e at h')
            | inl e ↦
                let h'' = rw e at h' in
                elim (Bool-cases (ltb (length password) 12)) [
                  | inl short ↦ cc (rw short at h'')
                  | inr long ↦ (
                    ap some (sym (===_sound presented expected e)),
                    ground arith,
                    rw (given, check_claim, e, long),
                  )
                ]
          ]
    ]

setup_token-admins :
    (config : AuthConfig) (generated : Text) (s : AuthState)
    → (setup_token config generated s).1.admins ≡ s.admins
unfolding setup_token
setup_token-admins config generated s = elim (Option-cases s.setup_setting) [
  | inl e ↦ ground (arith, e)
  | inr (t, e) ↦ ground (arith, e)
]

-- What the checks of a claim that pass have seen, and what they leave.
claim_start_passes :
    (config : AuthConfig) (generated password presented : Text) (s : AuthState)
    → (claim_start config generated password presented s).0 ≡ ok tt
    → (setup_required s ≡ true)
      × ((setup_token config generated s).0 ≡ some presented)
      × (12 ≤ length password)
      × ((claim_start config generated password presented s).1.admins ≡ [])
unfolding claim_start
claim_start_passes config generated password presented s h = elim (Bool-cases (setup_required s)) [
  | inr e ↦ cc (rw (e, claim_start) at h)
  | inl e ↦
      let (given, long, same) =
        check_claim_passes config password presented (setup_token config generated s)
          (rw (e, claim_start) at h) in
      (
        e,
        given,
        long,
        rw (e, claim_start)
            (ap (λ t. t.admins) same
              ∙ setup_token-admins config generated s
              ∙ is_empty_sound s.admins e),
      )
]

module _ (config : AuthConfig) (hash_password : Text → Text → Text) (lower : Text → Text) where
  claim_finish-new :
      (now : ℕ) (id salt email password : Text) (s : AuthState)
      → find_admin (λ r. r.email === lower (trim email)) s.admins ≡ none
      → (claim_finish config hash_password lower now id salt email password s) ≡ (
        ok (to_public_admin (new_admin config hash_password lower now id salt email password)),
        record s {
          admins = s.admins ++ new_admin config hash_password lower now id salt email password ∷ [];
          setup_setting = none;
        },
      )
  unfolding claim_finish
  claim_finish-new now id salt email password s h = rw (h, claim_finish)

  -- Two requests with the setup token and different e-mail addresses that overlap, so that the
  -- second is checked before the first has hashed its password, both create an administrator.
  pub setup_parallel :
      (now : ℕ) (generated id id' salt salt' email email' password password' presented : Text)
      (s : AuthState)
      → (s' : AuthState) → claim_start config generated password presented s ≡ (ok tt, s')
      → (claim_start config generated password' presented s').0 ≡ ok tt
      → (lower (trim email) === lower (trim email')) ≡ false
      → length
          (claim_finish config hash_password lower now id' salt' email' password'
            (claim_finish config hash_password lower now id salt email password
              (claim_start config generated password' presented s').1).1).1.admins
        ≡ 2
  unfolding new_admin find_admin
  setup_parallel now generated id id' salt salt' email email' password password' presented s s'
        first second differ =
      let (required, given, long, empty) =
        claim_start_passes config generated password' presented s' second in
      let both = (claim_start config generated password' presented s').1 in
      let one =
        claim_finish-new now id salt email password both
          (ap (find_admin (λ r. r.email === lower (trim email))) empty) in
      let after : (claim_finish config hash_password lower now id salt email password both).1.admins
          ≡ new_admin config hash_password lower now id salt email password ∷ [] =
        ap (λ t. t.1.admins) one
        ∙ ap (λ rs. rs ++ new_admin config hash_password lower now id salt email password ∷ [])
            empty in
      let two =
        claim_finish-new now id' salt' email' password'
          (claim_finish config hash_password lower now id salt email password both).1
          (ap (find_admin (λ r. r.email === lower (trim email'))) after ∙ rw differ) in
      ap (λ t. length t.1.admins) two
      ∙ ap
          (λ rs.
            length (rs ++ new_admin config hash_password lower now id' salt' email' password' ∷ []))
          after

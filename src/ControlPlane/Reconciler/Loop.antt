-- ===== src/ControlPlane/Reconciler/Loop.antt =====
-- apps/control-plane/src/projects/reconciler.ts: a pass treats each row by itself.
use just_postgres.Shared.{
  ℕ, ◌≡◌, ◌≢◌, refl, sym, ap, ◌∙◌, ◌&&◌, Bool, not, Option, [], ◌∷◌, map, if◌then◌else◌, All,
  Bool-cases, inl, inr, is_some, subst,
}
use just_postgres.Router.Text.{Text, ===_ne, ===_refl}
use just_postgres.ControlPlane.Reconciler.{
  ProjectState, is_transient, ProjectRow, Projects, Docker, Verdict, errs, keeps, sets, verdict,
  set_state, apply, reconcile_project, checked_rows, Pass, check_row, check_rows,
}

-- The primary key.
abbrev pub AreDistinct : Projects → Type 0
AreDistinct [] = Unit
AreDistinct (r ∷ rs) = All (λ s. s.id ≢ r.id) rs × AreDistinct rs

abbrev pub applied : ℕ → Verdict → ProjectRow → ProjectRow
applied now errs r = r
applied now keeps r = r
applied now (sets state message) r = record r {
  state = state;
  last_error = message;
  updated_at = now;
}

abbrev pub is_checked : ProjectRow → Bool
is_checked r = not (is_some r.deleted_at) && not (is_transient r.state)

abbrev pub settle : Docker → ℕ → ProjectRow → ProjectRow
settle docker now r =
    if is_checked r then applied now (verdict docker r.container_id r.state) r else r

set_state-absent :
    (now : ℕ) (id : Text) (state : ProjectState) (message : Option Text) (rs : Projects)
    → All (λ s. s.id ≢ id) rs
    → set_state now id state message rs ≡ rs
unfolding set_state
set_state-absent now id state message [] h = refl
set_state-absent now id state message (r ∷ rs) h =
    rw (===_ne r.id id h.0, set_state-absent now id state message rs h.1)

apply-head :
    (now : ℕ) (v : Verdict) (p : ProjectRow) (rs : Projects)
    → All (λ s. s.id ≢ p.id) rs
    → apply now p.id v (p ∷ rs) ≡ applied now v p ∷ rs
unfolding set_state
apply-head now errs p rs h = refl
apply-head now keeps p rs h = refl
apply-head now (sets state message) p rs h =
    rw (===_refl p.id, set_state-absent now p.id state message rs h)

apply-tail :
    (now : ℕ) (id : Text) (v : Verdict) (p : ProjectRow) (rs : Projects)
    → p.id ≢ id
    → apply now id v (p ∷ rs) ≡ p ∷ apply now id v rs
unfolding set_state
apply-tail now id errs p rs h = refl
apply-tail now id keeps p rs h = refl
apply-tail now id (sets state message) p rs h = rw (===_ne p.id id h)

applied-id : (now : ℕ) (v : Verdict) (p : ProjectRow) → (applied now v p).id ≡ p.id
applied-id now errs p = refl
applied-id now keeps p = refl
applied-id now (sets state message) p = refl

-- The loop, without what it counts.
unfoldable pub reconcile_rows : Docker → ℕ → Projects → Projects → Projects
reconcile_rows docker now [] t = t
reconcile_rows docker now (r ∷ rs) t =
    reconcile_rows docker now rs (reconcile_project docker now r t)

module _ (docker : Docker) (now : ℕ) where
  pub check_rows-projects :
      (rows : Projects) (pass : Pass)
      → (check_rows docker now rows pass).projects ≡ reconcile_rows docker now rows pass.projects
  unfolding check_rows reconcile_rows
  check_rows-projects [] pass = refl
  check_rows-projects (r ∷ rs) pass = check_rows-projects rs (check_row docker now r pass)

  reconcile_rows-tail :
      (rows : Projects) (p : ProjectRow) (t : Projects)
      → All (λ s. s.id ≢ p.id) rows
      → reconcile_rows docker now rows (p ∷ t) ≡ p ∷ reconcile_rows docker now rows t
  unfolding reconcile_rows reconcile_project
  reconcile_rows-tail [] p t h = refl
  reconcile_rows-tail (r ∷ rs) p t h =
      ap (reconcile_rows docker now rs)
        (apply-tail now r.id (verdict docker r.container_id r.state) p t (λ e. h.0 (sym e)))
      ∙ reconcile_rows-tail rs p _ h.1

  checked_rows-All :
      (id : Text) (rs : Projects) → All (λ s. s.id ≢ id) rs → All (λ s. s.id ≢ id) (checked_rows rs)
  unfolding checked_rows
  checked_rows-All id [] h = tt
  checked_rows-All id (r ∷ rs) h = elim (Bool-cases (is_checked r)) [
    | inl e ↦ rw e (h.0, checked_rows-All id rs h.1)
    | inr e ↦ rw e (checked_rows-All id rs h.1)
  ]

  -- A pass treats each row by itself.
  pub reconcile_rows-settle :
      (rs : Projects)
      → AreDistinct rs
      → reconcile_rows docker now (checked_rows rs) rs ≡ map (settle docker now) rs
  unfolding checked_rows reconcile_rows reconcile_project
  reconcile_rows-settle [] d = refl
  reconcile_rows-settle (p ∷ rs) d =
      let rest = reconcile_rows-settle rs d.1 in
      elim (Bool-cases (is_checked p)) [
        | inl e ↦ rw e (
            ap (reconcile_rows docker now (checked_rows rs))
              (apply-head now (verdict docker p.container_id p.state) p rs d.0)
            ∙ reconcile_rows-tail (checked_rows rs)
                (applied now (verdict docker p.container_id p.state) p) rs
                (subst (λ i. All (λ s. s.id ≢ i) (checked_rows rs))
                  (sym (applied-id now (verdict docker p.container_id p.state) p))
                  (checked_rows-All p.id rs d.0))
            ∙ ap (◌∷◌ (applied now (verdict docker p.container_id p.state) p)) rest)
        | inr e ↦ rw e (
            reconcile_rows-tail (checked_rows rs) p rs (checked_rows-All p.id rs d.0)
            ∙ ap (◌∷◌ p) rest)
      ]

-- ===== src/ControlPlane/Reconciler/Repeat.antt =====
-- apps/control-plane/src/projects/reconciler.ts: a pass after a pass.
use just_postgres.Shared.{
  ℕ, ◌≡◌, refl, sym, ap, ◌∙◌, Bool, true, false, Option, none, some, List, [], ◌∷◌, map, All,
  Bool-cases, Option-cases, inl, inr, subst,
}
use just_postgres.Router.Text.{Text, text}
use just_postgres.ControlPlane.Reconciler.{
  ProjectState, creating, running, stopped, failed, deleting, upgrading, ProjectRow, Projects,
  UpgradeRow, ReconcileReport, Inspection, unavailable, gone, found, Docker, listed, refused,
  truthy, Verdict, errs, keeps, sets, fail_with, compare_state, inspected, verdict, apply,
  reconcile_project, checked_rows, Pass, count_verdict, check_row, check_rows, checks, find_orphans,
  find_containers, find_volumes, then_volumes, with_error, Reconciler, run_once,
}
use just_postgres.ControlPlane.Reconciler.Loop.{AreDistinct, applied, is_checked, settle}
use just_postgres.ControlPlane.Reconciler.Truth.{checks-settle}

abbrev is_set : Verdict → Bool
is_set errs = false
is_set keeps = false
is_set (sets state message) = true

abbrev IsQuiet : Docker → ProjectRow → Type 0
IsQuiet docker q = is_set (verdict docker q.container_id q.state) ≡ false

apply-quiet :
    (now : ℕ) (id : Text) (v : Verdict) (t : Projects) → is_set v ≡ false → apply now id v t ≡ t
apply-quiet now id errs t h = refl
apply-quiet now id keeps t h = refl
apply-quiet now id (sets state message) t h = cc

count-quiet :
    (v : Verdict) (report : ReconcileReport)
    → is_set v ≡ false
    → (count_verdict v report).repaired ≡ report.repaired
count-quiet errs report h = refl
count-quiet keeps report h = refl
count-quiet (sets state message) report h = cc

answered_again :
    (now : ℕ) (r : ProjectRow) (answer : Inspection) (state : ProjectState)
    → r.state ≡ state
    → is_set (inspected answer (applied now (inspected answer state) r).state) ≡ false
unfolding inspected compare_state
answered_again now r unavailable state e = refl
answered_again now r gone creating e = refl
answered_again now r gone running e = refl
answered_again now r gone stopped e = refl
answered_again now r gone failed e = rw e
answered_again now r gone deleting e = refl
answered_again now r gone upgrading e = refl
answered_again now r (found true status) creating e = rw e
answered_again now r (found true status) running e = rw e
answered_again now r (found true status) stopped e = refl
answered_again now r (found true status) failed e = rw e
answered_again now r (found true status) deleting e = rw e
answered_again now r (found true status) upgrading e = rw e
answered_again now r (found false status) creating e = rw e
answered_again now r (found false status) running e = refl
answered_again now r (found false status) stopped e = rw e
answered_again now r (found false status) failed e = rw e
answered_again now r (found false status) deleting e = rw e
answered_again now r (found false status) upgrading e = rw e

missing_again :
    (now : ℕ) (r : ProjectRow) (message other : Text) (state : ProjectState)
    → r.state ≡ state
    → is_set (fail_with (applied now (fail_with state message) r).state other) ≡ false
missing_again now r message other creating e = refl
missing_again now r message other running e = refl
missing_again now r message other stopped e = refl
missing_again now r message other failed e = rw e
missing_again now r message other deleting e = refl
missing_again now r message other upgrading e = refl

verdict-none :
    (docker : Docker) (container : Option Text) (state : ProjectState)
    → truthy container ≡ none
    → verdict docker container state ≡ fail_with state (text "Project has no container recorded.")
unfolding verdict
verdict-none docker container state k = rw (k, verdict)

verdict-some :
    (docker : Docker) (container : Option Text) (id : Text) (state : ProjectState)
    → truthy container ≡ some id
    → verdict docker container state ≡ inspected (docker.inspect id) state
unfolding verdict
verdict-some docker container id state k = rw (k, verdict)

same : (docker : Docker) (now : ℕ) (r : ProjectRow) → is_checked r ≡ false → settle docker now r ≡ r
same docker now r h = simp h

changed :
    (docker : Docker) (now : ℕ) (r : ProjectRow)
    → is_checked r ≡ true
    → settle docker now r ≡ applied now (verdict docker r.container_id r.state) r
changed docker now r h = simp h

module _ (docker : Docker) (now : ℕ) where
  -- The verdict on the row that a verdict has changed is to leave it.
  verdict-again :
      (r : ProjectRow)
      → is_set (
          verdict docker r.container_id
            (applied now (verdict docker r.container_id r.state) r).state)
        ≡ false
  verdict-again r =
      let test = λ (v : Verdict). is_set (verdict docker r.container_id (applied now v r).state) in
      elim (Option-cases (truthy r.container_id)) [
        | inl k ↦
            ap test (verdict-none docker r.container_id r.state k)
            ∙ ap is_set (verdict-none docker r.container_id _ k)
            ∙ missing_again now r (text "Project has no container recorded.")
                (text "Project has no container recorded.") r.state refl
        | inr (id, k) ↦
            ap test (verdict-some docker r.container_id id r.state k)
            ∙ ap is_set (verdict-some docker r.container_id id _ k)
            ∙ answered_again now r (docker.inspect id) r.state refl
      ]

  applied-container :
      (v : Verdict) (r : ProjectRow) → (applied now v r).container_id ≡ r.container_id
  applied-container errs r = refl
  applied-container keeps r = refl
  applied-container (sets state message) r = refl

  settle-IsQuiet : (r : ProjectRow) → is_checked r ≡ true → IsQuiet docker (settle docker now r)
  settle-IsQuiet r e = subst (IsQuiet docker) (sym (changed docker now r e)) (
      ap
        (λ c.
          is_set (verdict docker c (applied now (verdict docker r.container_id r.state) r).state))
        (applied-container (verdict docker r.container_id r.state) r)
      ∙ verdict-again r)

  settled-IsQuiet :
      (rs : Projects) → All (IsQuiet docker) (checked_rows (map (settle docker now) rs))
  unfolding checked_rows
  settled-IsQuiet [] = tt
  settled-IsQuiet (r ∷ rs) = elim (Bool-cases (is_checked (settle docker now r))) [
    | inr e ↦ simp e (settled-IsQuiet rs)
    | inl e ↦ elim (Bool-cases (is_checked r)) [
      | inl k ↦ simp e (settle-IsQuiet r k, settled-IsQuiet rs)
      | inr k ↦ cc (k, e, ap is_checked (same docker now r k))
    ]
  ]

  check_rows-quiet :
      (rows : Projects) (pass : Pass)
      → All (IsQuiet docker) rows
      → ((check_rows docker now rows pass).report.repaired ≡ pass.report.repaired)
        × ((check_rows docker now rows pass).projects ≡ pass.projects)
  unfolding check_rows reconcile_project
  check_rows-quiet [] pass h = (refl, refl)
  check_rows-quiet (r ∷ rs) pass h =
      let (counted, kept) = check_rows-quiet rs (check_row docker now r pass) h.1 in
      let v = verdict docker r.container_id r.state in
      (counted ∙ count-quiet v pass.report h.0, kept ∙ apply-quiet now r.id v pass.projects h.0)

orphans-repaired :
    (docker : Docker) (pass : Pass)
    → (with_error (find_orphans docker pass)).repaired ≡ pass.report.repaired
unfolding find_orphans
orphans-repaired docker pass =
    elim docker.containers
      as (λ c.
        (with_error (
          then_volumes docker pass.known_volumes
            (find_containers c pass.known_containers pass.report))).repaired
        ≡ pass.report.repaired) [
          | refused code ↦ refl
          | listed ks ↦
              elim docker.volumes
                as (λ v.
                  (with_error (find_volumes v pass.known_volumes _)).repaired
                  ≡ pass.report.repaired) [ refused code ↦ refl | listed vs ↦ refl ]
        ]

-- A second pass, on the answers that the first had from Docker, repairs nothing and leaves the
-- table as it is.
pub run_once-run_once :
    (docker : Docker) (now later : ℕ) (upgrades upgrades' : List UpgradeRow) (r r' : Reconciler)
    (projects : Projects)
    → AreDistinct projects
    → r.running ≡ false
    → r'.running ≡ false
    → ((run_once docker later upgrades' r' (run_once docker now upgrades r projects).2).0.repaired
        ≡ 0)
      × ((run_once docker later upgrades' r' (run_once docker now upgrades r projects).2).2
          ≡ (run_once docker now upgrades r projects).2)
unfolding run_once checks
run_once-run_once docker now later upgrades upgrades' r r' projects d h h' =
    let settled = map (settle docker now) projects in
    let first : (run_once docker now upgrades r projects).2 ≡ settled =
      rw (h, run_once) (checks-settle docker now upgrades projects d) in
    let (counted, kept) =
      check_rows-quiet docker later (checked_rows settled) _
        (settled-IsQuiet docker now projects) in
    rw (first, h', run_once)
      (orphans-repaired docker (checks docker later upgrades' settled) ∙ counted, kept)

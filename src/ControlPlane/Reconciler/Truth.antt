-- ===== src/ControlPlane/Reconciler/Truth.antt =====
-- apps/control-plane/src/projects/reconciler.ts: the states that a pass leaves.
use just_postgres.Shared.{
  ℕ, ◌≡◌, refl, sym, ap, ◌∙◌, Bool, true, false, Option, none, some, List, [], ◌∷◌, ◌++◌, map,
  arith, if◌then◌else◌, All, Bool-cases, Option-cases, inl, inr, is_some, subst,
}
use just_postgres.Router.Text.{Text, text, ◌===◌, ===_refl}
use just_postgres.ControlPlane.Reconciler.Loop.{
  AreDistinct, applied, is_checked, settle, check_rows-projects, reconcile_rows-settle,
}
use just_postgres.ControlPlane.Reconciler.{
  ProjectState, creating, running, stopped, failed, deleting, upgrading, is_transient, ProjectRow,
  Projects, UpgradeRow, Inspection, unavailable, gone, found, Docker, truthy, Verdict, errs, keeps,
  sets, compare_state, inspected, verdict, set_state, apply, reconcile_project, checked_rows,
  checks, Reconciler, run_once,
}

-- The state of a running or stopped project by what Docker says of its container.
abbrev pub seen : Inspection → ProjectState → ProjectState
seen unavailable state = state
seen gone state = failed
seen (found true status) state = running
seen (found false status) state = stopped

abbrev pub observed : Docker → Option Text → ProjectState → ProjectState
observed docker none state = failed
observed docker (some id) state = seen (docker.inspect id) state

-- What the state of a project should be, a failed one staying failed and one that a job works on
-- staying what it is.
abbrev pub truth : Docker → Option Text → ProjectState → ProjectState
truth docker container creating = creating
truth docker container running = observed docker (truthy container) running
truth docker container stopped = observed docker (truthy container) stopped
truth docker container failed = failed
truth docker container deleting = deleting
truth docker container upgrading = upgrading

-- A row and what has become of it.
pub record IsSettled (docker : Docker) (r q : ProjectRow) : Type 0 where
  pub same_project :
      (q.id ≡ r.id)
      × (q.container_id ≡ r.container_id)
      × (q.volume_name ≡ r.volume_name)
      × (q.deleted_at ≡ r.deleted_at)
  pub state :
      q.state ≡ (if is_some r.deleted_at then r.state else truth docker r.container_id r.state)
  pub untouched : q.state ≡ r.state → q ≡ r

abbrev pub AreSettled : Docker → Projects → Projects → Type 0
AreSettled docker [] [] = Unit
AreSettled docker [] (q ∷ qs) = ⊥
AreSettled docker (r ∷ rs) [] = ⊥
AreSettled docker (r ∷ rs) (q ∷ qs) = IsSettled docker r q × AreSettled docker rs qs

chosen : (b : Bool) (x y : ProjectState) → b ≡ false → (if b then x else y) ≡ y
chosen true x y h = cc
chosen false x y h = refl

module _ (docker : Docker) (now : ℕ) where
  failed_stays :
      (r : ProjectRow) (answer : Inspection)
      → r.state ≡ failed
      → ((applied now (inspected answer failed) r).state ≡ failed)
        × ((applied now (inspected answer failed) r).state ≡ failed
            → applied now (inspected answer failed) r ≡ r)
  unfolding inspected compare_state
  failed_stays r unavailable e = (e, λ x. refl)
  failed_stays r gone e = (e, λ x. refl)
  failed_stays r (found true status) e = (e, λ x. refl)
  failed_stays r (found false status) e = (e, λ x. refl)

  running_seen :
      (r : ProjectRow) (answer : Inspection)
      → r.state ≡ running
      → ((applied now (inspected answer running) r).state ≡ seen answer running)
        × ((applied now (inspected answer running) r).state ≡ running
            → applied now (inspected answer running) r ≡ r)
  unfolding inspected compare_state
  running_seen r unavailable e = (e, λ x. refl)
  running_seen r gone e = (refl, λ x. cc)
  running_seen r (found true status) e = (e, λ x. refl)
  running_seen r (found false status) e = (refl, λ x. cc)

  stopped_seen :
      (r : ProjectRow) (answer : Inspection)
      → r.state ≡ stopped
      → ((applied now (inspected answer stopped) r).state ≡ seen answer stopped)
        × ((applied now (inspected answer stopped) r).state ≡ stopped
            → applied now (inspected answer stopped) r ≡ r)
  unfolding inspected compare_state
  stopped_seen r unavailable e = (e, λ x. refl)
  stopped_seen r gone e = (refl, λ x. cc)
  stopped_seen r (found true status) e = (refl, λ x. cc)
  stopped_seen r (found false status) e = (e, λ x. refl)

  -- The verdict on a running or stopped row brings it to the truth.
  applied-truth :
      (r : ProjectRow) (state : ProjectState)
      → r.state ≡ state
      → is_transient state ≡ false
      → ((applied now (verdict docker r.container_id state) r).state
          ≡ truth docker r.container_id state)
        × ((applied now (verdict docker r.container_id state) r).state ≡ state
            → applied now (verdict docker r.container_id state) r ≡ r)
  unfolding verdict inspected compare_state
  applied-truth r creating e h = cc
  applied-truth r deleting e h = cc
  applied-truth r upgrading e h = cc
  applied-truth r failed e h = elim (Option-cases (truthy r.container_id)) [
    | inl k ↦ rw (k, verdict) (e, λ x. refl)
    | inr (id, k) ↦ rw (k, verdict) (failed_stays r (docker.inspect id) e)
  ]
  applied-truth r running e h = elim (Option-cases (truthy r.container_id)) [
    | inl k ↦ rw (k, verdict) (refl, λ x. cc)
    | inr (id, k) ↦ rw (k, verdict) (running_seen r (docker.inspect id) e)
  ]
  applied-truth r stopped e h = elim (Option-cases (truthy r.container_id)) [
    | inl k ↦ rw (k, verdict) (refl, λ x. cc)
    | inr (id, k) ↦ rw (k, verdict) (stopped_seen r (docker.inspect id) e)
  ]

  applied-keeps :
      (v : Verdict) (r : ProjectRow)
      → ((applied now v r).id ≡ r.id)
        × ((applied now v r).container_id ≡ r.container_id)
        × ((applied now v r).volume_name ≡ r.volume_name)
        × ((applied now v r).deleted_at ≡ r.deleted_at)
  applied-keeps errs r = (refl, refl, refl, refl)
  applied-keeps keeps r = (refl, refl, refl, refl)
  applied-keeps (sets state message) r = (refl, refl, refl, refl)

  truth-transient :
      (r : ProjectRow) (state : ProjectState)
      → is_transient state ≡ true
      → truth docker r.container_id state ≡ state
  truth-transient r creating h = refl
  truth-transient r deleting h = refl
  truth-transient r upgrading h = refl
  truth-transient r running h = cc
  truth-transient r stopped h = cc
  truth-transient r failed h = cc

  unchecked :
      (r : ProjectRow)
      → is_checked r ≡ false
      → r.state ≡ (if is_some r.deleted_at then r.state else truth docker r.container_id r.state)
  unchecked r e = elim (Bool-cases (is_transient r.state)) [
    | inl k ↦
        let it = truth-transient r r.state k in
        elim (Bool-cases (is_some r.deleted_at)) [ inl d ↦ simp d | inr d ↦ simp d (sym it) ]
    | inr k ↦ let dead : is_some r.deleted_at ≡ true = ground (arith, e, k) in simp dead
  ]

  unchanged-IsSettled :
      (r : ProjectRow)
      → r.state ≡ (if is_some r.deleted_at then r.state else truth docker r.container_id r.state)
      → IsSettled docker r r
  unchanged-IsSettled r h = record {
    same_project = (refl, refl, refl, refl);
    state = h;
    untouched = λ x. refl;
  }

  settle-IsSettled : (r : ProjectRow) → IsSettled docker r (settle docker now r)
  settle-IsSettled r = elim (Bool-cases (is_checked r)) [
    | inr e ↦ subst (IsSettled docker r) (sym (simp e)) (unchanged-IsSettled r (unchecked r e))
    | inl e ↦
        let live : is_some r.deleted_at ≡ false = ground (arith, e) in
        let still : is_transient r.state ≡ false = ground (arith, e) in
        let (there, same) = applied-truth r r.state refl still in
        subst (IsSettled docker r) (sym (simp e)) (record {
          same_project = applied-keeps (verdict docker r.container_id r.state) r;
          state = there ∙ sym (chosen (is_some r.deleted_at) r.state _ live);
          untouched = same;
        })
  ]

  map-AreSettled : (rs : Projects) → AreSettled docker rs (map (settle docker now) rs)
  map-AreSettled [] = tt
  map-AreSettled (r ∷ rs) = (settle-IsSettled r, map-AreSettled rs)

  pub checks-settle :
      (upgrades : List UpgradeRow) (projects : Projects)
      → AreDistinct projects
      → (checks docker now upgrades projects).projects ≡ map (settle docker now) projects
  unfolding checks
  checks-settle upgrades projects d =
      check_rows-projects docker now (checked_rows projects) _
      ∙ reconcile_rows-settle docker now projects d

  -- After a pass every project has the state that Docker's answers give it: a running or stopped
  -- one is failed if its container is missing, else running or stopped as the container is; a
  -- failed, deleted or job-owned one stays as it is, and so does one whose container cannot be
  -- inspected. A row that keeps its state is not written.
  pub run_once_settles :
      (upgrades : List UpgradeRow) (r : Reconciler) (projects : Projects)
      → AreDistinct projects
      → r.running ≡ false
      → AreSettled docker projects (run_once docker now upgrades r projects).2
  unfolding run_once
  run_once_settles upgrades r projects d h =
      rw (h, run_once, checks-settle upgrades projects d) (map-AreSettled projects)

  states_after :
      (id : Text) (state : ProjectState) (message : Option Text) (rs : Projects)
      → All (λ q. q.id ≡ id → q.state ≡ state) (set_state now id state message rs)
  unfolding set_state
  states_after id state message [] = tt
  states_after id state message (r ∷ rs) = elim (Bool-cases (r.id === id)) [
    | inl e ↦ rw e ((λ h. refl), states_after id state message rs)
    | inr e ↦
        rw e ((λ h. cc (e, ap (λ i. i === id) h, ===_refl id)), states_after id state message rs)
  ]

  -- A project that was running when the pass read it, and whose container has stopped since, is
  -- written as stopped whatever state it has by then, also if a job has taken it over meanwhile to
  -- upgrade or to delete it.
  pub reconcile_project_stale :
      (row : ProjectRow) (id status : Text) (projects : Projects)
      → row.state ≡ running
      → truthy row.container_id ≡ some id
      → docker.inspect id ≡ found false status
      → All (λ q. q.id ≡ row.id → q.state ≡ stopped) (reconcile_project docker now row projects)
  unfolding reconcile_project verdict inspected compare_state
  reconcile_project_stale row id status projects h k l =
      let decided : verdict docker row.container_id row.state
          ≡ sets stopped (some (text "Container is not running (" ++ (status ++ text ")."))) =
        ap (verdict docker row.container_id) h
        ∙ rw (k, verdict) (ap (λ a. inspected a running) l) in
      subst (λ v. All (λ q. q.id ≡ row.id → q.state ≡ stopped) (apply now row.id v projects))
        (sym decided) (states_after row.id stopped _ projects)

-- ===== src/ControlPlane/Reconciler/Orphans.antt =====
-- apps/control-plane/src/projects/reconciler.ts: which containers and volumes a pass reports.
use just_postgres.Shared.{
  ℕ, ◌≡◌, ◌≢◌, refl, ap, ◌∙◌, true, false, Option, none, some, List, [], ◌∷◌, arith, All,
  Bool-cases, inl, inr, ◌⊎◌,
}
use just_postgres.Router.Text.{Text, ◌===◌, ===_ne, ===_refl, ===_sound}
use just_postgres.ControlPlane.Reconciler.{
  ProjectRow, Projects, UpgradeRow, ReconcileReport, empty_report, Docker, listed, refused, truthy,
  Verdict, errs, keeps, sets, verdict, Container, checked_rows, retained_volumes, add_known,
  known_container, Pass, count_verdict, check_row, check_rows, checks, find_orphans,
  find_containers, find_volumes, then_volumes, with_error, includes, orphan_containers,
  orphan_volumes, Reconciler, run_once,
}
use just_postgres.ControlPlane.Reconciler.Loop.{is_checked}

includes-add_known :
    (v : Text) (o : Option Text) (known : List Text)
    → includes v known ≡ true
    → includes v (add_known o known) ≡ true
unfolding includes
includes-add_known v none known h = h
includes-add_known v (some u) known h = ground (arith, h)

added :
    (v : Text) (o : Option Text) (known : List Text)
    → o ≡ some v
    → includes v (add_known o known) ≡ true
unfolding includes
added v none known h = cc
added v (some u) known h = let same : u ≡ v = cc in rw (same, ===_refl v)

not_orphan :
    (v : Text) (known vs : List Text)
    → includes v known ≡ true
    → includes v (orphan_volumes known vs) ≡ false
unfolding orphan_volumes includes
not_orphan v known [] h = refl
not_orphan v known (u ∷ us) h = elim (Bool-cases (includes u known)) [
  | inl e ↦ rw e (not_orphan v known us h)
  | inr e ↦ elim (Bool-cases (u === v)) [
    | inl same ↦ cc (e, h, ap (λ x. includes x known) (===_sound u v same))
    | inr other ↦ rw (e, other) (not_orphan v known us h)
  ]
]

abbrev pub IsListed : Container → List Container → Type 0
IsListed k [] = ⊥
IsListed k (q ∷ qs) = (q ≡ k) ⊎ IsListed k qs

orphan :
    (k : Container) (known : List Text) (ks : List Container)
    → includes k.id known ≡ false
    → IsListed k ks
    → includes k.name (orphan_containers known ks) ≡ true
unfolding orphan_containers includes
orphan k known [] h i = elim i [ ]
orphan k known (q ∷ qs) h (inl e) =
    let new = ap (λ x. includes x.id known) e ∙ h in rw (new, ap (λ x. x.name) e, ===_refl k.name)
orphan k known (q ∷ qs) h (inr i) = elim (Bool-cases (includes q.id known)) [
  | inl e ↦ rw e (orphan k known qs h i)
  | inr e ↦ rw (e, orphan k known qs h i) (ground arith)
]

not_added :
    (id : Text) (o : Option Text) (known : List Text)
    → o ≢ some id
    → includes id known ≡ false
    → includes id (add_known o known) ≡ false
unfolding includes
not_added id none known h k = k
not_added id (some u) known h k = rw (===_ne u id (λ e. h (ap some e)), k)

unknown_row :
    (id : Text) (v : Verdict) (o : Option Text) (known : List Text)
    → o ≢ some id
    → includes id known ≡ false
    → includes id (known_container v o known) ≡ false
unknown_row id errs o known h k = k
unknown_row id keeps o known h k = not_added id o known h k
unknown_row id (sets state message) o known h k = not_added id o known h k

count-volumes :
    (v : Verdict) (report : ReconcileReport)
    → (count_verdict v report).orphan_volumes ≡ report.orphan_volumes
count-volumes errs report = refl
count-volumes keeps report = refl
count-volumes (sets state message) report = refl

-- What the report of a pass says of volumes and containers.
reported_volumes :
    (docker : Docker) (v : Text) (pass : Pass)
    → pass.report.orphan_volumes ≡ []
    → includes v pass.known_volumes ≡ true
    → includes v (with_error (find_orphans docker pass)).orphan_volumes ≡ false
unfolding find_orphans includes
reported_volumes docker v pass e h =
    elim docker.containers
      as (λ c.
        includes v
          (with_error (
            then_volumes docker pass.known_volumes
              (find_containers c pass.known_containers pass.report))).orphan_volumes
        ≡ false) [
          | refused code ↦ ap (includes v) e
          | listed ks ↦
              elim docker.volumes
                as (λ l.
                  includes v
                    (with_error (
                      find_volumes l pass.known_volumes (record pass.report {
                        orphan_containers = orphan_containers pass.known_containers ks;
                      }))).orphan_volumes
                  ≡ false) [
                    | refused code ↦ ap (includes v) e
                    | listed vs ↦ not_orphan v pass.known_volumes vs h
                  ]
        ]

reported_container :
    (docker : Docker) (k : Container) (ks : List Container) (pass : Pass)
    → docker.containers ≡ listed ks
    → IsListed k ks
    → includes k.id pass.known_containers ≡ false
    → includes k.name (with_error (find_orphans docker pass)).orphan_containers ≡ true
unfolding find_orphans
reported_container docker k ks pass e i h =
    rw (e, find_orphans)
      (elim docker.volumes
        as (λ l.
          includes k.name
            (with_error (
              find_volumes l pass.known_volumes (record pass.report {
                orphan_containers = orphan_containers pass.known_containers ks;
              }))).orphan_containers
          ≡ true) [
            | refused code ↦ orphan k pass.known_containers ks h i
            | listed vs ↦ orphan k pass.known_containers ks h i
          ])

weaken :
    (v : Text) (K L : Type 0)
    → (K → L)
    → (rs : Projects) → All (λ r. is_checked r ≡ true → truthy r.volume_name ≡ some v → K) rs
    → All (λ r. is_checked r ≡ true → truthy r.volume_name ≡ some v → L) rs
weaken v K L f [] h = tt
weaken v K L f (r ∷ rs) h = (λ c e. f (h.0 c e), weaken v K L f rs h.1)

module _ (docker : Docker) (now : ℕ) where
  known-kept :
      (v : Text) (rows : Projects) (pass : Pass)
      → includes v pass.known_volumes ≡ true
      → includes v (check_rows docker now rows pass).known_volumes ≡ true
  unfolding check_rows
  known-kept v [] pass h = h
  known-kept v (r ∷ rs) pass h =
      known-kept v rs (check_row docker now r pass)
        (includes-add_known v (truthy r.volume_name) pass.known_volumes h)

  known-volume :
      (v : Text) (rows : Projects) (pass : Pass)
      → All
          (λ r.
            truthy r.volume_name ≡ some v
            → includes v (check_rows docker now rows pass).known_volumes ≡ true)
          rows
  unfolding check_rows
  known-volume v [] pass = tt
  known-volume v (r ∷ rs) pass = (
    λ e.
        known-kept v rs (check_row docker now r pass)
          (added v (truthy r.volume_name) pass.known_volumes e),
    known-volume v rs (check_row docker now r pass),
  )

  checked-All {ℓ} :
      (P : ProjectRow → Type ℓ) (rs : Projects)
      → All P (checked_rows rs)
      → All (λ r. is_checked r ≡ true → P r) rs
  unfolding checked_rows
  checked-All P [] h = tt
  checked-All P (r ∷ rs) h = elim (Bool-cases (is_checked r)) [
    | inl e ↦ let h' = rw e at h in (λ k. h'.0, checked-All P rs h'.1)
    | inr e ↦ (λ k. cc (e, k), checked-All P rs (rw e at h))
  ]

  unknown :
      (id : Text) (rows : Projects) (pass : Pass)
      → All (λ r. truthy r.container_id ≢ some id) rows
      → includes id pass.known_containers ≡ false
      → includes id (check_rows docker now rows pass).known_containers ≡ false
  unfolding check_rows
  unknown id [] pass h k = k
  unknown id (r ∷ rs) pass h k = unknown id rs (check_row docker now r pass) h.1 (
      unknown_row id (verdict docker r.container_id r.state) (truthy r.container_id)
        pass.known_containers h.0 k)

  empty_volumes :
      (rows : Projects) (pass : Pass)
      → pass.report.orphan_volumes ≡ []
      → (check_rows docker now rows pass).report.orphan_volumes ≡ []
  unfolding check_rows
  empty_volumes [] pass h = h
  empty_volumes (r ∷ rs) pass h =
      empty_volumes rs (check_row docker now r pass)
        (count-volumes (verdict docker r.container_id r.state) pass.report ∙ h)

  checked-none :
      (id : Text) (rs : Projects)
      → All (λ r. is_checked r ≡ true → truthy r.container_id ≢ some id) rs
      → All (λ r. truthy r.container_id ≢ some id) (checked_rows rs)
  unfolding checked_rows
  checked-none id [] h = tt
  checked-none id (r ∷ rs) h = elim (Bool-cases (is_checked r)) [
    | inl e ↦ rw e (h.0 e, checked-none id rs h.1)
    | inr e ↦ rw e (checked-none id rs h.1)
  ]

  -- A pass reports no volume as orphaned that is the volume of a project it checks, or that an
  -- upgrade retains.
  pub orphan_volumes_sound :
      (v : Text) (upgrades : List UpgradeRow) (r : Reconciler) (projects : Projects)
      → r.running ≡ false
      → All
          (λ q.
            is_checked q ≡ true
            → truthy q.volume_name ≡ some v
            → includes v (run_once docker now upgrades r projects).0.orphan_volumes ≡ false)
          projects
        × (includes v (retained_volumes upgrades) ≡ true
            → includes v (run_once docker now upgrades r projects).0.orphan_volumes ≡ false)
  unfolding run_once checks
  orphan_volumes_sound v upgrades r projects h =
      let pass = checks docker now upgrades projects in
      let start : Pass = record {
        projects = projects;
        known_containers = [];
        known_volumes = retained_volumes upgrades;
        report = empty_report;
      } in
      let none_yet = empty_volumes (checked_rows projects) start refl in
      rw (h, run_once)
        (
          weaken v _ _ (reported_volumes docker v pass none_yet) projects
              (checked-All _ projects (known-volume v (checked_rows projects) start)),
          λ k.
              reported_volumes docker v pass none_yet
                (known-kept v (checked_rows projects) start k),
        )

  -- A managed container is reported as orphaned unless a project that the pass checks has it: also
  -- if it is the container of a project that a job is creating, upgrading or deleting.
  pub orphan_unchecked :
      (k : Container) (ks : List Container) (upgrades : List UpgradeRow) (r : Reconciler)
      (projects : Projects)
      → r.running ≡ false
      → docker.containers ≡ listed ks
      → IsListed k ks
      → All (λ q. is_checked q ≡ true → truthy q.container_id ≢ some k.id) projects
      → includes k.name (run_once docker now upgrades r projects).0.orphan_containers ≡ true
  unfolding run_once checks includes
  orphan_unchecked k ks upgrades r projects h l i other =
      let pass = checks docker now upgrades projects in
      rw (h, run_once)
        (reported_container docker k ks pass l i
          (unknown k.id (checked_rows projects) _ (checked-none k.id projects other) refl))

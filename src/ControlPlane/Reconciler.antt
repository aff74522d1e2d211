-- ===== src/ControlPlane/Reconciler.antt =====
-- apps/control-plane/src/projects/reconciler.ts, Reconciler, over the tables projects and upgrades
-- of db/schema.ts (the columns that it reads and writes) and the types of
-- packages/shared/src/projects.ts. Docker's answers are arguments. A pass awaits Docker for each
-- project: `reconcile_project` takes the row that was read, and the table as it is by then.
pub mod Loop
pub mod Truth
pub mod Repeat
pub mod Orphans
use just_postgres.Shared.{
  ℕ, suc, ◌+◌, ◌&&◌, ◌||◌, Bool, true, false, not, Option, none, some, List, [], ◌∷◌, ◌++◌,
  if◌then◌else◌, is_empty, is_some, or_default,
}
use just_postgres.Router.Text.{Text, text, ◌===◌}

pub data ProjectState : Type 0 where
  creating running stopped failed deleting upgrading : ProjectState

-- `TRANSIENT_PROJECT_STATES.includes`
abbrev pub is_transient : ProjectState → Bool
is_transient creating = true
is_transient running = false
is_transient stopped = false
is_transient failed = false
is_transient deleting = true
is_transient upgrading = true

pub record ProjectRow : Type 0 where
  pub id : Text
  pub state : ProjectState
  pub last_error : Option Text
  pub container_id : Option Text
  pub volume_name : Option Text
  pub updated_at : ℕ
  pub deleted_at : Option ℕ

abbrev pub Projects : Type 0
Projects = List ProjectRow

pub record UpgradeRow : Type 0 where
  pub previous_volume_name : Option Text
  pub previous_discarded_at : Option ℕ

pub record ReconcileReport : Type 0 where
  pub checked : ℕ
  pub repaired : ℕ
  pub orphan_containers : List Text
  pub orphan_volumes : List Text
  pub errors : ℕ

abbrev pub empty_report : ReconcileReport
empty_report = record {
  checked = 0;
  repaired = 0;
  orphan_containers = [];
  orphan_volumes = [];
  errors = 0;
}

-- The answer to `inspectContainer`: an error, null, or whether it runs and its status.
pub data Inspection : Type 0 where
  unavailable gone : Inspection
  found : Bool → Text → Inspection

pub record Container : Type 0 where
  pub id : Text
  pub name : Text

-- A list that Docker gives, or the code of its error.
pub data Listing {ℓ} (A : Type ℓ) : Type ℓ where
  listed : List A → Listing A
  refused : Text → Listing A

-- Docker in one pass: the answers about a container, and the managed containers and volumes.
pub record Docker : Type 0 where
  pub inspect : Text → Inspection
  pub containers : Listing Container
  pub volumes : Listing Text

-- A string that is not null and not empty.
unfoldable pub truthy : Option Text → Option Text
truthy none = none
truthy (some t) = if is_empty t then none else some t

-- What `reconcileProject` does with a row: an error of Docker, nothing, or a new state with its
-- message.
pub data Verdict : Type 0 where
  errs keeps : Verdict
  sets : ProjectState → Option Text → Verdict

abbrev pub fail_with : ProjectState → Text → Verdict
fail_with creating message = sets failed (some message)
fail_with running message = sets failed (some message)
fail_with stopped message = sets failed (some message)
fail_with failed message = keeps
fail_with deleting message = sets failed (some message)
fail_with upgrading message = sets failed (some message)

-- With a container that was found.
unfoldable pub compare_state : Bool → Text → ProjectState → Verdict
compare_state true status creating = keeps
compare_state true status running = keeps
compare_state true status stopped = sets running none
compare_state true status failed = keeps
compare_state true status deleting = keeps
compare_state true status upgrading = keeps
compare_state false status creating = keeps
compare_state false status running =
    sets stopped (some (text "Container is not running (" ++ (status ++ text ").")))
compare_state false status stopped = keeps
compare_state false status failed = keeps
compare_state false status deleting = keeps
compare_state false status upgrading = keeps

unfoldable pub inspected : Inspection → ProjectState → Verdict
inspected unavailable state = errs
inspected gone state = fail_with state (text "Container no longer exists on this host.")
inspected (found up status) state = compare_state up status state

unfoldable pub verdict : Docker → Option Text → ProjectState → Verdict
verdict docker container_id state = elim (truthy container_id) [
  | none ↦ fail_with state (text "Project has no container recorded.")
  | some id ↦ inspected (docker.inspect id) state
]

unfoldable pub set_state : ℕ → Text → ProjectState → Option Text → Projects → Projects
set_state now id state message [] = []
set_state now id state message (r ∷ rs) =
    (if r.id === id then record r { state = state; last_error = message; updated_at = now } else r)
    ∷ set_state now id state message rs

abbrev pub apply : ℕ → Text → Verdict → Projects → Projects
apply now id errs projects = projects
apply now id keeps projects = projects
apply now id (sets state message) projects = set_state now id state message projects

-- `reconcileProject` of a row that was read, on the table.
unfoldable pub reconcile_project : Docker → ℕ → ProjectRow → Projects → Projects
reconcile_project docker now row projects =
    apply now row.id (verdict docker row.container_id row.state) projects

-- The rows that a pass reads.
unfoldable pub checked_rows : Projects → Projects
checked_rows [] = []
checked_rows (r ∷ rs) =
    let rest = checked_rows rs in
    if not (is_some r.deleted_at) && not (is_transient r.state) then r ∷ rest else rest

abbrev pub add_known : Option Text → List Text → List Text
add_known none known = known
add_known (some name) known = name ∷ known

unfoldable pub retained_volumes : List UpgradeRow → List Text
retained_volumes [] = []
retained_volumes (u ∷ us) =
    let rest = retained_volumes us in
    if is_some u.previous_discarded_at then rest else add_known (truthy u.previous_volume_name) rest

-- What the loop over the rows keeps.
pub record Pass : Type 0 where
  pub projects : Projects
  pub known_containers : List Text
  pub known_volumes : List Text
  pub report : ReconcileReport

abbrev pub count_verdict : Verdict → ReconcileReport → ReconcileReport
count_verdict errs report = record report {
  checked = suc report.checked;
  errors = suc report.errors;
}
count_verdict keeps report = record report { checked = suc report.checked }
count_verdict (sets state message) report = record report {
  checked = suc report.checked;
  repaired = suc report.repaired;
}

-- The container of a row is known only where its inspection throws no error.
abbrev pub known_container : Verdict → Option Text → List Text → List Text
known_container errs container_id known = known
known_container keeps container_id known = add_known container_id known
known_container (sets state message) container_id known = add_known container_id known

abbrev pub check_row : Docker → ℕ → ProjectRow → Pass → Pass
check_row docker now row pass = record {
  projects = reconcile_project docker now row pass.projects;
  known_containers =
      known_container (verdict docker row.container_id row.state) (truthy row.container_id)
        pass.known_containers;
  known_volumes = add_known (truthy row.volume_name) pass.known_volumes;
  report = count_verdict (verdict docker row.container_id row.state) pass.report;
}

unfoldable pub check_rows : Docker → ℕ → Projects → Pass → Pass
check_rows docker now [] pass = pass
check_rows docker now (row ∷ rows) pass = check_rows docker now rows (check_row docker now row pass)

unfoldable pub includes : Text → List Text → Bool
includes name [] = false
includes name (n ∷ ns) = (n === name) || includes name ns

unfoldable pub orphan_containers : List Text → List Container → List Text
orphan_containers known [] = []
orphan_containers known (k ∷ ks) =
    let rest = orphan_containers known ks in if includes k.id known then rest else k.name ∷ rest

unfoldable pub orphan_volumes : List Text → List Text → List Text
orphan_volumes known [] = []
orphan_volumes known (v ∷ vs) =
    let rest = orphan_volumes known vs in if includes v known then rest else v ∷ rest

-- `findOrphans`: the code of an error, and the report so far.
abbrev pub find_volumes : Listing Text → List Text → ReconcileReport → Option Text × ReconcileReport
find_volumes (refused code) known report = (some code, report)
find_volumes (listed volumes) known report =
    (none, record report { orphan_volumes = orphan_volumes known volumes })

abbrev pub find_containers :
    Listing Container → List Text → ReconcileReport → Option Text × ReconcileReport
find_containers (refused code) known report = (some code, report)
find_containers (listed containers) known report =
    (none, record report { orphan_containers = orphan_containers known containers })

abbrev pub then_volumes :
    Docker → List Text → Option Text × ReconcileReport → Option Text × ReconcileReport
then_volumes docker known (some code, report) = (some code, report)
then_volumes docker known (none, report) = find_volumes docker.volumes known report

unfoldable pub find_orphans : Docker → Pass → Option Text × ReconcileReport
find_orphans docker pass =
    then_volumes docker pass.known_volumes
      (find_containers docker.containers pass.known_containers pass.report)

pub record Reconciler : Type 0 where
  pub running : Bool
  pub last_report : Option ReconcileReport
  pub last_run_at : Option ℕ
  pub docker_unreachable_since : Option ℕ

abbrev pub is_docker_unreachable : Text → Bool
is_docker_unreachable code =
    (code === text "ECONNREFUSED")
    || ((code === text "ENOENT")
        || ((code === text "EACCES") || ((code === text "ECONNRESET") || (code === text "EPIPE"))))

abbrev pub unreachable_since : ℕ → Option Text → Option ℕ → Option ℕ
unreachable_since now none since = none
unreachable_since now (some code) since =
    if is_docker_unreachable code then some (or_default now since) else since

-- The `catch`.
abbrev pub with_error : Option Text × ReconcileReport → ReconcileReport
with_error (none, report) = report
with_error (some code, report) = record report { errors = suc report.errors }

-- The checks of a pass, before `findOrphans`.
unfoldable pub checks : Docker → ℕ → List UpgradeRow → Projects → Pass
checks docker now upgrades projects = check_rows docker now (checked_rows projects) (record {
  projects = projects;
  known_containers = [];
  known_volumes = retained_volumes upgrades;
  report = empty_report;
})

-- `runOnce` with no other write in between; a call while one runs gives the last report.
unfoldable pub run_once :
    Docker → ℕ → List UpgradeRow → Reconciler → Projects → ReconcileReport × Reconciler × Projects
run_once docker now upgrades r projects =
    if r.running
    then (or_default empty_report r.last_report, r, projects)
    else let pass = checks docker now upgrades projects in
      let orphans = find_orphans docker pass in
      (
        with_error orphans,
        record r {
          last_report = some (with_error orphans);
          last_run_at = some now;
          docker_unreachable_since = unreachable_since now orphans.0 r.docker_unreachable_since;
        },
        pass.projects,
      )

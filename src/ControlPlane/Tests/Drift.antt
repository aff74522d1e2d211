-- ===== src/ControlPlane/Tests/Drift.antt =====
-- apps/control-plane/src/projects/reconciler.ts with a running project and one that is upgraded.
use just_postgres.Shared.{◌≡◌, ◌≢◌, refl, ap, false, none, some, [], ◌∷◌, All}
use just_postgres.Router.Text.{text, ◌===◌}
use just_postgres.ControlPlane.Reconciler.{
  running, stopped, upgrading, ProjectRow, Projects, UpgradeRow, found, Container, Docker, listed,
  Reconciler, run_once, reconcile_project, truthy,
}
use just_postgres.ControlPlane.Reconciler.Loop.{AreDistinct}
use just_postgres.ControlPlane.Reconciler.Truth.{
  AreSettled, run_once_settles, reconcile_project_stale,
}
use just_postgres.ControlPlane.Reconciler.Repeat.{run_once-run_once}

abbrev shop : ProjectRow
shop = record {
  id = text "a";
  state = running;
  last_error = none;
  container_id = some (text "c1");
  volume_name = some (text "v1");
  updated_at = 5;
  deleted_at = none;
}

abbrev blog : ProjectRow
blog = record {
  id = text "b";
  state = upgrading;
  last_error = none;
  container_id = some (text "c2");
  volume_name = some (text "v2");
  updated_at = 5;
  deleted_at = none;
}

abbrev projects : Projects
projects = shop ∷ blog ∷ []

abbrev old_data : UpgradeRow
old_data = record { previous_volume_name = some (text "v0"); previous_discarded_at = none }

abbrev blog_container : Container
blog_container = record { id = text "c2"; name = text "jp-blog" }

abbrev docker : Docker
docker = record {
  inspect = λ id. found false (text "exited");
  containers = listed (blog_container ∷ []);
  volumes = listed (text "v0" ∷ text "v1" ∷ text "v2" ∷ []);
}

abbrev reconciler : Reconciler
reconciler = record {
  running = false;
  last_report = none;
  last_run_at = none;
  docker_unreachable_since = none;
}

distinct : AreDistinct projects
unfolding ◌===◌
distinct = (((λ e. cc (ap (λ i. i === text "a") e)), tt), (tt, tt))

run_once_settles_example :
    AreSettled docker projects (run_once docker 9 (old_data ∷ []) reconciler projects).2
run_once_settles_example =
    run_once_settles docker 9 (old_data ∷ []) reconciler projects distinct refl

reconcile_project_stale_example :
    All
      (λ q. q.id ≡ text "a" → q.state ≡ stopped)
      (reconcile_project docker 9 shop (record shop { state = upgrading } ∷ blog ∷ []))
unfolding truthy
reconcile_project_stale_example =
    reconcile_project_stale docker 9 shop (text "c1") (text "exited")
      (record shop { state = upgrading } ∷ blog ∷ []) refl refl refl

run_once-run_once_example :
    ((run_once docker 12 [] reconciler
        (run_once docker 9 (old_data ∷ []) reconciler projects).2).0.repaired
      ≡ 0)
    × ((run_once docker 12 [] reconciler
          (run_once docker 9 (old_data ∷ []) reconciler projects).2).2
        ≡ (run_once docker 9 (old_data ∷ []) reconciler projects).2)
run_once-run_once_example =
    run_once-run_once docker 9 12 (old_data ∷ []) [] reconciler reconciler projects distinct refl
      refl

not_c2 : text "c1" ≢ text "c2"
unfolding ◌===◌
not_c2 = λ e. cc (ap (λ i. i === text "c1") e)

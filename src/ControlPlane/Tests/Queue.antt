-- ===== src/ControlPlane/Tests/Queue.antt =====
-- apps/control-plane/src/jobs/queue.ts with one or two jobs.
use just_postgres.Shared.{◌≡◌, ◌≢◌, refl, ◌&&◌, true, false, none, some, [], ◌∷◌, arith, All}
use just_postgres.Shared.Int.{pos}
use just_postgres.Router.Text.{text, ◌===◌}
use just_postgres.ControlPlane.Jobs.Rows.{
  JobRow, Jobs, EnqueueJobRequest, queued, running, cancelled, get, select, is_leased,
}
use just_postgres.ControlPlane.Jobs.Queue.{
  new_row, enqueue, claim, lease, first, is_runnable, is_ahead, release, fail, heartbeat,
  checkpoint, succeed, fail_permanently, mark_cancelled,
}
use just_postgres.ControlPlane.Jobs.Tables.{IsIn}
use just_postgres.ControlPlane.Jobs.Steps.{Reach, empty, next, enqueues, claims}
use just_postgres.ControlPlane.Jobs.Soundness.{IsValid}
use just_postgres.ControlPlane.Jobs.Invariant.{Reach-IsValid}
use just_postgres.ControlPlane.Jobs.Ends.{Step-final}
use just_postgres.ControlPlane.Jobs.Fencing.{fenced}
use just_postgres.ControlPlane.Jobs.Order.{claim-best}
use just_postgres.ControlPlane.Jobs.Claims.{claim_exclusive}

abbrev request : EnqueueJobRequest
request = record {
  type = text "backup.run";
  project_id = none;
  payload = none;
  priority = some (pos 5);
  run_at = none;
  max_attempts = none;
}

abbrev pub job : JobRow
job = record {
  id = text "a";
  type = text "backup.run";
  project_id = none;
  payload = text "{}";
  state = queued;
  priority = pos 5;
  run_at = 100;
  attempts = 0;
  max_attempts = 3;
  lease_owner = none;
  lease_expires_at = none;
  progress = none;
  last_error = none;
  cancel_requested = false;
  created_at = 100;
  updated_at = 100;
  started_at = none;
  finished_at = none;
}

abbrev pub taken : JobRow
taken = record job {
  state = running;
  lease_owner = some (text "w");
  lease_expires_at = some 150;
  attempts = 1;
  updated_at = 120;
  started_at = some 120;
}

pub reached : Reach (job ∷ [])
unfolding enqueue get new_row
reached = next empty (enqueues 100 (text "a") request job (job ∷ []) refl)

Reach-IsValid_example : IsValid (job ∷ [])
Reach-IsValid_example = Reach-IsValid reached

abbrev ended : JobRow
ended = record job {
  state = cancelled;
  cancel_requested = true;
  finished_at = some 110;
  updated_at = 110;
}

Step-final_example : get (text "a") (claim 30 (text "w") 120 (ended ∷ [])).1 ≡ some ended
unfolding get ◌===◌
Step-final_example =
    Step-final (text "a") ended (claims 30 120 (text "w"))
      ((tt, tt), ((omega arith, (refl, refl, refl)), tt)) refl refl

fenced_example :
    (heartbeat 30 (text "a") (text "v") 130 (taken ∷ [])
      ≡ (record { still_owned = false; cancel_requested = false }, taken ∷ []))
    × (checkpoint (text "a") (text "v") (text "{}") 130 (taken ∷ []) ≡ taken ∷ [])
    × (succeed (text "a") (text "v") none 130 (taken ∷ []) ≡ taken ∷ [])
    × ((fail (λ n. 0) (text "a") (text "v") (text "lost") 130 (taken ∷ [])).1 ≡ taken ∷ [])
    × (fail_permanently (text "a") (text "v") (text "lost") 130 (taken ∷ []) ≡ taken ∷ [])
    × (release (text "a") (text "v") 130 (taken ∷ []) ≡ taken ∷ [])
    × (mark_cancelled (text "a") (text "v") 130 (taken ∷ []) ≡ taken ∷ [])
unfolding ◌===◌
fenced_example =
    fenced 30 (λ n. 0) (text "a") (text "v") (text "lost") (text "{}") none 130 (taken ∷ [])
      (refl, tt)

claim-best_example :
    (c : JobRow) × (taken ≡ lease 30 (text "w") 120 c)
    × IsIn c (job ∷ [])
    × (is_runnable 120 c ≡ true)
    × All (λ q. (is_runnable 120 q && is_ahead q c) ≡ false) (job ∷ [])
unfolding claim first select is_runnable lease
claim-best_example = claim-best 30 120 (text "w") (job ∷ []) taken refl

abbrev later_job : JobRow
later_job = record job { id = text "b"; priority = pos 0 }

abbrev later_taken : JobRow
later_taken = record later_job {
  state = running;
  lease_owner = some (text "v");
  lease_expires_at = some 155;
  attempts = 1;
  updated_at = 125;
  started_at = some 125;
}

claim_exclusive_example : text "b" ≢ text "a"
unfolding claim first select is_runnable lease just_postgres.ControlPlane.Jobs.Rows.update ◌===◌
claim_exclusive_example =
    claim_exclusive 30 120 (text "w") (job ∷ later_job ∷ []) taken
      (
        (((λ e. ground arith), tt), (tt, tt)),
        ((omega arith, (refl, refl, refl)), ((omega arith, (refl, refl, refl)), tt)),
      )
      refl 30 125 (text "v") later_taken (omega arith) refl

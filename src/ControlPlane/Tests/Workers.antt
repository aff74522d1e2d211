-- ===== src/ControlPlane/Tests/Workers.antt =====
-- apps/control-plane/src/jobs/worker.ts with one job.
use just_postgres.Shared.{
  ◌≤◌, ◌≡◌, refl, true, false, none, some, [], ◌∷◌, arith, All, length, max, ◌⊎◌,
}
use just_postgres.Router.Text.{text, ◌===◌, lookup}
use just_postgres.ControlPlane.Jobs.Rows.{JobRow, succeeded, get, select}
use just_postgres.ControlPlane.Jobs.Queue.{claim, is_runnable, first, lease}
use just_postgres.ControlPlane.Jobs.Worker.{
  WorkerConfig, JobWorker, returns, gives_up, throws, refusal, execute, tick, report, end_execution,
}
use just_postgres.ControlPlane.Jobs.Worker.Filling.{tick_fills}
use just_postgres.ControlPlane.Jobs.Worker.Reports.{IsFree, report-IsFree}
use just_postgres.ControlPlane.Jobs.Worker.Outcomes.{
  outcome, attempts_after, run_at_after, report-outcome, stale_end,
}
use just_postgres.ControlPlane.Tests.Queue.{job, taken}

abbrev config : WorkerConfig
config = record {
  instance_id = text "w";
  lease_ttl_ms = 30;
  concurrency = 2;
  registry = (text "backup.run", λ payload. none) ∷ [];
}

abbrev worker : JobWorker
worker = record {
  polling = true;
  stopping = false;
  last_tick_at = none;
  in_flight = [];
  aborted = [];
  controllers = 0;
}

tick_fills_example :
    (length (tick config 120 worker (job ∷ [])).0.in_flight ≤ max 2 0)
    × ((2 ≤ length (tick config 120 worker (job ∷ [])).0.in_flight)
        ⊎ All (λ r. is_runnable 120 r ≡ false) (tick config 120 worker (job ∷ [])).1)
tick_fills_example = tick_fills config 120 worker (job ∷ []) refl

report-IsFree_example :
    IsFree
      (text "a")
      (text "w")
      (report config 130 (λ n. 0) (text "a") (gives_up (text "lost")) false (taken ∷ []))
    × ((refusal taken (lookup (text "backup.run") config.registry) ≡ none)
        ⊎ IsFree (text "a") (text "w") (execute config 130 taken worker (taken ∷ [])).1)
report-IsFree_example =
    report-IsFree config 130 (λ n. 0) taken (gives_up (text "lost")) false worker (taken ∷ [])
      ((tt, tt), ((omega arith, (refl, refl, refl, omega arith)), tt))

report-outcome_example :
    (row : JobRow) × (get
        (text "a")
        (report config 130 (λ n. n) (text "a") (throws (text "lost")) false (taken ∷ []))
      ≡ some row)
    × (row.state ≡ outcome (throws (text "lost")) false taken)
    × (row.attempts ≡ attempts_after (throws (text "lost")) false taken)
    × (row.run_at ≡ run_at_after (λ n. n) 130 (throws (text "lost")) false taken)
    × (row.lease_owner ≡ none)
unfolding get ◌===◌
report-outcome_example =
    report-outcome config 130 (λ n. n) (text "a") (throws (text "lost")) false taken (taken ∷ [])
      refl refl

stale_end_example :
    (row : JobRow) × (get
        (text "a")
        (end_execution config 170
          (λ n. 0)
          (text "a")
          (returns none)
          worker
          (claim 30 (text "w") 160 (taken ∷ [])).1).1
      ≡ some row)
    × (row.state ≡ succeeded)
    × (row.lease_owner ≡ none)
    × (lookup
          (text "a")
          (end_execution config 170
            (λ n. 0)
            (text "a")
            (returns none)
            worker
            (claim 30 (text "w") 160 (taken ∷ [])).1).0.in_flight
        ≡ none)
unfolding claim lease select first is_runnable ◌===◌
stale_end_example =
    stale_end config 170 (λ n. 0) 160 none worker (taken ∷ []) taken
      (record taken { attempts = 2; lease_expires_at = some 190; updated_at = 160 })
      ((tt, tt), ((omega arith, (refl, refl, refl, omega arith)), tt)) refl refl

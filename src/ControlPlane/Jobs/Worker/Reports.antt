-- ===== src/ControlPlane/Jobs/Worker/Reports.antt =====
-- apps/control-plane/src/jobs/worker.ts: what the end of an execution does to its job.
use just_postgres.Shared.{
  ℕ, ◌≡◌, refl, ap, ◌&&◌, Bool, false, not, Option, none, some, [], ◌∷◌, arith, All, Bool-cases,
  Option-cases, inl, inr, take, ◌⊎◌,
}
use just_postgres.Router.Text.{Text, ◌===◌, lookup}
use just_postgres.ControlPlane.Jobs.Rows.{
  running, succeeded, failed, cancelled, JobRow, Jobs, get, update, is_state, is_leased,
}
use just_postgres.ControlPlane.Jobs.Queue.{
  finish, heartbeat, succeed, fail, failure, fail_permanently, release, give_back, mark_cancelled,
}
use just_postgres.ControlPlane.Jobs.Steps.{beats}
use just_postgres.ControlPlane.Jobs.Soundness.{IsSound, IsValid, leased-running}
use just_postgres.ControlPlane.Jobs.Invariant.{Step-IsValid}
use just_postgres.ControlPlane.Jobs.Worker.{
  WorkerConfig, JobWorker, Ending, returns, cancels, gives_up, throws, refusal, execute,
  was_cancelled, is_cancelled, handle_cancelled, report,
}

-- No row with the id is leased to the owner.
abbrev pub IsFree : Text → Text → Jobs → Type 0
IsFree id owner jobs = All (λ r. is_leased id owner r ≡ false) jobs

-- An update of the leased rows that takes the lease off them leaves none.
update-IsFree :
    (id owner : Text) (f : JobRow → JobRow) (jobs : Jobs)
    → ((r : JobRow) → is_leased id owner (f r) ≡ false)
    → IsFree id owner (update (is_leased id owner) f jobs)
unfolding update
update-IsFree id owner f [] h = tt
update-IsFree id owner f (r ∷ rs) h = (
  elim (Bool-cases (is_leased id owner r)) [ inl e ↦ rw e (h r) | inr e ↦ rw e e ],
  update-IsFree id owner f rs h,
)

unleased : (id owner : Text) (r : JobRow) → r.lease_owner ≡ none → is_leased id owner r ≡ false
unleased id owner r h = ground arith

release-IsFree :
    (id owner : Text) (now : ℕ) (jobs : Jobs)
    → All IsSound jobs
    → IsFree id owner (release id owner now jobs)
unfolding release update give_back
release-IsFree id owner now [] h = tt
release-IsFree id owner now (r ∷ rs) h = (
  elim (Bool-cases (is_leased id owner r)) [
    | inl e ↦
        let runs = leased-running id owner r r.state refl h.0.1 e in
        ground (arith, e, runs, ap (λ s. is_state s running) runs)
    | inr e ↦ ground (arith, e)
  ],
  release-IsFree id owner now rs h.1,
)

absent-IsFree : (id owner : Text) (jobs : Jobs) → get id jobs ≡ none → IsFree id owner jobs
unfolding get
absent-IsFree id owner [] h = tt
absent-IsFree id owner (r ∷ rs) h = elim (Bool-cases (r.id === id)) [
  | inl e ↦ cc (rw e at h)
  | inr e ↦ (rw e, absent-IsFree id owner rs (rw e at h))
]

succeed-IsFree :
    (id owner : Text) (result : Option Text) (now : ℕ) (jobs : Jobs)
    → IsFree id owner (succeed id owner result now jobs)
unfolding succeed
succeed-IsFree id owner none now jobs =
    update-IsFree id owner (λ r. record (finish succeeded now r) { last_error = none }) jobs
      (λ r. unleased id owner (record (finish succeeded now r) { last_error = none }) refl)
succeed-IsFree id owner (some progress) now jobs =
    let done = λ (r : JobRow). record (finish succeeded now r) {
      last_error = none;
      progress = some progress;
    } in
    update-IsFree id owner done jobs (λ r. unleased id owner (done r) refl)

mark_cancelled-IsFree :
    (id owner : Text) (now : ℕ) (jobs : Jobs) → IsFree id owner (mark_cancelled id owner now jobs)
unfolding mark_cancelled
mark_cancelled-IsFree id owner now jobs =
    update-IsFree id owner (finish cancelled now) jobs
      (λ r. unleased id owner (finish cancelled now r) refl)

fail-IsFree :
    (random : ℕ → ℕ) (id owner error : Text) (now : ℕ) (jobs : Jobs)
    → IsFree id owner (fail random id owner error now jobs).1
unfolding fail failure
fail-IsFree random id owner error now jobs = elim (Option-cases (get id jobs)) [
  | inl e ↦ rw (e, fail) (absent-IsFree id owner jobs e)
  | inr (c, e) ↦
      rw (e, fail)
        (update-IsFree id owner (failure random c error now) jobs
          (λ r. unleased id owner (failure random c error now r) refl))
]

fail_permanently-IsFree :
    (id owner error : Text) (now : ℕ) (jobs : Jobs)
    → IsFree id owner (fail_permanently id owner error now jobs)
unfolding fail_permanently
fail_permanently-IsFree id owner error now jobs =
    let lost =
      λ (r : JobRow). record (finish failed now r) { last_error = some (take 4000 error) } in
    update-IsFree id owner lost jobs (λ r. unleased id owner (lost r) refl)

module _ (config : WorkerConfig) (now : ℕ) where
  -- Asking for the cancellation is a heartbeat or nothing.
  was_cancelled-keeps {ℓ} :
      (P : Jobs → Type ℓ) (id : Text) (jobs : Jobs)
      → P jobs
      → P (heartbeat config.lease_ttl_ms id config.instance_id now jobs).1
      → P (was_cancelled config now id jobs).1
  unfolding was_cancelled
  was_cancelled-keeps P id jobs h k = elim (Bool-cases (is_cancelled config now (get id jobs))) [
    | inl e ↦ rw (e, was_cancelled) h
    | inr e ↦ rw (e, was_cancelled) k
  ]

  handle_cancelled-keeps {ℓ} :
      (P : Jobs → Type ℓ) (id : Text) (stopping : Bool) (jobs : Jobs)
      → P (mark_cancelled id config.instance_id now (was_cancelled config now id jobs).1)
      → P (release id config.instance_id now (was_cancelled config now id jobs).1)
      → P (handle_cancelled config now id stopping jobs)
  unfolding handle_cancelled
  handle_cancelled-keeps P id stopping jobs h k =
      elim (Bool-cases ((was_cancelled config now id jobs).0 && not stopping)) [
        | inl e ↦ rw (e, handle_cancelled) h
        | inr e ↦ rw (e, handle_cancelled) k
      ]

  report_frees :
      (random : ℕ → ℕ) (id : Text) (ending : Ending) (stopping : Bool) (jobs : Jobs)
      → IsValid jobs
      → IsFree id config.instance_id (report config now random id ending stopping jobs)
  unfolding report
  report_frees random id (returns result) stopping jobs v =
      succeed-IsFree id config.instance_id result now jobs
  report_frees random id cancels stopping jobs v =
      let asked = (was_cancelled config now id jobs).1 in
      let sound =
        was_cancelled-keeps IsValid id jobs v
          (Step-IsValid {jobs = jobs} (beats config.lease_ttl_ms now id config.instance_id) v) in
      handle_cancelled-keeps (IsFree id config.instance_id) id stopping jobs
        (mark_cancelled-IsFree id config.instance_id now asked)
        (release-IsFree id config.instance_id now asked sound.1)
  report_frees random id (gives_up message) stopping jobs v =
      fail_permanently-IsFree id config.instance_id message now jobs
  report_frees random id (throws message) stopping jobs v =
      fail-IsFree random id config.instance_id message now jobs

  -- However the handler of a job ends, by a value, by a cancellation or a shutdown, by a permanent
  -- error or by another one, its report leaves the worker without a lease on the job; and so does
  -- the start of an execution that finds no handler or an invalid payload.
  pub report-IsFree :
      (random : ℕ → ℕ) (job : JobRow) (ending : Ending) (stopping : Bool) (w : JobWorker)
      (jobs : Jobs)
      → IsValid jobs
      → IsFree job.id config.instance_id (report config now random job.id ending stopping jobs)
        × ((refusal job (lookup job.type config.registry) ≡ none)
            ⊎ IsFree job.id config.instance_id (execute config now job w jobs).1)
  unfolding execute
  report-IsFree random job ending stopping w jobs v = (
    report_frees random job.id ending stopping jobs v,
    elim (Option-cases (refusal job (lookup job.type config.registry))) [
      | inl e ↦ inl e
      | inr (message, e) ↦
          inr (rw (e, execute) (fail_permanently-IsFree job.id config.instance_id message now jobs))
    ],
  )

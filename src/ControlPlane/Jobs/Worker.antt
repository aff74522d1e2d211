-- ===== src/ControlPlane/Jobs/Worker.antt =====
-- apps/control-plane/src/jobs/worker.ts, JobWorker, over the queue of ControlPlane/Jobs/Queue, and
-- jobs/registry.ts. Code between two awaits runs alone. A handler runs outside the model: it is
-- the calls that it makes (`checkpoint`) and the way that it ends. In one tick the clock is read
-- once. An abort controller is its number.
pub mod Filling
pub mod Reports
pub mod Outcomes
use just_postgres.Shared.{
  ℕ, zero, suc, ◌&&◌, Bool, true, false, not, Option, none, some, List, [], ◌∷◌, ◌++◌, map, ltb,
  if◌then◌else◌, length, is_some,
}
use just_postgres.Router.Text.{Text, text, lookup, insert, erase}
use just_postgres.ControlPlane.Jobs.Rows.{JobState, cancelled, JobRow, Jobs, is_state, get}
use just_postgres.ControlPlane.Jobs.Queue.{
  claim, HeartbeatResult, heartbeat, checkpoint, succeed, fail, fail_permanently, release,
  mark_cancelled, sweep_exhausted,
}

-- The handlers: the type of each, and the issues that its schema has with a payload.
abbrev pub JobRegistry : Type 0
JobRegistry = List (Text × (Text → Option Text))

-- `register`, which throws on a type that is there.
abbrev pub register : Text → (Text → Option Text) → JobRegistry → Option JobRegistry
register type schema registry =
    if is_some (lookup type registry) then none else some (insert type schema registry)

pub record WorkerConfig : Type 0 where
  pub instance_id : Text
  pub lease_ttl_ms : ℕ
  pub concurrency : ℕ
  pub registry : JobRegistry

pub record JobWorker : Type 0 where
  pub polling : Bool
  pub stopping : Bool
  pub last_tick_at : Option ℕ
  pub in_flight : List (Text × ℕ)
  pub aborted : List ℕ
  pub controllers : ℕ

-- How the promise of a handler ends: with a value, by JobCancelledError, by PermanentJobError, or
-- by another error.
pub data Ending : Type 0 where
  returns : Option Text → Ending
  cancels : Ending
  gives_up : Text → Ending
  throws : Text → Ending

abbrev pub quoted : Text → Text
quoted t = 34 ∷ (t ++ 34 ∷ [])

-- The message of the PermanentJobError that `execute` throws, if it throws one.
unfoldable pub refusal : JobRow → Option (Text → Option Text) → Option Text
refusal job none = some (text "No handler registered for job type " ++ quoted job.type)
refusal job (some schema) = elim (schema job.payload) [
  | none ↦ none
  | some issues ↦ some (text "Invalid payload: " ++ issues)
]

abbrev pub with_controller : Text → JobWorker → JobWorker
with_controller id w = record w {
  in_flight = insert id w.controllers w.in_flight;
  controllers = suc w.controllers;
}

-- The `finally` of `execute`.
abbrev pub leave : Text → JobWorker → JobWorker
leave id w = record w { in_flight = erase id w.in_flight }

abbrev pub abort : ℕ → JobWorker → JobWorker
abort controller w = record w { aborted = controller ∷ w.aborted }

module _ (config : WorkerConfig) (now : ℕ) where
  abbrev pub has_room : JobWorker → Bool
  has_room w = not w.stopping && ltb (length w.in_flight) config.concurrency

  -- `execute` up to its first await: the handler's, or the one behind handleFailure.
  unfoldable pub execute : JobRow → JobWorker → Jobs → JobWorker × Jobs
  execute job w jobs = elim (refusal job (lookup job.type config.registry)) [
    | none ↦ (with_controller job.id w, jobs)
    | some message ↦
        (with_controller job.id w, fail_permanently job.id config.instance_id message now jobs)
  ]

  abbrev pub start_claimed :
      (JobWorker → Jobs → JobWorker × Jobs) → JobWorker → Option JobRow × Jobs → JobWorker × Jobs
  start_claimed again w (none, jobs) = (w, jobs)
  start_claimed again w (some job, jobs) =
      let started = execute job w jobs in again started.0 started.1

  -- The loop of `tick`.
  unfoldable pub fill : ℕ → JobWorker → Jobs → JobWorker × Jobs
  fill zero w jobs = (w, jobs)
  fill (suc fuel) w jobs =
      let more =
        start_claimed (fill fuel) w (claim config.lease_ttl_ms config.instance_id now jobs) in
      if has_room w then more else (w, jobs)

  -- Each round of the loop leases a job, so it has no more rounds than there are jobs.
  unfoldable pub tick : JobWorker → Jobs → JobWorker × Jobs
  tick w jobs =
      if w.stopping
      then (w, jobs)
      else fill (length jobs) (record w { last_tick_at = some now }) (sweep_exhausted now jobs).1

  unfoldable pub start : JobWorker → Jobs → JobWorker × Jobs
  start w jobs = if w.polling then (w, jobs) else tick (record w { polling = true }) jobs

  abbrev pub heed : HeartbeatResult → ℕ → JobWorker → JobWorker
  heed result controller w =
      if not result.still_owned
      then abort controller w
      else if result.cancel_requested
      then abort controller w
      else w

  -- The interval of an execution.
  unfoldable pub beat : Text → ℕ → JobWorker → Jobs → JobWorker × Jobs
  beat id controller w jobs =
      let answer = heartbeat config.lease_ttl_ms id config.instance_id now jobs in
      (heed answer.0 controller w, answer.1)

  unfoldable pub note_progress : Text → Text → Jobs → Jobs
  note_progress id progress jobs = checkpoint id config.instance_id progress now jobs

  abbrev pub is_cancelled : Option JobRow → Bool
  is_cancelled none = false
  is_cancelled (some r) = is_state r.state cancelled

  -- `current?.state === "cancelled" || this.cancelWasRequested(job.id)`
  unfoldable pub was_cancelled : Text → Jobs → Bool × Jobs
  was_cancelled id jobs =
      let answer = heartbeat config.lease_ttl_ms id config.instance_id now jobs in
      if is_cancelled (get id jobs) then (true, jobs) else (answer.0.cancel_requested, answer.1)

  -- `handleFailure` of a JobCancelledError.
  unfoldable pub handle_cancelled : Text → Bool → Jobs → Jobs
  handle_cancelled id stopping jobs =
      let asked = was_cancelled id jobs in
      if asked.0 && not stopping
      then mark_cancelled id config.instance_id now asked.1
      else release id config.instance_id now asked.1

  module _ (random : ℕ → ℕ) where
    -- The call of `succeed` in `execute`, or `handleFailure`.
    unfoldable pub report : Text → Ending → Bool → Jobs → Jobs
    report id (returns result) stopping jobs = succeed id config.instance_id result now jobs
    report id cancels stopping jobs = handle_cancelled id stopping jobs
    report id (gives_up message) stopping jobs =
        fail_permanently id config.instance_id message now jobs
    report id (throws message) stopping jobs =
        (fail random id config.instance_id message now jobs).1

    -- `execute` from the end of the handler on.
    unfoldable pub end_execution : Text → Ending → JobWorker → Jobs → JobWorker × Jobs
    end_execution id ending w jobs = (leave id w, report id ending w.stopping jobs)

unfoldable pub controllers_of : List (Text × ℕ) → List ℕ
controllers_of [] = []
controllers_of ((id, controller) ∷ rest) = controller ∷ controllers_of rest

-- `stop` up to its wait for the executions, which go on ending meanwhile.
unfoldable pub stop : JobWorker → JobWorker
stop w = record w {
  stopping = true;
  polling = false;
  aborted = controllers_of w.in_flight ++ w.aborted;
}

pub record WorkerStatus : Type 0 where
  pub running : Bool
  pub instance_id : Text
  pub in_flight : ℕ
  pub concurrency : ℕ
  pub last_tick_at : Option ℕ

unfoldable pub status : WorkerConfig → JobWorker → WorkerStatus
status config w = record {
  running = w.polling;
  instance_id = config.instance_id;
  in_flight = length w.in_flight;
  concurrency = config.concurrency;
  last_tick_at = w.last_tick_at;
}

-- ===== src/ControlPlane/Jobs/Queue.antt =====
-- apps/control-plane/src/jobs/queue.ts, JobQueue. A method runs alone, since SQLite takes one
-- writer at a time. The time, the new id and the random number are arguments. A payload and the
-- progress are the JSON texts that are stored; a job that a method returns is its row.
use just_postgres.Shared.{
  ℕ, ◌+◌, ◌-◌, ◌*◌, ◌^◌, ◌&&◌, ◌||◌, Bool, true, false, Option, none, some, [], ◌∷◌, ◌++◌, ltb, leb,
  if◌then◌else◌, length, take, min, or_default,
}
use just_postgres.Shared.Int.{pos, ltbℤ, ◌==ℤ◌}
use just_postgres.Router.Text.{Text, text}
use just_postgres.ControlPlane.Jobs.Rows.{
  JobState, queued, running, succeeded, failed, cancelled, JobRow, Jobs, EnqueueJobRequest,
  is_state, is_before, update, select, get, is_leased, is_running_lease, has_id,
}

unfoldable pub new_row : ℕ → Text → EnqueueJobRequest → JobRow
new_row now id req = record {
  id = id;
  type = req.type;
  project_id = req.project_id;
  payload = or_default (text "{}") req.payload;
  state = queued;
  priority = or_default (pos 0) req.priority;
  run_at = or_default now req.run_at;
  attempts = 0;
  max_attempts = or_default 3 req.max_attempts;
  lease_owner = none;
  lease_expires_at = none;
  progress = none;
  last_error = none;
  cancel_requested = false;
  created_at = now;
  updated_at = now;
  started_at = none;
  finished_at = none;
}

-- The insert; an id that is there is an error of the primary key.
unfoldable pub enqueue : ℕ → Text → EnqueueJobRequest → Jobs → Option (JobRow × Jobs)
enqueue now id req jobs = elim (get id jobs) [
  | some r ↦ none
  | none ↦ some (new_row now id req, jobs ++ new_row now id req ∷ [])
]

unfoldable pub is_runnable : ℕ → JobRow → Bool
is_runnable now r =
    ltb r.attempts r.max_attempts
    && ((is_state r.state queued && leb r.run_at now)
        || (is_state r.state running && is_before now r.lease_expires_at))

-- `ORDER BY priority DESC, run_at ASC` puts the first strictly before the second.
abbrev pub is_ahead : JobRow → JobRow → Bool
is_ahead a b = ltbℤ b.priority a.priority || ((a.priority ==ℤ b.priority) && ltb a.run_at b.run_at)

-- `LIMIT 1`; among rows that the order leaves open, the one inserted first.
unfoldable pub first : Jobs → Option JobRow
first [] = none
first (r ∷ rs) = elim (first rs) [
  | none ↦ some r
  | some b ↦ if is_ahead b r then some b else some r
]

unfoldable pub lease : ℕ → Text → ℕ → JobRow → JobRow
lease ttl owner now r = record r {
  state = running;
  lease_owner = some owner;
  lease_expires_at = some (now + ttl);
  attempts = r.attempts + 1;
  started_at = some (or_default now r.started_at);
  updated_at = now;
}

unfoldable pub claim : ℕ → Text → ℕ → Jobs → Option JobRow × Jobs
claim ttl owner now jobs = elim (first (select (is_runnable now) jobs)) [
  | none ↦ (none, jobs)
  | some r ↦ (some (lease ttl owner now r), update (has_id r.id) (lease ttl owner now) jobs)
]

pub record HeartbeatResult : Type 0 where
  pub still_owned : Bool
  pub cancel_requested : Bool

-- What an update's `returning().get()` tells of the row.
abbrev pub heartbeat_result : Jobs → HeartbeatResult
heartbeat_result [] = record { still_owned = false; cancel_requested = false }
heartbeat_result (r ∷ rs) = record { still_owned = true; cancel_requested = r.cancel_requested }

abbrev pub extend : ℕ → ℕ → JobRow → JobRow
extend ttl now r = record r { lease_expires_at = some (now + ttl); updated_at = now }

unfoldable pub heartbeat : ℕ → Text → Text → ℕ → Jobs → HeartbeatResult × Jobs
heartbeat ttl id owner now jobs = (
  heartbeat_result (select (is_running_lease id owner) jobs),
  update (is_running_lease id owner) (extend ttl now) jobs,
)

unfoldable pub checkpoint : Text → Text → Text → ℕ → Jobs → Jobs
checkpoint id owner progress now jobs =
    update (is_leased id owner) (λ r. record r { progress = some progress; updated_at = now }) jobs

-- What all the ends of a job set.
abbrev pub finish : JobState → ℕ → JobRow → JobRow
finish state now r = record r {
  state = state;
  lease_owner = none;
  lease_expires_at = none;
  finished_at = some now;
  updated_at = now;
}

abbrev pub with_progress : Option Text → JobRow → JobRow
with_progress none r = r
with_progress (some progress) r = record r { progress = some progress }

unfoldable pub succeed : Text → Text → Option Text → ℕ → Jobs → Jobs
succeed id owner progress now jobs =
    update (is_leased id owner)
      (λ r. with_progress progress (record (finish succeeded now r) { last_error = none })) jobs

-- `RETRY_BASE_MS` and `RETRY_MAX_MS`.
abbrev pub retry_base_ms : ℕ
retry_base_ms = 2000

abbrev pub retry_max_ms : ℕ
retry_max_ms = 5 * 60000

-- `random` is `Math.floor(Math.random() * ceiling)`, as a function of the ceiling.
unfoldable pub backoff_ms : (ℕ → ℕ) → ℕ → ℕ
backoff_ms random attempts = random (min retry_max_ms (retry_base_ms * 2 ^ (attempts - 1)))

-- The row that `fail` writes, from the row that it read.
unfoldable pub failure : (ℕ → ℕ) → JobRow → Text → ℕ → JobRow → JobRow
failure random current error now r =
    let exhausted = leb current.max_attempts current.attempts in
    record r {
      state = if exhausted then failed else queued;
      lease_owner = none;
      lease_expires_at = none;
      last_error = some (take 4000 error);
      run_at = if exhausted then current.run_at else now + backoff_ms random current.attempts;
      finished_at = if exhausted then some now else none;
      updated_at = now;
    }

unfoldable pub fail : (ℕ → ℕ) → Text → Text → Text → ℕ → Jobs → JobState × Jobs
fail random id owner error now jobs = elim (get id jobs) [
  | none ↦ (failed, jobs)
  | some current ↦ (
    if leb current.max_attempts current.attempts then failed else queued,
    update (is_leased id owner) (failure random current error now) jobs,
  )
]

unfoldable pub fail_permanently : Text → Text → Text → ℕ → Jobs → Jobs
fail_permanently id owner error now jobs =
    update (is_leased id owner)
      (λ r. record (finish failed now r) { last_error = some (take 4000 error) }) jobs

unfoldable pub give_back : ℕ → JobRow → JobRow
give_back now r = record r {
  state = queued;
  lease_owner = none;
  lease_expires_at = none;
  attempts = r.attempts - 1;
  run_at = now;
  updated_at = now;
}

unfoldable pub release : Text → Text → ℕ → Jobs → Jobs
release id owner now jobs = update (is_running_lease id owner) (give_back now) jobs

unfoldable pub mark_cancelled : Text → Text → ℕ → Jobs → Jobs
mark_cancelled id owner now jobs = update (is_leased id owner) (finish cancelled now) jobs

-- The update that a request makes of a row in the state that it read.
unfoldable pub cancel : JobState → ℕ → JobRow → JobRow
cancel queued now r = record r {
  state = cancelled;
  cancel_requested = true;
  finished_at = some now;
  updated_at = now;
}
cancel running now r = record r { cancel_requested = true; updated_at = now }
cancel succeeded now r = r
cancel failed now r = r
cancel cancelled now r = r

unfoldable pub request_cancel : Text → ℕ → Jobs → Option JobRow × Jobs
request_cancel id now jobs = elim (get id jobs) [
  | none ↦ (none, jobs)
  | some r ↦ (some (cancel r.state now r), update (has_id id) (cancel r.state now) jobs)
]

abbrev pub exhausted_message : Text
exhausted_message = text "Exceeded max attempts; last attempt died without reporting."

unfoldable pub is_exhausted : ℕ → JobRow → Bool
is_exhausted now r =
    is_state r.state running && (is_before now r.lease_expires_at && leb r.max_attempts r.attempts)

unfoldable pub sweep_exhausted : ℕ → Jobs → ℕ × Jobs
sweep_exhausted now jobs = (
  length (select (is_exhausted now) jobs),
  update (is_exhausted now)
      (λ r. record (finish failed now r) { last_error = some exhausted_message }) jobs,
)

pub record JobStats : Type 0 where
  pub queued : ℕ
  pub running : ℕ
  pub succeeded : ℕ
  pub failed : ℕ
  pub cancelled : ℕ

abbrev pub count_state : JobState → Jobs → ℕ
count_state state jobs = length (select (λ r. is_state r.state state) jobs)

unfoldable pub stats : Jobs → JobStats
stats jobs = record {
  queued = count_state queued jobs;
  running = count_state running jobs;
  succeeded = count_state succeeded jobs;
  failed = count_state failed jobs;
  cancelled = count_state cancelled jobs;
}

abbrev pub is_null_or_before : ℕ → Option ℕ → Bool
is_null_or_before now none = true
is_null_or_before now (some t) = ltb t now

unfoldable pub count_orphaned : ℕ → Jobs → ℕ
count_orphaned now jobs =
    length (select (λ r. is_state r.state running && is_null_or_before now r.lease_expires_at) jobs)

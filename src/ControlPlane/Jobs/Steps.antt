-- ===== src/ControlPlane/Jobs/Steps.antt =====
-- apps/control-plane/src/jobs/queue.ts: what the processes of the control plane may do to the
-- table, one transaction at a time, with any owner, id and time.
use just_postgres.Shared.{ℕ, ◌≡◌, Option, some, [], Bool, false, true}
use just_postgres.Router.Text.{Text}
use just_postgres.ControlPlane.Jobs.Rows.{
  JobState, queued, running, succeeded, failed, cancelled, JobRow, Jobs, EnqueueJobRequest,
}
use just_postgres.ControlPlane.Jobs.Queue.{
  enqueue, claim, heartbeat, checkpoint, succeed, fail, fail_permanently, release, mark_cancelled,
  request_cancel, sweep_exhausted,
}

pub data Step (jobs : Jobs) : Jobs → Type 0 where
  enqueues :
      (now : ℕ) (id : Text) (req : EnqueueJobRequest) (row : JobRow) (after : Jobs)
      → enqueue now id req jobs ≡ some (row, after)
      → Step jobs after
  claims : (ttl now : ℕ) (owner : Text) → Step jobs (claim ttl owner now jobs).1
  beats : (ttl now : ℕ) (id owner : Text) → Step jobs (heartbeat ttl id owner now jobs).1
  checkpoints :
      (now : ℕ) (id owner progress : Text) → Step jobs (checkpoint id owner progress now jobs)
  succeeds :
      (now : ℕ) (id owner : Text) (progress : Option Text)
      → Step jobs (succeed id owner progress now jobs)
  fails :
      (random : ℕ → ℕ) (now : ℕ) (id owner error : Text)
      → Step jobs (fail random id owner error now jobs).1
  fails_permanently :
      (now : ℕ) (id owner error : Text) → Step jobs (fail_permanently id owner error now jobs)
  releases : (now : ℕ) (id owner : Text) → Step jobs (release id owner now jobs)
  marks_cancelled : (now : ℕ) (id owner : Text) → Step jobs (mark_cancelled id owner now jobs)
  requests_cancel : (now : ℕ) (id : Text) → Step jobs (request_cancel id now jobs).1
  sweeps : (now : ℕ) → Step jobs (sweep_exhausted now jobs).1

pub data Reach : Jobs → Type 0 where
  empty : Reach []
  next : {jobs after : Jobs} → Reach jobs → Step jobs after → Reach after

abbrev pub is_terminal : JobState → Bool
is_terminal queued = false
is_terminal running = false
is_terminal succeeded = true
is_terminal failed = true
is_terminal cancelled = true

-- ===== src/ControlPlane/Jobs/Fencing.antt =====
-- apps/control-plane/src/jobs/queue.ts: a worker that has lost its lease changes nothing.
use just_postgres.Shared.{
  min, ℕ, zero, suc, ◌+◌, ◌-◌, ◌*◌, ◌^◌, ◌≤◌, ◌<◌, ◌≡◌, refl, ◌∙◌, true, false, Option, none, some,
  [], ◌∷◌, arith, All, inl, inr, Option-cases, leb,
}
use just_postgres.Router.Text.{Text}
use just_postgres.ControlPlane.Jobs.Rows.{JobRow, queued, Jobs, get, is_running_lease, is_leased}
use just_postgres.ControlPlane.Jobs.Queue.{
  extend, heartbeat, checkpoint, succeed, failure, fail, fail_permanently, release, mark_cancelled,
  backoff_ms, retry_max_ms, retry_base_ms,
}
use just_postgres.ControlPlane.Jobs.Tables.{get-update, update_none, select_none}

not_running :
    (id owner : Text) (jobs : Jobs)
    → All (λ r. is_leased id owner r ≡ false) jobs
    → All (λ r. is_running_lease id owner r ≡ false) jobs
not_running id owner [] h = tt
not_running id owner (r ∷ rs) h = (rw h.0, not_running id owner rs h.1)

-- A worker whose lease on a job is gone, since the job has ended, went back to the queue or is
-- leased to another worker, changes nothing by any report on it, and its heartbeat tells it that
-- it no longer owns the job.
pub fenced :
    (ttl : ℕ) (random : ℕ → ℕ) (id owner error progress : Text) (result : Option Text) (now : ℕ)
    (jobs : Jobs)
    → All (λ r. is_leased id owner r ≡ false) jobs
    → (heartbeat ttl id owner now jobs
        ≡ (record { still_owned = false; cancel_requested = false }, jobs))
      × (checkpoint id owner progress now jobs ≡ jobs)
      × (succeed id owner result now jobs ≡ jobs)
      × ((fail random id owner error now jobs).1 ≡ jobs)
      × (fail_permanently id owner error now jobs ≡ jobs)
      × (release id owner now jobs ≡ jobs)
      × (mark_cancelled id owner now jobs ≡ jobs)
unfolding heartbeat checkpoint succeed fail fail_permanently release mark_cancelled
fenced ttl random id owner error progress result now jobs h = (
  rw (
    select_none _ jobs (not_running id owner jobs h),
    update_none _ (extend ttl now) jobs (not_running id owner jobs h),
  ),
  update_none _ _ jobs h,
  update_none _ _ jobs h,
  elim (Option-cases (get id jobs)) [
    | inl e ↦ rw (e, fail)
    | inr (c, e) ↦ rw (e, fail) (update_none _ (failure random c error now) jobs h)
  ],
  update_none _ _ jobs h,
  update_none _ _ jobs (not_running id owner jobs h),
  update_none _ _ jobs h,
)

power_positive : (n : ℕ) → 0 < 2 ^ n
power_positive zero = omega arith
power_positive (suc n) = omega (arith, power_positive n)

backoff_ms_bound :
    (random : ℕ → ℕ) (n : ℕ) → ((m : ℕ) → 0 < m → random m < m) → backoff_ms random n < 300000
unfolding backoff_ms
backoff_ms_bound random n h =
    let ceiling = min retry_max_ms (retry_base_ms * 2 ^ (n - 1)) in
    let pos : 0 < ceiling = ground (arith, power_positive (n - 1)) in
    let cap : ceiling ≤ 300000 = ground arith in omega (arith, h ceiling pos)

-- A worker that holds a job with attempts left and reports a failure puts it back into the queue,
-- without a lease, with the attempts as they are, to run again within five minutes.
pub fail_retries :
    (random : ℕ → ℕ) (id owner error : Text) (now : ℕ) (jobs : Jobs) (r : JobRow)
    → ((m : ℕ) → 0 < m → random m < m)
    → get id jobs ≡ some r
    → is_leased id owner r ≡ true
    → r.attempts < r.max_attempts
    → (row : JobRow) × ((fail random id owner error now jobs).0 ≡ queued)
      × (get id (fail random id owner error now jobs).1 ≡ some row)
      × (row.state ≡ queued)
      × (row.lease_owner ≡ none)
      × (row.attempts ≡ r.attempts)
      × (now ≤ row.run_at)
      × (row.run_at < now + 300000)
unfolding fail failure
fail_retries random id owner error now jobs r h g l a =
    let more : leb r.max_attempts r.attempts ≡ false = ground arith in
    (
      failure random r error now r,
      rw (g, fail, more),
      rw (g, fail)
          (get-update (is_leased id owner) (failure random r error now) id r jobs (λ q. refl) g
            ∙ rw l),
      rw more,
      refl,
      refl,
      rw more (omega arith),
      rw more (omega (arith, backoff_ms_bound random r.attempts h)),
    )

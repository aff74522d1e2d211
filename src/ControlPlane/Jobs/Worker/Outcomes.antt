-- ===== src/ControlPlane/Jobs/Worker/Outcomes.antt =====
-- apps/control-plane/src/jobs/worker.ts: the state that the end of an execution puts its job in.
use just_postgres.Shared.{
  ℕ, ◌+◌, ◌-◌, leb, take, ◌≡◌, refl, ap, ◌∙◌, ◌&&◌, Bool, true, false, not, Option, none, some, [],
  ◌∷◌, arith, if◌then◌else◌, Bool-cases, inl, inr,
}
use just_postgres.Router.Text.{Text, ◌===◌, ===_refl, lookup, lookup-erase}
use just_postgres.ControlPlane.Jobs.Rows.{
  JobState, queued, succeeded, failed, cancelled, JobRow, Jobs, get, update, select, is_leased,
  is_running_lease,
}
use just_postgres.ControlPlane.Jobs.Queue.{
  claim, lease, extend, finish, fail, failure, fail_permanently, backoff_ms, with_progress,
  heartbeat, succeed, release, give_back, mark_cancelled,
}
use just_postgres.ControlPlane.Jobs.Tables.{get-update}
use just_postgres.ControlPlane.Jobs.Soundness.{IsValid, with_progress-Keeps}
use just_postgres.ControlPlane.Jobs.Claims.{claimed}
use just_postgres.ControlPlane.Jobs.Worker.{
  WorkerConfig, JobWorker, Ending, returns, cancels, gives_up, throws, was_cancelled, is_cancelled,
  handle_cancelled, report, end_execution,
}

select-get :
    (id owner : Text) (r : JobRow) (jobs : Jobs)
    → get id jobs ≡ some r
    → is_running_lease id owner r ≡ true
    → (rest : Jobs) × (select (is_running_lease id owner) jobs ≡ r ∷ rest)
unfolding get select
select-get id owner r [] h k = cc
select-get id owner r (q ∷ rs) h k = elim (Bool-cases (q.id === id)) [
  | inl e ↦
      let same : q ≡ r = cc (rw e at h) in
      let held = ap (is_running_lease id owner) same ∙ k in
      (
        select (is_running_lease id owner) rs,
        rw (held) (ap (λ x. x ∷ select (is_running_lease id owner) rs) same),
      )
  | inr e ↦ let (rest, it) = select-get id owner r rs (rw e at h) k in (rest, rw e it)
]

with_progress-keeps :
    (result : Option Text) (r : JobRow)
    → ((with_progress result r).state ≡ r.state)
      × ((with_progress result r).attempts ≡ r.attempts)
      × ((with_progress result r).run_at ≡ r.run_at)
      × ((with_progress result r).lease_owner ≡ r.lease_owner)
with_progress-keeps none r = (refl, refl, refl, refl)
with_progress-keeps (some progress) r = (refl, refl, refl, refl)

-- What the comments of the source say that the end of an execution does to its job.
unfoldable pub outcome : Ending → Bool → JobRow → JobState
outcome (returns result) stopping r = succeeded
outcome (gives_up message) stopping r = failed
outcome (throws message) stopping r = if leb r.max_attempts r.attempts then failed else queued
outcome cancels stopping r = if r.cancel_requested && not stopping then cancelled else queued

unfoldable pub attempts_after : Ending → Bool → JobRow → ℕ
attempts_after (returns result) stopping r = r.attempts
attempts_after (gives_up message) stopping r = r.attempts
attempts_after (throws message) stopping r = r.attempts
attempts_after cancels stopping r =
    if r.cancel_requested && not stopping then r.attempts else r.attempts - 1

unfoldable pub run_at_after : (ℕ → ℕ) → ℕ → Ending → Bool → JobRow → ℕ
run_at_after random now (returns result) stopping r = r.run_at
run_at_after random now (gives_up message) stopping r = r.run_at
run_at_after random now (throws message) stopping r =
    if leb r.max_attempts r.attempts then r.run_at else now + backoff_ms random r.attempts
run_at_after random now cancels stopping r =
    if r.cancel_requested && not stopping then r.run_at else now

module _ (config : WorkerConfig) (now : ℕ) where
  leased :
      (id : Text) (r : JobRow)
      → is_running_lease id config.instance_id r ≡ true
      → is_leased id config.instance_id r ≡ true
  leased id r k = ground (arith, k)

  failed_row :
      (random : ℕ → ℕ) (id message : Text) (r : JobRow) (jobs : Jobs)
      → get id jobs ≡ some r
      → get id (update (is_leased id config.instance_id) (failure random r message now) jobs)
        ≡ some (failure random r message now r)
      → get id (fail random id config.instance_id message now jobs).1
        ≡ some (failure random r message now r)
  unfolding fail
  failed_row random id message r jobs h done = rw (h, fail) done

  -- What a worker that holds the lease learns when it asks whether its job was cancelled.
  asked :
      (id : Text) (r : JobRow) (jobs : Jobs)
      → get id jobs ≡ some r
      → is_running_lease id config.instance_id r ≡ true
      → ((was_cancelled config now id jobs).0 ≡ r.cancel_requested)
        × (get id (was_cancelled config now id jobs).1 ≡ some (extend config.lease_ttl_ms now r))
  unfolding was_cancelled heartbeat
  asked id r jobs h k =
      let (rest, it) = select-get id config.instance_id r jobs h k in
      let going : is_cancelled config now (get id jobs) ≡ false = rw h (ground arith) in
      let kept =
        get-update (is_running_lease id config.instance_id) (extend config.lease_ttl_ms now) id r
          jobs (λ q. refl) h in
      rw (going, was_cancelled, it) (refl, kept ∙ rw k)

  -- A job whose handler stops with JobCancelledError under the worker's lease is cancelled if that
  -- was asked for and the process is not shutting down, and otherwise goes back to the queue with
  -- the attempt taken back; either way without a lease.
  cancelled_outcome :
      (random : ℕ → ℕ) (id : Text) (stopping : Bool) (r : JobRow) (jobs : Jobs)
      → get id jobs ≡ some r
      → is_running_lease id config.instance_id r ≡ true
      → (row : JobRow) × (get id (report config now random id cancels stopping jobs) ≡ some row)
        × (row.state ≡ (if r.cancel_requested && not stopping then cancelled else queued))
        × (row.attempts
            ≡ (if r.cancel_requested && not stopping then r.attempts else r.attempts - 1))
        × (row.run_at ≡ (if r.cancel_requested && not stopping then r.run_at else now))
        × (row.lease_owner ≡ none)
  unfolding report handle_cancelled mark_cancelled release give_back
  cancelled_outcome random id stopping r jobs h k =
      let (why, kept) = asked id r jobs h k in
      let after = (was_cancelled config now id jobs).1 in
      let held = leased id r k in
      let s = extend config.lease_ttl_ms now r in
      elim (Bool-cases (r.cancel_requested && not stopping)) [
        | inl e ↦
            let test : ((was_cancelled config now id jobs).0 && not stopping) ≡ true =
              ap (λ b. b && not stopping) why ∙ e in
            (
              finish cancelled now s,
              rw (test, handle_cancelled)
                  (get-update (is_leased id config.instance_id) (finish cancelled now) id s after
                      (λ q. refl) kept
                    ∙ rw held),
              rw e,
              rw e,
              rw e,
              refl,
            )
        | inr e ↦
            let test : ((was_cancelled config now id jobs).0 && not stopping) ≡ false =
              ap (λ b. b && not stopping) why ∙ e in
            (
              give_back now s,
              rw (test, handle_cancelled)
                  (get-update (is_running_lease id config.instance_id) (give_back now) id s after
                      (λ q. refl) kept
                    ∙ rw k),
              rw e,
              rw e,
              rw e,
              refl,
            )
      ]

  -- The report on a job that the worker holds ends it in exactly these states: succeeded for a
  -- value; failed for a permanent error, and for another error when no attempt is left; cancelled
  -- if that was asked for and the process is not shutting down; and otherwise queued again, with
  -- the attempt taken back only for a job that stopped because of a cancellation or a shutdown.
  -- The job is then nobody's, and one that is to be tried again waits for the delay.
  pub report-outcome :
      (random : ℕ → ℕ) (id : Text) (ending : Ending) (stopping : Bool) (r : JobRow) (jobs : Jobs)
      → get id jobs ≡ some r
      → is_running_lease id config.instance_id r ≡ true
      → (row : JobRow) × (get id (report config now random id ending stopping jobs) ≡ some row)
        × (row.state ≡ outcome ending stopping r)
        × (row.attempts ≡ attempts_after ending stopping r)
        × (row.run_at ≡ run_at_after random now ending stopping r)
        × (row.lease_owner ≡ none)
  unfolding outcome attempts_after run_at_after report fail_permanently succeed failure
  report-outcome random id (returns result) stopping r jobs h k =
      let done = λ (q : JobRow). record (finish succeeded now q) { last_error = none } in
      let (state, attempts, run_at, owner) = with_progress-keeps result (done r) in
      (
        with_progress result (done r),
        get-update (is_leased id config.instance_id) (λ q. with_progress result (done q)) id r jobs
              (λ q. with_progress-Keeps result (done q)) h
            ∙ rw (leased id r k),
        state,
        attempts,
        run_at,
        owner,
      )
  report-outcome random id (gives_up message) stopping r jobs h k =
      let lost =
        λ (q : JobRow). record (finish failed now q) { last_error = some (take 4000 message) } in
      (
        lost r,
        get-update (is_leased id config.instance_id) lost id r jobs (λ q. refl) h
            ∙ rw (leased id r k),
        refl,
        refl,
        refl,
        refl,
      )
  report-outcome random id (throws message) stopping r jobs h k = (
    failure random r message now r,
    failed_row random id message r jobs h (
        get-update (is_leased id config.instance_id) (failure random r message now) id r jobs
          (λ q. refl) h
        ∙ rw (leased id r k)),
    refl,
    refl,
    refl,
    refl,
  )
  report-outcome random id cancels stopping r jobs h k =
      cancelled_outcome random id stopping r jobs h k

  -- When a worker has claimed a job again, the end of an execution of that job by the same worker
  -- from before is taken for the end of the new one: the job is succeeded, its lease is gone, and
  -- the worker counts no execution of it as in flight.
  pub stale_end :
      (random : ℕ → ℕ) (claimed_at : ℕ) (result : Option Text) (w : JobWorker) (jobs : Jobs)
      (first again : JobRow)
      → IsValid jobs
      → (claim config.lease_ttl_ms config.instance_id claimed_at jobs).0 ≡ some again
      → first.id ≡ again.id
      → (row : JobRow) × (get again.id
            (end_execution config now random first.id
              (returns result)
              w
              (claim config.lease_ttl_ms config.instance_id claimed_at jobs).1).1
          ≡ some row)
        × (row.state ≡ succeeded)
        × (row.lease_owner ≡ none)
        × (lookup again.id
              (end_execution config now random first.id
                (returns result)
                w
                (claim config.lease_ttl_ms config.instance_id claimed_at jobs).1).0.in_flight
            ≡ none)
  unfolding end_execution report succeed lease
  stale_end random claimed_at result w jobs first again v h same =
      let (c, it, found, held) =
        claimed config.lease_ttl_ms claimed_at config.instance_id jobs again v h in
      let ids : again.id ≡ c.id = ap (λ q. q.id) it in
      let done = λ (r : JobRow). record (finish succeeded now r) { last_error = none } in
      let leased = lease config.lease_ttl_ms config.instance_id claimed_at c in
      let (ends, attempts, run_at, gone) = with_progress-keeps result (done leased) in
      (
        with_progress result (done leased),
        rw (same, ids)
            (get-update (is_leased c.id config.instance_id) (λ r. with_progress result (done r))
                c.id leased _ (λ q. with_progress-Keeps result (done q)) held
              ∙ rw (===_refl c.id, ===_refl config.instance_id)),
        ends,
        gone,
        rw same (lookup-erase again.id w.in_flight),
      )

-- ===== src/ControlPlane/Jobs/Invariant.antt =====
-- apps/control-plane/src/jobs/queue.ts: every transaction keeps the table valid.
use just_postgres.Shared.{ℕ, ◌≡◌, refl, some, [], ◌∷◌, ◌++◌, arith, inl, inr, Option-cases, subst}
use just_postgres.Router.Text.{Text}
use just_postgres.ControlPlane.Jobs.Rows.{
  JobRow, Jobs, EnqueueJobRequest, get, has_id, update, select,
}
use just_postgres.ControlPlane.Jobs.Queue.{
  new_row, enqueue, is_runnable, first, lease, claim, heartbeat, checkpoint, succeed, failure, fail,
  fail_permanently, give_back, release, mark_cancelled, cancel, request_cancel, sweep_exhausted,
}
use just_postgres.ControlPlane.Jobs.Tables.{get-eq-some, All-IsIn}
use just_postgres.ControlPlane.Jobs.Steps.{
  Step, enqueues, claims, beats, checkpoints, succeeds, fails, fails_permanently, releases,
  marks_cancelled, requests_cancel, sweeps, Reach, empty, next,
}
use just_postgres.ControlPlane.Jobs.Soundness.{
  IsSound, IsValid, update-IsValid, update_only-IsValid, candidate, append-IsValid, absent,
  lease-IsSound, finish-IsSound, extend-IsSound, give_back-IsSound, failure-IsSound, cancel-IsSound,
  cancel-Keeps, success-IsSound, with_progress-Keeps, note-IsSound,
}

enqueue-IsValid :
    (now : ℕ) (id : Text) (req : EnqueueJobRequest) (jobs : Jobs) (row : JobRow) (after : Jobs)
    → enqueue now id req jobs ≡ some (row, after)
    → IsValid jobs
    → IsValid after
unfolding enqueue new_row
enqueue-IsValid now id req jobs row after e v = elim (Option-cases (get id jobs)) [
  | inr (r, found) ↦ cc (rw (found, enqueue) at e)
  | inl free ↦
      let there : jobs ++ new_row now id req ∷ [] ≡ after = cc (rw (free, enqueue) at e) in
      subst IsValid there (
        append-IsValid (new_row now id req) jobs (absent id jobs free)
          (omega arith, (refl, refl, refl)) v)
]

claim-IsValid :
    (ttl now : ℕ) (owner : Text) (jobs : Jobs) → IsValid jobs → IsValid (claim ttl owner now jobs).1
unfolding claim lease
claim-IsValid ttl now owner jobs v = elim (Option-cases (first (select (is_runnable now) jobs))) [
  | inl e ↦ rw (e, claim) v
  | inr (c, e) ↦
      let (there, runs) = candidate now c jobs e in
      rw (e, claim)
        (update_only-IsValid (lease ttl owner now) c jobs (λ r. refl)
          (lease-IsSound ttl now owner c c.state refl (All-IsIn IsSound c jobs v.1 there) runs)
          there v)
]

request_cancel-IsValid :
    (now : ℕ) (id : Text) (jobs : Jobs) → IsValid jobs → IsValid (request_cancel id now jobs).1
unfolding request_cancel
request_cancel-IsValid now id jobs v = elim (Option-cases (get id jobs)) [
  | inl e ↦ rw (e, request_cancel) v
  | inr (c, e) ↦
      let (there, same) = get-eq-some id c jobs e in
      rw (e, request_cancel)
        (subst (λ i. IsValid (update (has_id i) (cancel c.state now) jobs)) same
          (update_only-IsValid (cancel c.state now) c jobs (cancel-Keeps now c.state)
            (cancel-IsSound now c c.state refl (All-IsIn IsSound c jobs v.1 there)) there v))
]

fail-IsValid :
    (random : ℕ → ℕ) (now : ℕ) (id owner error : Text) (jobs : Jobs)
    → IsValid jobs
    → IsValid (fail random id owner error now jobs).1
unfolding fail failure
fail-IsValid random now id owner error jobs v = elim (Option-cases (get id jobs)) [
  | inl e ↦ rw (e, fail) v
  | inr (c, e) ↦
      rw (e, fail)
        (update-IsValid _ _ jobs (λ r. refl) (λ r h k. failure-IsSound random c error now r h) v)
]

pub Step-IsValid : {jobs after : Jobs} → Step jobs after → IsValid jobs → IsValid after
unfolding heartbeat checkpoint succeed fail_permanently release give_back mark_cancelled
    sweep_exhausted
Step-IsValid {jobs} (enqueues now id req row after e) v =
    enqueue-IsValid now id req jobs row after e v
Step-IsValid {jobs} (claims ttl now owner) v = claim-IsValid ttl now owner jobs v
Step-IsValid {jobs} (beats ttl now id owner) v =
    update-IsValid _ _ jobs (λ r. refl)
      (λ r h k. extend-IsSound ttl now r r.state refl (ground arith) h) v
Step-IsValid {jobs} (checkpoints now id owner progress) v =
    update-IsValid _ _ jobs (λ r. refl) (λ r h k. note-IsSound progress now r r.state refl h) v
Step-IsValid {jobs} (succeeds now id owner progress) v =
    update-IsValid _ _ jobs (λ r. with_progress-Keeps progress _)
      (λ r h k. success-IsSound progress now r h) v
Step-IsValid {jobs} (fails random now id owner error) v =
    fail-IsValid random now id owner error jobs v
Step-IsValid {jobs} (fails_permanently now id owner error) v =
    update-IsValid _ _ jobs (λ r. refl) (λ r h k. (finish-IsSound now r h).1) v
Step-IsValid {jobs} (releases now id owner) v =
    update-IsValid _ _ jobs (λ r. refl)
      (λ r h k. give_back-IsSound now r r.state refl (ground arith) h) v
Step-IsValid {jobs} (marks_cancelled now id owner) v =
    update-IsValid _ _ jobs (λ r. refl) (λ r h k. (finish-IsSound now r h).2) v
Step-IsValid {jobs} (requests_cancel now id) v = request_cancel-IsValid now id jobs v
Step-IsValid {jobs} (sweeps now) v =
    update-IsValid _ _ jobs (λ r. refl) (λ r h k. (finish-IsSound now r h).1) v

-- Whatever workers and clients do, every id stands in the table once, no job has more attempts
-- than its maximum, and a job has a lease exactly while it is running, with an attempt counted
-- for it, and a time of its end exactly when it is succeeded, failed or cancelled.
pub Reach-IsValid : {jobs : Jobs} → Reach jobs → IsValid jobs
Reach-IsValid empty = (tt, tt)
Reach-IsValid (next r s) = Step-IsValid s (Reach-IsValid r)

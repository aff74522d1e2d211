-- ===== src/ControlPlane/Jobs/Ends.antt =====
-- apps/control-plane/src/jobs/queue.ts: a job that has ended stays as it is.
use just_postgres.Shared.{
  ℕ, ◌≡◌, refl, sym, ap, ◌∙◌, Bool, true, false, some, [], ◌∷◌, ◌++◌, arith, inl, inr, ◌⊎◌,
  Bool-cases, Option-cases, subst, if◌then◌else◌,
}
use just_postgres.Router.Text.{Text, ◌===◌}
use just_postgres.ControlPlane.Jobs.Rows.{
  JobRow, JobState, queued, running, succeeded, failed, cancelled, Jobs, EnqueueJobRequest, get,
  select, update, is_leased, has_id,
}
use just_postgres.ControlPlane.Jobs.Queue.{
  new_row, enqueue, is_runnable, first, lease, claim, heartbeat, checkpoint, succeed, failure, fail,
  fail_permanently, give_back, release, mark_cancelled, cancel, request_cancel, sweep_exhausted,
  is_exhausted,
}
use just_postgres.ControlPlane.Jobs.Tables.{
  get-eq-some, IsIn, IsIn-IsOnly, All-IsIn, get-update, AreDistinct, Keeps,
}
use just_postgres.ControlPlane.Jobs.Soundness.{
  IsSound, IsPhase, IsValid, candidate, cancel-Keeps, with_progress-Keeps,
}
use just_postgres.ControlPlane.Jobs.Steps.{
  Step, enqueues, claims, beats, checkpoints, succeeds, fails, fails_permanently, releases,
  marks_cancelled, requests_cancel, sweeps, is_terminal,
}

terminal-unleased :
    (id owner : Text) (r : JobRow) (s : JobState)
    → r.state ≡ s
    → is_terminal s ≡ true
    → IsPhase s r
    → is_leased id owner r ≡ false
terminal-unleased id owner r queued e t h = cc
terminal-unleased id owner r running e t h = cc
terminal-unleased id owner r succeeded e t h = ground arith
terminal-unleased id owner r failed e t h = ground arith
terminal-unleased id owner r cancelled e t h = ground arith

terminal-idle :
    (now : ℕ) (r : JobRow) (s : JobState)
    → r.state ≡ s
    → is_terminal s ≡ true
    → (is_runnable now r ≡ false) × (is_exhausted now r ≡ false)
unfolding is_runnable is_exhausted
terminal-idle now r queued e t = cc
terminal-idle now r running e t = cc
terminal-idle now r succeeded e t = ground arith
terminal-idle now r failed e t = ground arith
terminal-idle now r cancelled e t = ground arith

cancel-terminal : (now : ℕ) (r : JobRow) (s : JobState) → is_terminal s ≡ true → cancel s now r ≡ r
unfolding cancel
cancel-terminal now r queued t = cc
cancel-terminal now r running t = cc
cancel-terminal now r succeeded t = refl
cancel-terminal now r failed t = refl
cancel-terminal now r cancelled t = refl

get-append :
    (id : Text) (c r : JobRow) (jobs : Jobs)
    → get id jobs ≡ some r
    → get id (jobs ++ c ∷ []) ≡ some r
unfolding get
get-append id c r [] h = cc
get-append id c r (j ∷ jobs) h = elim (Bool-cases (j.id === id)) [
  | inl e ↦ rw e (rw e at h)
  | inr e ↦ rw e (get-append id c r jobs (rw e at h))
]

-- An update whose condition does not hold of a row keeps it.
missed :
    (t : JobRow → Bool) (f : JobRow → JobRow) (id : Text) (r : JobRow) (jobs : Jobs)
    → Keeps f
    → get id jobs ≡ some r
    → t r ≡ false
    → get id (update t f jobs) ≡ some r
missed t f id r jobs k g e = rw (get-update t f id r jobs k g, e)

-- A row read by its id is the row that has it.
other-has_id :
    (c r : JobRow) (jobs : Jobs)
    → AreDistinct jobs
    → IsIn c jobs
    → IsIn r jobs
    → (r ≡ c) ⊎ (has_id c.id r ≡ false)
other-has_id c r jobs d i j = elim (Bool-cases (has_id c.id r)) [
  | inl e ↦ inl (All-IsIn (λ q. has_id c.id q ≡ true → q ≡ c) r jobs (IsIn-IsOnly c jobs d i) j e)
  | inr e ↦ inr e
]

kept : (b : Bool) (s r : JobRow) → s ≡ r → (if b then s else r) ≡ r
kept true s r e = e
kept false s r e = refl

module _ (id : Text) (r : JobRow) (jobs : Jobs) (v : IsValid jobs) (g : get id jobs ≡ some r)
    (t : is_terminal r.state ≡ true) where
  there : IsIn r jobs
  there = (get-eq-some id r jobs g).0

  unleased : (i owner : Text) → is_leased i owner r ≡ false
  unleased i owner =
      terminal-unleased i owner r r.state refl t (All-IsIn IsSound r jobs v.1 there).1

  enqueue-final :
      (now : ℕ) (i : Text) (req : EnqueueJobRequest) (row : JobRow) (after : Jobs)
      → enqueue now i req jobs ≡ some (row, after)
      → get id after ≡ some r
  unfolding enqueue
  enqueue-final now i req row after e = elim (Option-cases (get i jobs)) [
    | inr (c, found) ↦ cc (rw (found, enqueue) at e)
    | inl free ↦
        let same : jobs ++ new_row now i req ∷ [] ≡ after = cc (rw (free, enqueue) at e) in
        subst (λ js. get id js ≡ some r) same (get-append id (new_row now i req) r jobs g)
  ]

  claim-final : (ttl now : ℕ) (owner : Text) → get id (claim ttl owner now jobs).1 ≡ some r
  unfolding claim lease
  claim-final ttl now owner = elim (Option-cases (first (select (is_runnable now) jobs))) [
    | inl e ↦ rw (e, claim) g
    | inr (c, e) ↦
        let (taken, runs) = candidate now c jobs e in
        let idle = (terminal-idle now r r.state refl t).0 in
        elim (other-has_id c r jobs v.0 taken there) [
          | inl same ↦ cc (runs, idle, ap (is_runnable now) same)
          | inr apart ↦ rw (e, claim) (missed _ _ id r jobs (λ q. refl) g apart)
        ]
  ]

  request_cancel-final : (now : ℕ) (i : Text) → get id (request_cancel i now jobs).1 ≡ some r
  unfolding request_cancel
  request_cancel-final now i = elim (Option-cases (get i jobs)) [
    | inl e ↦ rw (e, request_cancel) g
    | inr (c, e) ↦
        let (asked, named) = get-eq-some i c jobs e in
        rw (e, request_cancel)
          (elim (other-has_id c r jobs v.0 asked there) [
            | inl same ↦
                get-update (has_id i) (cancel c.state now) id r jobs (cancel-Keeps now c.state) g
                ∙ ap some (
                    kept (has_id i r) (cancel c.state now r) r
                      (ap (λ q. cancel q.state now r) (sym same) ∙ cancel-terminal now r r.state t))
            | inr apart ↦
                missed _ _ id r jobs (cancel-Keeps now c.state) g
                  (subst (λ j. has_id j r ≡ false) named apart)
          ])
  ]

  fail-final :
      (random : ℕ → ℕ) (now : ℕ) (i owner error : Text)
      → get id (fail random i owner error now jobs).1 ≡ some r
  unfolding fail failure
  fail-final random now i owner error = elim (Option-cases (get i jobs)) [
    | inl e ↦ rw (e, fail) g
    | inr (c, e) ↦ rw (e, fail) (missed _ _ id r jobs (λ q. refl) g (unleased i owner))
  ]

-- A job that has succeeded, failed or been cancelled stays in the table just as it is, whatever
-- any worker, with any lease, or any client does.
pub Step-final :
    {jobs after : Jobs} (id : Text) (r : JobRow)
    → Step jobs after
    → IsValid jobs
    → get id jobs ≡ some r
    → is_terminal r.state ≡ true
    → get id after ≡ some r
unfolding heartbeat checkpoint succeed fail_permanently release give_back mark_cancelled
    sweep_exhausted
Step-final {jobs} id r (enqueues now i req row after e) v g t =
    enqueue-final id r jobs v g t now i req row after e
Step-final {jobs} id r (claims ttl now owner) v g t = claim-final id r jobs v g t ttl now owner
Step-final {jobs} id r (beats ttl now i owner) v g t =
    missed _ _ id r jobs (λ q. refl) g (rw (unleased id r jobs v g t i owner))
Step-final {jobs} id r (checkpoints now i owner progress) v g t =
    missed _ _ id r jobs (λ q. refl) g (unleased id r jobs v g t i owner)
Step-final {jobs} id r (succeeds now i owner progress) v g t =
    missed _ _ id r jobs (λ q. with_progress-Keeps progress _) g (unleased id r jobs v g t i owner)
Step-final {jobs} id r (fails random now i owner error) v g t =
    fail-final id r jobs v g t random now i owner error
Step-final {jobs} id r (fails_permanently now i owner error) v g t =
    missed _ _ id r jobs (λ q. refl) g (unleased id r jobs v g t i owner)
Step-final {jobs} id r (releases now i owner) v g t =
    missed _ _ id r jobs (λ q. refl) g (rw (unleased id r jobs v g t i owner))
Step-final {jobs} id r (marks_cancelled now i owner) v g t =
    missed _ _ id r jobs (λ q. refl) g (unleased id r jobs v g t i owner)
Step-final {jobs} id r (requests_cancel now i) v g t = request_cancel-final id r jobs v g t now i
Step-final {jobs} id r (sweeps now) v g t =
    missed _ _ id r jobs (λ q. refl) g (terminal-idle now r r.state refl t).1

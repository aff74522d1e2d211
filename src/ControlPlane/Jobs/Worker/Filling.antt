-- ===== src/ControlPlane/Jobs/Worker/Filling.antt =====
-- apps/control-plane/src/jobs/worker.ts: what a tick starts.
use just_postgres.Shared.{
  ℕ, zero, suc, ◌≤◌, ◌<◌, ◌≡◌, refl, sym, ap, ◌∙◌, Bool, true, false, Option, none, some, [], ◌∷◌,
  arith, length, max, All, Bool-cases, Option-cases, inl, inr, ◌⊎◌, subst,
}
use just_postgres.Router.Text.{Text, ◌===◌, ===_refl, lookup, length-insert}
use just_postgres.ControlPlane.Jobs.Rows.{JobRow, Jobs, select, update}
use just_postgres.ControlPlane.Jobs.Queue.{
  is_runnable, first, lease, claim, fail_permanently, sweep_exhausted,
}
use just_postgres.ControlPlane.Jobs.Tables.{IsIn}
use just_postgres.ControlPlane.Jobs.Soundness.{candidate}
use just_postgres.ControlPlane.Jobs.Order.{claim-none}
use just_postgres.ControlPlane.Jobs.Worker.{
  WorkerConfig, JobWorker, refusal, with_controller, has_room, execute, start_claimed, fill, tick,
}

abbrev count : (JobRow → Bool) → Jobs → ℕ
count t jobs = length (select t jobs)

count-update :
    (t u : JobRow → Bool) (f : JobRow → JobRow) (rs : Jobs)
    → ((r : JobRow) → t (f r) ≡ true → t r ≡ true)
    → count t (update u f rs) ≤ count t rs
unfolding select update
count-update t u f [] h = omega arith
count-update t u f (r ∷ rs) h = ground (arith, count-update t u f rs h, h r)

count-update_less :
    (t u : JobRow → Bool) (f : JobRow → JobRow) (c : JobRow) (rs : Jobs)
    → ((r : JobRow) → t (f r) ≡ false)
    → IsIn c rs
    → t c ≡ true
    → u c ≡ true
    → count t (update u f rs) < count t rs
unfolding select update
count-update_less t u f c [] h i k l = elim i [ ]
count-update_less t u f c (r ∷ rs) h (inl e) k l =
    let here_t = ap t e ∙ k in
    let here_u = ap u e ∙ l in ground (arith, h r, count-update t u f rs (λ r e. cc (h r)))
count-update_less t u f c (r ∷ rs) h (inr i) k l =
    ground (arith, h r, count-update_less t u f c rs h i k l)

count-zero : (t : JobRow → Bool) (rs : Jobs) → count t rs ≤ 0 → All (λ r. t r ≡ false) rs
unfolding select
count-zero t [] h = tt
count-zero t (r ∷ rs) h = elim (Bool-cases (t r)) [
  | inl e ↦ elim (rw e at h) [ ]
  | inr e ↦ (e, count-zero t rs (rw e at h))
]

not_again :
    (ttl now : ℕ) (owner : Text) (r : JobRow) → is_runnable now (lease ttl owner now r) ≡ false
unfolding is_runnable lease
not_again ttl now owner r = ground arith

claim_less :
    (ttl now : ℕ) (owner : Text) (jobs : Jobs) (job : JobRow) (after : Jobs)
    → claim ttl owner now jobs ≡ (some job, after)
    → count (is_runnable now) after < count (is_runnable now) jobs
unfolding claim
claim_less ttl now owner jobs job after h =
    elim (Option-cases (first (select (is_runnable now) jobs))) [
      | inl e ↦ cc (rw (e, claim) at h)
      | inr (c, e) ↦
          let (there, runs) = candidate now c jobs e in
          let same : update (λ r. r.id === c.id) (lease ttl owner now) jobs ≡ after =
            cc (rw (e, claim) at h) in
          subst (λ rs. count (is_runnable now) rs < count (is_runnable now) jobs) same
            (count-update_less (is_runnable now) (λ r. r.id === c.id) (lease ttl owner now) c jobs
              (λ r. not_again ttl now owner r) there runs (===_refl c.id))
    ]

count_le : (t : JobRow → Bool) (rs : Jobs) → count t rs ≤ length rs
unfolding select
count_le t [] = omega arith
count_le t (r ∷ rs) = ground (arith, count_le t rs)

length-update :
    (t : JobRow → Bool) (f : JobRow → JobRow) (rs : Jobs) → length (update t f rs) ≡ length rs
unfolding update
length-update t f [] = refl
length-update t f (r ∷ rs) = omega (arith, length-update t f rs)

length-swept : (now : ℕ) (jobs : Jobs) → length (sweep_exhausted now jobs).1 ≡ length jobs
unfolding sweep_exhausted
length-swept now jobs = length-update _ _ jobs

max-right : (a b : ℕ) → b ≤ max a b
max-right a b = ground arith

module _ (config : WorkerConfig) (now : ℕ) where
  -- What the loop leaves: no more than it may start, and no reason to start another.
  abbrev IsFilled : JobWorker → JobWorker × Jobs → Type 0
  IsFilled w (after, jobs) =
      (length after.in_flight ≤ max config.concurrency (length w.in_flight))
      × ((w.stopping ≡ true)
          ⊎ ((config.concurrency ≤ length after.in_flight)
              ⊎ All (λ r. is_runnable now r ≡ false) jobs))

  execute-count :
      (job : JobRow) (w : JobWorker) (jobs : Jobs)
      → count (is_runnable now) (execute config now job w jobs).1 ≤ count (is_runnable now) jobs
  unfolding execute fail_permanently is_runnable
  execute-count job w jobs = elim (Option-cases (refusal job (lookup job.type config.registry))) [
    | inl e ↦ rw (e, execute) (omega arith)
    | inr (message, e) ↦
        rw (e, execute) (count-update (is_runnable now) _ _ jobs (λ r k. ground arith))
  ]

  execute-worker :
      (job : JobRow) (w : JobWorker) (jobs : Jobs)
      → (execute config now job w jobs).0 ≡ with_controller job.id w
  unfolding execute
  execute-worker job w jobs = elim (Option-cases (refusal job (lookup job.type config.registry))) [
    | inl e ↦ rw (e, execute)
    | inr (message, e) ↦ rw (e, execute)
  ]

  start_claimed-IsFilled :
      (fuel : ℕ) (w : JobWorker) (jobs : Jobs) (p : Option JobRow × Jobs)
      → claim config.lease_ttl_ms config.instance_id now jobs ≡ p
      → has_room config now w ≡ true
      → count (is_runnable now) jobs ≤ suc fuel
      → ((v : JobWorker) (rs : Jobs)
          → count (is_runnable now) rs ≤ fuel
          → IsFilled v (fill config now fuel v rs))
      → IsFilled w (start_claimed config now (fill config now fuel) w p)
  start_claimed-IsFilled fuel w jobs (none, after) e room h ih =
      let (same, idle) =
        claim-none config.lease_ttl_ms now config.instance_id jobs (ap (λ t. t.0) e) in
      (
        max-right config.concurrency (length w.in_flight),
        inr (
            inr (
              subst (λ rs. All (λ r. is_runnable now r ≡ false) rs) (sym same ∙ ap (λ t. t.1) e)
                idle)),
      )
  start_claimed-IsFilled fuel w jobs (some job, after) e room h ih =
      let less = claim_less config.lease_ttl_ms now config.instance_id jobs job after e in
      let s = execute config now job w after in
      let (bound, why) = ih s.0 s.1 (omega (arith, execute-count job w after)) in
      let size = ap (λ v. length v.in_flight) (execute-worker job w after) in
      let going = ap (λ v. v.stopping) (execute-worker job w after) in
      let one = length-insert job.id w.controllers w.in_flight in
      (
        ground (arith, bound, size, one, room),
        elim why [ inl stop ↦ inl (sym going ∙ stop) | inr rest ↦ inr rest ],
      )

  fill-IsFilled :
      (fuel : ℕ) (w : JobWorker) (jobs : Jobs)
      → count (is_runnable now) jobs ≤ fuel
      → IsFilled w (fill config now fuel w jobs)
  unfolding fill
  fill-IsFilled zero w jobs h = (
    max-right config.concurrency (length w.in_flight),
    inr (inr (count-zero (is_runnable now) jobs h)),
  )
  fill-IsFilled (suc fuel) w jobs h = elim (Bool-cases (has_room config now w)) [
    | inl e ↦
        rw (e, fill)
          (start_claimed-IsFilled fuel w jobs
            (claim config.lease_ttl_ms config.instance_id now jobs) refl e h (fill-IsFilled fuel))
    | inr e ↦ rw (e, fill) (max-right config.concurrency (length w.in_flight), ground (arith, e))
  ]

  tick_going :
      (w : JobWorker) (jobs : Jobs)
      → w.stopping ≡ false
      → tick config now w jobs
        ≡ fill config now
            (length jobs)
            (record w { last_tick_at = some now })
            (sweep_exhausted now jobs).1
  unfolding tick
  tick_going w jobs h = simp h

  -- A tick starts jobs only up to the configured number in flight, and as long as it can: a worker
  -- that does not stop is behind a tick either at that number, or no job of the table is runnable.
  pub tick_fills :
      (w : JobWorker) (jobs : Jobs)
      → w.stopping ≡ false
      → (length (tick config now w jobs).0.in_flight ≤ max config.concurrency (length w.in_flight))
        × ((config.concurrency ≤ length (tick config now w jobs).0.in_flight)
            ⊎ All (λ r. is_runnable now r ≡ false) (tick config now w jobs).1)
  tick_fills w jobs h =
      let swept = (sweep_exhausted now jobs).1 in
      let (bound, why) =
        fill-IsFilled (length jobs) (record w { last_tick_at = some now }) swept
          (omega (arith, count_le (is_runnable now) swept, length-swept now jobs)) in
      let size = ap (λ t. length t.0.in_flight) (tick_going w jobs h) in
      let whole = tick_going w jobs h in
      (
        omega (arith, bound, size),
        elim why [
          | inl stop ↦ cc (h, stop)
          | inr (inl full) ↦ inl (omega (arith, full, size))
          | inr (inr idle) ↦
              inr (subst (λ t. All (λ r. is_runnable now r ≡ false) t.1) (sym whole) idle)
        ],
      )

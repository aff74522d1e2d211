-- ===== src/ControlPlane/Jobs/Claims.antt =====
-- apps/control-plane/src/jobs/queue.ts: a lease is exclusive while it lasts.
use just_postgres.Shared.{
  ℕ, ◌+◌, ◌≤◌, ◌≡◌, ◌≢◌, refl, sym, ap, ◌∙◌, false, none, some, arith, inl, inr, Option-cases,
}
use just_postgres.Router.Text.{Text, ===_refl}
use just_postgres.ControlPlane.Jobs.Rows.{
  JobRow, queued, Jobs, get, select, is_running_lease, has_id,
}
use just_postgres.ControlPlane.Jobs.Queue.{is_runnable, first, lease, claim, give_back, release}
use just_postgres.ControlPlane.Jobs.Tables.{IsIn-IsOnly, get-IsIn, get-update}
use just_postgres.ControlPlane.Jobs.Soundness.{IsValid, candidate}
use just_postgres.ControlPlane.Jobs.Steps.{claims}
use just_postgres.ControlPlane.Jobs.Invariant.{Step-IsValid}
use just_postgres.ControlPlane.Jobs.Order.{claim-best}

-- The row of a job that was claimed.
pub claimed :
    (ttl now : ℕ) (owner : Text) (jobs : Jobs) (job : JobRow)
    → IsValid jobs
    → (claim ttl owner now jobs).0 ≡ some job
    → (c : JobRow) × (job ≡ lease ttl owner now c)
      × (get c.id jobs ≡ some c)
      × (get c.id (claim ttl owner now jobs).1 ≡ some (lease ttl owner now c))
unfolding claim lease
claimed ttl now owner jobs job v h = elim (Option-cases (first (select (is_runnable now) jobs))) [
  | inl e ↦ cc (rw (e, claim) at h)
  | inr (c, e) ↦
      let (there, runs) = candidate now c jobs e in
      let found = get-IsIn c jobs (IsIn-IsOnly c jobs v.0 there) there in
      (
        c,
        cc (rw (e, claim) at h),
        found,
        rw (e, claim)
            (get-update (has_id c.id) (lease ttl owner now) c.id c jobs (λ q. refl) found
              ∙ rw (===_refl c.id)),
      )
]

lease_lasts :
    (ttl now : ℕ) (owner : Text) (later : ℕ) (c : JobRow)
    → later ≤ now + ttl
    → is_runnable later (lease ttl owner now c) ≡ false
unfolding is_runnable lease
lease_lasts ttl now owner later c h = ground arith

-- On the table that a claim leaves, no further claim, by any worker, takes the same job until the
-- lease has expired.
pub claim_exclusive :
    (ttl now : ℕ) (owner : Text) (jobs : Jobs) (job : JobRow)
    → IsValid jobs
    → (claim ttl owner now jobs).0 ≡ some job
    → (ttl' later : ℕ) (owner' : Text) (other : JobRow) → later ≤ now + ttl
    → (claim ttl' owner' later (claim ttl owner now jobs).1).0 ≡ some other
    → other.id ≢ job.id
unfolding lease
claim_exclusive ttl now owner jobs job v h ttl' later owner' other l k = λ same.
    let after = (claim ttl owner now jobs).1 in
    let (c, it, found, held) = claimed ttl now owner jobs job v h in
    let (d, that, there, runs, best) = claim-best ttl' later owner' after other k in
    let v' = Step-IsValid {jobs = jobs} (claims ttl now owner) v in
    let got = get-IsIn d after (IsIn-IsOnly d after v'.0 there) there in
    let ids : d.id ≡ c.id = cc (same, ap (λ q. q.id) it, ap (λ q. q.id) that) in
    let row : some d ≡ some (lease ttl owner now c) = sym got ∙ ap (λ i. get i after) ids ∙ held in
    let d_is : d ≡ lease ttl owner now c = cc row in
    cc (runs, lease_lasts ttl now owner later c l, ap (is_runnable later) d_is)

-- A worker that claims a job and hands it back leaves it in the queue without a lease, due at
-- once, and with as many attempts as before the claim.
pub claim-release :
    (ttl now later : ℕ) (owner : Text) (jobs : Jobs) (job before : JobRow)
    → IsValid jobs
    → (claim ttl owner now jobs).0 ≡ some job
    → get job.id jobs ≡ some before
    → (row : JobRow) × (get job.id (release job.id owner later (claim ttl owner now jobs).1)
        ≡ some row)
      × (row.attempts ≡ before.attempts)
      × (row.state ≡ queued)
      × (row.lease_owner ≡ none)
      × (row.run_at ≡ later)
unfolding release give_back lease
claim-release ttl now later owner jobs job before v h g =
    let (c, it, found, held) = claimed ttl now owner jobs job v h in
    let after = (claim ttl owner now jobs).1 in
    let ids : job.id ≡ c.id = ap (λ q. q.id) it in
    let was : before ≡ c = cc (g, found, ap (λ i. get i jobs) ids) in
    (
      give_back later (lease ttl owner now c),
      rw ids (
          get-update (is_running_lease c.id owner) (give_back later) c.id (lease ttl owner now c)
            after (λ q. refl) held
          ∙ rw (===_refl c.id, ===_refl owner)),
      ground (arith, ap (λ q. q.attempts) was),
      refl,
      refl,
      refl,
    )

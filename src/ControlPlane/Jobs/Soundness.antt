-- ===== src/ControlPlane/Jobs/Soundness.antt =====
-- apps/control-plane/src/jobs/queue.ts: what holds of every row of the table.
use just_postgres.Shared.{
  ℕ, ◌≤◌, ◌<◌, ◌≡◌, ◌≢◌, refl, sym, ap, Bool, true, Option, none, some, [], ◌∷◌, ◌++◌, arith, All,
  inl, inr, Bool-cases, Option-cases, subst, leb, is_some,
}
use just_postgres.Router.Text.{Text, ◌===◌, ===_refl}
use just_postgres.ControlPlane.Jobs.Rows.{
  JobState, queued, running, succeeded, failed, cancelled, JobRow, Jobs, is_state, update, select,
  get, is_leased, has_id,
}
use just_postgres.ControlPlane.Jobs.Queue.{
  is_runnable, is_ahead, first, lease, extend, finish, with_progress, failure, give_back, cancel,
}
use just_postgres.ControlPlane.Jobs.Tables.{
  AreDistinct, IsIn, IsOnly, Keeps, All-update, All-always, AreDistinct-update, IsIn-IsOnly,
  IsIn-select,
}

-- The lease and the end of a row in each state.
abbrev pub IsPhase : JobState → JobRow → Type 0
IsPhase queued r = (r.lease_owner ≡ none) × (r.lease_expires_at ≡ none) × (r.finished_at ≡ none)
IsPhase running r =
    (is_some r.lease_owner ≡ true)
    × (is_some r.lease_expires_at ≡ true)
    × (r.finished_at ≡ none)
    × (0 < r.attempts)
IsPhase succeeded r =
    (r.lease_owner ≡ none) × (r.lease_expires_at ≡ none) × (is_some r.finished_at ≡ true)
IsPhase failed r =
    (r.lease_owner ≡ none) × (r.lease_expires_at ≡ none) × (is_some r.finished_at ≡ true)
IsPhase cancelled r =
    (r.lease_owner ≡ none) × (r.lease_expires_at ≡ none) × (is_some r.finished_at ≡ true)

abbrev pub IsSound : JobRow → Type 0
IsSound r = (r.attempts ≤ r.max_attempts) × IsPhase r.state r

pub leased-running :
    (id owner : Text) (r : JobRow) (s : JobState)
    → r.state ≡ s
    → IsPhase s r
    → is_leased id owner r ≡ true
    → r.state ≡ running
leased-running id owner r queued e h k = ground arith
leased-running id owner r running e h k = e
leased-running id owner r succeeded e h k = ground arith
leased-running id owner r failed e h k = ground arith
leased-running id owner r cancelled e h k = ground arith

pub lease-IsSound :
    (ttl now : ℕ) (owner : Text) (r : JobRow) (s : JobState)
    → r.state ≡ s
    → IsSound r
    → is_runnable now r ≡ true
    → IsSound (lease ttl owner now r)
unfolding lease is_runnable
lease-IsSound ttl now owner r queued e h k = ground arith
lease-IsSound ttl now owner r running e h k = ground arith
lease-IsSound ttl now owner r succeeded e h k = ground arith
lease-IsSound ttl now owner r failed e h k = ground arith
lease-IsSound ttl now owner r cancelled e h k = ground arith

pub finish-IsSound :
    (now : ℕ) (r : JobRow)
    → IsSound r
    → IsSound (finish succeeded now r)
      × IsSound (finish failed now r)
      × IsSound (finish cancelled now r)
finish-IsSound now r h =
    ((h.0, (refl, refl, refl)), (h.0, (refl, refl, refl)), (h.0, (refl, refl, refl)))

pub extend-IsSound :
    (ttl now : ℕ) (r : JobRow) (s : JobState)
    → r.state ≡ s
    → is_state r.state running ≡ true
    → IsSound r
    → IsSound (extend ttl now r)
extend-IsSound ttl now r queued e k h = ground arith
extend-IsSound ttl now r running e k h = ground arith
extend-IsSound ttl now r succeeded e k h = ground arith
extend-IsSound ttl now r failed e k h = ground arith
extend-IsSound ttl now r cancelled e k h = ground arith

pub give_back-IsSound :
    (now : ℕ) (r : JobRow) (s : JobState)
    → r.state ≡ s
    → is_state r.state running ≡ true
    → IsSound r
    → IsSound (give_back now r)
unfolding give_back
give_back-IsSound now r queued e k h = ground arith
give_back-IsSound now r running e k h = ground arith
give_back-IsSound now r succeeded e k h = ground arith
give_back-IsSound now r failed e k h = ground arith
give_back-IsSound now r cancelled e k h = ground arith

pub failure-IsSound :
    (random : ℕ → ℕ) (c : JobRow) (error : Text) (now : ℕ) (r : JobRow)
    → IsSound r
    → IsSound (failure random c error now r)
unfolding failure
failure-IsSound random c error now r h = elim (Bool-cases (leb c.max_attempts c.attempts)) [
  | inl e ↦ rw e (h.0, (refl, refl, refl))
  | inr e ↦ rw e (h.0, (refl, refl, refl))
]

pub cancel-IsSound :
    (now : ℕ) (r : JobRow) (s : JobState) → r.state ≡ s → IsSound r → IsSound (cancel s now r)
unfolding cancel
cancel-IsSound now r queued e h = ground arith
cancel-IsSound now r running e h = ground arith
cancel-IsSound now r succeeded e h = h
cancel-IsSound now r failed e h = h
cancel-IsSound now r cancelled e h = h

pub cancel-Keeps : (now : ℕ) (s : JobState) → Keeps (cancel s now)
unfolding cancel
cancel-Keeps now queued r = refl
cancel-Keeps now running r = refl
cancel-Keeps now succeeded r = refl
cancel-Keeps now failed r = refl
cancel-Keeps now cancelled r = refl

pub with_progress-Keeps : (progress : Option Text) → Keeps (with_progress progress)
with_progress-Keeps none r = refl
with_progress-Keeps (some p) r = refl

pub success-IsSound :
    (progress : Option Text) (now : ℕ) (r : JobRow)
    → IsSound r
    → IsSound (with_progress progress (record (finish succeeded now r) { last_error = none }))
success-IsSound none now r h = (h.0, (refl, refl, refl))
success-IsSound (some p) now r h = (h.0, (refl, refl, refl))

pub note-IsSound :
    (progress : Text) (now : ℕ) (r : JobRow) (s : JobState)
    → r.state ≡ s
    → IsSound r
    → IsSound (record r { progress = some progress; updated_at = now })
note-IsSound progress now r queued e h = ground arith
note-IsSound progress now r running e h = ground arith
note-IsSound progress now r succeeded e h = ground arith
note-IsSound progress now r failed e h = ground arith
note-IsSound progress now r cancelled e h = ground arith

-- Every id once, and every row sound.
abbrev pub IsValid : Jobs → Type 0
IsValid jobs = AreDistinct jobs × All IsSound jobs

pub update-IsValid :
    (t : JobRow → Bool) (f : JobRow → JobRow) (jobs : Jobs)
    → Keeps f
    → ((r : JobRow) → IsSound r → t r ≡ true → IsSound (f r))
    → IsValid jobs
    → IsValid (update t f jobs)
update-IsValid t f jobs k h v = (
  AreDistinct-update t f jobs k v.0,
  All-update IsSound t f jobs (All-always (λ r. IsSound r → t r ≡ true → IsSound (f r)) h jobs) v.1,
)

only-holds {ℓ} :
    (P : JobRow → Type ℓ) (f : JobRow → JobRow) (c : JobRow) (jobs : Jobs)
    → P (f c)
    → IsOnly c jobs
    → All (λ r. P r → has_id c.id r ≡ true → P (f r)) jobs
only-holds P f c [] h o = tt
only-holds P f c (r ∷ rs) h o =
    ((λ p e. subst (λ q. P (f q)) (sym (o.0 e)) h), only-holds P f c rs h o.1)

-- An update of the row with an id, from a row with that id that the transaction read.
pub update_only-IsValid :
    (f : JobRow → JobRow) (c : JobRow) (jobs : Jobs)
    → Keeps f
    → IsSound (f c)
    → IsIn c jobs
    → IsValid jobs
    → IsValid (update (has_id c.id) f jobs)
update_only-IsValid f c jobs k h i v = (
  AreDistinct-update (has_id c.id) f jobs k v.0,
  All-update IsSound (has_id c.id) f jobs (only-holds IsSound f c jobs h (IsIn-IsOnly c jobs v.0 i))
      v.1,
)

pub first-IsIn : (c : JobRow) (jobs : Jobs) → first jobs ≡ some c → IsIn c jobs
unfolding first
first-IsIn c [] h = cc
first-IsIn c (r ∷ rs) h = elim (Option-cases (first rs)) [
  | inl e ↦ inl (cc (rw e at h))
  | inr (b, e) ↦
      let h' = rw e at h in
      elim (Bool-cases (is_ahead b r)) [
        | inl a ↦ inr (first-IsIn c rs (cc (e, rw a at h')))
        | inr a ↦ inl (cc (rw a at h'))
      ]
]

-- The job that a claim takes stands in the table and is runnable.
pub candidate :
    (now : ℕ) (c : JobRow) (jobs : Jobs)
    → first (select (is_runnable now) jobs) ≡ some c
    → IsIn c jobs × (is_runnable now c ≡ true)
candidate now c jobs e = IsIn-select (is_runnable now) c jobs (first-IsIn c _ e)

pub absent : (id : Text) (jobs : Jobs) → get id jobs ≡ none → All (λ r. r.id ≢ id) jobs
unfolding get
absent id [] h = tt
absent id (r ∷ rs) h = elim (Bool-cases (r.id === id)) [
  | inl e ↦ cc (rw e at h)
  | inr e ↦ ((λ same. cc (e, ap (λ i. i === id) same, ===_refl id)), absent id rs (rw e at h))
]

apart :
    (r c : JobRow) (rs : Jobs)
    → c.id ≢ r.id
    → All (λ s. s.id ≢ r.id) rs
    → All (λ s. s.id ≢ r.id) (rs ++ c ∷ [])
apart r c [] n h = (n, tt)
apart r c (s ∷ rs) n h = (h.0, apart r c rs n h.1)

pub append-IsValid :
    (c : JobRow) (jobs : Jobs)
    → All (λ r. r.id ≢ c.id) jobs
    → IsSound c
    → IsValid jobs
    → IsValid (jobs ++ c ∷ [])
append-IsValid c [] n h v = ((tt, tt), (h, tt))
append-IsValid c (r ∷ rs) n h v =
    let (d, s) = append-IsValid c rs n.1 h (v.0.1, v.1.1) in
    ((apart r c rs (λ e. n.0 (sym e)) v.0.0, d), (v.1.0, s))

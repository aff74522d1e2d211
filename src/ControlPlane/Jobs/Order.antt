-- ===== src/ControlPlane/Jobs/Order.antt =====
-- apps/control-plane/src/jobs/queue.ts: which job a claim takes.
use just_postgres.Shared.{
  ℕ, ◌≡◌, refl, sym, Bool, true, false, none, some, [], ◌∷◌, arith, All, inl, inr, Bool-cases,
  Option-cases, subst, ltb, ◌&&◌, ◌||◌,
}
use just_postgres.Shared.Int.{ℤ, pos, negsuc, ltbℤ, ◌==ℤ◌}
use just_postgres.Router.Text.{Text}
use just_postgres.ControlPlane.Jobs.Rows.{JobRow, Jobs, select}
use just_postgres.ControlPlane.Jobs.Queue.{is_runnable, is_ahead, first, lease, claim}
use just_postgres.ControlPlane.Jobs.Tables.{IsIn}
use just_postgres.ControlPlane.Jobs.Soundness.{candidate}

ahead_transitive :
    (p q s : ℤ) (a b c : ℕ)
    → (ltbℤ q p || ((p ==ℤ q) && ltb a b)) ≡ false
    → (ltbℤ s q || ((q ==ℤ s) && ltb b c)) ≡ false
    → (ltbℤ s p || ((p ==ℤ s) && ltb a c)) ≡ false
ahead_transitive (pos p) (pos q) (pos s) a b c h k = ground arith
ahead_transitive (pos p) (pos q) (negsuc s) a b c h k = ground arith
ahead_transitive (pos p) (negsuc q) (pos s) a b c h k = ground arith
ahead_transitive (pos p) (negsuc q) (negsuc s) a b c h k = ground arith
ahead_transitive (negsuc p) (pos q) (pos s) a b c h k = ground arith
ahead_transitive (negsuc p) (pos q) (negsuc s) a b c h k = ground arith
ahead_transitive (negsuc p) (negsuc q) (pos s) a b c h k = ground arith
ahead_transitive (negsuc p) (negsuc q) (negsuc s) a b c h k = ground arith

ahead_asymmetric :
    (p q : ℤ) (a b : ℕ)
    → (ltbℤ q p || ((p ==ℤ q) && ltb a b)) ≡ true
    → (ltbℤ p q || ((q ==ℤ p) && ltb b a)) ≡ false
ahead_asymmetric (pos p) (pos q) a b h = ground arith
ahead_asymmetric (pos p) (negsuc q) a b h = ground arith
ahead_asymmetric (negsuc p) (pos q) a b h = ground arith
ahead_asymmetric (negsuc p) (negsuc q) a b h = ground arith

ahead_irreflexive : (p : ℤ) (a : ℕ) → (ltbℤ p p || ((p ==ℤ p) && ltb a a)) ≡ false
ahead_irreflexive (pos p) a = ground arith
ahead_irreflexive (negsuc p) a = ground arith

not_ahead :
    (b r : JobRow) (rs : Jobs)
    → is_ahead b r ≡ false
    → All (λ q. is_ahead q b ≡ false) rs
    → All (λ q. is_ahead q r ≡ false) rs
not_ahead b r [] h k = tt
not_ahead b r (q ∷ rs) h k = (
  ahead_transitive q.priority b.priority r.priority q.run_at b.run_at r.run_at k.0 h,
  not_ahead b r rs h k.1,
)

first-none : (rs : Jobs) → first rs ≡ none → rs ≡ []
unfolding first
first-none [] h = refl
first-none (r ∷ rs) h = elim (Option-cases (first rs)) [
  | inl e ↦ cc (rw e at h)
  | inr (b, e) ↦ elim (Bool-cases (is_ahead b r)) [
    | inl a ↦ cc (rw (e, a) at h)
    | inr a ↦ cc (rw (e, a) at h)
  ]
]

none_best :
    (c r : JobRow) (rs : Jobs) → first rs ≡ none → r ≡ c → All (λ q. is_ahead q c ≡ false) (r ∷ rs)
none_best c r rs e same =
    subst (λ x. All (λ q. is_ahead q x ≡ false) (r ∷ rs)) same
      (
        ahead_irreflexive r.priority r.run_at,
        subst (All (λ q. is_ahead q r ≡ false)) (sym (first-none rs e)) tt,
      )

-- No row stands ahead of the one that the query gives.
first-best : (c : JobRow) (rs : Jobs) → first rs ≡ some c → All (λ q. is_ahead q c ≡ false) rs
unfolding first
first-best c [] h = cc
first-best c (r ∷ rs) h = elim (Option-cases (first rs)) [
  | inl e ↦ none_best c r rs e (cc (rw e at h))
  | inr (b, e) ↦
      let best = first-best b rs e in
      let h' = rw e at h in
      elim (Bool-cases (is_ahead b r)) [
        | inl a ↦
            let same : b ≡ c = cc (rw a at h') in
            subst (λ x. All (λ q. is_ahead q x ≡ false) (r ∷ rs)) same
              (ahead_asymmetric b.priority r.priority b.run_at r.run_at a, best)
        | inr a ↦
            let same : r ≡ c = cc (rw a at h') in
            subst (λ x. All (λ q. is_ahead q x ≡ false) (r ∷ rs)) same
              (ahead_irreflexive r.priority r.run_at, not_ahead b r rs a best)
      ]
]

select-All :
    (t u : JobRow → Bool) (rs : Jobs)
    → All (λ q. u q ≡ false) (select t rs)
    → All (λ q. (t q && u q) ≡ false) rs
unfolding select
select-All t u [] h = tt
select-All t u (r ∷ rs) h = elim (Bool-cases (t r)) [
  | inl e ↦ let (p, ps) = rw e at h in (rw e p, select-All t u rs ps)
  | inr e ↦ (rw e, select-All t u rs (rw e at h))
]

none_select : (t : JobRow → Bool) (rs : Jobs) → select t rs ≡ [] → All (λ q. t q ≡ false) rs
unfolding select
none_select t [] h = tt
none_select t (r ∷ rs) h = elim (Bool-cases (t r)) [
  | inl e ↦ cc (rw e at h)
  | inr e ↦ (e, none_select t rs (rw e at h))
]

-- A claim that takes a job takes one of the table that has attempts left and is due or orphaned,
-- and no other such job has a higher priority, or the same priority and an earlier time; the job
-- then runs under the worker's lease with one attempt more.
pub claim-best :
    (ttl now : ℕ) (owner : Text) (jobs : Jobs) (job : JobRow)
    → (claim ttl owner now jobs).0 ≡ some job
    → (c : JobRow) × (job ≡ lease ttl owner now c)
      × IsIn c jobs
      × (is_runnable now c ≡ true)
      × All (λ q. (is_runnable now q && is_ahead q c) ≡ false) jobs
unfolding claim
claim-best ttl now owner jobs job h = elim (Option-cases (first (select (is_runnable now) jobs))) [
  | inl e ↦ cc (rw (e, claim) at h)
  | inr (c, e) ↦
      let (there, runs) = candidate now c jobs e in
      (
        c,
        cc (rw (e, claim) at h),
        there,
        runs,
        select-All (is_runnable now) (λ q. is_ahead q c) jobs (first-best c _ e),
      )
]

-- A claim that takes no job leaves the table, and no job of the table was runnable.
pub claim-none :
    (ttl now : ℕ) (owner : Text) (jobs : Jobs)
    → (claim ttl owner now jobs).0 ≡ none
    → ((claim ttl owner now jobs).1 ≡ jobs) × All (λ q. is_runnable now q ≡ false) jobs
unfolding claim
claim-none ttl now owner jobs h = elim (Option-cases (first (select (is_runnable now) jobs))) [
  | inr (c, e) ↦ cc (rw (e, claim) at h)
  | inl e ↦ (rw (e, claim), none_select (is_runnable now) jobs (first-none _ e))
]

-- ===== src/ControlPlane/Jobs/Recovery.antt =====
-- apps/control-plane/src/jobs/queue.ts: no job of a dead worker is stuck.
use just_postgres.Shared.{
  ℕ, ◌≡◌, ◌∙◌, Bool, false, not, [], ◌∷◌, arith, All, inl, inr, Bool-cases, ◌&&◌,
}
use just_postgres.ControlPlane.Jobs.Rows.{JobRow, running, Jobs, update, is_state, is_before}
use just_postgres.ControlPlane.Jobs.Queue.{is_runnable, sweep_exhausted, is_exhausted}

-- A running job whose lease has expired, which no claim would take.
abbrev pub is_stuck : ℕ → JobRow → Bool
is_stuck now r =
    is_state r.state running && (is_before now r.lease_expires_at && not (is_runnable now r))

stuck-exhausted : (now : ℕ) (r : JobRow) → is_stuck now r ≡ is_exhausted now r
unfolding is_runnable is_exhausted
stuck-exhausted now r = ground arith

-- After a sweep, every running job whose lease has expired by then is one that a claim can take:
-- the sweep has failed the others.
pub sweep_recovers :
    (now : ℕ) (jobs : Jobs) → All (λ r. is_stuck now r ≡ false) (sweep_exhausted now jobs).1
unfolding sweep_exhausted update
sweep_recovers now [] = tt
sweep_recovers now (r ∷ rs) = (
  elim (Bool-cases (is_exhausted now r)) [
    | inl e ↦ rw e
    | inr e ↦ rw e (stuck-exhausted now r ∙ e)
  ],
  sweep_recovers now rs,
)

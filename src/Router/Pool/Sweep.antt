-- ===== src/Router/Pool/Sweep.antt =====
-- apps/router/src/pool.ts, sweepIdle: what an eviction keeps, the sweep keeps.
use just_postgres.Shared.{ℕ, Bool, true, false, ◌||◌, List, [], ◌∷◌, ltb, if◌then◌else◌}
use just_postgres.Router.Pool.{ProjectPool, evict, sweep}

module _ {ℓ} (P : ProjectPool → Type ℓ)
    (keep : (c : ℕ) (q : ProjectPool) → P q → P (evict c q)) where
  either : (b : Bool) (c : ℕ) (q : ProjectPool) → P q → P (if b then evict c q else q)
  either true c q h = keep c q h
  either false c q h = h

  pub sweep_inv : (cutoff : ℕ) (cs : List ℕ) (p : ProjectPool) → P p → P (sweep cutoff cs p)
  unfolding sweep
  sweep_inv cutoff [] p h = h
  sweep_inv cutoff (c ∷ cs) p h =
      sweep_inv cutoff cs _
        (either (ltb (p.connections.last_used_at c) cutoff || p.connections.is_closed c) c p h)

-- ===== src/ControlPlane/Tests/Allocation.antt =====
-- apps/control-plane/src/projects/ports.ts with a range of three ports.
use just_postgres.Shared.{ℕ, ◌≡◌, Bool, [], ◌∷◌, ◌==◌, not, arith, refl, some}
use just_postgres.ControlPlane.Ports.{allocate_host_port, scan, is_taken}
use just_postgres.ControlPlane.Ports.Range.{IsRight, allocate_host_port-IsRight}

-- Something else on the host listens on 5002.
abbrev is_free : ℕ → Bool
is_free port = not (port == 5002)

allocate_host_port_run : allocate_host_port is_free (5000 ∷ []) 5000 5002 2 ≡ some 5001
unfolding allocate_host_port scan is_taken
allocate_host_port_run = refl

allocate_host_port-IsRight_example :
    IsRight is_free (5000 ∷ []) 5000 5002 (allocate_host_port is_free (5000 ∷ []) 5000 5002 2) 5001
allocate_host_port-IsRight_example =
    allocate_host_port-IsRight is_free (5000 ∷ []) 5000 5002 2 5001 (omega arith) (omega arith)

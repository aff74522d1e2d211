-- ===== src/ControlPlane/Ports.antt =====
-- apps/control-plane/src/projects/ports.ts, allocateHostPort. The ports that the database knows
-- are an argument, and so are the bind test and the offset, which is the random number's floor.
pub mod Range
use just_postgres.Shared.{
  ℕ, zero, suc, ◌+◌, ◌-◌, ◌%◌, ◌&&◌, ◌||◌, Bool, true, false, not, Option, none, some, List, [],
  ◌∷◌, ◌==◌, if◌then◌else◌,
}

-- `taken.has(port)`
unfoldable pub is_taken : ℕ → List ℕ → Bool
is_taken port [] = false
is_taken port (t ∷ ts) = (t == port) || is_taken port ts

-- The two checks of a round.
abbrev pub is_usable : (ℕ → Bool) → List ℕ → ℕ → Bool
is_usable is_free taken port = not (is_taken port taken) && is_free port

abbrev pub port_at : ℕ → ℕ → ℕ → ℕ → ℕ
port_at start span offset i = start + (offset + i) % span

-- The rounds of the loop from the i-th on, as many as are left.
unfoldable pub scan : (ℕ → Bool) → List ℕ → ℕ → ℕ → ℕ → ℕ → ℕ → Option ℕ
scan is_free taken start span offset zero i = none
scan is_free taken start span offset (suc left) i =
    let later = scan is_free taken start span offset left (suc i) in
    if is_usable is_free taken (port_at start span offset i)
    then some (port_at start span offset i)
    else later

-- `none` is NoPortsAvailableError.
unfoldable pub allocate_host_port : (ℕ → Bool) → List ℕ → ℕ → ℕ → ℕ → Option ℕ
allocate_host_port is_free taken start end offset =
    scan is_free taken start (end + 1 - start) offset (end + 1 - start) 0

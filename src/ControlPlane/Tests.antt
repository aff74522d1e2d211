-- ===== src/ControlPlane/Tests.antt =====
-- The theorems about apps/control-plane/src at concrete inputs.
mod Queue
mod Workers
mod Logins
mod Allocation
mod Scripts
mod Drift
mod Proxies
mod Ranges
mod Headroom
mod Addresses

-- ===== src/ControlPlane.antt =====
-- apps/control-plane/src, the control plane.
pub mod Strings
pub mod Auth
pub mod Jobs
pub mod Ports
pub mod Quoting
pub mod SqlText
pub mod Reconciler
pub mod ClientAddress
mod Tests
pub mod ProxyList
pub mod Disk
pub mod Naming

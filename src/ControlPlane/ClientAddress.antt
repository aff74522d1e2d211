-- ===== src/ControlPlane/ClientAddress.antt =====
-- apps/control-plane/src/auth/trusted-proxy.ts, resolveClientIp: the address that a request came
-- from. The trusted proxies are the interface TrustedProxies. A string is the list of its UTF-16
-- units; an absent header is `none`.
pub mod Forgery
use just_postgres.Shared.{
  ℕ, ◌&&◌, ◌||◌, Bool, true, false, not, Option, none, some, List, [], ◌∷◌, leb, ◌==◌,
  if◌then◌else◌, is_empty,
}
use just_postgres.Router.Text.{Text, split_comma}
use just_postgres.ControlPlane.Strings.{trim}

pub record TrustedProxies : Type 0 where
  pub empty : Bool
  pub contains : Text → Bool

-- `map(trim)` and `filter(Boolean)`.
unfoldable pub hops : List Text → List Text
hops [] = []
hops (w ∷ ws) = let later = hops ws in if is_empty (trim w) then later else trim w ∷ later

unfoldable pub chain : Text → List Text
chain header = hops ((split_comma header).0 ∷ (split_comma header).1)

-- The loop, from the right.
unfoldable pub last_untrusted : TrustedProxies → List Text → Option Text
last_untrusted trusted [] = none
last_untrusted trusted (h ∷ hs) = elim (last_untrusted trusted hs) [
  | some candidate ↦ some candidate
  | none ↦ if trusted.contains h then none else some h
]

-- `if (realIp) return realIp.trim(); return socketAddress`
unfoldable pub real_or_socket : Option Text → Text → Text
real_or_socket none socket = socket
real_or_socket (some real) socket = if is_empty real then socket else trim real

unfoldable pub from_chain : TrustedProxies → List Text → Option Text → Text → Text
from_chain trusted [] real socket = real_or_socket real socket
from_chain trusted (h ∷ hs) real socket = elim (last_untrusted trusted (h ∷ hs)) [
  | some candidate ↦ candidate
  | none ↦ h
]

unfoldable pub forwarded_client : TrustedProxies → Option Text → Option Text → Text → Text
forwarded_client trusted none real socket = real_or_socket real socket
forwarded_client trusted (some header) real socket =
    if is_empty header
    then real_or_socket real socket
    else from_chain trusted (chain header) real socket

unfoldable pub resolve_client_ip :
    TrustedProxies → Option Text → Option Text → Option Text → Option Text
resolve_client_ip trusted none forwarded real = none
resolve_client_ip trusted (some socket) forwarded real =
    if trusted.empty || (is_empty socket || not (trusted.contains socket))
    then some socket
    else some (forwarded_client trusted forwarded real socket)

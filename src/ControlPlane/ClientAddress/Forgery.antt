-- ===== src/ControlPlane/ClientAddress/Forgery.antt =====
-- apps/control-plane/src/auth/trusted-proxy.ts: what a client cannot forge.
use just_postgres.Shared.{
  ◌≡◌, refl, ap, ◌∙◌, true, false, Option, some, List, [], ◌∷◌, ◌++◌, ◌==◌, is_empty, arith,
  Bool-cases, inl, inr,
}
use just_postgres.Router.Text.{split_comma, Text}
use just_postgres.ControlPlane.Strings.{trim}
use just_postgres.ControlPlane.ClientAddress.{
  TrustedProxies, hops, chain, last_untrusted, from_chain, forwarded_client, resolve_client_ip,
}

split_comma-append :
    (a b : Text)
    → split_comma (a ++ b',' ∷ b)
      ≡ ((split_comma a).0, (split_comma a).1 ++ ((split_comma b).0 ∷ (split_comma b).1))
unfolding split_comma
split_comma-append [] b = refl
split_comma-append (c ∷ cs) b = elim (Bool-cases (c == b',')) [
  | inl e ↦ rw (e, split_comma-append cs b)
  | inr e ↦ rw (e, split_comma-append cs b)
]

hops-append : (xs ys : List Text) → hops (xs ++ ys) ≡ hops xs ++ hops ys
unfolding hops
hops-append [] ys = refl
hops-append (w ∷ ws) ys = elim (Bool-cases (is_empty (trim w))) [
  | inl e ↦ rw (e, hops-append ws ys)
  | inr e ↦ rw (e, hops-append ws ys)
]

chain-append : (a b : Text) → chain (a ++ b',' ∷ b) ≡ chain a ++ chain b
unfolding chain
chain-append a b =
    ap (λ p. hops (p.0 ∷ p.1)) (split_comma-append a b)
    ∙ hops-append ((split_comma a).0 ∷ (split_comma a).1) ((split_comma b).0 ∷ (split_comma b).1)

last_untrusted-append :
    (trusted : TrustedProxies) (xs ys : List Text) (ip : Text)
    → last_untrusted trusted ys ≡ some ip
    → last_untrusted trusted (xs ++ ys) ≡ some ip
unfolding last_untrusted
last_untrusted-append trusted [] ys ip h = h
last_untrusted-append trusted (x ∷ xs) ys ip h = rw (last_untrusted-append trusted xs ys ip h)

no_hops : (trusted : TrustedProxies) (ip : Text) → ¬ (last_untrusted trusted [] ≡ some ip)
unfolding last_untrusted
no_hops trusted ip h = cc

from_chain_untrusted :
    (trusted : TrustedProxies) (hs : List Text) (real : Option Text) (socket ip : Text)
    → last_untrusted trusted hs ≡ some ip
    → from_chain trusted hs real socket ≡ ip
unfolding from_chain
from_chain_untrusted trusted [] real socket ip h = elim (no_hops trusted ip h) [ ]
from_chain_untrusted trusted (x ∷ xs) real socket ip h = rw (h, from_chain)

joined_nonempty : (a b : Text) → is_empty (a ++ b',' ∷ b) ≡ false
joined_nonempty [] b = refl
joined_nonempty (c ∷ cs) b = refl

forwarded_client-append :
    (trusted : TrustedProxies) (socket forged header ip : Text) (real : Option Text)
    → last_untrusted trusted (chain header) ≡ some ip
    → forwarded_client trusted (some (forged ++ b',' ∷ header)) real socket ≡ ip
unfolding forwarded_client
forwarded_client-append trusted socket forged header ip real h =
    rw (joined_nonempty forged header, chain-append forged header)
      (from_chain_untrusted trusted (chain forged ++ chain header) real socket ip
        (last_untrusted-append trusted (chain forged) (chain header) ip h))

-- Behind a trusted proxy, a header whose right part, after a comma, names a hop that is no
-- trusted proxy gives the last such hop, whatever a client has put before that comma and whatever
-- X-Real-IP says.
pub resolve_client_ip-append :
    (trusted : TrustedProxies) (socket forged header ip : Text) (real : Option Text)
    → trusted.empty ≡ false
    → is_empty socket ≡ false
    → trusted.contains socket ≡ true
    → last_untrusted trusted (chain header) ≡ some ip
    → resolve_client_ip trusted (some socket) (some (forged ++ b',' ∷ header)) real ≡ some ip
unfolding resolve_client_ip
resolve_client_ip-append trusted socket forged header ip real e s t h =
    ground (arith, forwarded_client-append trusted socket forged header ip real h)

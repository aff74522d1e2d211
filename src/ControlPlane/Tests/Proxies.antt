-- ===== src/ControlPlane/Tests/Proxies.antt =====
-- apps/control-plane/src/auth/trusted-proxy.ts with one trusted proxy.
use just_postgres.Shared.{◌≡◌, refl, false, none, some, ◌∷◌, ◌++◌}
use just_postgres.Router.Text.{split_comma, text, ◌===◌}
use just_postgres.ControlPlane.ClientAddress.{
  TrustedProxies, hops, chain, last_untrusted, resolve_client_ip,
}
use just_postgres.ControlPlane.Strings.{trim_start, trim_end}
use just_postgres.ControlPlane.ClientAddress.Forgery.{resolve_client_ip-append}

abbrev proxies : TrustedProxies
proxies = record { empty = false; contains = λ ip. ip === text "10.0.0.1" }

resolve_client_ip-append_example :
    resolve_client_ip proxies
      (some (text "10.0.0.1"))
      (some (text "1.2.3.4" ++ b',' ∷ text "9.9.9.9, 10.0.0.1"))
      none
    ≡ some (text "9.9.9.9")
unfolding split_comma hops chain trim_start trim_end last_untrusted ◌===◌
resolve_client_ip-append_example =
    resolve_client_ip-append proxies (text "10.0.0.1") (text "1.2.3.4") (text "9.9.9.9, 10.0.0.1")
      (text "9.9.9.9") none refl refl refl refl

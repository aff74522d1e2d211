-- ===== src/ControlPlane/Tests/Ranges.antt =====
-- apps/control-plane/src/auth/trusted-proxy.ts, parseTrustedProxies, at two lists.
use just_postgres.Shared.{ℕ, ◌/◌, ◌^◌, ◌≡◌, ◌↔◌, refl, true, false, Option, some, [], ◌∷◌, arith}
use just_postgres.Shared.Word.{to_uint32, to_int32, bit_or, or_digits, shift_left}
use just_postgres.Router.Text.{Text, text, split_comma, starts_with}
use just_postgres.ControlPlane.Strings.{trim_start, trim_end}
use just_postgres.ControlPlane.ClientAddress.{TrustedProxies, hops, chain}
use just_postgres.ControlPlane.ProxyList.{
  split_on, all_digits, decimal, octet, octets, ipv4_to_int, strip_ipv4_mapped,
  parse_trusted_proxies,
}
use just_postgres.ControlPlane.ProxyList.Ranges.{
  quad, parse_trusted_proxies_slash, parse_cidr_exact,
}

-- `Number` of the texts that the examples have.
abbrev number : Text → Option ℕ
number [] = some 0
number (c ∷ cs) = some 8

abbrev same : Text → Text
same t = t

parse_trusted_proxies_slash_example :
    (trusted : TrustedProxies) × (parse_trusted_proxies same number (text "10.0.0.1/")
      ≡ some trusted)
    × (trusted.empty ≡ false)
    × ((ip : Text) (value : ℕ)
        → ipv4_to_int (strip_ipv4_mapped same ip) ≡ some value
        → trusted.contains ip ≡ true)
unfolding ipv4_to_int octets octet all_digits decimal split_on chain hops split_comma trim_start
    trim_end to_uint32 to_int32 bit_or or_digits shift_left
parse_trusted_proxies_slash_example =
    parse_trusted_proxies_slash same number (text "10.0.0.1") 167772161 refl refl
      (refl, (refl, (refl, (refl, (refl, (refl, (refl, (refl, tt)))))))) refl

-- `Number` of the suffix of the second list.
abbrev twelve : Text → Option ℕ
twelve t = some 12

parse_cidr_exact_example :
    (trusted : TrustedProxies) × (parse_trusted_proxies same twelve (text "172.16.0.0/12")
      ≡ some trusted)
    × ((trusted.contains (text "172.20.1.9") ≡ true)
        ↔ (quad 172 20 1 9 / 2 ^ 20 ≡ quad 172 16 0 0 / 2 ^ 20))
unfolding strip_ipv4_mapped octet all_digits decimal split_on chain hops split_comma trim_start
    trim_end starts_with
parse_cidr_exact_example =
    parse_cidr_exact same twelve (text "172.16.0.0/12") (text "172.16.0.0") (text "12")
      (text "172.20.1.9") 172 16 0 0 172 20 1 9 12 refl refl
      (text "172", text "16", text "0", text "0", refl, refl, refl, refl, refl) refl (omega arith)
      (text "172", text "20", text "1", text "9", refl, refl, refl, refl, refl)

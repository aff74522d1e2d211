-- ===== src/ControlPlane/ProxyList/Ranges.antt =====
-- apps/control-plane/src/auth/trusted-proxy.ts: which addresses a range of the list contains.
use native.Mathlib.Nat.{mul-div_cancel}
use just_postgres.Shared.{
  power_positive, ◌↔◌, ℕ, zero, suc, ◌+◌, ◌-◌, ◌*◌, ◌/◌, ◌%◌, ◌^◌, ◌≤◌, ◌<◌, ◌≡◌, refl, sym, ap,
  ◌∙◌, ◌||◌, Bool, true, false, Option, none, some, List, [], ◌∷◌, ◌++◌, is_empty, arith, ltb, ◌==◌,
  if◌then◌else◌, All, length,
}
use just_postgres.Shared.Int.{ℤ, pos, negsuc}
use just_postgres.Shared.Word.{
  to_uint32, to_int32, bit_and, bit_or, shift_left, and_digits-zero, and_digits-mask,
  to_uint32-to_int32, to_uint32-small, octet_in, ones_left, bit_and-words,
}
use just_postgres.Router.Text.{Text}
use just_postgres.ControlPlane.ClientAddress.{TrustedProxies, chain}
use just_postgres.ControlPlane.ProxyList.{
  Cidr, masked, mask_of, split_on, octet, octets, ipv4_to_int, cidr_of, parse_parts, parse_cidr,
  strip_ipv4_mapped, has, some_range, contains, parse_entries, parse_trusted_proxies,
}

abbrev pub Lacks : ℕ → Text → Type 0
Lacks sep t = All (λ c. (c == sep) ≡ false) t

split_on-end : (sep : ℕ) (t : Text) → Lacks sep t → split_on sep (t ++ sep ∷ []) ≡ t ∷ [] ∷ []
unfolding split_on
split_on-end sep [] h = ground arith
split_on-end sep (c ∷ cs) h = rw (h.0, split_on-end sep cs h.1)

masked-zero : (value : ℕ) → masked value 0 ≡ 0
unfolding bit_and to_uint32
masked-zero value =
    ap (λ w. to_uint32 (to_int32 w)) (and_digits-zero 32 (value % 4294967296))
    ∙ to_uint32-to_int32 0 (omega arith)

-- The list that is one address with a slash and nothing behind it is accepted, and every IPv4
-- address counts as a trusted proxy, since `Number("")` is 0.
pub parse_trusted_proxies_slash :
    (lower : Text → Text) (number : Text → Option ℕ) (addr : Text) (base : ℕ)
    → number [] ≡ some 0
    → ipv4_to_int addr ≡ some base
    → Lacks b'/' addr
    → chain (addr ++ b'/' ∷ []) ≡ (addr ++ b'/' ∷ []) ∷ []
    → (trusted : TrustedProxies) × (parse_trusted_proxies lower number (addr ++ b'/' ∷ [])
        ≡ some trusted)
      × (trusted.empty ≡ false)
      × ((ip : Text) (value : ℕ)
          → ipv4_to_int (strip_ipv4_mapped lower ip) ≡ some value
          → trusted.contains ip ≡ true)
unfolding parse_trusted_proxies parse_entries parse_cidr contains some_range has
parse_trusted_proxies_slash lower number addr base h k l one =
    let all : Cidr = record { base = 0; mask = 0 } in
    let parsed : parse_cidr number (addr ++ b'/' ∷ []) ≡ some all =
      ap (parse_parts number) (split_on-end b'/' addr l)
      ∙ ap (λ b. cidr_of b (number [])) k
      ∙ ap (cidr_of (some base)) h
      ∙ ap (λ b. some (record { base = b; mask = 0 })) (masked-zero base) in
    (
      record { empty = false; contains = contains lower (all ∷ []) [] },
      rw (one, parse_trusted_proxies, parse_entries, parsed)
          (ap (λ l. some (record { empty = is_empty l; contains = contains lower (all ∷ []) [] }))
            one),
      refl,
      λ ip value v. rw (v, masked-zero value),
    )

or_none : (b : Bool) → (b || false) ≡ true → b ≡ true
or_none true h = refl
or_none false h = h

none_or : (b : Bool) → b ≡ true → (b || false) ≡ true
none_or true h = refl
none_or false h = h

octet_bound : (part : Text) (n : ℕ) → octet part ≡ some n → n < 256
unfolding octet
octet_bound part n h = ground arith

-- A dotted quad of the numbers a, b, c and d.
abbrev pub IsQuad : Text → ℕ → ℕ → ℕ → ℕ → Type 0
IsQuad t a b c d =
    (p q r s : Text) × (split_on b'.' t ≡ p ∷ q ∷ r ∷ s ∷ [])
    × (octet p ≡ some a)
    × (octet q ≡ some b)
    × (octet r ≡ some c)
    × (octet s ≡ some d)

abbrev pub quad : ℕ → ℕ → ℕ → ℕ → ℕ
quad a b c d = ((a * 256 + b) * 256 + c) * 256 + d

octets-cons :
    (value : ℤ) (part : Text) (parts : List Text) (n : ℕ)
    → octet part ≡ some n
    → octets value (part ∷ parts) ≡ octets (bit_or (shift_left value 8) (pos n)) parts
unfolding octets
octets-cons value part parts n h = rw (h, octets)

ipv4_to_int_lem : (t : Text) (a b c d : ℕ) → IsQuad t a b c d → ipv4_to_int t ≡ some (quad a b c d)
unfolding ipv4_to_int octets
ipv4_to_int_lem t a b c d (p, q, r, s, parts, ha, hb, hc, hd) =
    let v1 = bit_or (shift_left (pos 0) 8) (pos a) in
    let v2 = bit_or (shift_left v1 8) (pos b) in
    let v3 = bit_or (shift_left v2 8) (pos c) in
    let v4 = bit_or (shift_left v3 8) (pos d) in
    let zero_value : to_uint32 (pos 0) ≡ 0 = to_uint32-small 0 (omega arith) in
    let la = octet_bound p a ha in
    let lb = octet_bound q b hb in
    let lc = octet_bound r c hc in
    let ld = octet_bound s d hd in
    let e1 : to_uint32 v1 ≡ a =
      octet_in (pos 0) a (omega (arith, zero_value)) la ∙ omega (arith, zero_value) in
    let e2 : to_uint32 v2 ≡ a * 256 + b =
      octet_in v1 b (omega (arith, e1, la)) lb ∙ omega (arith, e1) in
    let e3 : to_uint32 v3 ≡ (a * 256 + b) * 256 + c =
      octet_in v2 c (omega (arith, e2, la, lb)) lc ∙ omega (arith, e2) in
    let e4 : to_uint32 v4 ≡ quad a b c d =
      octet_in v3 d (omega (arith, e3, la, lb, lc)) ld ∙ omega (arith, e3) in
    let loop : octets (pos 0) (p ∷ q ∷ r ∷ s ∷ []) ≡ some (quad a b c d) =
      octets-cons (pos 0) p (q ∷ r ∷ s ∷ []) a ha
      ∙ octets-cons v1 q (r ∷ s ∷ []) b hb
      ∙ octets-cons v2 r (s ∷ []) c hc
      ∙ octets-cons v3 s [] d hd
      ∙ ap some e4 in
    ap (λ ps. if length ps == 4 then octets (pos 0) ps else none) parts ∙ loop

quad_bound : (t : Text) (a b c d : ℕ) → IsQuad t a b c d → quad a b c d < 4294967296
quad_bound t a b c d (p, q, r, s, parts, ha, hb, hc, hd) =
    omega (arith, octet_bound p a ha, octet_bound q b hb, octet_bound r c hc, octet_bound s d hd)

-- `&` with the mask of a range keeps the leading bits.
masked_prefix :
    (bits value : ℕ)
    → bits ≤ 32
    → value < 4294967296
    → masked value (mask_of bits) ≡ value / 2 ^ (32 - bits) * 2 ^ (32 - bits)
masked_prefix zero value l h = masked-zero value ∙ omega (arith, h)
masked_prefix (suc n) value l h =
    let bits = suc n in
    let rest : ℕ = 32 - bits in
    let some_bits : (bits == 0) ≡ false = ground arith in
    let word : mask_of bits ≡ 4294967296 - 2 ^ rest =
      ap (λ t. if t then 0 else to_uint32 (shift_left (negsuc 0) rest)) some_bits
      ∙ ones_left rest (omega arith) in
    let positive : 0 < 2 ^ rest = power_positive rest in
    ap (masked value) word
    ∙ bit_and-words value (4294967296 - 2 ^ rest) h (omega (arith, positive))
    ∙ and_digits-mask 32 rest value (omega arith) h

same_prefix :
    (n value base : ℕ)
    → (value / 2 ^ n * 2 ^ n ≡ base / 2 ^ n * 2 ^ n) ↔ (value / 2 ^ n ≡ base / 2 ^ n)
same_prefix n value base = (
  λ same.
      sym (mul-div_cancel (value / 2 ^ n) (power_positive n))
      ∙ ap (λ m. m / 2 ^ n) same
      ∙ mul-div_cancel (base / 2 ^ n) (power_positive n),
  ap (λ q. q * 2 ^ n),
)

-- A list of one range, a dotted quad and a number of bits, is accepted, and an IPv4 address, also
-- one mapped into IPv6, counts as a trusted proxy exactly if it has the leading bits of the range.
pub parse_cidr_exact :
    (lower : Text → Text) (number : Text → Option ℕ) (entry addr suffix ip : Text)
    (a b c d w x y z bits : ℕ)
    → chain entry ≡ entry ∷ []
    → split_on b'/' entry ≡ addr ∷ suffix ∷ []
    → IsQuad addr a b c d
    → number suffix ≡ some bits
    → bits ≤ 32
    → IsQuad (strip_ipv4_mapped lower ip) w x y z
    → (trusted : TrustedProxies) × (parse_trusted_proxies lower number entry ≡ some trusted)
      × ((trusted.contains ip ≡ true)
          ↔ (quad w x y z / 2 ^ (32 - bits) ≡ quad a b c d / 2 ^ (32 - bits)))
unfolding parse_trusted_proxies parse_entries parse_cidr contains some_range has
parse_cidr_exact lower number entry addr suffix ip a b c d w x y z bits one parts q k l q' =
    let base = quad a b c d in
    let value = quad w x y z in
    let cidr : Cidr = record { base = masked base (mask_of bits); mask = mask_of bits } in
    let small : ltb 32 bits ≡ false = ground arith in
    let parsed : parse_cidr number entry ≡ some cidr =
      ap (parse_parts number) parts
      ∙ ap (λ o. cidr_of o (number suffix)) (ipv4_to_int_lem addr a b c d q)
      ∙ ap (cidr_of (some base)) k
      ∙ ap (λ t. if t then none else some cidr) small in
    let read = ipv4_to_int_lem (strip_ipv4_mapped lower ip) w x y z q' in
    let left = masked_prefix bits value l (quad_bound _ w x y z q') in
    let right = masked_prefix bits base l (quad_bound _ a b c d q) in
    let (there, back) = same_prefix (32 - bits) value base in
    (
      record { empty = false; contains = contains lower (cidr ∷ []) [] },
      rw (one, parse_trusted_proxies, parse_entries, parsed)
          (ap (λ l. some (record { empty = is_empty l; contains = contains lower (cidr ∷ []) [] }))
            one),
      (
        λ h.
            let hit = or_none _ (rw read at h) in
            let same : masked value (mask_of bits) ≡ masked base (mask_of bits) =
              ground (arith, hit) in
            there (sym left ∙ same ∙ right),
        λ h.
            let same : masked value (mask_of bits) ≡ masked base (mask_of bits) =
              left ∙ back h ∙ sym right in
            rw read (none_or _ (ground (arith, same))),
      ),
    )

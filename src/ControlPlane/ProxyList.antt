-- ===== src/ControlPlane/ProxyList.antt =====
-- apps/control-plane/src/auth/trusted-proxy.ts, parseTrustedProxies: the list of trusted proxies
-- that ControlPlane/ClientAddress consults. `Number` and `toLowerCase` are arguments: `number` is
-- none where `Number` gives no integer of zero or more.
pub mod Ranges
use just_postgres.Shared.{
  ℕ, zero, suc, ◌+◌, ◌-◌, ◌*◌, ◌/◌, ◌^◌, ◌&&◌, ◌||◌, Bool, true, false, not, Option, none, some,
  List, [], ◌∷◌, ltb, leb, ◌==◌, if◌then◌else◌, length, drop, is_empty,
}
use just_postgres.Shared.Int.{ℤ, pos, negsuc}
use just_postgres.Shared.Word.{to_uint32, bit_and, bit_or, shift_left}
use just_postgres.Router.Text.{Text, text, ◌===◌, starts_with}
use just_postgres.ControlPlane.Strings.{trim}
use just_postgres.ControlPlane.ClientAddress.{TrustedProxies, chain}

pub record Cidr : Type 0 where
  pub base : ℕ
  pub mask : ℕ

-- `(value & mask) >>> 0`
abbrev pub masked : ℕ → ℕ → ℕ
masked value mask = to_uint32 (bit_and (pos value) (pos mask))

abbrev pub glue : ℕ → List Text → List Text
glue c [] = (c ∷ []) ∷ []
glue c (w ∷ ws) = (c ∷ w) ∷ ws

-- `split` at a character.
unfoldable pub split_on : ℕ → Text → List Text
split_on sep [] = [] ∷ []
split_on sep (c ∷ cs) = let rest = split_on sep cs in if c == sep then [] ∷ rest else glue c rest

abbrev pub is_digit : ℕ → Bool
is_digit c = leb 48 c && leb c 57

unfoldable pub all_digits : Text → Bool
all_digits [] = true
all_digits (c ∷ cs) = is_digit c && all_digits cs

-- `Number` of a text of digits.
unfoldable pub decimal : ℕ → Text → ℕ
decimal value [] = value
decimal value (c ∷ cs) = decimal (value * 10 + (c - 48)) cs

-- `/^\d{1,3}$/` and at most 255.
unfoldable pub octet : Text → Option ℕ
octet part =
    if all_digits part && (not (is_empty part) && leb (length part) 3)
    then if leb (decimal 0 part) 255 then some (decimal 0 part) else none
    else none

-- The loop of `ipv4ToInt`, with `value = (value << 8) | n`, up to `value >>> 0`.
unfoldable pub octets : ℤ → List Text → Option ℕ
octets value [] = some (to_uint32 value)
octets value (part ∷ parts) = elim (octet part) [
  | none ↦ none
  | some n ↦ octets (bit_or (shift_left value 8) (pos n)) parts
]

unfoldable pub ipv4_to_int : Text → Option ℕ
ipv4_to_int addr =
    if length (split_on b'.' addr) == 4 then octets (pos 0) (split_on b'.' addr) else none

abbrev pub bits_of : (Text → Option ℕ) → List Text → Option ℕ
bits_of number [] = some 32
bits_of number (raw ∷ rest) = number raw

-- `bits === 0 ? 0 : (-1 << (32 - bits)) >>> 0`
abbrev pub mask_of : ℕ → ℕ
mask_of bits = if bits == 0 then 0 else to_uint32 (shift_left (negsuc 0) (32 - bits))

abbrev pub cidr_of : Option ℕ → Option ℕ → Option Cidr
cidr_of none bits = none
cidr_of (some base) none = none
cidr_of (some base) (some bits) =
    if ltb 32 bits
    then none
    else some (record { base = masked base (mask_of bits); mask = mask_of bits })

abbrev pub parse_parts : (Text → Option ℕ) → List Text → Option Cidr
parse_parts number [] = none
parse_parts number (addr ∷ rest) = cidr_of (ipv4_to_int addr) (bits_of number rest)

unfoldable pub parse_cidr : (Text → Option ℕ) → Text → Option Cidr
parse_cidr number entry = parse_parts number (split_on b'/' entry)

unfoldable pub any_digits : List Text → Bool
any_digits [] = true
any_digits (w ∷ ws) = (not (is_empty w) && all_digits w) && any_digits ws

unfoldable pub has_colon : Text → Bool
has_colon [] = false
has_colon (c ∷ cs) = (c == b':') || has_colon cs

module _ (lower : Text → Text) where
  -- `/^::ffff:(\d+\.\d+\.\d+\.\d+)$/i`
  unfoldable pub strip_ipv4_mapped : Text → Text
  strip_ipv4_mapped ip =
      let parts = split_on b'.' (drop 7 ip) in
      if starts_with (text "::ffff:") (lower ip) && ((length parts == 4) && any_digits parts)
      then drop 7 ip
      else ip

  abbrev pub strip_open : Text → Text
  strip_open [] = []
  strip_open (c ∷ cs) = if c == b'[' then cs else c ∷ cs

  unfoldable pub strip_close : Text → Text
  strip_close [] = []
  strip_close (c ∷ cs) =
      let rest = strip_close cs in if (c == b']') && is_empty cs then [] else c ∷ rest

  unfoldable pub normalise_ipv6 : Text → Text
  normalise_ipv6 ip = strip_close (strip_open (lower (trim ip)))

  unfoldable pub has : Text → List Text → Bool
  has t [] = false
  has t (u ∷ us) = (u === t) || has t us

  unfoldable pub some_range : ℕ → List Cidr → Bool
  some_range value [] = false
  some_range value (c ∷ cs) = (masked value c.mask == c.base) || some_range value cs

  abbrev pub in_ranges : List Cidr → Option ℕ → Bool
  in_ranges cidrs none = false
  in_ranges cidrs (some value) = some_range value cidrs

  unfoldable pub contains : List Cidr → List Text → Text → Bool
  contains cidrs literals ip =
      has (normalise_ipv6 ip) literals || in_ranges cidrs (ipv4_to_int (strip_ipv4_mapped ip))

  module _ (number : Text → Option ℕ) where
    -- The loop over the entries; none is the error.
    unfoldable pub parse_entries : List Text → Option (List Cidr × List Text)
    parse_entries [] = some ([], [])
    parse_entries (entry ∷ entries) = elim (parse_entries entries) [
      | none ↦ none
      | some (cidrs, literals) ↦ elim (parse_cidr number entry) [
        | some cidr ↦ some (cidr ∷ cidrs, literals)
        | none ↦ if has_colon entry then some (cidrs, normalise_ipv6 entry ∷ literals) else none
      ]
    ]

    unfoldable pub parse_trusted_proxies : Text → Option TrustedProxies
    parse_trusted_proxies raw = elim (parse_entries (chain raw)) [
      | none ↦ none
      | some (cidrs, literals) ↦
          some (record { empty = is_empty (chain raw); contains = contains cidrs literals })
    ]

-- ===== src/Router/Text.antt =====
-- Strings, and objects that map strings to strings, as apps/router/src uses them: a string is the
-- list of its code points, an object the list of its entries in the order of insertion. A name
-- that is an array index, or `__proto__`, which JavaScript treats apart, is not modelled.
use Prim.Native.Char.{code}
use Prim.Native.String.{String}
use just_postgres.Shared.{
  length, ◌≤◌, ◌+◌, ℕ, ◌<◌, ◌≡◌, refl, ◌≢◌, ◌⊎◌, ◌&&◌, Bool, true, false, Option, none, some, List,
  [], ◌∷◌, ◌++◌, arith, ◌==◌, if◌then◌else◌, All,
}
use just_postgres.Router.Bytes.{Buffer}

abbrev pub Text : Type 0
Text = List ℕ

-- The code points of a literal.
abbrev pub text : String → Text
text String.[] = []
text (String.◌∷◌ c s) = code c ∷ text s

infix 50 ◌===◌
unfoldable pub ◌===◌ : Text → Text → Bool
[] === [] = true
[] === (y ∷ ys) = false
(x ∷ xs) === [] = false
(x ∷ xs) === (y ∷ ys) = (x == y) && (xs === ys)

pub ===_sound : (s t : Text) → (s === t) ≡ true → s ≡ t
unfolding ◌===◌
===_sound [] [] h = refl
===_sound [] (y ∷ ys) h = cc
===_sound (x ∷ xs) [] h = cc
===_sound (x ∷ xs) (y ∷ ys) h = ground (arith, ===_sound xs ys)

pub ===_refl : (s : Text) → (s === s) ≡ true
unfolding ◌===◌
===_refl [] = refl
===_refl (x ∷ xs) = ground (arith, ===_refl xs)

pub ===_ne : (s t : Text) → s ≢ t → (s === t) ≡ false
===_ne s t h = ground (arith, ===_sound s t)

-- Dictionaries.
module _ {ℓ} {V : Type ℓ} where
  unfoldable pub lookup : Text → List (Text × V) → Option V
  lookup k [] = none
  lookup k ((j, v) ∷ m) = if j === k then some v else lookup k m

  -- A present key keeps its place and takes the new value.
  unfoldable pub insert : Text → V → List (Text × V) → List (Text × V)
  insert k v [] = (k, v) ∷ []
  insert k v ((j, w) ∷ m) = if j === k then (j, v) ∷ m else (j, w) ∷ insert k v m

  -- `delete` of a map.
  unfoldable pub erase : Text → List (Text × V) → List (Text × V)
  erase k [] = []
  erase k ((j, v) ∷ m) = let rest = erase k m in if j === k then rest else (j, v) ∷ rest

  abbrev pub IsAbsent : Text → List (Text × V) → Type 0
  IsAbsent k [] = Unit
  IsAbsent k ((j, v) ∷ m) = (j ≢ k) × IsAbsent k m

  pub lookup-insert :
      (k j : Text) (v : V) (m : List (Text × V))
      → lookup j (insert k v m) ≡ (if k === j then some v else lookup j m)
  unfolding lookup insert
  lookup-insert k j v [] = refl
  lookup-insert k j v ((i, w) ∷ m) = ground (
    arith,
    ===_sound i k,
    ===_sound k j,
    ===_sound i j,
    ===_refl j,
    ===_refl k,
    lookup-insert k j v m,
  )

  pub lookup-erase : (k : Text) (m : List (Text × V)) → lookup k (erase k m) ≡ none
  unfolding lookup erase
  lookup-erase k [] = refl
  lookup-erase k ((j, v) ∷ m) = ground (arith, lookup-erase k m)

  pub length-erase : (k : Text) (m : List (Text × V)) → length (erase k m) ≤ length m
  unfolding erase
  length-erase k [] = omega arith
  length-erase k ((j, v) ∷ m) = ground (arith, length-erase k m)

  pub length-insert :
      (k : Text) (v : V) (m : List (Text × V)) → length (insert k v m) ≤ length m + 1
  unfolding insert
  length-insert k v [] = omega arith
  length-insert k v ((j, w) ∷ m) = ground (arith, length-insert k v m)

  pub insert_of_IsAbsent :
      (k : Text) (v : V) (m : List (Text × V)) → IsAbsent k m → insert k v m ≡ m ++ (k, v) ∷ []
  unfolding insert
  insert_of_IsAbsent k v [] h = refl
  insert_of_IsAbsent k v ((j, w) ∷ m) h =
      ground (arith, ===_ne j k h.0, insert_of_IsAbsent k v m h.1)

  pub IsAbsent-append :
      (k j : Text) (v : V) (m : List (Text × V))
      → IsAbsent k m
      → j ≢ k
      → IsAbsent k (m ++ (j, v) ∷ [])
  IsAbsent-append k j v [] h n = (n, tt)
  IsAbsent-append k j v ((i, w) ∷ m) h n = (h.0, IsAbsent-append k j v m h.1 n)

-- `text.startsWith(prefix)`
unfoldable pub starts_with : Text → Text → Bool
starts_with [] t = true
starts_with (p ∷ ps) [] = false
starts_with (p ∷ ps) (c ∷ cs) = (p == c) && starts_with ps cs

-- `split(",")`: the first part, and the others.
unfoldable pub split_comma : Text → Text × List Text
split_comma [] = ([], [])
split_comma (c ∷ cs) =
    let parts = split_comma cs in
    if c == b',' then ([], parts.0 ∷ parts.1) else (c ∷ parts.0, parts.1)

abbrev pub IsPlain : Text → Type 0
IsPlain t = All (λ c. (c == b',') ≡ false) t

pub split_comma_plain : (t : Text) → IsPlain t → split_comma t ≡ (t, [])
unfolding split_comma
split_comma_plain [] h = refl
split_comma_plain (c ∷ cs) h = rw (h.0, split_comma_plain cs h.1)

pub split_comma-append_plain :
    (a b : Text)
    → IsPlain a
    → split_comma (a ++ b',' ∷ b) ≡ (a, (split_comma b).0 ∷ (split_comma b).1)
unfolding split_comma
split_comma-append_plain [] b h = refl
split_comma-append_plain (c ∷ cs) b h = rw (h.0, split_comma-append_plain cs b h.1)

-- A Unicode scalar value: any code point but a surrogate.
abbrev pub IsScalar : ℕ → Type 0
IsScalar c = (c < 0xd800) ⊎ ((0xdfff < c) × (c < 0x110000))

-- Node's `Buffer.from(text, "utf8")` and `buffer.toString("utf8")`, with what UTF-8 promises.
pub record Utf8 : Type 0 where
  pub encode : Text → Buffer
  pub decode : Buffer → Text
  pub decode_encode : (t : Text) → All IsScalar t → decode (encode t) ≡ t
  pub encode_nil : encode [] ≡ []
  pub encode_append : (s t : Text) → encode (s ++ t) ≡ encode s ++ encode t
  pub encode_ascii : (c : ℕ) → c < 128 → encode (c ∷ []) ≡ c ∷ []
  pub encode_nonzero : (t : Text) → All (λ c. c ≢ 0) t → All (λ b. b ≢ 0) (encode t)

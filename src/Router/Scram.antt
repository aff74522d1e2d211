-- ===== src/Router/Scram.antt =====
-- apps/router/src/scram.ts: SCRAM-SHA-256, the router as a server (ScramServer) and as a client
-- (ScramClient). HMAC, SHA-256, PBKDF2, base64, `Number` and the random nonces and salt are
-- arguments.
pub mod Attributes
pub mod Mutual
pub mod Secrecy
use just_postgres.Shared.{
  ℕ, zero, suc, ◌+◌, ◌*◌, ◌/◌, ◌%◌, ◌&&◌, ◌||◌, Bool, true, false, not, Option, none, some, List,
  [], ◌∷◌, ◌++◌, ◌==◌, if◌then◌else◌, length, drop, take, is_empty, or_default,
}
use just_postgres.Router.Bytes.{Buffer}
use just_postgres.Router.Text.{Text, text, ◌===◌, lookup, insert, split_comma, starts_with}

-- What `Number` gives: nothing finite, a number that PBKDF2 takes for no iteration count, or one.
pub data NumberValue : Type 0 where
  not_finite not_count : NumberValue
  count : ℕ → NumberValue

-- What the code takes from Node and from the language.
pub record Crypto : Type 0 where
  pub hmac : Buffer → Buffer → Buffer
  pub hmac_text : Buffer → Text → Buffer
  pub sha256 : Buffer → Buffer
  pub pbkdf2 : Text → Buffer → ℕ → Buffer
  pub to_base64 : Buffer → Text
  pub from_base64 : Text → Buffer
  pub number : Text → NumberValue

-- `out_of_range` is the RangeError of PBKDF2, the others are a ScramError.
pub data ScramError : Type 0 where
  malformed_client_first channel_binding no_client_nonce nonce_mismatch no_proof bad_proof_length :
      ScramError
  password_authentication_failed bad_server_nonce malformed_server_first : ScramError
  out_of_order no_signature wrong_signature out_of_range : ScramError

pub data Result {ℓ} (A : Type ℓ) : Type ℓ where
  ok : A → Result A
  throws : ScramError → Result A

abbrev pub iterations : ℕ
iterations = 4096

abbrev pub client_key : Buffer
client_key = text "Client Key"

abbrev pub server_key : Buffer
server_key = text "Server Key"

-- `^` on the `n` low binary digits.
unfoldable pub xor_digits : ℕ → ℕ → ℕ → ℕ
xor_digits zero a b = 0
xor_digits (suc n) a b = (a + b) % 2 + 2 * xor_digits n (a / 2) (b / 2)

unfoldable pub xor : Buffer → Buffer → Buffer
xor [] bs = []
xor (a ∷ as') [] = a ∷ xor as' []
xor (a ∷ as') (b ∷ bs) = xor_digits 8 a b ∷ xor as' bs

abbrev pub in_front : ℕ → Option (Text × Text) → Option (Text × Text)
in_front c none = none
in_front c (some (a, b)) = some (c ∷ a, b)

-- `indexOf("=")`: the text in front of the first, and the text behind it.
unfoldable pub split_equals : Text → Option (Text × Text)
split_equals [] = none
split_equals (c ∷ cs) =
    let later = in_front c (split_equals cs) in if c == b'=' then some ([], cs) else later

abbrev pub put_attribute : Option (Text × Text) → List (Text × Text) → List (Text × Text)
put_attribute none m = m
put_attribute (some ([], v)) m = m
put_attribute (some (c ∷ k, v)) m = insert (c ∷ k) v m

unfoldable pub collect : List Text → List (Text × Text) → List (Text × Text)
collect [] m = m
collect (part ∷ parts) m = collect parts (put_attribute (split_equals part) m)

unfoldable pub attributes : Text → List (Text × Text)
attributes message = collect ((split_comma message).0 ∷ (split_comma message).1) []

-- An attribute that is there and not empty.
abbrev pub present : Option Text → Option Text
present none = none
present (some []) = none
present (some (c ∷ cs)) = some (c ∷ cs)

-- The text up to the first comma, and behind it.
unfoldable pub cut_comma : Text → Option (Text × Text)
cut_comma [] = none
cut_comma (c ∷ cs) =
    let later = in_front c (cut_comma cs) in if c == b',' then some ([], cs) else later

-- `nthCommaIndex(value, 2)`: the text in front of the second comma, and behind it.
abbrev pub cut_second : Text × Text → Option (Text × Text)
cut_second (front, rest) = elim (cut_comma rest) [
  | none ↦ none
  | some (a, b) ↦ some (front ++ b',' ∷ a, b)
]

abbrev pub cut_gs2 : Text → Option (Text × Text)
cut_gs2 message = elim (cut_comma message) [ none ↦ none | some parts ↦ cut_second parts ]

abbrev pub starts_with_p : Text → Bool
starts_with_p [] = false
starts_with_p (c ∷ cs) = c == b'p'

abbrev pub is_proof_mark : Text → Bool
is_proof_mark [] = false
is_proof_mark (a ∷ []) = false
is_proof_mark (a ∷ b ∷ []) = false
is_proof_mark (a ∷ b ∷ c ∷ rest) = (a == b',') && ((b == b'p') && (c == b'='))

-- `slice(0, lastIndexOf(",p="))`, where the mark is there.
unfoldable pub before_proof : Text → Option Text
before_proof [] = none
before_proof (c ∷ cs) = elim (before_proof cs) [
  | some front ↦ some (c ∷ front)
  | none ↦ if is_proof_mark (c ∷ cs) then some [] else none
]

-- `slice(0, -1)`, which the slice is where the mark is not there.
unfoldable pub all_but_last : Text → Text
all_but_last [] = []
all_but_last (c ∷ []) = []
all_but_last (c ∷ d ∷ cs) = c ∷ all_but_last (d ∷ cs)

abbrev pub without_proof : Text → Text
without_proof message = or_default (all_but_last message) (before_proof message)

pub record ScramServer : Type 0 where
  pub password : Text
  pub salt : Buffer
  pub server_nonce : Text
  pub client_first_bare : Text
  pub server_first : Text
  pub combined_nonce : Text

unfoldable pub scram_server : Text → Buffer → Text → ScramServer
scram_server password salt nonce = record {
  password = password;
  salt = salt;
  server_nonce = nonce;
  client_first_bare = [];
  server_first = [];
  combined_nonce = [];
}

pub record ScramClient : Type 0 where
  pub password : Text
  pub client_nonce : Text
  pub client_first_bare : Text
  pub auth_message : Text
  pub server_signature : Option Buffer

unfoldable pub scram_client : Text → Text → ScramClient
scram_client password nonce = record {
  password = password;
  client_nonce = nonce;
  client_first_bare = [];
  auth_message = [];
  server_signature = none;
}

-- `ScramClient.firstMessage`
unfoldable pub client_first : ScramClient → Text × ScramClient
client_first c = (
  text "n,," ++ (text "n=,r=" ++ c.client_nonce),
  record c { client_first_bare = text "n=,r=" ++ c.client_nonce },
)

module _ (crypto : Crypto) where
  abbrev pub challenge : ScramServer → Text → Text → ScramServer
  challenge s bare nonce = record s {
    client_first_bare = bare;
    combined_nonce = nonce ++ s.server_nonce;
    server_first =
        text "r="
        ++ ((nonce ++ s.server_nonce)
            ++ (text ",s=" ++ (crypto.to_base64 s.salt ++ text ",i=4096")));
  }

  -- `firstMessage` of the server behind the gs2 header.
  unfoldable pub answer_first : ScramServer → Text → Text → Result (Text × ScramServer)
  answer_first s gs2 bare =
      if starts_with_p gs2
      then throws channel_binding
      else elim (present (lookup (text "r") (attributes bare))) [
        | none ↦ throws no_client_nonce
        | some nonce ↦ ok ((challenge s bare nonce).server_first, challenge s bare nonce)
      ]

  unfoldable pub server_first_message : ScramServer → Text → Result (Text × ScramServer)
  server_first_message s message = elim (cut_gs2 message) [
    | none ↦ throws malformed_client_first
    | some (gs2, bare) ↦ answer_first s gs2 bare
  ]

  abbrev pub salted : ScramServer → Buffer
  salted s = crypto.pbkdf2 s.password s.salt iterations

  abbrev pub stored_key : ScramServer → Buffer
  stored_key s = crypto.sha256 (crypto.hmac (salted s) client_key)

  abbrev pub auth_message : ScramServer → Text → Text
  auth_message s message =
      s.client_first_bare ++ (b',' ∷ (s.server_first ++ (b',' ∷ without_proof message)))

  -- `finalMessage` of the server with the proof that it found.
  unfoldable pub check_proof : ScramServer → Text → Buffer → Result Text
  check_proof s message proof =
      let signature = crypto.hmac_text (stored_key s) (auth_message s message) in
      if not (length proof == length signature)
      then throws bad_proof_length
      else if not (crypto.sha256 (xor proof signature) === stored_key s)
      then throws password_authentication_failed
      else ok (
          text "v="
          ++ crypto.to_base64
              (crypto.hmac_text (crypto.hmac (salted s) server_key) (auth_message s message)))

  abbrev pub same_nonce : ScramServer → Option Text → Bool
  same_nonce s none = false
  same_nonce s (some nonce) = nonce === s.combined_nonce

  unfoldable pub server_final : ScramServer → Text → Result Text
  server_final s message =
      if not (same_nonce s (lookup (text "r") (attributes message)))
      then throws nonce_mismatch
      else elim (present (lookup (text "p") (attributes message))) [
        | none ↦ throws no_proof
        | some proof ↦ check_proof s message (crypto.from_base64 proof)
      ]

  -- `number` of an attribute that may be missing.
  abbrev pub to_count : Option Text → NumberValue
  to_count none = not_finite
  to_count (some t) = crypto.number t

  -- `finalMessage` of the client with the attributes that it found.
  unfoldable pub answer_challenge : ScramClient → Text → Text → Buffer → ℕ → Text × ScramClient
  answer_challenge c message nonce salt n =
      let salted = crypto.pbkdf2 c.password salt n in
      let key = crypto.hmac salted client_key in
      let bare = text "c=biws,r=" ++ nonce in
      let auth = c.client_first_bare ++ (b',' ∷ (message ++ (b',' ∷ bare))) in
      let proof = xor key (crypto.hmac_text (crypto.sha256 key) auth) in
      (
        bare ++ (text ",p=" ++ crypto.to_base64 proof),
        record c {
          auth_message = auth;
          server_signature = some (crypto.hmac_text (crypto.hmac salted server_key) auth);
        },
      )

  abbrev pub with_salt :
      ScramClient → Text → Text → Option Text → NumberValue → Result (Text × ScramClient)
  with_salt c message nonce none value = throws malformed_server_first
  with_salt c message nonce (some salt) not_finite = throws malformed_server_first
  with_salt c message nonce (some salt) not_count = throws out_of_range
  with_salt c message nonce (some salt) (count n) =
      ok (answer_challenge c message nonce (crypto.from_base64 salt) n)

  unfoldable pub client_final : ScramClient → Text → Result (Text × ScramClient)
  client_final c message = elim (present (lookup (text "r") (attributes message))) [
    | none ↦ throws bad_server_nonce
    | some nonce ↦
        if starts_with c.client_nonce nonce
        then with_salt c message nonce (present (lookup (text "s") (attributes message)))
            (to_count (lookup (text "i") (attributes message)))
        else throws bad_server_nonce
  ]

  abbrev pub check_signature : Buffer → Option Text → Result (Unit {0})
  check_signature expected none = throws no_signature
  check_signature expected (some received) =
      if crypto.from_base64 received === expected then ok tt else throws wrong_signature

  unfoldable pub verify_server_signature : ScramClient → Text → Result (Unit {0})
  verify_server_signature c message = elim c.server_signature [
    | none ↦ throws out_of_order
    | some expected ↦ check_signature expected (present (lookup (text "v") (attributes message)))
  ]

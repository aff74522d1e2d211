-- ===== src/Router/Tests/Exchanges.antt =====
-- apps/router/src/scram.ts with toy cryptography.
use just_postgres.Shared.{◌+◌, ◌-◌, ◌%◌, ◌≡◌, ◌≢◌, refl, [], ◌∷◌, ◌++◌, arith}
use just_postgres.Router.Bytes.{Buffer}
use just_postgres.Router.Text.{Text, text, IsPlain, lookup, insert, ◌===◌, split_comma, starts_with}
use just_postgres.Router.Scram.{
  Crypto, count, attributes, collect, xor, xor_digits, split_equals, check_proof, challenge,
  answer_challenge, ok, ScramServer, scram_server, ScramClient, scram_client, client_first,
  server_first_message, server_final, client_final, verify_server_signature,
}
use just_postgres.Router.Scram.Attributes.{AreBytes}
use just_postgres.Router.Scram.Mutual.{IsSuitable, exchange_succeeds}
use just_postgres.Router.Scram.Secrecy.{IsProven, IsSigned, exchange_refuses}

-- 32 bytes.
abbrev zeros : Buffer
zeros =
    0 ∷ 0 ∷ 0 ∷ 0 ∷ 0 ∷ 0 ∷ 0 ∷ 0 ∷ 0 ∷ 0 ∷ 0 ∷ 0 ∷ 0 ∷ 0 ∷ 0 ∷ 0 ∷ 0 ∷ 0 ∷ 0 ∷ 0 ∷ 0 ∷ 0 ∷ 0 ∷ 0
    ∷ 0 ∷ 0 ∷ 0 ∷ 0 ∷ 0 ∷ 0 ∷ 0 ∷ 0 ∷ []

abbrev encode : Buffer → Text
encode [] = []
encode (b ∷ bs) = (b + 100) ∷ encode bs

abbrev decode : Text → Buffer
decode [] = []
decode (c ∷ cs) = ((c - 100) % 256) ∷ decode cs

abbrev crypto : Crypto
crypto = record {
  hmac = λ k d. zeros;
  hmac_text = λ k t. zeros;
  sha256 = λ b. b;
  pbkdf2 = λ password salt count. password;
  to_base64 = encode;
  from_base64 = decode;
  number = λ t. count 4096;
}

encode-IsPlain : (b : Buffer) → IsPlain (encode b)
encode-IsPlain [] = tt
encode-IsPlain (b ∷ bs) = (ground arith, encode-IsPlain bs)

decode-encode : (b : Buffer) → AreBytes b → decode (encode b) ≡ b
decode-encode [] h = refl
decode-encode (b ∷ bs) h =
    let first : (b + 100 - 100) % 256 ≡ b = omega (arith, h.0) in rw (first, decode-encode bs h.1)

decode-AreBytes : (t : Text) → AreBytes (decode t)
decode-AreBytes [] = tt
decode-AreBytes (c ∷ cs) = (omega arith, decode-AreBytes cs)

encode_some : (b : Buffer) → b ≢ [] → encode b ≢ []
encode_some [] h = λ e. h refl
encode_some (b ∷ bs) h = λ e. cc e

crypto-IsSuitable : IsSuitable crypto
crypto-IsSuitable = record {
  plain = encode-IsPlain;
  decoded = decode-encode;
  shown = encode_some;
  size = λ k d. refl;
  size_text = λ k t. refl;
  bytes = λ k d. omega arith;
  bytes_text = λ k t. omega arith;
  counted = refl;
}

exchange_succeeds_example :
    (first challenge_text final signature : Text) × (c c' : ScramClient) × (s : ScramServer)
    × (client_first (scram_client (text "secret") (text "abc")) ≡ (first, c))
    × (server_first_message crypto (scram_server (text "secret") (1 ∷ 2 ∷ []) (text "xyz")) first
        ≡ ok (challenge_text, s))
    × (client_final crypto c challenge_text ≡ ok (final, c'))
    × (server_final crypto s final ≡ ok signature)
    × (verify_server_signature crypto c' signature ≡ ok tt)
exchange_succeeds_example =
    exchange_succeeds crypto (text "secret") (text "abc") (text "xyz") (1 ∷ 2 ∷ [])
      crypto-IsSuitable (refl, (refl, (refl, tt))) (refl, (refl, (refl, tt))) (λ e. cc e)
      (omega arith) (λ e. cc e)

abbrev client : ScramClient
client = (client_first (scram_client (text "secret") (text "a"))).1

abbrev server : ScramServer
server =
    challenge crypto (scram_server (text "secret") (1 ∷ 2 ∷ []) (text "z")) (text "n=,r=a")
      (text "a")

abbrev reply : Text × ScramClient
reply = answer_challenge crypto client server.server_first (text "az") (1 ∷ 2 ∷ []) 4096

abbrev last : Text
last = text "v=" ++ encode zeros

exchange_refuses_example :
    IsProven crypto server reply.0 × IsSigned crypto client server.server_first last
unfolding client_first scram_client scram_server server_final client_final verify_server_signature
    answer_challenge lookup attributes collect split_comma xor xor_digits split_equals insert ◌===◌
    check_proof starts_with
exchange_refuses_example =
    exchange_refuses crypto server reply.0 last client server.server_first last reply
      crypto-IsSuitable (record { decodes = decode-AreBytes; same = λ key size h. h }) refl refl
      refl

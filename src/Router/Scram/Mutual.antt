-- ===== src/Router/Scram/Mutual.antt =====
-- apps/router/src/scram.ts: both sides of an exchange.
use just_postgres.Shared.{
  ℕ, ◌≡◌, ◌≢◌, refl, sym, ap, ◌∙◌, true, some, [], ◌∷◌, ◌++◌, subst, arith, ◌==◌, if◌then◌else◌,
  length, or_default,
}
use just_postgres.Router.Bytes.{Buffer}
use just_postgres.Router.Text.{Text, text, lookup, ◌===◌, ===_refl, IsPlain, starts_with}
use just_postgres.Router.Scram.{
  Crypto, count, ok, throws, iterations, client_key, server_key, xor, attributes, present,
  cut_comma, before_proof, all_but_last, wrong_signature, ScramServer, scram_server, ScramClient,
  scram_client, client_first, challenge, answer_first, server_first_message, salted, stored_key,
  auth_message, check_proof, server_final, answer_challenge, to_count, client_final,
  check_signature, verify_server_signature,
}
use just_postgres.Router.Scram.Attributes.{
  AreBytes, xor-xor, length-xor, starts_with-append, IsPlain-append, attributes_first,
  attributes_final, attributes_bare, attributes_signature, before_proof-append, xor-AreBytes,
}

-- What SCRAM relies on: base64 has no comma, loses nothing and makes no empty text of a buffer, and
-- both hashes have 32 bytes.
pub record IsSuitable (crypto : Crypto) : Type 0 where
  pub plain : (b : Buffer) → IsPlain (crypto.to_base64 b)
  pub decoded : (b : Buffer) → AreBytes b → crypto.from_base64 (crypto.to_base64 b) ≡ b
  pub shown : (b : Buffer) → b ≢ [] → crypto.to_base64 b ≢ []
  pub size : (k d : Buffer) → length (crypto.hmac k d) ≡ 32
  pub size_text : (k : Buffer) (t : Text) → length (crypto.hmac_text k t) ≡ 32
  pub bytes : (k d : Buffer) → AreBytes (crypto.hmac k d)
  pub bytes_text : (k : Buffer) (t : Text) → AreBytes (crypto.hmac_text k t)
  pub counted : crypto.number (text "4096") ≡ count iterations

present-some : (t : Text) → t ≢ [] → present (some t) ≡ some t
present-some [] h = elim (h refl) [ ]
present-some (c ∷ cs) h = refl

front_nil : (s t : Text) → s ++ t ≡ [] → s ≡ []
front_nil [] t h = refl
front_nil (c ∷ cs) t h = cc

no_bytes : ◌≡◌ {A = ℕ} 0 32 → ⊥
no_bytes h = omega (arith, h)

module _ (crypto : Crypto) where
  -- The server behind the first message of a client.
  abbrev challenged : Text → Text → Text → Buffer → ScramServer
  challenged password nonce more salt =
      challenge crypto (scram_server password salt more) (text "n=,r=" ++ nonce) nonce

  server_first_lem :
      (password nonce more : Text) (salt : Buffer)
      → IsPlain nonce
      → nonce ≢ []
      → server_first_message crypto
          (scram_server password salt more)
          (client_first (scram_client password nonce)).0
        ≡ ok (
          (challenged password nonce more salt).server_first,
          challenged password nonce more salt,
        )
  unfolding server_first_message answer_first client_first scram_client scram_server cut_comma
      lookup ◌===◌
  server_first_lem password nonce more salt h n = rw (attributes_bare nonce h, present-some nonce n)

  client_final_step :
      (c : ScramClient) (message nonce salt : Text) (n : ℕ)
      → present (lookup (text "r") (attributes message)) ≡ some nonce
      → starts_with c.client_nonce nonce ≡ true
      → present (lookup (text "s") (attributes message)) ≡ some salt
      → to_count crypto (lookup (text "i") (attributes message)) ≡ count n
      → client_final crypto c message
        ≡ ok (answer_challenge crypto c message nonce (crypto.from_base64 salt) n)
  unfolding client_final
  client_final_step c message nonce salt n h1 h2 h3 h4 = rw (h1, client_final, h2, h3, h4)

  server_final_step :
      (s : ScramServer) (message proof : Text)
      → lookup (text "r") (attributes message) ≡ some s.combined_nonce
      → present (lookup (text "p") (attributes message)) ≡ some proof
      → server_final crypto s message ≡ check_proof crypto s message (crypto.from_base64 proof)
  unfolding server_final
  server_final_step s message proof h1 h2 = rw (h1, server_final, ===_refl s.combined_nonce, h2)

  -- A proof of the right length that hides the right key.
  check_proof_accepts :
      (s : ScramServer) (message : Text) (key : Buffer)
      → AreBytes key
      → length key ≡ length (crypto.hmac_text (stored_key crypto s) (auth_message crypto s message))
      → crypto.sha256 key ≡ stored_key crypto s
      → check_proof crypto s message
          (xor key (crypto.hmac_text (stored_key crypto s) (auth_message crypto s message)))
        ≡ ok (
            text "v="
            ++ crypto.to_base64 (
                crypto.hmac_text
                  (crypto.hmac (salted crypto s) server_key)
                  (auth_message crypto s message)))
  unfolding check_proof
  check_proof_accepts s message key bytes size same =
      let signature = crypto.hmac_text (stored_key crypto s) (auth_message crypto s message) in
      let long : (length (xor key signature) == length signature) ≡ true =
        ground (arith, length-xor key signature, size) in
      let back : (crypto.sha256 (xor (xor key signature) signature) === stored_key crypto s)
          ≡ true =
        ap (λ k. crypto.sha256 k === stored_key crypto s) (xor-xor key signature bytes size)
        ∙ ap (λ k. k === stored_key crypto s) same
        ∙ ===_refl (stored_key crypto s) in
      rw (long, back)

  -- The client's answer to the challenge.
  client_final_lem :
      (password nonce more : Text) (salt : Buffer)
      → IsSuitable crypto
      → IsPlain nonce
      → IsPlain more
      → nonce ≢ []
      → AreBytes salt
      → salt ≢ []
      → client_final crypto
          (client_first (scram_client password nonce)).1
          (challenged password nonce more salt).server_first
        ≡ ok (
            answer_challenge crypto
              (client_first (scram_client password nonce)).1
              (challenged password nonce more salt).server_first
              (nonce ++ more)
              salt
              iterations)
  unfolding client_first scram_client scram_server lookup ◌===◌
  client_final_lem password nonce more salt c h k n bytes some_salt =
      let message = (challenged password nonce more salt).server_first in
      let client = (client_first (scram_client password nonce)).1 in
      let found =
        attributes_first (nonce ++ more) (crypto.to_base64 salt) (text "4096")
          (IsPlain-append nonce more h k) (c.plain salt) (refl, (refl, (refl, (refl, tt)))) in
      client_final_step client message (nonce ++ more) (crypto.to_base64 salt) iterations
        (ap (λ m. present (lookup (text "r") m)) found
          ∙ present-some (nonce ++ more) (λ z. n (front_nil nonce more z)))
        (starts_with-append nonce more)
        (ap (λ m. present (lookup (text "s") m)) found
          ∙ present-some (crypto.to_base64 salt) (c.shown salt some_salt))
        (ap (λ m. to_count crypto (lookup (text "i") m)) found ∙ c.counted)
      ∙ ap (λ b. ok (answer_challenge crypto client message (nonce ++ more) b iterations))
          (c.decoded salt bytes)

  some_bytes : (b : Buffer) → length b ≡ 32 → b ≢ []
  some_bytes [] h = λ e. elim (no_bytes h) [ ]
  some_bytes (x ∷ xs) h = λ e. cc e

  -- What the client computes from the challenge, with what the server computes to check it.
  server_final_lem :
      (s : ScramServer) (nonce : Text) (final : Text) (key proof : Buffer)
      → IsSuitable crypto
      → IsPlain nonce
      → s.combined_nonce ≡ nonce
      → key ≡ crypto.hmac (salted crypto s) client_key
      → proof
        ≡ xor key (
            crypto.hmac_text (crypto.sha256 key) (
              s.client_first_bare
              ++ (b',' ∷ (s.server_first ++ (b',' ∷ (text "c=biws,r=" ++ nonce))))))
      → final ≡ text "c=biws,r=" ++ (nonce ++ (text ",p=" ++ crypto.to_base64 proof))
      → (auth_message crypto s final
          ≡ s.client_first_bare
            ++ (b',' ∷ (s.server_first ++ (b',' ∷ (text "c=biws,r=" ++ nonce)))))
        × (server_final crypto s final
            ≡ ok (
                text "v="
                ++ crypto.to_base64 (
                    crypto.hmac_text
                      (crypto.hmac (salted crypto s) server_key)
                      (auth_message crypto s final))))
  unfolding lookup ◌===◌
  server_final_lem s nonce final key proof c h same_nonces is_key is_proof is_final =
      let shape : text "c=biws,r=" ++ (nonce ++ (text ",p=" ++ crypto.to_base64 proof)) ≡ final =
        sym is_final in
      let bare = text "c=biws,r=" ++ nonce in
      let cut : before_proof final ≡ some bare =
        ap before_proof (sym shape)
        ∙ before_proof-append bare (crypto.to_base64 proof) (c.plain proof) in
      let auth : auth_message crypto s final
          ≡ s.client_first_bare ++ (b',' ∷ (s.server_first ++ (b',' ∷ bare))) =
        ap
          (λ w.
            s.client_first_bare
            ++ (b',' ∷ (s.server_first ++ (b',' ∷ or_default (all_but_last final) w))))
          cut in
      let found =
        ap attributes (sym shape)
        ∙ attributes_final nonce (crypto.to_base64 proof) h (c.plain proof) in
      let key_bytes : AreBytes key =
        subst AreBytes (sym is_key) (c.bytes (salted crypto s) client_key) in
      let key_size : length key ≡ 32 = ap length is_key ∙ c.size (salted crypto s) client_key in
      let proof_bytes : AreBytes proof =
        subst AreBytes (sym is_proof) (xor-AreBytes key _ key_bytes) in
      let proof_size : length proof ≡ 32 = ap length is_proof ∙ length-xor key _ ∙ key_size in
      let checked =
        check_proof_accepts s final key key_bytes
          (key_size ∙ sym (c.size_text (stored_key crypto s) (auth_message crypto s final)))
          (ap crypto.sha256 is_key) in
      let same_proof : proof
          ≡ xor key (crypto.hmac_text (stored_key crypto s) (auth_message crypto s final)) =
        is_proof
        ∙ ap
            (λ k. xor key (
              crypto.hmac_text (crypto.sha256 k)
                (s.client_first_bare ++ (b',' ∷ (s.server_first ++ (b',' ∷ bare))))))
            is_key
        ∙ ap (λ a. xor key (crypto.hmac_text (stored_key crypto s) a)) (sym auth) in
      (
        auth,
        server_final_step s final (crypto.to_base64 proof)
              (ap (lookup (text "r")) found ∙ ap some (sym same_nonces))
              (ap (λ m. present (lookup (text "p") m)) found
                ∙ present-some (crypto.to_base64 proof)
                    (c.shown proof (some_bytes proof proof_size)))
            ∙ ap (check_proof crypto s final) (c.decoded proof proof_bytes ∙ same_proof)
            ∙ checked,
      )

  verify_lem :
      (c : ScramClient) (expected : Buffer)
      → IsSuitable crypto
      → c.server_signature ≡ some expected
      → AreBytes expected
      → expected ≢ []
      → verify_server_signature crypto c (text "v=" ++ crypto.to_base64 expected) ≡ ok tt
  unfolding verify_server_signature lookup ◌===◌
  verify_lem c expected suitable h bytes some_signature =
      let found = attributes_signature (crypto.to_base64 expected) (suitable.plain expected) in
      rw (h, verify_server_signature)
        (ap (λ m. check_signature crypto expected (present (lookup (text "v") m))) found
          ∙ ap (check_signature crypto expected)
              (present-some (crypto.to_base64 expected) (suitable.shown expected some_signature))
          ∙ ap (λ b. if b === expected then ok tt else throws wrong_signature)
              (suitable.decoded expected bytes)
          ∙ ap (λ b. if b then ok tt else throws wrong_signature) (===_refl expected))

  -- The whole exchange between a client and a server with one password: the server gives the
  -- client its signature, and the client accepts it.
  pub exchange_succeeds :
      (password nonce more : Text) (salt : Buffer)
      → IsSuitable crypto
      → IsPlain nonce
      → IsPlain more
      → nonce ≢ []
      → AreBytes salt
      → salt ≢ []
      → (first challenge_text final signature : Text) × (c c' : ScramClient) × (s : ScramServer)
        × (client_first (scram_client password nonce) ≡ (first, c))
        × (server_first_message crypto (scram_server password salt more) first
            ≡ ok (challenge_text, s))
        × (client_final crypto c challenge_text ≡ ok (final, c'))
        × (server_final crypto s final ≡ ok signature)
        × (verify_server_signature crypto c' signature ≡ ok tt)
  unfolding client_first answer_challenge scram_client scram_server
  exchange_succeeds password nonce more salt suitable h k n bytes some_salt =
      let c = (client_first (scram_client password nonce)).1 in
      let s = challenged password nonce more salt in
      let reply = answer_challenge crypto c s.server_first (nonce ++ more) salt iterations in
      let key = crypto.hmac (salted crypto s) client_key in
      let auth =
        s.client_first_bare
        ++ (b',' ∷ (s.server_first ++ (b',' ∷ (text "c=biws,r=" ++ (nonce ++ more))))) in
      let signed = crypto.hmac (salted crypto s) server_key in
      let (same_auth, accepted) =
        server_final_lem s (nonce ++ more) reply.0 key
          (xor key (crypto.hmac_text (crypto.sha256 key) auth)) suitable
          (IsPlain-append nonce more h k) refl refl refl refl in
      let expected = crypto.hmac_text signed auth in
      (
        (client_first (scram_client password nonce)).0,
        s.server_first,
        reply.0,
        text "v=" ++ crypto.to_base64 expected,
        c,
        reply.1,
        s,
        refl,
        server_first_lem password nonce more salt h n,
        client_final_lem password nonce more salt suitable h k n bytes some_salt,
        accepted
            ∙ ap (λ a. ok (text "v=" ++ crypto.to_base64 (crypto.hmac_text signed a))) same_auth,
        verify_lem reply.1 expected suitable refl (suitable.bytes_text signed auth)
            (some_bytes expected (suitable.size_text signed auth)),
      )

-- ===== src/Router/Scram/Secrecy.antt =====
-- apps/router/src/scram.ts: what a side that accepts has been shown.
use just_postgres.Shared.{
  ℕ, ◌≡◌, refl, sym, ap, ◌∙◌, true, Option, none, some, [], ◌∷◌, ◌++◌, Bool-cases, Option-cases,
  inl, inr, arith, ◌==◌, length,
}
use just_postgres.Router.Bytes.{Buffer}
use just_postgres.Router.Text.{Text, text, lookup, ◌===◌, ===_sound, starts_with}
use just_postgres.Router.Scram.{
  Crypto, NumberValue, count, not_finite, not_count, ok, client_key, server_key, xor, attributes,
  present, ScramServer, ScramClient, salted, stored_key, auth_message, check_proof, same_nonce,
  server_final, answer_challenge, with_salt, to_count, client_final, verify_server_signature,
}
use just_postgres.Router.Scram.Attributes.{AreBytes, xor-xor, length-xor}
use just_postgres.Router.Scram.Mutual.{IsSuitable}

-- What makes a proof prove something to a server: base64 decodes to bytes, and no other 32 bytes
-- have the hash of the key that its password makes.
pub record IsOneWay (crypto : Crypto) (s : ScramServer) : Type 0 where
  pub decodes : (t : Text) → AreBytes (crypto.from_base64 t)
  pub same :
      (key : Buffer)
      → length key ≡ 32
      → crypto.sha256 key ≡ stored_key crypto s
      → key ≡ crypto.hmac (salted crypto s) client_key

present_sound : (o : Option Text) (t : Text) → present o ≡ some t → o ≡ some t
present_sound none t h = cc
present_sound (some []) t h = cc
present_sound (some (c ∷ cs)) t h = h

module _ (crypto : Crypto) where
  same_nonce_sound :
      (s : ScramServer) (o : Option Text) → same_nonce crypto s o ≡ true → o ≡ some s.combined_nonce
  same_nonce_sound s none h = cc
  same_nonce_sound s (some nonce) h = ap some (===_sound nonce s.combined_nonce h)

  -- The signature that a proof is hidden with.
  abbrev pub hiding : ScramServer → Text → Buffer
  hiding s message = crypto.hmac_text (stored_key crypto s) (auth_message crypto s message)

  check_proof_sound :
      (s : ScramServer) (message : Text) (proof : Buffer) (answer : Text)
      → check_proof crypto s message proof ≡ ok answer
      → (length proof ≡ length (hiding s message))
        × (crypto.sha256 (xor proof (hiding s message)) ≡ stored_key crypto s)
  unfolding check_proof
  check_proof_sound s message proof answer h =
      elim (Bool-cases (length proof == length (hiding s message))) [
        | inr e ↦ cc (rw e at h)
        | inl e ↦
            let h' = rw e at h in
            elim (Bool-cases
              (crypto.sha256 (xor proof (hiding s message)) === stored_key crypto s)) [
                | inr e' ↦ cc (rw e' at h')
                | inl e' ↦ (ground (arith, e), ===_sound _ (stored_key crypto s) e')
              ]
      ]

  -- What the final message of a client must hold: the nonce of this exchange, and the proof that
  -- only the key of the server's password makes.
  abbrev pub IsProven : ScramServer → Text → Type 0
  IsProven s message =
      (lookup (text "r") (attributes message) ≡ some s.combined_nonce)
      × (proof : Text) × (lookup (text "p") (attributes message) ≡ some proof)
      × (crypto.from_base64 proof
          ≡ xor (crypto.hmac (salted crypto s) client_key) (hiding s message))

  server_final_sound :
      (s : ScramServer) (message answer : Text)
      → IsSuitable crypto
      → IsOneWay crypto s
      → server_final crypto s message ≡ ok answer
      → IsProven s message
  unfolding server_final
  server_final_sound s message answer suitable o h =
      elim (Bool-cases (same_nonce crypto s (lookup (text "r") (attributes message)))) [
        | inr e ↦ cc (rw e at h)
        | inl e ↦
            let h' = rw e at h in
            elim (Option-cases (present (lookup (text "p") (attributes message)))) [
              | inl e' ↦ cc (rw e' at h')
              | inr (proof, e') ↦
                  let shown = crypto.from_base64 proof in
                  let (size, hash) = check_proof_sound s message shown answer (rw e' at h') in
                  let key =
                    o.same (xor shown (hiding s message))
                      (length-xor shown (hiding s message) ∙ size ∙ suitable.size_text _ _) hash in
                  (
                    same_nonce_sound s _ e,
                    proof,
                    present_sound _ proof e',
                    sym (xor-xor shown (hiding s message) (o.decodes proof) size)
                        ∙ ap (λ k. xor k (hiding s message)) key,
                  )
            ]
      ]

  -- What the challenge and the last message of a server must hold: a nonce that begins with the
  -- client's, a salt and a count, and the signature that the password makes of the exchange.
  abbrev pub IsSigned : ScramClient → Text → Text → Type 0
  IsSigned c challenge last =
      (nonce salt signature : Text) × (n : ℕ) × (lookup (text "r") (attributes challenge)
        ≡ some nonce)
      × (starts_with c.client_nonce nonce ≡ true)
      × (lookup (text "s") (attributes challenge) ≡ some salt)
      × (to_count crypto (lookup (text "i") (attributes challenge)) ≡ count n)
      × (lookup (text "v") (attributes last) ≡ some signature)
      × (crypto.from_base64 signature
          ≡ crypto.hmac_text
              (crypto.hmac (crypto.pbkdf2 c.password (crypto.from_base64 salt) n) server_key)
              (c.client_first_bare ++ (b',' ∷ (challenge ++ (b',' ∷ (text "c=biws,r=" ++ nonce))))))

  with_salt_sound :
      (c : ScramClient) (message nonce : Text) (o : Option Text) (value : NumberValue)
      (r : Text × ScramClient)
      → with_salt crypto c message nonce o value ≡ ok r
      → (salt : Text) × (n : ℕ) × (o ≡ some salt)
        × (value ≡ count n)
        × (r ≡ answer_challenge crypto c message nonce (crypto.from_base64 salt) n)
  with_salt_sound c message nonce none value r h = cc
  with_salt_sound c message nonce (some salt) not_finite r h = cc
  with_salt_sound c message nonce (some salt) not_count r h = cc
  with_salt_sound c message nonce (some salt) (count n) r h = (salt, n, refl, refl, cc)

  client_final_sound :
      (c : ScramClient) (challenge : Text) (r : Text × ScramClient)
      → client_final crypto c challenge ≡ ok r
      → (nonce salt : Text) × (n : ℕ) × (lookup (text "r") (attributes challenge) ≡ some nonce)
        × (starts_with c.client_nonce nonce ≡ true)
        × (lookup (text "s") (attributes challenge) ≡ some salt)
        × (to_count crypto (lookup (text "i") (attributes challenge)) ≡ count n)
        × (r ≡ answer_challenge crypto c challenge nonce (crypto.from_base64 salt) n)
  unfolding client_final
  client_final_sound c challenge r h =
      elim (Option-cases (present (lookup (text "r") (attributes challenge)))) [
        | inl e ↦ cc (rw (e, client_final) at h)
        | inr (nonce, e) ↦
            let h' = rw (e, client_final) at h in
            elim (Bool-cases (starts_with c.client_nonce nonce)) [
              | inr e' ↦ cc (rw e' at h')
              | inl e' ↦
                  let (salt, n, is_salt, is_count, is_r) =
                    with_salt_sound c challenge nonce _ _ r (rw e' at h') in
                  (
                    nonce,
                    salt,
                    n,
                    present_sound _ nonce e,
                    e',
                    present_sound _ salt is_salt,
                    is_count,
                    is_r,
                  )
            ]
      ]

  verify_sound :
      (c : ScramClient) (expected : Buffer) (last : Text)
      → c.server_signature ≡ some expected
      → verify_server_signature crypto c last ≡ ok tt
      → (signature : Text) × (lookup (text "v") (attributes last) ≡ some signature)
        × (crypto.from_base64 signature ≡ expected)
  unfolding verify_server_signature
  verify_sound c expected last e h =
      let h' = rw (e, verify_server_signature) at h in
      elim (Option-cases (present (lookup (text "v") (attributes last)))) [
        | inl missing ↦ cc (rw missing at h')
        | inr (signature, found) ↦
            let h'' = rw found at h' in
            elim (Bool-cases (crypto.from_base64 signature === expected)) [
              | inr other ↦ cc (rw other at h'')
              | inl same ↦ (
                signature,
                present_sound _ signature found,
                ===_sound (crypto.from_base64 signature) expected same,
              )
            ]
      ]

  -- Neither side lets the other in without the password. A server accepts only a final message
  -- with the nonce of its own exchange and the proof that the key of its password makes for just
  -- this exchange, where no other key has the hash that the server keeps; and a client accepts
  -- only a server that extended its nonce and whose last message has the signature that the
  -- client's password makes for just this exchange.
  pub exchange_refuses :
      (s : ScramServer) (message answer : Text) (c : ScramClient) (challenge last : Text)
      (reply : Text × ScramClient)
      → IsSuitable crypto
      → IsOneWay crypto s
      → server_final crypto s message ≡ ok answer
      → client_final crypto c challenge ≡ ok reply
      → verify_server_signature crypto reply.1 last ≡ ok tt
      → IsProven s message × IsSigned c challenge last
  unfolding answer_challenge
  exchange_refuses s message answer c challenge last reply suitable o h k v =
      let (nonce, salt, n, is_nonce, extends, is_salt, is_count, is_reply) =
        client_final_sound c challenge reply k in
      let (signature, found, signed) =
        verify_sound reply.1 _ last (ap (λ r. r.1.server_signature) is_reply) v in
      (
        server_final_sound s message answer suitable o h,
        (nonce, salt, signature, n, is_nonce, extends, is_salt, is_count, found, signed),
      )

-- ===== src/Router/Protocol/MessagesRoundTrip.antt =====
-- What the encoders of apps/router/src/protocol.ts write, MessageReader and the parsers read back.
use just_postgres.Shared.{
  ℕ, zero, suc, ◌+◌, ◌-◌, ◌≤◌, ◌<◌, ◌≡◌, ◌≢◌, refl, ap, ◌∙◌, false, Option, none, some, List, [],
  ◌∷◌, ◌++◌, map, append_assoc, arith, ◌==◌, length, length-append, take_exact, drop_exact,
  take-length, All,
}
use just_postgres.Shared.Int.{ℤ, pos}
use just_postgres.Router.Bytes.{
  Buffer, read_int32_be, InInt32, be_bytes, of_int32, read_be_bytes, int32_be_of_InInt32,
}
use just_postgres.Router.Text.{Text, Utf8, insert, ◌===◌}
use just_postgres.Router.Protocol.BackendMessage
use just_postgres.Router.Protocol.Codes.{max_message_bytes}
use just_postgres.Router.Protocol.Framing.{framed, next, next_typed, cut_typed}
use just_postgres.Router.Protocol.Startup.{Parameters}
use just_postgres.Router.Protocol.StartupRoundTrip.{
  IsPlain, index_of_zero-append, drop-suc, read_int32_be-skip4,
}
use just_postgres.Router.Protocol.Messages.{
  encode_message, encode_backend_key_data, parse_backend_key_data, ErrorOptions, severity_of,
  optional_field, error_fields, encode_fields, encode_error_response, parse_fields,
  parse_error_response, encode_parameter_status, parse_parameter_status,
}

encode_message-total :
    (type : ℕ) (payload : Buffer)
    → type < 256
    → length payload + 4 < 2147483648
    → encode_message type payload ≡ some (type ∷ (be_bytes (length payload + 4) ++ payload))
unfolding encode_message
encode_message-total type payload t h =
    rw (int32_be_of_InInt32 (pos (length payload + 4)) h) (ground arith)

read_int32_be-skip1 : (t : ℕ) (xs : Buffer) → read_int32_be (t ∷ xs) 1 ≡ read_int32_be xs 0
unfolding read_int32_be
read_int32_be-skip1 t xs = refl

-- A message that is encoded and sent, followed by anything, is framed with its type and payload,
-- and what follows stays buffered, if its length is within the frame limit.
pub next-encode_message :
    (type : ℕ) (payload rest : Buffer)
    → type < 256
    → length payload + 4 ≤ max_message_bytes
    → (out : Buffer) × (encode_message type payload ≡ some out)
      × (next (record { buffer = out ++ rest; startup_phase = false })
          ≡ framed
              (record { type = some type; payload = payload; raw = out })
              (record { buffer = rest; startup_phase = false }))
unfolding next next_typed cut_typed
next-encode_message type payload rest t h =
    let n : ℕ = length payload + 4 in
    let out : Buffer = type ∷ (be_bytes n ++ payload) in
    (
      out,
      encode_message-total type payload t (omega arith),
      rw
          (
            read_int32_be-skip1 type (be_bytes n ++ (payload ++ rest)),
            read_be_bytes (pos n) (payload ++ rest) (omega arith),
          )
          (ground (
            arith,
            take_exact (n + 1) out rest (omega arith),
            drop_exact (n + 1) out rest (omega arith),
            length-append payload rest,
          )),
    )

-- The key that a client is given is the key that it will read.
pub parse-encode_backend_key_data :
    (p s : ℤ)
    → InInt32 p
    → InInt32 s
    → (payload : Buffer) × (encode_backend_key_data p s
        ≡ encode_message BackendMessage.backend_key_data payload)
      × (parse_backend_key_data payload ≡ some (record { process_id = p; secret_key = s }))
unfolding encode_backend_key_data parse_backend_key_data
parse-encode_backend_key_data p s hp hs = (
  be_bytes (of_int32 p) ++ be_bytes (of_int32 s),
  rw (int32_be_of_InInt32 p hp, int32_be_of_InInt32 s hs),
  rw (
    read_be_bytes p (be_bytes (of_int32 s)) hp,
    read_int32_be-skip4 (of_int32 p) (be_bytes (of_int32 s)),
    read_be_bytes s [] hs,
  ),
)

-- Fields that an ErrorResponse can carry: an ASCII tag that is not zero, and a plain text.
abbrev pub AreFields : List (ℕ × Text) → Type 0
AreFields [] = Unit
AreFields ((tag, value) ∷ fields) = (tag ≢ 0) × (tag < 128) × IsPlain value × AreFields fields

-- The object that the fields make, a later field over an earlier one of the same tag.
insert_fields : List (ℕ × Text) → Parameters → Parameters
insert_fields [] found = found
insert_fields ((tag, value) ∷ fields) found = insert_fields fields (insert (tag ∷ []) value found)

abbrev pub entry : ℕ × Text → Text × Text
entry (tag, value) = (tag ∷ [], value)

insert_fields-error_fields :
    (opts : ErrorOptions) → insert_fields (error_fields opts) [] ≡ map entry (error_fields opts)
unfolding insert_fields insert ◌===◌
insert_fields-error_fields opts = ground arith

abbrev IsPlainOption : Option Text → Type 0
IsPlainOption none = Unit
IsPlainOption (some t) = IsPlain t

optional_field-AreFields :
    (tag : ℕ) (text : Option Text) (later : List (ℕ × Text))
    → tag ≢ 0
    → tag < 128
    → IsPlainOption text
    → AreFields later
    → AreFields (optional_field tag text later)
optional_field-AreFields tag none later t a h k = k
optional_field-AreFields tag (some []) later t a h k = k
optional_field-AreFields tag (some (c ∷ cs)) later t a h k = (t, a, h, k)

module _ (utf8 : Utf8) where
  encode-terminated :
      (value : Text) (rest : Buffer)
      → utf8.encode (value ++ 0 ∷ []) ++ rest ≡ utf8.encode value ++ 0 ∷ rest
  encode-terminated value rest =
      rw (utf8.encode_append value (0 ∷ []), utf8.encode_ascii 0 (omega arith))
        (append_assoc (utf8.encode value) (0 ∷ []) rest)

  encode_fields-parts :
      (tag : ℕ) (value : Text) (rest : Buffer)
      → tag < 128
      → utf8.encode (tag ∷ (value ++ 0 ∷ [])) ++ rest ≡ tag ∷ (utf8.encode value ++ 0 ∷ rest)
  encode_fields-parts tag value rest h =
      let split = utf8.encode_append (tag ∷ []) (value ++ 0 ∷ []) in
      rw (split, utf8.encode_ascii tag h) (ap (◌∷◌ tag) (encode-terminated value rest))

  parse_fields-step :
      (fuel tag : ℕ) (value rest : Buffer) (found : Parameters)
      → tag ≢ 0
      → All (λ b. b ≢ 0) value
      → parse_fields utf8 (suc fuel) (tag ∷ (value ++ 0 ∷ rest)) found
        ≡ parse_fields utf8 fuel rest (insert (tag ∷ []) (utf8.decode value) found)
  unfolding parse_fields
  parse_fields-step fuel tag value rest found h k =
      let other : (tag == 0) ≡ false = ground arith in
      simp (
        other,
        index_of_zero-append value rest k,
        take-length value (0 ∷ rest),
        drop-suc value rest,
      )

  parse-encode_fields :
      (fuel : ℕ) (fields : List (ℕ × Text)) (found : Parameters)
      → AreFields fields
      → length (encode_fields utf8 fields) < fuel
      → parse_fields utf8 fuel (encode_fields utf8 fields) found ≡ insert_fields fields found
  unfolding encode_fields insert_fields
  parse-encode_fields zero fields found p h = elim h [ ]
  parse-encode_fields (suc fuel) [] found p h = unfold parse_fields in refl
  parse-encode_fields (suc fuel) ((tag, value) ∷ fields) found (some_tag, ascii, (vs, vn), later)
        h =
      let shape = encode_fields-parts tag value (encode_fields utf8 fields) ascii in
      let shorter : length (encode_fields utf8 fields) < fuel = omega (
        arith,
        ap length shape,
        length-append (utf8.encode value) (0 ∷ encode_fields utf8 fields),
      ) in
      rw
        (
          shape,
          parse_fields-step fuel tag _ (encode_fields utf8 fields) found some_tag
              (utf8.encode_nonzero value vn),
          utf8.decode_encode value vs,
        )
        (parse-encode_fields fuel fields _ later shorter)

  -- The texts that an error response can carry.
  abbrev pub IsPlainError : ErrorOptions → Type 0
  IsPlainError opts =
      IsPlain (severity_of opts.severity)
      × IsPlain opts.code
      × IsPlain opts.message
      × IsPlainOption opts.detail
      × IsPlainOption opts.hint

  error_fields-AreFields : (opts : ErrorOptions) → IsPlainError opts → AreFields (error_fields opts)
  error_fields-AreFields opts (severity, code, message, detail, hint) =
      let rest =
        optional_field-AreFields b'D' opts.detail _ (omega arith) (omega arith) detail
          (optional_field-AreFields b'H' opts.hint [] (omega arith) (omega arith) hint tt) in
      (
        omega arith,
        omega arith,
        severity,
        (
          omega arith,
          omega arith,
          severity,
          (omega arith, omega arith, code, (omega arith, omega arith, message, rest)),
        ),
      )

  -- The payload of an encoded ErrorResponse parses to the fields that were given: severity twice,
  -- code, message, and detail and hint where they are present and not empty.
  pub parse-encode_error_response :
      (opts : ErrorOptions)
      → IsPlainError opts
      → (payload : Buffer) × (encode_error_response utf8 opts
          ≡ encode_message BackendMessage.error_response payload)
        × (parse_error_response utf8 payload ≡ map entry (error_fields opts))
  unfolding encode_error_response parse_error_response
  parse-encode_error_response opts h = (
    encode_fields utf8 (error_fields opts),
    refl,
    parse-encode_fields _ (error_fields opts) [] (error_fields-AreFields opts h) (omega arith)
        ∙ insert_fields-error_fields opts,
  )

  -- The payload of an encoded ParameterStatus parses to the same name and value.
  pub parse-encode_parameter_status :
      (name value : Text)
      → IsPlain name
      → IsPlain value
      → (payload : Buffer) × (encode_parameter_status utf8 name value
          ≡ encode_message BackendMessage.parameter_status payload)
        × (parse_parameter_status utf8 payload ≡ (name, value))
  unfolding encode_parameter_status parse_parameter_status
  parse-encode_parameter_status name value (ns, nn) (vs, vn) =
      let key = utf8.encode name in
      let text = utf8.encode value in
      let separator = utf8.encode_append (0 ∷ []) (value ++ 0 ∷ []) in
      let sized : length (key ++ (0 ∷ (text ++ 0 ∷ []))) - 1 - suc (length key) ≡ length text =
        omega (arith, length-append key (0 ∷ (text ++ 0 ∷ [])), length-append text (0 ∷ [])) in
      (
        key ++ (0 ∷ (text ++ 0 ∷ [])),
        rw (
          utf8.encode_append name (0 ∷ (value ++ 0 ∷ [])),
          separator,
          utf8.encode_ascii 0 (omega arith),
          utf8.encode_append value (0 ∷ []),
          utf8.encode_ascii 0 (omega arith),
        ),
        rw
            (
              index_of_zero-append key (text ++ 0 ∷ []) (utf8.encode_nonzero name nn),
              parse_parameter_status,
            )
            (simp (
              sized,
              take-length key (0 ∷ (text ++ 0 ∷ [])),
              drop-suc key (text ++ 0 ∷ []),
              take-length text (0 ∷ []),
              utf8.decode_encode name ns,
              utf8.decode_encode value vs,
            )),
      )

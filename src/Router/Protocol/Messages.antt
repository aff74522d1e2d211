-- ===== src/Router/Protocol/Messages.antt =====
-- The typed messages of apps/router/src/protocol.ts: encodeMessage and what is built on it, and
-- the parsers of payloads. Where the code throws a RangeError, the result is `none`.
use just_postgres.Shared.{
  ℕ, zero, suc, ◌+◌, ◌-◌, Option, none, some, List, [], ◌∷◌, ◌++◌, ltb, ◌==◌, if◌then◌else◌, ◌>>=◌,
  length, take, drop, is_empty,
}
use just_postgres.Shared.Int.{ℤ, pos}
use just_postgres.Router.Bytes.{Buffer, read_int32_be, int32_be, index_of_zero}
use just_postgres.Router.Text.{Text, Utf8, insert}
use just_postgres.Router.Protocol.BackendMessage
use just_postgres.Router.Protocol.AuthRequest
use just_postgres.Router.Protocol.Startup.{Parameters, BackendKey}

unfoldable pub encode_message : ℕ → Buffer → Option Buffer
encode_message type payload = do
  size ← int32_be (pos (length payload + 4))
  if ltb type 256 then some (type ∷ (size ++ payload)) else none

unfoldable pub encode_ready_for_query : ℕ → Option Buffer
encode_ready_for_query status = encode_message BackendMessage.ready_for_query (status ∷ [])

unfoldable pub encode_authentication_ok : Option Buffer
encode_authentication_ok = do
  payload ← int32_be AuthRequest.ok
  encode_message BackendMessage.authentication payload

unfoldable pub encode_backend_key_data : ℤ → ℤ → Option Buffer
encode_backend_key_data process_id secret_key = do
  process ← int32_be process_id
  secret ← int32_be secret_key
  encode_message BackendMessage.backend_key_data (process ++ secret)

unfoldable pub parse_backend_key_data : Buffer → Option BackendKey
parse_backend_key_data payload = do
  process_id ← read_int32_be payload 0
  secret_key ← read_int32_be payload 4
  some (record { process_id = process_id; secret_key = secret_key })

pub record AuthMessage : Type 0 where
  pub code : ℤ
  pub body : Buffer

unfoldable pub parse_auth_request : Buffer → Option AuthMessage
parse_auth_request payload = do
  code ← read_int32_be payload 0
  some (record { code = code; body = drop 4 payload })

-- The argument of `encodeErrorResponse`.
pub record ErrorOptions : Type 0 where
  pub severity : Option Text
  pub code : Text
  pub message : Text
  pub detail : Option Text
  pub hint : Option Text

abbrev pub fatal : Text
fatal = b'F' ∷ b'A' ∷ b'T' ∷ b'A' ∷ b'L' ∷ []

-- `opts.severity ?? "FATAL"`
abbrev pub severity_of : Option Text → Text
severity_of none = fatal
severity_of (some s) = s

-- `if (text) push(tag, text)`: an absent and an empty text are both left out.
abbrev pub optional_field : ℕ → Option Text → List (ℕ × Text) → List (ℕ × Text)
optional_field tag none later = later
optional_field tag (some text) later = if is_empty text then later else (tag, text) ∷ later

abbrev pub error_fields : ErrorOptions → List (ℕ × Text)
error_fields opts =
    (b'S', severity_of opts.severity)
    ∷ (b'V', severity_of opts.severity)
    ∷ (b'C', opts.code)
    ∷ (b'M', opts.message)
    ∷ optional_field b'D' opts.detail (optional_field b'H' opts.hint [])

module _ (utf8 : Utf8) where
  -- `${tag}${value}\0` for each field, and a final zero byte.
  unfoldable pub encode_fields : List (ℕ × Text) → Buffer
  encode_fields [] = 0 ∷ []
  encode_fields ((tag, value) ∷ fields) =
      utf8.encode (tag ∷ (value ++ 0 ∷ [])) ++ encode_fields fields

  unfoldable pub encode_error_response : ErrorOptions → Option Buffer
  encode_error_response opts =
      encode_message BackendMessage.error_response (encode_fields (error_fields opts))

  -- The loop over the fields; `payload` is the part from `offset` on.
  unfoldable pub parse_fields : ℕ → Buffer → Parameters → Parameters
  parse_fields zero payload found = found
  parse_fields (suc fuel) [] found = found
  parse_fields (suc fuel) (tag ∷ rest) found =
      if tag == 0 then found else elim (index_of_zero rest) [
        | none ↦ found
        | some end ↦
            parse_fields fuel (drop (suc end) rest)
              (insert (tag ∷ []) (utf8.decode (take end rest)) found)
      ]

  unfoldable pub parse_error_response : Buffer → Parameters
  parse_error_response payload = parse_fields (suc (length payload)) payload []

  unfoldable pub encode_parameter_status : Text → Text → Option Buffer
  encode_parameter_status name value =
      encode_message BackendMessage.parameter_status (utf8.encode (name ++ (0 ∷ (value ++ 0 ∷ []))))

  -- With no zero byte `split` is -1: the name is empty and the value starts at 0.
  unfoldable pub parse_parameter_status : Buffer → Text × Text
  parse_parameter_status payload = elim (index_of_zero payload) [
    | none ↦ (utf8.decode [], utf8.decode (take (length payload - 1) payload))
    | some split ↦ (
      utf8.decode (take split payload),
      utf8.decode (take (length payload - 1 - suc split) (drop (suc split) payload)),
    )
  ]

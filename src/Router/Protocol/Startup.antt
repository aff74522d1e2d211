-- ===== src/Router/Protocol/Startup.antt =====
-- The startup packets of apps/router/src/protocol.ts: parseStartupPacket, encodeStartupPacket and
-- encodeCancelRequest. Where the code throws, the result is `none`.
use just_postgres.Shared.{
  ℕ, zero, suc, ◌+◌, ◌||◌, Option, none, some, List, [], ◌∷◌, ◌++◌, ltb, if◌then◌else◌, ◌>>=◌,
  length, take, drop, is_empty,
}
use just_postgres.Shared.Int.{ℤ, pos, ◌==ℤ◌}
use just_postgres.Router.Bytes.{Buffer, read_int32_be, int32_be, index_of_zero}
use just_postgres.Router.Text.{Text, Utf8, insert}
use just_postgres.Router.Protocol.Codes.{ssl_request_code, gssenc_request_code, cancel_request_code}
use just_postgres.Router.Protocol.Framing.{RawMessage}

abbrev pub Parameters : Type 0
Parameters = List (Text × Text)

pub record BackendKey : Type 0 where
  pub process_id : ℤ
  pub secret_key : ℤ

pub record StartupPacket : Type 0 where
  pub code : ℤ
  pub parameters : Parameters
  pub cancel : Option BackendKey

module _ (utf8 : Utf8) where
  -- The loop over the parameters. `body` is the part from `offset` on; each round takes a byte at
  -- least, so that fuel above the length of the body is enough.
  unfoldable pub parse_parameters : ℕ → Buffer → Parameters → Option Parameters
  parse_parameters zero body found = some found
  parse_parameters (suc fuel) body found =
      if is_empty body then some found else elim (index_of_zero body) [
        | none ↦ some found
        | some key_end ↦
            if is_empty (utf8.decode (take key_end body))
            then some found
            else elim (index_of_zero (drop (suc key_end) body)) [
              | none ↦ none
              | some value_end ↦
                  parse_parameters fuel (drop (suc value_end) (drop (suc key_end) body)) (
                    insert (utf8.decode (take key_end body))
                      (utf8.decode (take value_end (drop (suc key_end) body))) found)
            ]
      ]

  unfoldable pub parse_cancel : Buffer → ℤ → Option StartupPacket
  parse_cancel payload code = if ltb (length payload) 12 then none else do
    process_id ← read_int32_be payload 4
    secret_key ← read_int32_be payload 8
    some (record {
      code = code;
      parameters = [];
      cancel = some (record { process_id = process_id; secret_key = secret_key });
    })

  unfoldable pub parse_startup_message : Buffer → ℤ → Option StartupPacket
  parse_startup_message payload code = do
    let body = drop 4 payload
    parameters ← parse_parameters (suc (length body)) body []
    some (record { code = code; parameters = parameters; cancel = none })

  -- The rest of `parseStartupPacket`, behind the read of the code.
  unfoldable pub parse_by_code : Buffer → ℤ → Option StartupPacket
  parse_by_code payload code =
      if (code ==ℤ ssl_request_code) || (code ==ℤ gssenc_request_code)
      then some (record { code = code; parameters = []; cancel = none })
      else if code ==ℤ cancel_request_code
      then parse_cancel payload code
      else parse_startup_message payload code

  unfoldable pub parse_startup_packet : RawMessage → Option StartupPacket
  parse_startup_packet message =
      if ltb (length message.payload) 4
      then none
      else do code ← read_int32_be message.payload 0; parse_by_code message.payload code

  -- `${key}\0${value}\0`
  unfoldable pub encode_parameter : Text × Text → Buffer
  encode_parameter (key, value) = utf8.encode (key ++ (0 ∷ (value ++ 0 ∷ [])))

  unfoldable pub encode_parameters : Parameters → Buffer
  encode_parameters [] = 0 ∷ []
  encode_parameters (p ∷ ps) = encode_parameter p ++ encode_parameters ps

  unfoldable pub encode_startup_packet : ℤ → Parameters → Option Buffer
  encode_startup_packet version parameters = do
    let body = encode_parameters parameters
    size ← int32_be (pos (8 + length body))
    code ← int32_be version
    some (size ++ (code ++ body))

unfoldable pub encode_cancel_request : ℤ → ℤ → Option Buffer
encode_cancel_request process_id secret_key = do
  size ← int32_be (pos 16)
  code ← int32_be cancel_request_code
  process ← int32_be process_id
  secret ← int32_be secret_key
  some (size ++ (code ++ (process ++ secret)))

-- ===== src/Router/Tests/Wire.antt =====
-- apps/router/src/protocol.ts at concrete packets.
use mathlib.Core.List.{flatten}
use just_postgres.Shared.{◌≡◌, refl, true, false, none, some, List, [], ◌∷◌, ◌++◌, arith}
use just_postgres.Router.Bytes.{Buffer, read_int32_be}
use just_postgres.Router.Text.{text}
use just_postgres.Router.Protocol.Codes.{protocol_version_3}
use just_postgres.Router.Protocol.Framing.{
  RawMessage, MessageReader, framed, next, next_typed, reader, receive, receive_all, waiting,
}
use just_postgres.Router.Protocol.Chunks.{SameFrames}
use just_postgres.Router.Protocol.Stream.{receive-flatten, receive-raws, raws}
use just_postgres.Router.Protocol.Startup.{
  Parameters, encode_startup_packet, parse_startup_packet, encode_parameters, encode_parameter,
}
use just_postgres.Router.Protocol.StartupRoundTrip.{next-encode_startup_packet}
use just_postgres.Router.Tests.Codec.{codec, printable}

abbrev fresh : MessageReader
fresh = record { buffer = []; startup_phase = false }

-- A Query message with the one-byte payload 7, cut in the middle of its length.
abbrev pieces : List Buffer
pieces = (b'Q' ∷ 0 ∷ 0 ∷ []) ∷ (0 ∷ 5 ∷ 7 ∷ b'Q' ∷ []) ∷ []

framed_once :
    (receive_all fresh pieces).messages
    ≡ record { type = some b'Q'; payload = 7 ∷ []; raw = b'Q' ∷ 0 ∷ 0 ∷ 0 ∷ 5 ∷ 7 ∷ [] } ∷ []
unfolding receive_all receive just_postgres.Router.Protocol.Framing.push
    just_postgres.Router.Protocol.Framing.frame_all next next_typed
    just_postgres.Router.Protocol.Framing.cut_typed read_int32_be
framed_once = refl

receive-flatten_example : SameFrames (receive fresh (flatten pieces)) (receive_all fresh pieces)
unfolding next next_typed
receive-flatten_example = receive-flatten fresh pieces refl

receive-raws_example :
    raws (receive fresh (flatten pieces)) ++ (receive fresh (flatten pieces)).reader.buffer
    ≡ b'Q' ∷ 0 ∷ 0 ∷ 0 ∷ 5 ∷ 7 ∷ b'Q' ∷ []
unfolding flatten
receive-raws_example = receive-raws fresh (flatten pieces)

abbrev login : Parameters
login = (text "user", text "app.shop") ∷ (text "database", text "shop") ∷ []

next-encode_startup_packet_example :
    (out : Buffer) × (m : RawMessage) × (encode_startup_packet codec protocol_version_3 login
      ≡ some out)
    × (next (record { buffer = out ++ 1 ∷ 2 ∷ []; startup_phase = true })
        ≡ framed m (record { buffer = 1 ∷ 2 ∷ []; startup_phase = true }))
    × (parse_startup_packet codec m
        ≡ some (record { code = protocol_version_3; parameters = login; cancel = none }))
unfolding encode_parameters encode_parameter
next-encode_startup_packet_example =
    next-encode_startup_packet codec protocol_version_3 login (1 ∷ 2 ∷ []) (omega arith)
      (ground arith, ground arith, ground arith)
      (
        ground arith,
        printable (text "user") refl,
        printable (text "app.shop") refl,
        (ground arith, tt),
        (ground arith, printable (text "database") refl, printable (text "shop") refl, tt, tt),
      )
      (omega arith)

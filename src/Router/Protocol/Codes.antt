-- ===== src/Router/Protocol/Codes.antt =====
-- The constants of apps/router/src/protocol.ts.
use just_postgres.Shared.{ℕ, ◌*◌}
use just_postgres.Shared.Int.{ℤ, pos}

abbrev pub ssl_request_code : ℤ
ssl_request_code = pos 80877103

abbrev pub gssenc_request_code : ℤ
gssenc_request_code = pos 80877104

abbrev pub cancel_request_code : ℤ
cancel_request_code = pos 80877102

abbrev pub protocol_version_3 : ℤ
protocol_version_3 = pos 196608

abbrev pub max_message_bytes : ℕ
max_message_bytes = 512 * 1024 * 1024

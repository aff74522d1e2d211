-- ===== src/Router/Protocol/AuthRequest.antt =====
-- apps/router/src/protocol.ts, AuthRequest. The sub-code of an Authentication message.
use just_postgres.Shared.Int.{ℤ, pos}

abbrev pub ok : ℤ
ok = pos 0

-- ===== src/Router/Protocol/FrontendMessage.antt =====
-- apps/router/src/protocol.ts, FrontendMessage. The type bytes of frontend messages.
use just_postgres.Shared.{ℕ}

abbrev pub query : ℕ
query = 0x51

abbrev pub terminate : ℕ
terminate = 0x58

abbrev pub password_message : ℕ
password_message = 0x70

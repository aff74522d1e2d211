-- ===== src/Router/Protocol/TransactionStatus.antt =====
-- apps/router/src/protocol.ts, TransactionStatus. The status byte of ReadyForQuery.
use just_postgres.Shared.{ℕ}

abbrev pub idle : ℕ
idle = 0x49

abbrev pub in_transaction : ℕ
in_transaction = 0x54

abbrev pub failed : ℕ
failed = 0x45

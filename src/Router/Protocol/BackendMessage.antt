-- ===== src/Router/Protocol/BackendMessage.antt =====
-- apps/router/src/protocol.ts, BackendMessage. The type bytes of backend messages.
use just_postgres.Shared.{ℕ}

abbrev pub authentication : ℕ
authentication = 0x52

abbrev pub backend_key_data : ℕ
backend_key_data = 0x4b

abbrev pub parameter_status : ℕ
parameter_status = 0x53

abbrev pub ready_for_query : ℕ
ready_for_query = 0x5a

abbrev pub error_response : ℕ
error_response = 0x45

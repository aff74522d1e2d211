-- ===== src/Router/Session.antt =====
-- apps/router/src/transaction.ts, PooledSession: one client in transaction mode. A method returns
-- the new state and what it does, in order. `void this.acquire()` runs up to its `await`, which is
-- the effect `asks`; what the pool answers is the event `acquired` or `acquire_failed`.
pub mod Order
pub mod Runs
pub mod Release
use just_postgres.Shared.{
  ℕ, zero, suc, ◌&&◌, Bool, true, false, not, Option, none, some, List, [], ◌∷◌, ◌++◌, map, ◌==◌,
  if◌then◌else◌, length, is_empty,
}
use just_postgres.Router.Bytes.{Buffer, read_uint8}
use just_postgres.Router.Text.{Text, Utf8, text}
use just_postgres.Router.Protocol.BackendMessage
use just_postgres.Router.Protocol.FrontendMessage
use just_postgres.Router.Protocol.TransactionStatus
use just_postgres.Router.Protocol.Framing.{
  RawMessage, MessageReader, waiting, framed, throws, next, push, reader,
}
use just_postgres.Router.Protocol.Messages.{encode_error_response, encode_ready_for_query}

pub record PooledSession : Type 0 where
  pub holding : Option ℕ
  pub acquiring : Bool
  pub queued : List Buffer
  pub reader : MessageReader
  pub closed : Bool

pub data Effect : Type 0 where
  to_backend : ℕ → Buffer → Effect
  to_client : Buffer → Effect
  releases discards : ℕ → Effect
  asks ends crashes : Effect

abbrev pub is_type : ℕ → Option ℕ → Bool
is_type t none = false
is_type t (some u) = u == t

abbrev pub holds : Option ℕ → Bool
holds none = false
holds (some c) = true

-- `if (this.holding) this.pool.discard(this.holding)`
abbrev pub discard_held : Option ℕ → List Effect
discard_held none = []
discard_held (some c) = discards c ∷ []

-- The constructor pushes what the client sent behind its last authentication message.
unfoldable pub pooled_session : Buffer → PooledSession
pooled_session leftover = record {
  holding = none;
  acquiring = false;
  queued = [];
  reader = if is_empty leftover then reader false else push (reader false) leftover;
  closed = false;
}

unfoldable pub teardown : PooledSession → PooledSession × List Effect
teardown s =
    if s.closed
    then (s, [])
    else (record s { closed = true; holding = none }, discard_held s.holding ++ ends ∷ [])

-- A message for the backend: sent if the session holds a connection, and else queued.
abbrev pub forward_to : Option ℕ → Buffer → PooledSession → PooledSession × List Effect
forward_to (some c) raw s = (s, to_backend c raw ∷ [])
forward_to none raw s = (
  record s { queued = s.queued ++ raw ∷ []; acquiring = true },
  if s.acquiring then [] else asks ∷ [],
)

unfoldable pub forward : Buffer → PooledSession → PooledSession × List Effect
forward raw s = forward_to s.holding raw s

abbrev pub then_more : List Effect → PooledSession × List Effect → PooledSession × List Effect
then_more es (s, fs) = (s, es ++ fs)

-- The loop of `pump`; each message takes bytes, so fuel above the buffer's length is enough.
unfoldable pub pump : ℕ → PooledSession → PooledSession × List Effect
pump zero s = (s, [])
pump (suc fuel) s = if s.closed then (s, []) else elim (next s.reader) [
  | throws ↦ teardown s
  | waiting ↦ (s, [])
  | framed m rest ↦
      if is_type FrontendMessage.terminate m.type
      then teardown (record s { reader = rest })
      else then_more (forward m.raw (record s { reader = rest })).1
          (pump fuel (forward m.raw (record s { reader = rest })).0)
]

unfoldable pub on_client_data : Buffer → PooledSession → PooledSession × List Effect
on_client_data chunk s =
    let s' : PooledSession = record s { reader = push s.reader chunk } in
    pump (suc (length s'.reader.buffer)) s'

-- The `finally` of `acquire`.
unfoldable pub finish_acquire : PooledSession → PooledSession × List Effect
finish_acquire s = elim s.holding [
  | none ↦ (record s { acquiring = false }, [])
  | some c ↦
      if not s.closed && not (is_empty s.queued)
      then (record s { acquiring = false; queued = [] }, map (to_backend c) s.queued)
      else (record s { acquiring = false }, [])
]

-- `acquire` behind its `await`, with the connection.
unfoldable pub acquired : ℕ → PooledSession → PooledSession × List Effect
acquired c s =
    if s.closed
    then then_more (releases c ∷ []) (finish_acquire s)
    else then_more (map (to_backend c) s.queued)
        (finish_acquire (record s { holding = some c; queued = [] }))

abbrev pub written : Option Buffer → List Effect
written none = []
written (some bytes) = to_client bytes ∷ []

module _ (utf8 : Utf8) where
  -- `acquire` behind its `await`, with the error's message.
  unfoldable pub acquire_failed : Text → PooledSession → PooledSession × List Effect
  acquire_failed message s =
      then_more
        (if s.closed
          then []
          else written (
              encode_error_response utf8 (record {
                severity = none;
                code = text "53300";
                message = message;
                detail = none;
                hint = some (text "Raise JP_POOL_SIZE, or use the direct connection string.");
              }))
            ++ written (encode_ready_for_query TransactionStatus.idle))
        (finish_acquire (record s { queued = [] }))

-- `onServerMessage` behind the read of the transaction status.
unfoldable pub on_ready : ℕ → ℕ → PooledSession → PooledSession × List Effect
on_ready c status s =
    if not (status == TransactionStatus.idle)
    then (s, [])
    else if not (is_empty s.queued) && not s.acquiring
    then (record s { holding = none; acquiring = true }, releases c ∷ asks ∷ [])
    else (record s { holding = none }, releases c ∷ [])

-- A ReadyForQuery with no status byte throws out of the socket's handler.
unfoldable pub on_server_message : ℕ → RawMessage → PooledSession → PooledSession × List Effect
on_server_message c m s =
    if s.closed
    then (s, [])
    else if not (is_type BackendMessage.ready_for_query m.type)
    then (s, to_client m.raw ∷ [])
    else elim (read_uint8 m.payload 0) [
      | none ↦ (s, to_client m.raw ∷ crashes ∷ [])
      | some status ↦ then_more (to_client m.raw ∷ []) (on_ready c status s)
    ]

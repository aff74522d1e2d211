-- ===== src/Router/Session/Release.antt =====
-- apps/router/src/transaction.ts: when a session gives its connection back.
use just_postgres.Shared.{
  ℕ, zero, suc, ◌≡◌, refl, ap, ◌∙◌, ◌&&◌, Bool, true, false, none, some, List, [], ◌∷◌, map, arith,
  if◌then◌else◌,
}
use just_postgres.Router.Bytes.{Buffer, read_uint8}
use just_postgres.Router.Protocol.BackendMessage
use just_postgres.Router.Protocol.FrontendMessage
use just_postgres.Router.Protocol.TransactionStatus
use just_postgres.Router.Protocol.Framing.{
  RawMessage, Next, framed, throws, waiting, next, push, frame_all, receive,
}
use just_postgres.Router.Session.{
  PooledSession, Effect, to_backend, to_client, releases, discards, asks, ends, crashes, is_type,
  forward, teardown, pump, on_client_data, finish_acquire, acquired, on_ready, on_server_message,
}
use just_postgres.Router.Session.Order.{raws, pump-step, frame_all-step}

-- Whether a connection is given back to the pool for others to use.
abbrev pub gives_back : List Effect → Bool
gives_back [] = false
gives_back (releases c ∷ es) = true
gives_back (to_backend c raw ∷ es) = gives_back es
gives_back (to_client raw ∷ es) = gives_back es
gives_back (discards c ∷ es) = gives_back es
gives_back (asks ∷ es) = gives_back es
gives_back (ends ∷ es) = gives_back es
gives_back (crashes ∷ es) = gives_back es

-- ReadyForQuery outside a transaction.
abbrev pub is_idle_ready : RawMessage → Bool
is_idle_ready m =
    is_type BackendMessage.ready_for_query m.type
    && is_type TransactionStatus.idle (read_uint8 m.payload 0)

-- A message from the backend makes an open session give its connection back exactly when it is a
-- ReadyForQuery outside a transaction; the session then holds none, and otherwise is unchanged.
pub on_server_message_releases :
    (c : ℕ) (m : RawMessage) (s : PooledSession)
    → s.closed ≡ false
    → (gives_back (on_server_message c m s).1 ≡ is_idle_ready m)
      × ((on_server_message c m s).0.holding ≡ (if is_idle_ready m then none else s.holding))
      × ((on_server_message c m s).0.queued ≡ s.queued)
unfolding on_server_message on_ready
on_server_message_releases c m s o = ground arith

-- A client that goes away while its session holds a connection has it discarded and never given
-- back; a second teardown does nothing; and a connection that arrives after the teardown goes
-- back to the pool at once, with nothing sent on it.
pub teardown_lem :
    (c d : ℕ) (s : PooledSession)
    → s.closed ≡ false
    → s.holding ≡ some c
    → ((teardown s).1 ≡ discards c ∷ ends ∷ [])
      × (teardown (teardown s).0 ≡ ((teardown s).0, []))
      × ((acquired d (teardown s).0).1 ≡ releases d ∷ [])
      × ((acquired d (teardown s).0).0.holding ≡ none)
unfolding teardown acquired finish_acquire
teardown_lem c d s o h = ground arith

abbrev pub NoTerminate : List RawMessage → Type 0
NoTerminate [] = Unit
NoTerminate (m ∷ ms) = (is_type FrontendMessage.terminate m.type ≡ false) × NoTerminate ms

forward-holding :
    (raw : Buffer) (c : ℕ) (s : PooledSession)
    → s.holding ≡ some c
    → forward raw s ≡ (s, to_backend c raw ∷ [])
unfolding forward
forward-holding raw c s h = ground arith

pump-holding :
    (fuel c : ℕ) (s : PooledSession) (n : Next)
    → next s.reader ≡ n
    → s.holding ≡ some c
    → s.closed ≡ false
    → (frame_all fuel s.reader).failed ≡ false
    → NoTerminate (frame_all fuel s.reader).messages
    → pump fuel s ≡ (
      record s { reader = (frame_all fuel s.reader).reader },
      map (to_backend c) (raws (frame_all fuel s.reader).messages),
    )
unfolding pump frame_all
pump-holding zero c s n e h o f k = refl
pump-holding (suc fuel) c s waiting e h o f k = ground arith
pump-holding (suc fuel) c s throws e h o f k = ground arith
pump-holding (suc fuel) c s (framed m rest) e h o f k =
    let s' : PooledSession = record s { reader = rest } in
    let all = frame_all-step fuel s m rest e in
    let (other, others) = rw all at k in
    rw (
      pump-step fuel s m rest e o other,
      all,
      forward-holding m.raw c s' h,
      pump-holding fuel c s' (next rest) refl h o (rw all at f) others,
    )

-- The whole data event: every message goes to the connection at once.
on_client_data-holding :
    (c : ℕ) (chunk : Buffer) (s : PooledSession)
    → s.holding ≡ some c
    → s.closed ≡ false
    → (receive s.reader chunk).failed ≡ false
    → NoTerminate (receive s.reader chunk).messages
    → on_client_data chunk s ≡ (
      record s { reader = (receive s.reader chunk).reader },
      map (to_backend c) (raws (receive s.reader chunk).messages),
    )
unfolding on_client_data receive
on_client_data-holding c chunk s h o f k =
    pump-holding _ c (record s { reader = push s.reader chunk }) _ refl h o f k

idle_release :
    (c : ℕ) (ready : RawMessage) (s : PooledSession)
    → s.closed ≡ false
    → s.queued ≡ []
    → is_idle_ready ready ≡ true
    → (on_server_message c ready s).1 ≡ to_client ready.raw ∷ releases c ∷ []
unfolding on_server_message on_ready
idle_release c ready s o q r = ground arith

-- However many messages a client sends at once on the connection that it holds, all of them go
-- to the backend at once, and the first ReadyForQuery outside a transaction gives the connection
-- back to the pool: the session does not wait for the replies to the messages behind the first.
pub pipelined_release :
    (c : ℕ) (chunk : Buffer) (s : PooledSession) (ready : RawMessage)
    → s.holding ≡ some c
    → s.closed ≡ false
    → s.queued ≡ []
    → (receive s.reader chunk).failed ≡ false
    → NoTerminate (receive s.reader chunk).messages
    → is_idle_ready ready ≡ true
    → ((on_client_data chunk s).1 ≡ map (to_backend c) (raws (receive s.reader chunk).messages))
      × ((on_server_message c ready (on_client_data chunk s).0).1
          ≡ to_client ready.raw ∷ releases c ∷ [])
pipelined_release c chunk s ready h o q f k r =
    let sent = on_client_data-holding c chunk s h o f k in
    (
      ap (λ t. t.1) sent,
      ap (λ t. (on_server_message c ready t.0).1) sent
          ∙ idle_release c ready (record s { reader = (receive s.reader chunk).reader }) o q r,
    )

-- ===== src/Router/Framed.antt =====
-- apps/router/src/framed.ts, FramedStream: messages awaited from a socket. `resolveNext` and
-- `rejectNext` are set and cleared together: `is_awaited` is whether they are. What settles a
-- promise is a result; the listeners of the socket are the events that reach `on_data`, `on_end`
-- and `on_error` until `detach`.
pub mod Delivery
use just_postgres.Shared.{Bool, true, false, Option, none, some, [], if◌then◌else◌}
use just_postgres.Router.Bytes.{Buffer}
use just_postgres.Router.Protocol.Framing.{
  RawMessage, MessageReader, waiting, throws, framed, push, drain, enter_message_phase,
}
use just_postgres.Router.Protocol.Framing as Framing

pub record FramedStream : Type 0 where
  pub reader : MessageReader
  pub is_awaited : Bool
  pub ended : Bool
  pub has_failed : Bool
  pub detached : Bool

-- What becomes of the promise of `next`.
pub data Settled : Type 0 where
  unsettled : Settled
  delivers : RawMessage → Settled
  delivers_null : Settled
  rejects : Settled

unfoldable pub framed_stream : Bool → FramedStream
framed_stream startup_phase = record {
  reader = record { buffer = []; startup_phase = startup_phase };
  is_awaited = false;
  ended = false;
  has_failed = false;
  detached = false;
}

unfoldable pub to_message_phase : FramedStream → FramedStream
to_message_phase s = record s { reader = enter_message_phase s.reader }

-- `next`; an error of the reader leaves it as an exception.
unfoldable pub next_message : FramedStream → FramedStream × Settled
next_message s = if s.has_failed then (s, rejects) else elim (Framing.next s.reader) [
  | throws ↦ (s, rejects)
  | framed m rest ↦ (record s { reader = rest }, delivers m)
  | waiting ↦ if s.ended then (s, delivers_null) else (record s { is_awaited = true }, unsettled)
]

unfoldable pub on_error : FramedStream → FramedStream × Settled
on_error s = (
  record s { has_failed = true; ended = true; is_awaited = false },
  if s.is_awaited then rejects else unsettled,
)

unfoldable pub on_end : FramedStream → FramedStream × Settled
on_end s = if s.ended then (s, unsettled) else (
  record s { ended = true; is_awaited = false },
  if s.is_awaited then delivers_null else unsettled,
)

-- `onData` behind the push, where a promise waits.
unfoldable pub deliver : FramedStream → FramedStream × Settled
deliver s = elim (Framing.next s.reader) [
  | throws ↦ on_error s
  | waiting ↦ (s, unsettled)
  | framed m rest ↦ (record s { reader = rest; is_awaited = false }, delivers m)
]

unfoldable pub on_data : Buffer → FramedStream → FramedStream × Settled
on_data chunk s =
    let s' : FramedStream = record s { reader = push s.reader chunk } in
    if s.is_awaited then deliver s' else (s', unsettled)

unfoldable pub buffered : FramedStream → FramedStream × Buffer
buffered s = (record s { reader = (drain s.reader).0 }, (drain s.reader).1)

unfoldable pub detach : FramedStream → FramedStream × Buffer
detach s =
    if s.detached
    then (s, [])
    else (record s { reader = (drain s.reader).0; detached = true }, (drain s.reader).1)

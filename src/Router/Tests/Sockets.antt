-- ===== src/Router/Tests/Sockets.antt =====
-- apps/router/src/framed.ts with one message and a half.
use just_postgres.Shared.{◌≡◌, refl, false, List, [], ◌∷◌, ◌++◌}
use just_postgres.Router.Bytes.{read_int32_be}
use just_postgres.Router.Protocol.Framing.{next, next_typed, cut_typed, push}
use just_postgres.Router.Framed.{FramedStream, next_message, on_data, deliver, detach}
use just_postgres.Router.Framed.Delivery.{Event, awaits, receives, run, handle, run-detach}

abbrev fresh : FramedStream
fresh = record {
  reader = record { buffer = []; startup_phase = false };
  is_awaited = false;
  ended = false;
  has_failed = false;
  detached = false;
}

-- The message is awaited before its last byte is there; the next message has begun.
abbrev events : List Event
events = receives (b'p' ∷ 0 ∷ 0 ∷ 0 ∷ []) ∷ awaits ∷ receives (5 ∷ 7 ∷ b'Q' ∷ 0 ∷ []) ∷ []

run-detach_example :
    ((run events fresh).1 ++ (detach (run events fresh).0).1
      ≡ b'p' ∷ 0 ∷ 0 ∷ 0 ∷ 5 ∷ 7 ∷ b'Q' ∷ 0 ∷ [])
    × ((detach (detach (run events fresh).0).0).1 ≡ [])
run-detach_example = run-detach events fresh refl

run-events_delivered : (run events fresh).1 ≡ b'p' ∷ 0 ∷ 0 ∷ 0 ∷ 5 ∷ 7 ∷ []
unfolding run handle on_data next_message deliver push next next_typed cut_typed read_int32_be
run-events_delivered = refl

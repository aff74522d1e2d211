-- ===== src/Router/Tests/Sessions.antt =====
-- apps/router/src/transaction.ts with one client that sends two queries.
use mathlib.Core.List.{flatten}
use just_postgres.Shared.{◌≡◌, refl, false, none, some, List, [], ◌∷◌, ◌++◌, inl, map}
use just_postgres.Router.Bytes.{Buffer, read_int32_be}
use just_postgres.Router.Protocol.Framing.{
  RawMessage, next, next_typed, cut_typed, push, frame_all, receive,
}
use just_postgres.Router.Session.{
  PooledSession, Effect, to_backend, to_client, releases, asks, acquired, forward, pump,
  on_client_data, on_server_message, on_ready, finish_acquire,
}
use just_postgres.Router.Session.Order.{IsConsistent, sent, raws}
use just_postgres.Router.Session.Runs.{
  Event, client_data, connection, server_message, run, step, chunks, run-forwards,
}
use just_postgres.Router.Session.Release.{pipelined_release}

-- Query messages with one byte each, and ReadyForQuery outside a transaction.
abbrev first_query : Buffer
first_query = b'Q' ∷ 0 ∷ 0 ∷ 0 ∷ 5 ∷ 7 ∷ []

abbrev second_query : Buffer
second_query = b'Q' ∷ 0 ∷ 0 ∷ 0 ∷ 5 ∷ 8 ∷ []

abbrev idle_ready : RawMessage
idle_ready = record {
  type = some b'Z';
  payload = b'I' ∷ [];
  raw = b'Z' ∷ 0 ∷ 0 ∷ 0 ∷ 5 ∷ b'I' ∷ [];
}

abbrev unassigned : PooledSession
unassigned = record {
  holding = none;
  acquiring = false;
  queued = [];
  reader = record { buffer = []; startup_phase = false };
  closed = false;
}

abbrev assigned : PooledSession
assigned = record unassigned { holding = some 4 }

-- The first query waits for a connection, the second arrives in two pieces.
abbrev events : List Event
events =
    client_data first_query
    ∷ connection 4
    ∷ client_data (b'Q' ∷ 0 ∷ 0 ∷ [])
    ∷ client_data (0 ∷ 5 ∷ 8 ∷ [])
    ∷ server_message 4 idle_ready
    ∷ []

run-forwards_example :
    (sent (run events unassigned).1 ++ (run events unassigned).0.queued
      ≡ raws (receive unassigned.reader (flatten (chunks events))).messages)
    × ((receive unassigned.reader (flatten (chunks events))).failed ≡ false)
    × IsConsistent (run events unassigned).0
unfolding run step on_client_data pump forward next next_typed cut_typed push read_int32_be acquired
    finish_acquire on_server_message on_ready
run-forwards_example =
    run-forwards events unassigned (tt, (refl, (tt, (tt, (refl, tt))))) (inl refl) refl refl

run-events :
    (run events unassigned).1
    ≡ asks
      ∷ to_backend 4 first_query
      ∷ to_backend 4 second_query
      ∷ to_client idle_ready.raw
      ∷ Effect.releases 4
      ∷ []
unfolding run step on_client_data pump forward next next_typed cut_typed push read_int32_be acquired
    finish_acquire on_server_message on_ready
run-events = refl

pipelined_release_example :
    ((on_client_data (first_query ++ second_query) assigned).1
      ≡ map (to_backend 4) (raws (receive assigned.reader (first_query ++ second_query)).messages))
    × ((on_server_message 4 idle_ready (on_client_data (first_query ++ second_query) assigned).0).1
        ≡ to_client idle_ready.raw ∷ releases 4 ∷ [])
unfolding receive push frame_all next next_typed cut_typed read_int32_be
pipelined_release_example =
    pipelined_release 4 (first_query ++ second_query) assigned idle_ready refl refl refl refl
      (refl, (refl, tt)) refl

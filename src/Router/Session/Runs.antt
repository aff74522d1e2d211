-- ===== src/Router/Session/Runs.antt =====
-- apps/router/src/transaction.ts: a session over any sequence of data from the client,
-- connections from the pool and messages from the backend.
use mathlib.Core.List.{flatten, map-append}
use just_postgres.Shared.{
  ℕ, zero, suc, ◌≡◌, refl, sym, ap, ◌∙◌, true, false, some, List, [], ◌∷◌, ◌++◌, map, arith,
  append_assoc, append-nil, if◌then◌else◌, length, subst, inl, inr, Bool-cases,
}
use just_postgres.Router.Bytes.{Buffer}
use just_postgres.Router.Protocol.Framing.{
  RawMessage, waiting, next, push, receive, receive_all, Frames,
}
use just_postgres.Router.Protocol.Chunks.{continue}
use just_postgres.Router.Protocol.Stream.{receive-flatten}
use just_postgres.Router.Session.{
  PooledSession, Effect, to_backend, then_more, pump, on_client_data, finish_acquire, acquired,
  on_ready, on_server_message,
}
use just_postgres.Router.Session.Order.{
  IsConsistent, IsConsistentAt, sent, sent-append, sent-map, raws, Pumped, pump-Pumped,
}

pub data Event : Type 0 where
  client_data : Buffer → Event
  connection : ℕ → Event
  server_message : ℕ → RawMessage → Event

unfoldable pub step : Event → PooledSession → PooledSession × List Effect
step (client_data chunk) s = on_client_data chunk s
step (connection c) s = acquired c s
step (server_message c m) s = on_server_message c m s

unfoldable pub run : List Event → PooledSession → PooledSession × List Effect
run [] s = (s, [])
run (e ∷ es) s = then_more (step e s).1 (run es (step e s).0)

abbrev pub chunks : List Event → List Buffer
chunks [] = []
chunks (client_data chunk ∷ es) = chunk ∷ chunks es
chunks (connection c ∷ es) = chunks es
chunks (server_message c m ∷ es) = chunks es

-- The pool answers only a session that asks, and a backend speaks only to the session that holds
-- its connection.
abbrev pub IsPossible : Event → PooledSession → Type 0
IsPossible (client_data chunk) s = Unit {0}
IsPossible (connection c) s = s.acquiring ≡ true
IsPossible (server_message c m) s = s.holding ≡ some c

abbrev pub ArePossible : List Event → PooledSession → Type 0
ArePossible [] s = Unit {0}
ArePossible (e ∷ es) s = IsPossible e s × ArePossible es (step e s).0

pump-shut : (fuel : ℕ) (s : PooledSession) → s.closed ≡ true → pump fuel s ≡ (s, [])
unfolding pump
pump-shut zero s h = refl
pump-shut (suc fuel) s h = ground arith

step-open : (e : Event) (s : PooledSession) → (step e s).0.closed ≡ false → s.closed ≡ false
unfolding step on_client_data acquired finish_acquire on_server_message on_ready
step-open (client_data chunk) s h = elim (Bool-cases s.closed) [
  | inl shut ↦
      let s' : PooledSession = record s { reader = push s.reader chunk } in
      cc (h, ap (λ r. r.0.closed) (pump-shut (suc (length s'.reader.buffer)) s' shut))
  | inr live ↦ live
]
step-open (connection c) s h = ground arith
step-open (server_message c m) s h = ground arith

run-open : (es : List Event) (s : PooledSession) → (run es s).0.closed ≡ false → s.closed ≡ false
unfolding run
run-open [] s h = h
run-open (e ∷ es) s h = step-open e s (run-open es (step e s).0 h)

acquired-open :
    (c : ℕ) (s : PooledSession)
    → s.closed ≡ false
    → acquired c s ≡ (
      record s { holding = some c; queued = []; acquiring = false },
      map (to_backend c) s.queued ++ [],
    )
unfolding acquired finish_acquire
acquired-open c s o = ground arith

-- What one event does to a session that stays open: it stays consistent, the messages that it
-- frames are those of the event's data, and none of the client's messages is lost or moved.
abbrev pub Forwards : PooledSession → PooledSession × List Effect → Frames → Type 0
Forwards s (t, es) f = Pumped s t es f

abbrev framed_by : Event → PooledSession → Frames
framed_by (client_data chunk) s = receive s.reader chunk
framed_by (connection c) s = record { messages = []; reader = s.reader; failed = false }
framed_by (server_message c m) s = record { messages = []; reader = s.reader; failed = false }

on_server_message-Pumped :
    (c : ℕ) (m : RawMessage) (s : PooledSession)
    → s.holding ≡ some c
    → IsConsistent s
    → Forwards s (on_server_message c m s) (framed_by (server_message c m) s)
unfolding on_server_message on_ready
on_server_message-Pumped c m s h i =
    let (none_queued, idle) = subst (λ k. IsConsistentAt k s.queued s.acquiring) h i in
    record {
      consistent = ground arith;
      reader = ground arith;
      failed = refl;
      forwarded = ground arith;
    }

step-Pumped :
    (e : Event) (s : PooledSession)
    → IsPossible e s
    → IsConsistent s
    → (step e s).0.closed ≡ false
    → Forwards s (step e s) (framed_by e s)
unfolding step on_client_data receive
step-Pumped (client_data chunk) s p i o =
    let s' : PooledSession = record s { reader = push s.reader chunk } in
    let q =
      pump-Pumped (suc (length s'.reader.buffer)) s' _ refl i (step-open (client_data chunk) s o)
        o in
    record {
      consistent = q.consistent;
      reader = q.reader;
      failed = q.failed;
      forwarded = q.forwarded;
    }
step-Pumped (connection c) s p i o = rw (acquired-open c s (step-open (connection c) s o)) (record {
  consistent = (refl, refl);
  reader = refl;
  failed = refl;
  forwarded = simp (append-nil, sent-map);
})
step-Pumped (server_message c m) s p i o = on_server_message-Pumped c m s p i

Pumped-then :
    (s t u : PooledSession) (es fs : List Effect) (f g : Frames)
    → Pumped s t es f
    → Pumped t u fs g
    → Pumped s u (es ++ fs) (continue f g)
Pumped-then s t u es fs f g p q =
    let ordered : sent (es ++ fs) ++ u.queued ≡ s.queued ++ raws (f.messages ++ g.messages) =
      ap (λ l. l ++ u.queued) (sent-append es fs)
      ∙ append_assoc (sent es) (sent fs) u.queued
      ∙ ap (λ l. sent es ++ l) q.forwarded
      ∙ sym (append_assoc (sent es) t.queued (raws g.messages))
      ∙ ap (λ l. l ++ raws g.messages) p.forwarded
      ∙ append_assoc s.queued (raws f.messages) (raws g.messages)
      ∙ ap (λ l. s.queued ++ l) (sym (map-append (λ m. m.raw) f.messages g.messages)) in
    subst
      (λ b.
        Pumped s u (es ++ fs) (if b then f else record g { messages = f.messages ++ g.messages }))
      (sym p.failed)
      (record {
        consistent = q.consistent;
        reader = q.reader;
        failed = q.failed;
        forwarded = ordered;
      })

receive_all-event :
    (e : Event) (es : List Event) (s : PooledSession)
    → continue (framed_by e s) (receive_all (framed_by e s).reader (chunks es))
      ≡ receive_all s.reader (chunks (e ∷ es))
unfolding receive_all
receive_all-event (client_data chunk) es s = refl
receive_all-event (connection c) es s = refl
receive_all-event (server_message c m) es s = refl

run-Pumped :
    (es : List Event) (s : PooledSession)
    → ArePossible es s
    → IsConsistent s
    → (run es s).0.closed ≡ false
    → Pumped s (run es s).0 (run es s).1 (receive_all s.reader (chunks es))
unfolding run
run-Pumped [] s p i o =
    unfold receive_all in
    record { consistent = i; reader = refl; failed = refl; forwarded = sym (append-nil s.queued) }
run-Pumped (e ∷ es) s (p, ps) i o =
    let t : PooledSession = (step e s).0 in
    let here = step-Pumped e s p i (run-open es t o) in
    let later = run-Pumped es t ps here.consistent o in
    let later' : Pumped t (run es t).0 (run es t).1
        (receive_all (framed_by e s).reader (chunks es)) =
      subst (λ r. Pumped t (run es t).0 (run es t).1 (receive_all r (chunks es))) here.reader
        later in
    subst (Pumped s (run es t).0 ((step e s).1 ++ (run es t).1)) (receive_all-event e es s)
      (Pumped-then s t (run es t).0 (step e s).1 (run es t).1 _ _ here later')

-- Over any possible run of events that leaves a session open, the backends together got, in
-- order and each once, the messages of the client that were queued before and those framed from
-- all the data that came, up to what is still queued; the messages do not depend on how the data
-- was cut into chunks; and what is queued waits for a connection that was asked for.
pub run-forwards :
    (es : List Event) (s : PooledSession)
    → ArePossible es s
    → IsConsistent s
    → next s.reader ≡ waiting
    → (run es s).0.closed ≡ false
    → (sent (run es s).1 ++ (run es s).0.queued
        ≡ s.queued ++ raws (receive s.reader (flatten (chunks es))).messages)
      × ((receive s.reader (flatten (chunks es))).failed ≡ false)
      × IsConsistent (run es s).0
run-forwards es s p i w o =
    let all = run-Pumped es s p i o in
    let same = receive-flatten s.reader (chunks es) w in
    (
      all.forwarded ∙ ap (λ ms. s.queued ++ raws ms) (sym same.messages),
      same.failed ∙ all.failed,
      all.consistent,
    )

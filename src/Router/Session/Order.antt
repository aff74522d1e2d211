-- ===== src/Router/Session/Order.antt =====
-- apps/router/src/transaction.ts: the backend gets the client's messages in order, each once.
use just_postgres.Shared.{
  ℕ, zero, suc, ◌≡◌, refl, sym, ap, ◌∙◌, Bool, true, false, Option, none, some, List, [], ◌∷◌, ◌++◌,
  map, arith, append_assoc, append-nil, subst, Bool-cases, inl, inr, ◌⊎◌,
}
use just_postgres.Router.Bytes.{Buffer}
use just_postgres.Router.Protocol.FrontendMessage
use just_postgres.Router.Protocol.Framing.{
  RawMessage, MessageReader, Next, waiting, framed, throws, next, frame_all, Frames, prepend,
}
use just_postgres.Router.Session.{
  PooledSession, Effect, to_backend, to_client, releases, discards, asks, ends, crashes, is_type,
  forward_to, forward, then_more, pump, teardown,
}

-- A session with a connection has nothing queued and asks for no other; what a session without
-- one has queued waits for a connection that it asked for.
abbrev pub IsConsistentAt : Option ℕ → List Buffer → Bool → Type 0
IsConsistentAt (some c) queued acquiring = (queued ≡ []) × (acquiring ≡ false)
IsConsistentAt none queued acquiring = (queued ≡ []) ⊎ (acquiring ≡ true)

abbrev pub IsConsistent : PooledSession → Type 0
IsConsistent s = IsConsistentAt s.holding s.queued s.acquiring

-- The messages among the effects that go to a backend.
abbrev pub sent : List Effect → List Buffer
sent [] = []
sent (to_backend c raw ∷ es) = raw ∷ sent es
sent (to_client raw ∷ es) = sent es
sent (releases c ∷ es) = sent es
sent (discards c ∷ es) = sent es
sent (asks ∷ es) = sent es
sent (ends ∷ es) = sent es
sent (crashes ∷ es) = sent es

pub sent-append : (es fs : List Effect) → sent (es ++ fs) ≡ sent es ++ sent fs
sent-append [] fs = refl
sent-append (to_backend c raw ∷ es) fs = ap (◌∷◌ raw) (sent-append es fs)
sent-append (to_client raw ∷ es) fs = sent-append es fs
sent-append (releases c ∷ es) fs = sent-append es fs
sent-append (discards c ∷ es) fs = sent-append es fs
sent-append (asks ∷ es) fs = sent-append es fs
sent-append (ends ∷ es) fs = sent-append es fs
sent-append (crashes ∷ es) fs = sent-append es fs

pub sent-map : (c : ℕ) (raws : List Buffer) → sent (map (to_backend c) raws) ≡ raws
sent-map c [] = refl
sent-map c (r ∷ rs) = ap (◌∷◌ r) (sent-map c rs)

forward_to-IsConsistent :
    (h : Option ℕ) (raw : Buffer) (s : PooledSession)
    → s.holding ≡ h
    → IsConsistent s
    → IsConsistent (forward_to h raw s).0
forward_to-IsConsistent none raw s e i = rw e (inr refl)
forward_to-IsConsistent (some c) raw s e i = i

forward_to-sent :
    (h : Option ℕ) (raw : Buffer) (s : PooledSession)
    → s.holding ≡ h
    → IsConsistent s
    → sent (forward_to h raw s).1 ++ (forward_to h raw s).0.queued ≡ s.queued ++ raw ∷ []
forward_to-sent none raw s e i = ground arith
forward_to-sent (some c) raw s e i =
    let (nothing, _) = subst (λ h. IsConsistentAt h s.queued s.acquiring) e i in rw nothing

forward-IsConsistent :
    (raw : Buffer) (s : PooledSession) → IsConsistent s → IsConsistent (forward raw s).0
unfolding forward
forward-IsConsistent raw s i = forward_to-IsConsistent s.holding raw s refl i

forward-sent :
    (raw : Buffer) (s : PooledSession)
    → IsConsistent s
    → sent (forward raw s).1 ++ (forward raw s).0.queued ≡ s.queued ++ raw ∷ []
unfolding forward
forward-sent raw s i = forward_to-sent s.holding raw s refl i

forward-reader : (raw : Buffer) (s : PooledSession) → (forward raw s).0.reader ≡ s.reader
unfolding forward
forward-reader raw s = ground arith

forward-closed : (raw : Buffer) (s : PooledSession) → (forward raw s).0.closed ≡ s.closed
unfolding forward
forward-closed raw s = ground arith

abbrev pub raws : List RawMessage → List Buffer
raws = map (λ m. m.raw)

-- What a run of `pump` does to a session that it leaves open: it stays consistent, its reader is
-- where the framing loop ends, the framing did not fail, and what it sent, followed by what it
-- queued, is what was queued followed by the messages framed.
pub record Pumped (s t : PooledSession) (es : List Effect) (f : Frames) : Type 0 where
  pub consistent : IsConsistent t
  pub reader : t.reader ≡ f.reader
  pub failed : f.failed ≡ false
  pub forwarded : sent es ++ t.queued ≡ s.queued ++ raws f.messages

Pumped-forward :
    (m : RawMessage) (s t : PooledSession) (es : List Effect) (f : Frames)
    → IsConsistent s
    → Pumped (forward m.raw s).0 t es f
    → Pumped s t ((forward m.raw s).1 ++ es) (prepend m f)
Pumped-forward m s t es f i p = record {
  consistent = p.consistent;
  reader = p.reader;
  failed = p.failed;
  forwarded =
      ap (λ l. l ++ t.queued) (sent-append (forward m.raw s).1 es)
      ∙ append_assoc (sent (forward m.raw s).1) (sent es) t.queued
      ∙ ap (λ l. sent (forward m.raw s).1 ++ l) p.forwarded
      ∙ sym (append_assoc (sent (forward m.raw s).1) (forward m.raw s).0.queued (raws f.messages))
      ∙ ap (λ l. l ++ raws f.messages) (forward-sent m.raw s i)
      ∙ append_assoc s.queued (m.raw ∷ []) (raws f.messages);
}

Pumped-reader :
    (r : MessageReader) (s t : PooledSession) (es : List Effect) (f : Frames)
    → Pumped (record s { reader = r }) t es f
    → Pumped s t es f
Pumped-reader r s t es f p = record {
  consistent = p.consistent;
  reader = p.reader;
  failed = p.failed;
  forwarded = p.forwarded;
}

module _ (fuel : ℕ) (s : PooledSession) (m : RawMessage) (rest : MessageReader)
    (e : next s.reader ≡ framed m rest) where
  pub pump-step :
      s.closed ≡ false
      → is_type FrontendMessage.terminate m.type ≡ false
      → pump (suc fuel) s
        ≡ then_more
            (forward m.raw (record s { reader = rest })).1
            (pump fuel (forward m.raw (record s { reader = rest })).0)
  unfolding pump
  pump-step o other = ground arith

  pub frame_all-step : frame_all (suc fuel) s.reader ≡ prepend m (frame_all fuel rest)
  unfolding frame_all
  frame_all-step = rw (e, frame_all)

pub pump-Pumped :
    (fuel : ℕ) (s : PooledSession) (n : Next)
    → next s.reader ≡ n
    → IsConsistent s
    → s.closed ≡ false
    → (pump fuel s).0.closed ≡ false
    → Pumped s (pump fuel s).0 (pump fuel s).1 (frame_all fuel s.reader)
unfolding pump frame_all teardown
pump-Pumped zero s n e i o k = record {
  consistent = i;
  reader = refl;
  failed = refl;
  forwarded = sym (append-nil s.queued);
}
pump-Pumped (suc fuel) s waiting e i o k =
    rw (o, e, pump, frame_all)
      (record {
        consistent = i;
        reader = refl;
        failed = refl;
        forwarded = sym (append-nil s.queued);
      })
pump-Pumped (suc fuel) s throws e i o k = cc (rw (o, e, pump) at k)
pump-Pumped (suc fuel) s (framed m rest) e i o k =
    elim (Bool-cases (is_type FrontendMessage.terminate m.type)) [
      | inl final ↦ cc (rw (o, e, pump, final) at k)
      | inr other ↦
          let s' : PooledSession = record s { reader = rest } in
          let t : PooledSession = (forward m.raw s').0 in
          let step = pump-step fuel s m rest e o other in
          let k' : (pump fuel t).0.closed ≡ false = rw step at k in
          let ih =
            pump-Pumped fuel t (next t.reader) refl (forward-IsConsistent m.raw s' i)
              (forward-closed m.raw s' ∙ o) k' in
          let ih' : Pumped t (pump fuel t).0 (pump fuel t).1 (frame_all fuel rest) =
            subst (λ r. Pumped t (pump fuel t).0 (pump fuel t).1 (frame_all fuel r))
              (forward-reader m.raw s') ih in
          rw (step, frame_all-step fuel s m rest e)
            (Pumped-reader rest s _ _ _ (Pumped-forward m s' _ _ _ i ih'))
    ]

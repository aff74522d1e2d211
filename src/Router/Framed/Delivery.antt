-- ===== src/Router/Framed/Delivery.antt =====
-- apps/router/src/framed.ts: no byte is lost between the messages and the hand-over.
use just_postgres.Shared.{
  ◌≡◌, refl, sym, ap, ◌∙◌, Bool, true, false, List, [], ◌∷◌, ◌++◌, append_assoc, append-nil, arith,
  if◌then◌else◌, Bool-cases, inl, inr, is_empty,
}
use just_postgres.Router.Bytes.{Buffer}
use just_postgres.Router.Protocol.Framing.{
  RawMessage, MessageReader, Next, waiting, throws, framed, push, drain,
}
use just_postgres.Router.Protocol.Framing as Framing
use just_postgres.Router.Protocol.Chunks.{TakesOff, next-TakesOff}
use just_postgres.Router.Framed.{
  FramedStream, Settled, unsettled, delivers, delivers_null, rejects, next_message, on_error,
  on_end, deliver, on_data, detach,
}

-- What the owner of the stream and the socket do in turn.
pub data Event : Type 0 where
  awaits : Event
  receives : Buffer → Event
  ends fails : Event

unfoldable pub handle : Event → FramedStream → FramedStream × Settled
handle awaits s = next_message s
handle (receives chunk) s = on_data chunk s
handle ends s = on_end s
handle fails s = on_error s

abbrev pub delivered : Settled → Buffer
delivered unsettled = []
delivered (delivers m) = m.raw
delivered delivers_null = []
delivered rejects = []

abbrev pub received : Event → Buffer
received awaits = []
received (receives chunk) = chunk
received ends = []
received fails = []

-- The bytes of the delivered messages, in order, and the stream afterwards.
unfoldable pub run : List Event → FramedStream → FramedStream × Buffer
run [] s = (s, [])
run (e ∷ es) s = let t = handle e s in let later = run es t.0 in (later.0, delivered t.1 ++ later.1)

joined : (b chunk : Buffer) → (if is_empty b then chunk else b ++ chunk) ≡ b ++ chunk
joined [] chunk = refl
joined (x ∷ xs) chunk = refl

push-buffer : (r : MessageReader) (chunk : Buffer) → (push r chunk).buffer ≡ r.buffer ++ chunk
unfolding push
push-buffer r chunk = joined r.buffer chunk

next_message-buffer :
    (s : FramedStream) (n : Next)
    → Framing.next s.reader ≡ n
    → delivered (next_message s).1 ++ (next_message s).0.reader.buffer ≡ s.reader.buffer
unfolding next_message
next_message-buffer s waiting e = ground arith
next_message-buffer s throws e = ground arith
next_message-buffer s (framed m rest) e =
    let off : TakesOff (framed m rest) s.reader = rw e at (next-TakesOff s.reader) in
    elim (Bool-cases s.has_failed) [
      | inl f ↦ rw (f, next_message)
      | inr f ↦ rw (f, next_message, e) off.0
    ]

deliver-buffer :
    (s : FramedStream) (n : Next)
    → Framing.next s.reader ≡ n
    → delivered (deliver s).1 ++ (deliver s).0.reader.buffer ≡ s.reader.buffer
unfolding deliver on_error
deliver-buffer s waiting e = ground arith
deliver-buffer s throws e = ground arith
deliver-buffer s (framed m rest) e =
    let off : TakesOff (framed m rest) s.reader = rw e at (next-TakesOff s.reader) in
    rw (e, deliver) off.0

awaited-buffer :
    (b : Bool) (s : FramedStream)
    → delivered (if b then deliver s else (s, unsettled)).1
        ++ (if b then deliver s else (s, unsettled)).0.reader.buffer
      ≡ s.reader.buffer
awaited-buffer true s = deliver-buffer s _ refl
awaited-buffer false s = refl

handle-buffer :
    (e : Event) (s : FramedStream)
    → delivered (handle e s).1 ++ (handle e s).0.reader.buffer ≡ s.reader.buffer ++ received e
unfolding handle on_data on_end on_error
handle-buffer awaits s = next_message-buffer s _ refl ∙ sym (append-nil _)
handle-buffer (receives chunk) s =
    let s' : FramedStream = record s { reader = push s.reader chunk } in
    awaited-buffer s.is_awaited s' ∙ push-buffer s.reader chunk
handle-buffer ends s = ground (arith, append-nil s.reader.buffer)
handle-buffer fails s = ground (arith, append-nil s.reader.buffer)

handle-detached : (e : Event) (s : FramedStream) → (handle e s).0.detached ≡ s.detached
unfolding handle next_message on_data deliver on_end on_error
handle-detached awaits s = ground arith
handle-detached (receives chunk) s = ground arith
handle-detached ends s = ground arith
handle-detached fails s = ground arith

abbrev pub stream : List Event → Buffer
stream [] = []
stream (e ∷ es) = received e ++ stream es

run-buffer :
    (es : List Event) (s : FramedStream)
    → ((run es s).1 ++ (run es s).0.reader.buffer ≡ s.reader.buffer ++ stream es)
      × ((run es s).0.detached ≡ s.detached)
unfolding run
run-buffer [] s = (sym (append-nil _), refl)
run-buffer (e ∷ es) s =
    let t = handle e s in
    let (bytes, same) = run-buffer es t.0 in
    (
      append_assoc (delivered t.1) _ _
          ∙ ap (◌++◌ (delivered t.1)) bytes
          ∙ sym (append_assoc (delivered t.1) _ _)
          ∙ ap (λ b. b ++ stream es) (handle-buffer e s)
          ∙ append_assoc s.reader.buffer _ _,
      same ∙ handle-detached e s,
    )

-- Whatever is awaited and however the bytes arrive, an end or an error in between included, the
-- messages that were delivered and the bytes that `detach` hands over are together the bytes that
-- the socket gave, in order; and a second `detach` hands over nothing.
pub run-detach :
    (es : List Event) (s : FramedStream)
    → s.detached ≡ false
    → ((run es s).1 ++ (detach (run es s).0).1 ≡ s.reader.buffer ++ stream es)
      × ((detach (detach (run es s).0).0).1 ≡ [])
unfolding detach drain
run-detach es s d =
    let (bytes, same) = run-buffer es s in
    let attached : (run es s).0.detached ≡ false = same ∙ d in
    (rw (attached, detach) bytes, rw (attached, detach))

-- When the socket ends, a message that is awaited is answered by null, once: a second end answers
-- nothing, and what is awaited later is answered by null when no whole message is buffered.
pub on_end-next_message :
    (s : FramedStream)
    → s.is_awaited ≡ true
    → s.ended ≡ false
    → s.has_failed ≡ false
    → Framing.next s.reader ≡ waiting
    → ((on_end s).1 ≡ delivers_null)
      × ((on_end (on_end s).0).1 ≡ unsettled)
      × ((next_message (on_end s).0).1 ≡ delivers_null)
unfolding on_end next_message
on_end-next_message s a e f n = ground arith

-- ===== src/Router/Protocol/Stream.antt =====
-- MessageReader over the life of a connection: the messages depend on the bytes, not on the chunks.
use mathlib.Core.List.{flatten}
use just_postgres.Shared.{
  ℕ, zero, suc, map, ◌≡◌, refl, sym, ap, inl, inr, List, [], ◌∷◌, ◌++◌, append-nil, append_assoc,
  arith, Bool-cases, ◌∙◌,
}
use just_postgres.Router.Bytes.{Buffer}
use just_postgres.Router.Protocol.Framing.{
  MessageReader, Next, framed, throws, waiting, next, Frames, frame_all, receive, receive_all,
}
use just_postgres.Router.Protocol.Chunks.{
  more, continue, TakesOff, next-TakesOff, SameFrames, frame_all-more, receive-more,
  receive-settled,
}

SameFrames-continue :
    (f later later' : Frames)
    → SameFrames later later'
    → SameFrames (continue f later) (continue f later')
SameFrames-continue f later later' s = elim (Bool-cases f.failed) [
  | inl stop ↦ rw stop (record { messages = refl; failed = refl; reader = λ _. refl })
  | inr go ↦
      rw go (record {
        messages = ap (◌++◌ f.messages) s.messages;
        failed = s.failed;
        reader = s.reader;
      })
]

SameFrames-trans : {f g h : Frames} → SameFrames f g → SameFrames g h → SameFrames f h
SameFrames-trans s t = record {
  messages = s.messages ∙ t.messages;
  failed = s.failed ∙ t.failed;
  reader = λ ok. s.reader ok ∙ t.reader (sym s.failed ∙ ok);
}

-- One data event with two chunks' bytes is two data events.
receive-append :
    (r : MessageReader) (a b : Buffer)
    → SameFrames (receive r (a ++ b)) (continue (receive r a) (receive (receive r a).reader b))
receive-append r a b =
    rw
      (
        receive-more r (a ++ b),
        receive-more (receive r a).reader b,
        receive-more r a,
        ← append_assoc r.buffer a b,
      )
      (frame_all-more _ _ _ (more r a) b _ refl (omega arith) (omega arith) (omega arith))

more-nil : (r : MessageReader) → more r [] ≡ r
more-nil r = ground (arith, append-nil r.buffer)

receive-nil : (r : MessageReader) → next r ≡ waiting → SameFrames (receive r []) (receive_all r [])
unfolding receive_all frame_all
receive-nil r e =
    rw (receive-more r [], more-nil r, frame_all, e)
      (record { messages = refl; failed = refl; reader = λ _. more-nil r })

receive_all-cons :
    (r : MessageReader) (chunk : Buffer) (chunks : List Buffer)
    → receive_all r (chunk ∷ chunks)
      ≡ continue (receive r chunk) (receive_all (receive r chunk).reader chunks)
unfolding receive_all
receive_all-cons r chunk chunks = refl

-- However the network cuts a byte stream into chunks, a reader at a message boundary or inside a
-- message frames the same messages, fails in the same case, and if it does not fail buffers the
-- same rest as if all the bytes had come at once.
pub receive-flatten :
    (r : MessageReader) (chunks : List Buffer)
    → next r ≡ waiting
    → SameFrames (receive r (flatten chunks)) (receive_all r chunks)
unfolding flatten
receive-flatten r [] e = receive-nil r e
receive-flatten r (chunk ∷ chunks) e = rw (receive_all-cons r chunk chunks) (
    SameFrames-trans (receive-append r chunk (flatten chunks))
      (elim (Bool-cases (receive r chunk).failed) [
        | inl stop ↦ rw stop (record { messages = refl; failed = refl; reader = λ _. refl })
        | inr go ↦
            SameFrames-continue (receive r chunk) _ _
              (receive-flatten (receive r chunk).reader chunks (receive-settled r chunk go))
      ]))

abbrev pub raws : Frames → Buffer
raws f = flatten (map (λ m. m.raw) f.messages)

frame_all-raws :
    (f : ℕ) (r : MessageReader) (n : Next)
    → next r ≡ n
    → raws (frame_all f r) ++ (frame_all f r).reader.buffer ≡ r.buffer
unfolding frame_all flatten
frame_all-raws zero r n e = refl
frame_all-raws (suc f) r waiting e = rw (e, frame_all)
frame_all-raws (suc f) r throws e = rw (e, frame_all)
frame_all-raws (suc f) r (framed m rest) e =
    let off : TakesOff (framed m rest) r = rw e at (next-TakesOff r) in
    rw (e, frame_all)
      (append_assoc m.raw _ _ ∙ ap (◌++◌ m.raw) (frame_all-raws f rest _ refl) ∙ off.0)

-- The framed messages, forwarded verbatim, followed by what is still buffered, are exactly the
-- bytes that were buffered before followed by the chunk: no byte is lost, repeated or reordered.
pub receive-raws :
    (r : MessageReader) (chunk : Buffer)
    → raws (receive r chunk) ++ (receive r chunk).reader.buffer ≡ r.buffer ++ chunk
receive-raws r chunk = rw (receive-more r chunk) (frame_all-raws _ (more r chunk) _ refl)

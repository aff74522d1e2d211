-- ===== src/Router/Protocol/Chunks.antt =====
-- The framing does not depend on where the network cuts the byte stream.
use just_postgres.Shared.{
  ℕ, zero, suc, ◌+◌, ◌≤◌, ◌<◌, ◌≡◌, refl, ap, inl, inr, Bool, true, false, Option, none, some, ◌∷◌,
  ◌++◌, arith, ltb, Bool-cases, Option-cases, if◌then◌else◌, length, get_elem?-append,
  length-append, length-drop, take-append-drop, take-append, drop-append,
}
use just_postgres.Shared.Int.{ℤ, pos, negsuc}
use just_postgres.Router.Bytes.{Buffer, read_int32_be, read_int32_be-append}
use just_postgres.Router.Protocol.Framing.{
  RawMessage, MessageReader, Next, waiting, framed, throws, cut_startup, next_startup, cut_typed,
  next_typed, next, push, Frames, prepend, frame_all, receive,
}

abbrev pub more : MessageReader → Buffer → MessageReader
more r bytes = record r { buffer = r.buffer ++ bytes }

-- What more bytes behind the buffer do to a result: nothing but to the bytes left over.
abbrev pub Extends : Next → Buffer → Next → Type 0
Extends waiting bytes n = Unit {0}
Extends throws bytes n = n ≡ throws
Extends (framed m r) bytes n = n ≡ framed m (more r bytes)

cut_startup-Extends :
    (r : MessageReader) (bytes : Buffer) (n : ℤ)
    → Extends (cut_startup r n) bytes (cut_startup (more r bytes) n)
unfolding cut_startup
cut_startup-Extends r bytes (negsuc n) = refl
cut_startup-Extends r bytes (pos n) = ground (
  arith,
  take-append n r.buffer bytes,
  drop-append n r.buffer bytes,
  length-append r.buffer bytes,
)

cut_typed-Extends :
    (r : MessageReader) (bytes : Buffer) (n : ℤ)
    → 0 < length r.buffer
    → Extends (cut_typed r n) bytes (cut_typed (more r bytes) n)
unfolding cut_typed
cut_typed-Extends r bytes (negsuc n) h = refl
cut_typed-Extends r bytes (pos n) h = ground (
  arith,
  take-append (n + 1) r.buffer bytes,
  drop-append (n + 1) r.buffer bytes,
  get_elem?-append r.buffer bytes 0,
  length-append r.buffer bytes,
)

next_startup-Extends :
    (r : MessageReader) (bytes : Buffer)
    → Extends (next_startup r) bytes (next_startup (more r bytes))
unfolding next_startup
next_startup-Extends r bytes = elim (Bool-cases (ltb (length r.buffer) 4)) [
  | inl short ↦ rw short tt
  | inr long ↦
      let enough : 4 ≤ length r.buffer = ground arith in
      let whole : ltb (length (r.buffer ++ bytes)) 4 ≡ false =
        ground (arith, length-append r.buffer bytes) in
      rw (long, whole, read_int32_be-append r.buffer bytes 0 enough)
        (elim (Option-cases (read_int32_be r.buffer 0)) [
          | inl e ↦ rw e refl
          | inr (n, e) ↦ rw e (cut_startup-Extends r bytes n)
        ])
]

next_typed-Extends :
    (r : MessageReader) (bytes : Buffer) → Extends (next_typed r) bytes (next_typed (more r bytes))
unfolding next_typed
next_typed-Extends r bytes = elim (Bool-cases (ltb (length r.buffer) 5)) [
  | inl short ↦ rw short tt
  | inr long ↦
      let enough : 5 ≤ length r.buffer = ground arith in
      let whole : ltb (length (r.buffer ++ bytes)) 5 ≡ false =
        ground (arith, length-append r.buffer bytes) in
      rw (long, whole, read_int32_be-append r.buffer bytes 1 (omega arith))
        (elim (Option-cases (read_int32_be r.buffer 1)) [
          | inl e ↦ rw e refl
          | inr (n, e) ↦ rw e (cut_typed-Extends r bytes n (omega arith))
        ])
]

Extends-if :
    (b : Bool) (bytes : Buffer) (x y x' y' : Next)
    → Extends x bytes x'
    → Extends y bytes y'
    → Extends (if b then x else y) bytes (if b then x' else y')
Extends-if true bytes x y x' y' h k = h
Extends-if false bytes x y x' y' h k = k

-- More bytes behind the buffer change no message and no error.
pub next-Extends :
    (r : MessageReader) (bytes : Buffer) → Extends (next r) bytes (next (more r bytes))
unfolding next
next-Extends r bytes =
    Extends-if r.startup_phase bytes _ _ _ _ (next_startup-Extends r bytes)
      (next_typed-Extends r bytes)

-- A message is taken off the front of the buffer, four bytes at least.
abbrev pub TakesOff : Next → MessageReader → Type 0
TakesOff waiting r = Unit {0}
TakesOff throws r = Unit {0}
TakesOff (framed m rest) r =
    (m.raw ++ rest.buffer ≡ r.buffer)
    × (length rest.buffer + 4 ≤ length r.buffer)
    × (rest.startup_phase ≡ r.startup_phase)

cut_startup-TakesOff : (r : MessageReader) (n : ℤ) → TakesOff (cut_startup r n) r
unfolding cut_startup
cut_startup-TakesOff r (negsuc n) = tt
cut_startup-TakesOff r (pos n) = ground (arith, take-append-drop n r.buffer, length-drop n r.buffer)

cut_typed-TakesOff : (r : MessageReader) (n : ℤ) → TakesOff (cut_typed r n) r
unfolding cut_typed
cut_typed-TakesOff r (negsuc n) = tt
cut_typed-TakesOff r (pos n) =
    ground (arith, take-append-drop (n + 1) r.buffer, length-drop (n + 1) r.buffer)

TakesOff-read :
    (r : MessageReader) (short : Bool) (length : Option ℤ) (cut : ℤ → Next)
    → ((n : ℤ) → TakesOff (cut n) r)
    → TakesOff (if short then waiting else elim length [ none ↦ throws | some n ↦ cut n ]) r
TakesOff-read r true length cut h = tt
TakesOff-read r false none cut h = tt
TakesOff-read r false (some n) cut h = h n

TakesOff-if :
    (r : MessageReader) (b : Bool) (x y : Next)
    → TakesOff x r
    → TakesOff y r
    → TakesOff (if b then x else y) r
TakesOff-if r true x y h k = h
TakesOff-if r false x y h k = k

pub next-TakesOff : (r : MessageReader) → TakesOff (next r) r
unfolding next next_startup next_typed
next-TakesOff r =
    TakesOff-if r r.startup_phase _ _ (TakesOff-read r _ _ (cut_startup r) (cut_startup-TakesOff r))
      (TakesOff-read r _ _ (cut_typed r) (cut_typed-TakesOff r))

-- Any fuel above the number of buffered bytes gives the same frames.
frame_all_fuel :
    (f g : ℕ) (r : MessageReader) (n : Next)
    → next r ≡ n
    → length r.buffer < f
    → length r.buffer < g
    → frame_all f r ≡ frame_all g r
unfolding frame_all
frame_all_fuel zero g r n e h k = elim h [ ]
frame_all_fuel (suc f) zero r n e h k = elim k [ ]
frame_all_fuel (suc f) (suc g) r waiting e h k = rw (e, frame_all)
frame_all_fuel (suc f) (suc g) r throws e h k = rw (e, frame_all)
frame_all_fuel (suc f) (suc g) r (framed m rest) e h k =
    let off : TakesOff (framed m rest) r = rw e at (next-TakesOff r) in
    rw (e, frame_all)
      (ap (prepend m) (frame_all_fuel f g rest (next rest) refl (omega arith) (omega arith)))

-- What one run of the loop leaves for the next: after an error nothing is read any more.
abbrev pub continue : Frames → Frames → Frames
continue f later = if f.failed then f else record later { messages = f.messages ++ later.messages }

-- The same messages and the same outcome, and the same reader unless the framing failed.
pub record SameFrames (f g : Frames) : Type 0 where
  pub messages : f.messages ≡ g.messages
  pub failed : f.failed ≡ g.failed
  pub reader : f.failed ≡ false → f.reader ≡ g.reader

SameFrames-prepend :
    (m : RawMessage) (f g : Frames) → SameFrames f g → SameFrames (prepend m f) (prepend m g)
SameFrames-prepend m f g s = record {
  messages = ap (◌∷◌ m) s.messages;
  failed = s.failed;
  reader = s.reader;
}

SameFrames-refl : (f : Frames) → SameFrames f f
SameFrames-refl f = record { messages = refl; failed = refl; reader = λ _. refl }

continue-prepend :
    (m : RawMessage) (f later : Frames)
    → continue (prepend m f) later ≡ prepend m (continue f later)
continue-prepend m f later = ground arith

-- To frame the bytes of two chunks is to frame the first chunk, and then the second behind what
-- the first left over.
pub frame_all-more :
    (f g h : ℕ) (r : MessageReader) (bytes : Buffer) (n : Next)
    → next r ≡ n
    → length r.buffer < f
    → length (r.buffer ++ bytes) < g
    → length ((frame_all f r).reader.buffer ++ bytes) < h
    → SameFrames
        (frame_all g (more r bytes))
        (continue (frame_all f r) (frame_all h (more (frame_all f r).reader bytes)))
unfolding frame_all
frame_all-more zero g h r bytes n e p q s = elim p [ ]
frame_all-more (suc f) g h r bytes waiting e p q s =
    rw (e, frame_all)
      (rw (frame_all_fuel g h (more r bytes) _ refl q (rw (e, frame_all) at s))
        (SameFrames-refl (frame_all h (more r bytes))))
frame_all-more (suc f) zero h r bytes n e p q s = elim q [ ]
frame_all-more (suc f) (suc g) h r bytes throws e p q s =
    let e' : next (more r bytes) ≡ throws = rw e at (next-Extends r bytes) in
    rw (e', e, frame_all) (record { messages = refl; failed = refl; reader = λ ended. cc })
frame_all-more (suc f) (suc g) h r bytes (framed m rest) e p q s =
    let e' : next (more r bytes) ≡ framed m (more rest bytes) = rw e at (next-Extends r bytes) in
    let off : TakesOff (framed m rest) r = rw e at (next-TakesOff r) in
    let shorter : length (rest.buffer ++ bytes) < length (r.buffer ++ bytes) =
      omega (arith, length-append rest.buffer bytes, length-append r.buffer bytes) in
    rw (e', e, frame_all, continue-prepend)
      (SameFrames-prepend m _ _ (
        frame_all-more f g h rest bytes (next rest) refl (omega arith) (omega arith)
          (rw (e, frame_all) at s)))

frame_all-settled :
    (f : ℕ) (r : MessageReader) (n : Next)
    → next r ≡ n
    → length r.buffer < f
    → (frame_all f r).failed ≡ false
    → next (frame_all f r).reader ≡ waiting
unfolding frame_all
frame_all-settled zero r n e p k = elim p [ ]
frame_all-settled (suc f) r waiting e p k = rw (e, frame_all) e
frame_all-settled (suc f) r throws e p k = cc (rw (e, frame_all) at k)
frame_all-settled (suc f) r (framed m rest) e p k =
    let off : TakesOff (framed m rest) r = rw e at (next-TakesOff r) in
    rw (e, frame_all)
      (frame_all-settled f rest (next rest) refl (omega arith) (rw (e, frame_all) at k))

push-more : (r : MessageReader) (chunk : Buffer) → push r chunk ≡ more r chunk
unfolding push
push-more r chunk = ground arith

pub receive-more :
    (r : MessageReader) (chunk : Buffer)
    → receive r chunk ≡ frame_all (suc (length (r.buffer ++ chunk))) (more r chunk)
unfolding receive
receive-more r chunk = rw (push-more r chunk)

pub receive-settled :
    (r : MessageReader) (chunk : Buffer)
    → (receive r chunk).failed ≡ false
    → next (receive r chunk).reader ≡ waiting
receive-settled r chunk ok =
    rw (receive-more r chunk)
      (frame_all-settled _ (more r chunk) _ refl (omega arith) (rw (receive-more r chunk) at ok))

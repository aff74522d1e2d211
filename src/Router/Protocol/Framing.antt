-- ===== src/Router/Protocol/Framing.antt =====
-- The class MessageReader of apps/router/src/protocol.ts, and the loop that empties it, which
-- apps/router/src/backend.ts (attach) and apps/router/src/transaction.ts (pump) write alike.
use just_postgres.Shared.{
  ℕ, zero, suc, ◌+◌, ◌||◌, Bool, true, false, Option, none, some, List, [], ◌∷◌, ◌++◌, ltb,
  if◌then◌else◌, length, take, drop, is_empty,
}
use just_postgres.Shared.Int.{ℤ, pos, negsuc}
use just_postgres.Router.Bytes.{Buffer, read_int32_be, read_uint8}
use just_postgres.Router.Protocol.Codes.{max_message_bytes}

pub record RawMessage : Type 0 where
  pub type : Option ℕ
  pub payload : Buffer
  pub raw : Buffer

pub record MessageReader : Type 0 where
  pub buffer : Buffer
  pub startup_phase : Bool

pub reader : Bool → MessageReader
reader startup_phase = record { buffer = []; startup_phase = startup_phase }

unfoldable pub enter_message_phase : MessageReader → MessageReader
enter_message_phase r = record r { startup_phase = false }

unfoldable pub push : MessageReader → Buffer → MessageReader
push r chunk = record r { buffer = if is_empty r.buffer then chunk else r.buffer ++ chunk }

unfoldable pub drain : MessageReader → MessageReader × Buffer
drain r = (record r { buffer = [] }, r.buffer)

-- What `next` does: it returns null, it returns a message, or it throws and leaves the buffer.
pub data Next : Type 0 where
  waiting : Next
  framed : RawMessage → MessageReader → Next
  throws : Next

-- `length < 4 || length > MAX_MESSAGE_BYTES` on a signed length.
abbrev pub is_implausible : ℤ → Bool
is_implausible (pos n) = ltb n 4 || ltb max_message_bytes n
is_implausible (negsuc n) = true

abbrev pub magnitude : ℤ → ℕ
magnitude (pos n) = n
magnitude (negsuc n) = 0

-- The part of `nextStartup` behind the read of the length.
unfoldable pub cut_startup : MessageReader → ℤ → Next
cut_startup r n =
    let total = magnitude n in
    let raw = take total r.buffer in
    if is_implausible n
    then throws
    else if ltb (length r.buffer) total
    then waiting
    else framed (record { type = none; payload = drop 4 raw; raw = raw })
        (record r { buffer = drop total r.buffer })

unfoldable pub next_startup : MessageReader → Next
next_startup r =
    if ltb (length r.buffer) 4
    then waiting
    else elim (read_int32_be r.buffer 0) [ none ↦ throws | some n ↦ cut_startup r n ]

-- The part of `nextTyped` behind the read of the length.
unfoldable pub cut_typed : MessageReader → ℤ → Next
cut_typed r n =
    let total = magnitude n + 1 in
    let raw = take total r.buffer in
    if is_implausible n
    then throws
    else if ltb (length r.buffer) total
    then waiting
    else framed (record { type = read_uint8 r.buffer 0; payload = drop 5 raw; raw = raw })
        (record r { buffer = drop total r.buffer })

unfoldable pub next_typed : MessageReader → Next
next_typed r =
    if ltb (length r.buffer) 5
    then waiting
    else elim (read_int32_be r.buffer 1) [ none ↦ throws | some n ↦ cut_typed r n ]

unfoldable pub next : MessageReader → Next
next r = if r.startup_phase then next_startup r else next_typed r

-- The messages that a run of `next` yields until it returns null or throws.
pub record Frames : Type 0 where
  pub messages : List RawMessage
  pub reader : MessageReader
  pub failed : Bool

abbrev pub prepend : RawMessage → Frames → Frames
prepend m f = record f { messages = m ∷ f.messages }

unfoldable pub frame_all : ℕ → MessageReader → Frames
frame_all zero r = record { messages = []; reader = r; failed = false }
frame_all (suc fuel) r = elim (next r) [
  | waiting ↦ record { messages = []; reader = r; failed = false }
  | throws ↦ record { messages = []; reader = r; failed = true }
  | framed m rest ↦ prepend m (frame_all fuel rest)
]

-- One data event. Each message takes four bytes at least, so the fuel is enough.
unfoldable pub receive : MessageReader → Buffer → Frames
receive r chunk = let r' = push r chunk in frame_all (suc (length r'.buffer)) r'

-- The data events of a socket in turn. After an error the socket is destroyed, and the rest of
-- the chunks does not arrive.
unfoldable pub receive_all : MessageReader → List Buffer → Frames
receive_all r [] = record { messages = []; reader = r; failed = false }
receive_all r (chunk ∷ chunks) =
    let f = receive r chunk in
    let later = receive_all f.reader chunks in
    if f.failed then f else record later { messages = f.messages ++ later.messages }

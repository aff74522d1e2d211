-- ===== src/Router/Protocol/StartupRoundTrip.antt =====
-- What encodeStartupPacket and encodeCancelRequest write is what MessageReader and
-- parseStartupPacket of apps/router/src/protocol.ts read back.
use just_postgres.Shared.{
  ℕ, zero, suc, ◌+◌, ◌≤◌, ◌<◌, ◌≡◌, ◌≢◌, refl, sym, ap, ◌∙◌, ◌||◌, true, false, none, some, [], ◌∷◌,
  ◌++◌, append_assoc, append-nil, arith, length, length-append, drop, is_empty, take-length,
  take_exact, drop_exact, All,
}
use just_postgres.Shared.Int.{ℤ, pos, negsuc, ◌==ℤ◌}
use just_postgres.Router.Bytes.{
  Buffer, read_int32_be, int32_be, index_of_zero, InInt32, int32_be_of_InInt32, read_be_bytes,
  be_bytes, of_int32,
}
use just_postgres.Router.Text.{
  Text, Utf8, insert, IsScalar, IsAbsent, insert_of_IsAbsent, IsAbsent-append,
}
use just_postgres.Router.Protocol.Codes.{
  ssl_request_code, gssenc_request_code, cancel_request_code, max_message_bytes,
}
use just_postgres.Router.Protocol.Framing.{RawMessage, framed, next, next_startup, cut_startup}
use just_postgres.Router.Protocol.Startup.{
  Parameters, parse_parameters, parse_startup_packet, parse_startup_message, parse_by_code,
  encode_parameter, encode_parameters, encode_startup_packet, encode_cancel_request, parse_cancel,
}

-- The first zero byte ends a text that has none.
pub index_of_zero-append :
    (xs ys : Buffer) → All (λ b. b ≢ 0) xs → index_of_zero (xs ++ 0 ∷ ys) ≡ some (length xs)
unfolding index_of_zero
index_of_zero-append [] ys h = refl
index_of_zero-append (x ∷ xs) ys h = ground (arith, index_of_zero-append xs ys h.1)

pub drop-suc : (xs ys : Buffer) → drop (suc (length xs)) (xs ++ 0 ∷ ys) ≡ ys
drop-suc [] ys = refl
drop-suc (x ∷ xs) ys = drop-suc xs ys

-- A text that a startup packet can carry: scalar values, none of them zero.
abbrev pub IsPlain : Text → Type 0
IsPlain t = All IsScalar t × All (λ c. c ≢ 0) t

-- Parameters that a startup packet can carry: no empty name, no name twice.
abbrev pub ArePlain : Parameters → Type 0
ArePlain [] = Unit
ArePlain ((k, v) ∷ ps) = (k ≢ []) × IsPlain k × IsPlain v × IsAbsent k ps × ArePlain ps

-- No name stands in both lists.
abbrev AreApart : Parameters → Parameters → Type 0
AreApart found [] = Unit
AreApart found ((k, v) ∷ ps) = IsAbsent k found × AreApart found ps

pub is_empty-append : (xs ys : Buffer) → is_empty (xs ++ 0 ∷ ys) ≡ false
is_empty-append [] ys = refl
is_empty-append (x ∷ xs) ys = refl

pub is_empty-false : (t : Text) → t ≢ [] → is_empty t ≡ false
is_empty-false [] h = absurd (h refl)
is_empty-false (x ∷ xs) h = refl

AreApart-nil : (ps : Parameters) → AreApart [] ps
AreApart-nil [] = tt
AreApart-nil (p ∷ ps) = (tt, AreApart-nil ps)

module _ (utf8 : Utf8) where
  encode_parameter-parts :
      (k v : Text) (rest : Buffer)
      → encode_parameter utf8 (k, v) ++ rest ≡ utf8.encode k ++ (0 ∷ (utf8.encode v ++ 0 ∷ rest))
  unfolding encode_parameter
  encode_parameter-parts k v rest =
      let separator = utf8.encode_append (0 ∷ []) (v ++ 0 ∷ []) in
      rw
        (
          utf8.encode_append k (0 ∷ (v ++ 0 ∷ [])),
          separator,
          utf8.encode_append v (0 ∷ []),
          utf8.encode_ascii 0 (omega arith),
        )
        (simp append_assoc)

  decode-nil : utf8.decode [] ≡ []
  decode-nil = ap utf8.decode (sym utf8.encode_nil) ∙ utf8.decode_encode [] tt

  -- One round of the loop reads one name and one value.
  parse_parameters-step :
      (fuel : ℕ) (key value rest : Buffer) (found : Parameters)
      → All (λ b. b ≢ 0) key
      → All (λ b. b ≢ 0) value
      → is_empty (utf8.decode key) ≡ false
      → parse_parameters utf8 (suc fuel) (key ++ (0 ∷ (value ++ 0 ∷ rest))) found
        ≡ parse_parameters utf8 fuel rest (insert (utf8.decode key) (utf8.decode value) found)
  unfolding parse_parameters
  parse_parameters-step fuel key value rest found h k e = simp (
    is_empty-append key (value ++ 0 ∷ rest),
    index_of_zero-append key (value ++ 0 ∷ rest) h,
    take-length key (0 ∷ (value ++ 0 ∷ rest)),
    e,
    drop-suc key (value ++ 0 ∷ rest),
    index_of_zero-append value rest k,
    take-length value (0 ∷ rest),
    drop-suc value rest,
  )

  AreApart-append :
      (found ps : Parameters) (k v : Text)
      → AreApart found ps
      → IsAbsent k ps
      → AreApart (found ++ (k, v) ∷ []) ps
  AreApart-append found [] k v h a = tt
  AreApart-append found ((j, w) ∷ ps) k v h a =
      (IsAbsent-append j k v found h.0 (λ e. a.0 (sym e)), AreApart-append found ps k v h.1 a.1)

  parse-encode_parameters :
      (fuel : ℕ) (ps found : Parameters)
      → ArePlain ps
      → AreApart found ps
      → length (encode_parameters utf8 ps) < fuel
      → parse_parameters utf8 fuel (encode_parameters utf8 ps) found ≡ some (found ++ ps)
  unfolding encode_parameters
  parse-encode_parameters zero ps found p a h = elim h [ ]
  parse-encode_parameters (suc fuel) [] found p a h =
      unfold parse_parameters index_of_zero in rw (decode-nil, append-nil found)
  parse-encode_parameters (suc fuel) ((k, v) ∷ ps) found (named, (ks, kn), (vs, vn), absent, plain)
        (new, apart) h =
      let shape = encode_parameter-parts k v (encode_parameters utf8 ps) in
      let nonempty : is_empty (utf8.decode (utf8.encode k)) ≡ false =
        rw (utf8.decode_encode k ks) (is_empty-false k named) in
      let shorter : length (encode_parameters utf8 ps) < fuel = omega (
        arith,
        ap length shape,
        length-append (utf8.encode k) (0 ∷ (utf8.encode v ++ 0 ∷ encode_parameters utf8 ps)),
        length-append (utf8.encode v) (0 ∷ encode_parameters utf8 ps),
      ) in
      rw
        (
          shape,
          parse_parameters-step fuel _ _ (encode_parameters utf8 ps) found
              (utf8.encode_nonzero k kn) (utf8.encode_nonzero v vn) nonempty,
          utf8.decode_encode k ks,
          utf8.decode_encode v vs,
          insert_of_IsAbsent k v found new,
          parse-encode_parameters fuel ps (found ++ (k, v) ∷ []) plain
              (AreApart-append found ps k v apart absent) shorter,
        )
        (ap some (append_assoc found _ ps))

  encode_startup_packet-total :
      (version : ℤ) (ps : Parameters)
      → InInt32 version
      → 8 + length (encode_parameters utf8 ps) < 2147483648
      → encode_startup_packet utf8 version ps
        ≡ some (
            be_bytes (8 + length (encode_parameters utf8 ps))
            ++ (be_bytes (of_int32 version) ++ encode_parameters utf8 ps))
  unfolding encode_startup_packet
  encode_startup_packet-total version ps v h = rw (
    int32_be_of_InInt32 (pos (8 + length (encode_parameters utf8 ps))) h,
    int32_be_of_InInt32 version v,
  )

-- A startup-phase frame with a true length is read off the buffer, and leaves the rest.
pub next-startup_frame :
    (n : ℕ) (body rest : Buffer)
    → n ≡ 4 + length body
    → n ≤ max_message_bytes
    → next (record { buffer = be_bytes n ++ (body ++ rest); startup_phase = true })
      ≡ framed
          (record { type = none; payload = body; raw = be_bytes n ++ body })
          (record { buffer = rest; startup_phase = true })
unfolding next next_startup cut_startup
next-startup_frame n body rest e h = rw (read_be_bytes (pos n) (body ++ rest) (omega arith)) (
    ground (
      arith,
      take_exact n (be_bytes n ++ body) rest (omega arith),
      drop_exact n (be_bytes n ++ body) rest (omega arith),
      length-append body rest,
    ))

-- A startup code that is a protocol version, and no request.
abbrev pub IsVersion : ℤ → Type 0
IsVersion v = (v ≢ ssl_request_code) × (v ≢ gssenc_request_code) × (v ≢ cancel_request_code)

IsVersion-tests :
    (v : ℤ)
    → IsVersion v
    → (((v ==ℤ ssl_request_code) || (v ==ℤ gssenc_request_code)) ≡ false)
      × ((v ==ℤ cancel_request_code) ≡ false)
IsVersion-tests (pos n) h = ground arith
IsVersion-tests (negsuc n) h = (refl, refl)

module _ (utf8 : Utf8) (version : ℤ) (ps : Parameters) where
  parse-message :
      (raw : Buffer)
      → InInt32 version
      → IsVersion version
      → ArePlain ps
      → parse_startup_packet utf8 (record {
        type = none;
        payload = be_bytes (of_int32 version) ++ encode_parameters utf8 ps;
        raw = raw;
      })
        ≡ some (record { code = version; parameters = ps; cancel = none })
  unfolding parse_startup_packet parse_by_code parse_startup_message
  parse-message raw v k p =
      let (plain, other) = IsVersion-tests version k in
      rw
        (
          read_be_bytes version (encode_parameters utf8 ps) v,
          plain,
          other,
          parse-encode_parameters utf8 (suc (length (encode_parameters utf8 ps))) ps [] p
              (AreApart-nil ps) (omega arith),
        )
        (ground arith)

  -- A startup packet that is encoded and sent, followed by anything, is read off the stream whole
  -- and parses to the same code and parameters; what follows stays buffered. The names must be
  -- distinct, not empty and free of zero bytes, and the packet within the frame limit.
  pub next-encode_startup_packet :
      (rest : Buffer)
      → InInt32 version
      → IsVersion version
      → ArePlain ps
      → 8 + length (encode_parameters utf8 ps) ≤ max_message_bytes
      → (out : Buffer) × (m : RawMessage) × (encode_startup_packet utf8 version ps ≡ some out)
        × (next (record { buffer = out ++ rest; startup_phase = true })
            ≡ framed m (record { buffer = rest; startup_phase = true }))
        × (parse_startup_packet utf8 m
            ≡ some (record { code = version; parameters = ps; cancel = none }))
  next-encode_startup_packet rest v k p h = (
    _,
    _,
    encode_startup_packet-total utf8 version ps v (omega arith),
    next-startup_frame (8 + length (encode_parameters utf8 ps))
        (be_bytes (of_int32 version) ++ encode_parameters utf8 ps) rest (omega arith) h,
    parse-message _ v k p,
  )

pub read_int32_be-skip4 :
    (c : ℕ) (xs : Buffer) → read_int32_be (be_bytes c ++ xs) 4 ≡ read_int32_be xs 0
unfolding read_int32_be
read_int32_be-skip4 c xs = refl

pub read_int32_be-skip8 :
    (c d : ℕ) (xs : Buffer)
    → read_int32_be (be_bytes c ++ (be_bytes d ++ xs)) 8 ≡ read_int32_be xs 0
unfolding read_int32_be
read_int32_be-skip8 c d xs = refl

-- A CancelRequest that is encoded and sent is read back as the same key.
pub next-encode_cancel_request :
    (utf8 : Utf8) (process_id secret_key : ℤ) (rest : Buffer)
    → InInt32 process_id
    → InInt32 secret_key
    → (out : Buffer) × (m : RawMessage) × (encode_cancel_request process_id secret_key ≡ some out)
      × (next (record { buffer = out ++ rest; startup_phase = true })
          ≡ framed m (record { buffer = rest; startup_phase = true }))
      × (parse_startup_packet utf8 m
          ≡ some (record {
            code = cancel_request_code;
            parameters = [];
            cancel = some (record { process_id = process_id; secret_key = secret_key });
          }))
unfolding encode_cancel_request parse_startup_packet parse_by_code parse_cancel int32_be
next-encode_cancel_request utf8 p s rest hp hs =
    let key : Buffer = be_bytes (of_int32 p) ++ be_bytes (of_int32 s) in
    let code : Buffer = be_bytes 80877102 in
    let sent : encode_cancel_request p s ≡ some (be_bytes 16 ++ (code ++ key)) =
      rw (int32_be_of_InInt32 p hp, int32_be_of_InInt32 s hs) in
    (
      be_bytes 16 ++ (code ++ key),
      record { type = none; payload = code ++ key; raw = be_bytes 16 ++ (code ++ key) },
      sent,
      next-startup_frame 16 (code ++ key) rest refl (omega arith),
      rw (
        read_be_bytes cancel_request_code key (omega arith),
        read_int32_be-skip4 80877102 key,
        read_be_bytes p (be_bytes (of_int32 s)) hp,
        read_int32_be-skip8 80877102 (of_int32 p) (be_bytes (of_int32 s)),
        read_be_bytes s [] hs,
      ),
    )

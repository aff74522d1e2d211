-- ===== src/Router/Tests/Codec.antt =====
-- A codec that meets what the theorems assume of Node's UTF-8: one byte for each code point.
use just_postgres.Shared.{◌<◌, ◌≡◌, refl, ◌&&◌, Bool, true, [], ◌∷◌, ltb, arith, inl}
use just_postgres.Router.Text.{Utf8, Text}
use just_postgres.Router.Protocol.StartupRoundTrip.{IsPlain}

abbrev pub codec : Utf8
codec = record {
  encode = λ t. t;
  decode = λ b. b;
  decode_encode = λ t h. refl;
  encode_nil = refl;
  encode_append = λ s t. refl;
  encode_ascii = λ c h. refl;
  encode_nonzero = λ t h. h;
}

-- Whether a text is printable ASCII, which every theorem on texts allows.
abbrev pub is_printable : Text → Bool
is_printable [] = true
is_printable (c ∷ cs) = ltb 0 c && (ltb c 128 && is_printable cs)

pub printable : (t : Text) → is_printable t ≡ true → IsPlain t
printable [] h = (tt, tt)
printable (c ∷ cs) h =
    let low : 0 < c = ground arith in
    let high : c < 128 = ground arith in
    let (scalars, nonzero) = printable cs (ground arith) in
    ((inl (omega arith), scalars), ((λ e. omega arith), nonzero))

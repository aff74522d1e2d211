-- ===== src/ControlPlane/SqlText/Noise.antt =====
-- apps/control-plane/src/data/sql-text.ts: what stripNoise makes of a quoted value.
use just_postgres.Shared.{
  ℕ, ◌≡◌, refl, ap, ◌∙◌, Bool, false, none, some, [], ◌∷◌, ◌++◌, arith, ◌==◌, ◌||◌, All,
}
use just_postgres.Router.Text.{Text}
use just_postgres.ControlPlane.Quoting.{quote_literal, skip_quoted}
use just_postgres.ControlPlane.Quoting.Closing.{IsClosed, skip_quoted-quote_literal}
use just_postgres.ControlPlane.SqlText.{at_newline, skip_noise, strip_noise, is_quote}
use just_postgres.ControlPlane.SqlText.Progress.{strip_noise-skip, strip_noise-keep}

-- The characters that a literal, a quoted identifier or a comment begins with.
abbrev pub opens : ℕ → Bool
opens c = is_quote c || ((c == b'$') || ((c == b'-') || (c == b'/')))

skip_noise-plain : (c : ℕ) (cs : Text) → opens c ≡ false → skip_noise at_newline (c ∷ cs) ≡ none
unfolding skip_noise
skip_noise-plain c cs h = ground arith

skip_noise-quote : (body : Text) → skip_noise at_newline (39 ∷ body) ≡ some (skip_quoted 39 body)
unfolding skip_noise
skip_noise-quote body = refl

strip_noise-plain :
    (front t : Text)
    → All (λ c. opens c ≡ false) front
    → strip_noise (front ++ t) ≡ front ++ strip_noise t
strip_noise-plain [] t h = refl
strip_noise-plain (c ∷ cs) t (h, hs) =
    strip_noise-keep c (cs ++ t) (skip_noise-plain c (cs ++ t) h)
    ∙ ap (◌∷◌ c) (strip_noise-plain cs t hs)

-- In a script that holds a quoted literal, whatever its value, the search for keywords sees one
-- space in its place and then what follows it: no value hides or feigns a keyword. The text in
-- front opens no literal and no comment, and the text behind does not begin with a quote.
pub strip_noise-quote_literal :
    (front value rest : Text)
    → All (λ c. opens c ≡ false) front
    → IsClosed 39 rest
    → strip_noise (front ++ (quote_literal value ++ rest)) ≡ front ++ 32 ∷ strip_noise rest
strip_noise-quote_literal front value rest h k =
    let (body, whole, skipped) = skip_quoted-quote_literal value rest k in
    strip_noise-plain front (quote_literal value ++ rest) h
    ∙ ap (λ t. front ++ strip_noise t) whole
    ∙ ap (◌++◌ front) (strip_noise-skip 39 body rest (skip_noise-quote body ∙ ap some skipped))

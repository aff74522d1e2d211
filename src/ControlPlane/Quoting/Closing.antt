-- ===== src/ControlPlane/Quoting/Closing.antt =====
-- apps/control-plane/src/data: a quoted value ends at its own closing quote.
use just_postgres.Shared.{
  ℕ, ◌≡◌, ◌≢◌, refl, ◌∙◌, ap, false, some, [], ◌∷◌, ◌++◌, append_assoc, arith, ◌==◌, Bool-cases,
  inl, inr,
}
use just_postgres.Router.Text.{Text}
use just_postgres.ControlPlane.Quoting.{double_quotes, quote_ident, quote_literal, skip_quoted}

-- The text goes on without a further quote.
abbrev pub IsClosed : ℕ → Text → Type 0
IsClosed quote [] = Unit
IsClosed quote (c ∷ cs) = c ≢ quote

skip_quoted-close :
    (quote : ℕ) (rest : Text) → IsClosed quote rest → skip_quoted quote (quote ∷ rest) ≡ rest
unfolding skip_quoted
skip_quoted-close quote [] h = refl
skip_quoted-close quote (c ∷ cs) h = ground arith

skip_quoted-other :
    (quote c d : ℕ) (cs : Text)
    → (c == quote) ≡ false
    → skip_quoted quote (c ∷ d ∷ cs) ≡ skip_quoted quote (d ∷ cs)
unfolding skip_quoted
skip_quoted-other quote c d cs h = rw h

skip_quoted-pair :
    (quote : ℕ) (cs : Text) → skip_quoted quote (quote ∷ quote ∷ cs) ≡ skip_quoted quote cs
unfolding skip_quoted
skip_quoted-pair quote cs = ground arith

-- A text before the closing quote is never empty with it.
skip_quoted-step :
    (quote c : ℕ) (cs rest : Text)
    → (c == quote) ≡ false
    → skip_quoted quote (c ∷ cs ++ quote ∷ rest) ≡ skip_quoted quote (cs ++ quote ∷ rest)
skip_quoted-step quote c [] rest h = skip_quoted-other quote c quote rest h
skip_quoted-step quote c (d ∷ cs) rest h = skip_quoted-other quote c d (cs ++ quote ∷ rest) h

skip_quoted-double_quotes :
    (quote : ℕ) (value rest : Text)
    → IsClosed quote rest
    → skip_quoted quote (double_quotes quote value ++ quote ∷ rest) ≡ rest
unfolding double_quotes
skip_quoted-double_quotes quote [] rest h = skip_quoted-close quote rest h
skip_quoted-double_quotes quote (c ∷ cs) rest h = elim (Bool-cases (c == quote)) [
  | inl e ↦
      rw (e, double_quotes)
        (skip_quoted-pair quote (double_quotes quote cs ++ quote ∷ rest)
          ∙ skip_quoted-double_quotes quote cs rest h)
  | inr e ↦
      rw (e, double_quotes)
        (skip_quoted-step quote c (double_quotes quote cs) rest e
          ∙ skip_quoted-double_quotes quote cs rest h)
]

quoted_form :
    (value quoted : Text)
    → quote_ident value ≡ some quoted
    → quoted ≡ b'"' ∷ double_quotes b'"' value ++ b'"' ∷ []
unfolding quote_ident
quoted_form value quoted e = ground arith

-- Whatever the value, quotes included, the quoting of a literal opens with a quote, and the
-- scanner that starts behind it stops exactly behind the literal: no value ends it early. The
-- text that follows does not begin with a quote.
pub skip_quoted-quote_literal :
    (value rest : Text)
    → IsClosed 39 rest
    → (body : Text) × (quote_literal value ++ rest ≡ 39 ∷ body) × (skip_quoted 39 body ≡ rest)
unfolding quote_literal
skip_quoted-quote_literal value rest h = (
  double_quotes 39 value ++ 39 ∷ rest,
  ap (λ t. 39 ∷ t) (append_assoc (double_quotes 39 value) (39 ∷ []) rest),
  skip_quoted-double_quotes 39 value rest h,
)

-- An identifier that is quoted at all opens with a double quote, and the scanner that starts
-- behind it stops exactly behind the identifier. The text that follows does not begin with a
-- double quote.
pub skip_quoted-quote_ident :
    (value quoted rest : Text)
    → quote_ident value ≡ some quoted
    → IsClosed b'"' rest
    → (body : Text) × (quoted ++ rest ≡ b'"' ∷ body) × (skip_quoted b'"' body ≡ rest)
unfolding quote_ident
skip_quoted-quote_ident value quoted rest e h = (
  double_quotes b'"' value ++ b'"' ∷ rest,
  ap (λ t. t ++ rest) (quoted_form value quoted e)
      ∙ ap (λ t. b'"' ∷ t) (append_assoc (double_quotes b'"' value) (b'"' ∷ []) rest),
  skip_quoted-double_quotes b'"' value rest h,
)

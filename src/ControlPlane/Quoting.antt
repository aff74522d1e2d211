-- ===== src/ControlPlane/Quoting.antt =====
-- apps/control-plane/src/data/identifiers.ts, and skipQuoted of data/sql-text.ts. A string is the
-- list of its UTF-16 units; where the code throws, the result is `none`. `skipQuoted` takes the
-- text behind the opening quote and returns the text at the position that the code returns.
pub mod Closing
use just_postgres.Shared.{
  ℕ, ◌||◌, Bool, true, false, Option, none, some, [], ◌∷◌, ◌++◌, ltb, ◌==◌, if◌then◌else◌, length,
  is_empty,
}
use just_postgres.Router.Text.{Text}

-- `value.replace(/"/g, '""')` for the quote.
unfoldable pub double_quotes : ℕ → Text → Text
double_quotes quote [] = []
double_quotes quote (c ∷ cs) =
    let rest = double_quotes quote cs in if c == quote then quote ∷ quote ∷ rest else c ∷ rest

unfoldable pub includes_null : Text → Bool
includes_null [] = false
includes_null (c ∷ cs) = (c == 0) || includes_null cs

unfoldable pub quote_ident : Text → Option Text
quote_ident value =
    if is_empty value || (ltb 128 (length value) || includes_null value)
    then none
    else some (b'"' ∷ double_quotes b'"' value ++ b'"' ∷ [])

-- `${quoteIdent(schema)}.${quoteIdent(name)}`
abbrev pub joined : Option Text → Option Text → Option Text
joined none name = none
joined (some schema) none = none
joined (some schema) (some name) = some (schema ++ b'.' ∷ name)

unfoldable pub quote_qualified : Text → Text → Option Text
quote_qualified schema name = joined (quote_ident schema) (quote_ident name)

unfoldable pub quote_literal : Text → Text
quote_literal value = 39 ∷ double_quotes 39 value ++ 39 ∷ []

unfoldable pub skip_quoted : ℕ → Text → Text
skip_quoted quote [] = []
skip_quoted quote (c ∷ []) = []
skip_quoted quote (c ∷ d ∷ cs) =
    let doubled = skip_quoted quote cs in
    let further = skip_quoted quote (d ∷ cs) in
    if c == quote then if d == quote then doubled else d ∷ cs else further

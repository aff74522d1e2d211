-- ===== src/ControlPlane/SqlText.antt =====
-- apps/control-plane/src/data/sql-text.ts. A position in the script is the text from it on; the
-- functions that move a position return the text behind it. skipQuoted is skip_quoted of
-- ControlPlane/Quoting.
pub mod Progress
pub mod Noise
pub mod Offsets
use just_postgres.Shared.{
  ℕ, zero, suc, ◌+◌, ◌-◌, ◌&&◌, ◌||◌, Bool, true, false, not, Option, none, some, List, [], ◌∷◌,
  ◌++◌, leb, ◌==◌, if◌then◌else◌, length, take, drop, is_empty, or_default,
}
use just_postgres.Router.Text.{starts_with, Text, text, ◌===◌}
use just_postgres.ControlPlane.Strings.{is_space, trim, is_word}
use just_postgres.ControlPlane.Quoting.{skip_quoted}

pub record Statement : Type 0 where
  pub text : Text
  pub start : ℕ

-- `indexOf("\n", i)`: the text from the newline on, or none of it.
unfoldable pub at_newline : Text → Text
at_newline [] = []
at_newline (c ∷ cs) = let rest = at_newline cs in if c == 10 then c ∷ cs else rest

unfoldable pub after_newline : Text → Text
after_newline [] = []
after_newline (c ∷ cs) = let rest = after_newline cs in if c == 10 then cs else rest

-- `[A-Za-z_]` and `[A-Za-z0-9_]`; the second is `\w`.
abbrev pub is_tag_start : ℕ → Bool
is_tag_start c = is_word c && not (leb 48 c && leb c 57)

abbrev pub prefix : ℕ → Option Text → Option Text
prefix c none = none
prefix c (some t) = some (c ∷ t)

-- The rest of a tag, with its closing dollar.
unfoldable pub tag_rest : Text → Option Text
tag_rest [] = none
tag_rest (c ∷ cs) =
    let rest = prefix c (tag_rest cs) in
    if c == b'$' then some (c ∷ []) else if is_word c then rest else none

abbrev pub tag_body : Text → Option Text
tag_body [] = none
tag_body (c ∷ cs) =
    if c == b'$' then some (c ∷ []) else if is_tag_start c then prefix c (tag_rest cs) else none

-- `matchDollarTag` behind the first dollar; 129 units are left of the slice.
unfoldable pub match_dollar_tag : Text → Option Text
match_dollar_tag cs = prefix b'$' (tag_body (take 129 cs))

-- `indexOf(tag, i)`, and the text behind it.
unfoldable pub after_tag : Text → Text → Text
after_tag tag [] = []
after_tag tag (c ∷ cs) =
    let rest = after_tag tag cs in
    if starts_with tag (c ∷ cs) then drop (length tag) (c ∷ cs) else rest

-- `skipDollarQuoted` at a tag.
abbrev pub skip_dollar_quoted : Text → Text → Text
skip_dollar_quoted tag t = after_tag tag (drop (length tag) t)

-- `skipBlockComment`, with the depth so far.
unfoldable pub skip_block_comment : ℕ → Text → Text
skip_block_comment depth [] = []
skip_block_comment depth (c ∷ []) = []
skip_block_comment depth (c ∷ d ∷ cs) =
    let deeper = skip_block_comment (suc depth) cs in
    let higher = skip_block_comment (depth - 1) cs in
    let further = skip_block_comment depth (d ∷ cs) in
    if (c == b'/') && (d == b'*')
    then deeper
    else if (c == b'*') && (d == b'/')
    then if depth == 1 then cs else higher
    else further

abbrev pub is_quote : ℕ → Bool
is_quote c = (c == 39) || (c == 34)

abbrev pub is_next : ℕ → Text → Bool
is_next d [] = false
is_next d (c ∷ cs) = c == d

-- `const dollar = matchDollarTag(sql, i); if (dollar) ...`
abbrev pub skip_tagged : Option Text → Text → Option Text
skip_tagged none t = none
skip_tagged (some tag) t = some (skip_dollar_quoted tag t)

-- The text behind a literal, a quoted identifier or a comment that begins here; `line` says how a
-- line comment ends, in which the two loops differ.
unfoldable pub skip_noise : (Text → Text) → Text → Option Text
skip_noise line [] = none
skip_noise line (c ∷ cs) =
    if is_quote c
    then some (skip_quoted c cs)
    else if c == b'$'
    then skip_tagged (match_dollar_tag cs) (c ∷ cs)
    else if (c == b'-') && is_next b'-' cs
    then some (line (c ∷ cs))
    else if (c == b'/') && is_next b'*' cs
    then some (skip_block_comment 0 (c ∷ cs))
    else none

-- The loop of `stripNoise`; none is a loop that has not ended after so many rounds.
unfoldable pub strip : ℕ → Text → Option Text
strip fuel [] = some []
strip zero (c ∷ cs) = none
strip (suc fuel) (c ∷ cs) = elim (skip_noise at_newline (c ∷ cs)) [
  | some rest ↦ prefix 32 (strip fuel rest)
  | none ↦ prefix c (strip fuel cs)
]

unfoldable pub strip_noise : Text → Text
strip_noise sql = or_default [] (strip (length sql) sql)

-- `push`, before the statements that follow, if the loop ends.
abbrev pub push : ℕ → Text → Option (List Statement) → Option (List Statement)
push start raw none = none
push start raw (some later) =
    if is_empty (trim raw)
    then some later
    else some (record { text = trim raw; start = start } ∷ later)

-- The part of a text in front of a position in it.
abbrev pub before : Text → Text → Text
before t rest = take (length t - length rest) t

-- The loop of `splitStatements`: where the statement starts, what it holds so far, and the rest;
-- none is a loop that has not ended after so many rounds.
unfoldable pub split : ℕ → ℕ → Text → Text → Option (List Statement)
split fuel start raw [] = push start raw (some [])
split zero start raw (c ∷ cs) = none
split (suc fuel) start raw (c ∷ cs) = elim (skip_noise after_newline (c ∷ cs)) [
  | some rest ↦ split fuel start (raw ++ before (c ∷ cs) rest) rest
  | none ↦
      let more = split fuel start (raw ++ c ∷ []) cs in
      let others = split fuel (start + length raw + 1) [] cs in
      if c == b';' then push start raw others else more
]

unfoldable pub split_statements : Text → List Statement
split_statements sql = or_default [] (split (length sql) 0 [] sql)

-- `replace(/\s+/g, " ")`
unfoldable pub collapse : Text → Text
collapse [] = []
collapse (c ∷ []) = if is_space c then 32 ∷ [] else c ∷ []
collapse (c ∷ d ∷ cs) =
    let rest = collapse (d ∷ cs) in
    if is_space c then if is_space d then rest else 32 ∷ rest else c ∷ rest

-- `\b` behind a word.
abbrev pub is_word_end : Text → Bool
is_word_end [] = true
is_word_end (c ∷ cs) = not (is_word c)

-- `^word\b`
unfoldable pub begins_with_word : Text → Text → Bool
begins_with_word word t = starts_with word t && is_word_end (drop (length word) t)

-- `\bword\b`, where `inside` is whether a word character stands in front.
unfoldable pub has_word : Text → Bool → Text → Bool
has_word word inside [] = false
has_word word inside (c ∷ cs) =
    (not inside && begins_with_word word (c ∷ cs)) || has_word word (is_word c) cs

unfoldable pub begins_with_one : List Text → Text → Bool
begins_with_one [] t = false
begins_with_one (w ∷ ws) t = begins_with_word w t || begins_with_one ws t

abbrev pub drop_targets : List Text
drop_targets =
    text "table"
    ∷ text "schema"
    ∷ text "database"
    ∷ text "index"
    ∷ text "view"
    ∷ text "materialized"
    ∷ text "function"
    ∷ text "type"
    ∷ text "extension"
    ∷ text "sequence"
    ∷ text "trigger"
    ∷ text "role"
    ∷ []

pub data Reason : Type 0 where
  no_where_update no_where_delete truncates drops : Reason

pub record DestructiveWarning : Type 0 where
  pub statement : Text
  pub reason : Reason

-- The reason for a statement, stripped, collapsed and in lower case.
unfoldable pub reason_of : Text → Option Reason
reason_of lower =
    if (begins_with_word (text "update") lower || begins_with_word (text "delete") lower)
      && not (has_word (text "where") false lower)
    then some (if starts_with (text "update") lower then no_where_update else no_where_delete)
    else if begins_with_word (text "truncate") lower
    then some truncates
    else if starts_with (text "drop ") lower && begins_with_one drop_targets (drop 5 lower)
    then some drops
    else none

module _ (to_lower_case : Text → Text) where
  abbrev pub bare : Text → Text
  bare statement = to_lower_case (trim (collapse (strip_noise statement)))

  unfoldable pub warnings : List Statement → List DestructiveWarning
  warnings [] = []
  warnings (s ∷ ss) = elim (reason_of (bare s.text)) [
    | none ↦ warnings ss
    | some reason ↦ record { statement = s.text; reason = reason } ∷ warnings ss
  ]

  unfoldable pub find_destructive_statements : Text → List DestructiveWarning
  find_destructive_statements sql = warnings (split_statements sql)

  unfoldable pub is_read_only : Text → Bool
  is_read_only sql =
      begins_with_one
        (text "select"
          ∷ text "with"
          ∷ text "show"
          ∷ text "explain"
          ∷ text "table"
          ∷ text "values"
          ∷ [])
        (to_lower_case (trim (strip_noise sql)))

-- ===== src/ControlPlane/SqlText/Progress.antt =====
-- apps/control-plane/src/data/sql-text.ts: every round of the loops moves on.
use just_postgres.Shared.{
  ℕ, zero, suc, ◌+◌, ◌-◌, ◌≤◌, ◌≡◌, refl, ap, sym, ◌∙◌, List, or_default, is_empty, Option, none,
  some, [], ◌∷◌, ◌++◌, arith, ◌==◌, ◌&&◌, length, drop, length-drop, Bool-cases, Option-cases, inl,
  inr,
}
use mathlib.Core.Option.{some-injective}
use just_postgres.Router.Text.{Text}
use just_postgres.ControlPlane.Strings.{trim}
use just_postgres.ControlPlane.Quoting.{skip_quoted}
use just_postgres.ControlPlane.SqlText.{
  Statement, push, at_newline, after_newline, prefix, match_dollar_tag, after_tag,
  skip_block_comment, skip_tagged, skip_noise, is_quote, is_next, strip, strip_noise, before, split,
  split_statements,
}

length-at_newline : (t : Text) → length (at_newline t) ≤ length t
unfolding at_newline
length-at_newline [] = omega arith
length-at_newline (c ∷ cs) = ground (arith, length-at_newline cs)

length-after_newline : (t : Text) → length (after_newline t) ≤ length t
unfolding after_newline
length-after_newline [] = omega arith
length-after_newline (c ∷ cs) = ground (arith, length-after_newline cs)

length-skip_quoted : (q : ℕ) (t : Text) → length (skip_quoted q t) ≤ length t
unfolding skip_quoted
length-skip_quoted q [] = omega arith
length-skip_quoted q (c ∷ []) = omega arith
length-skip_quoted q (c ∷ d ∷ cs) =
    ground (arith, length-skip_quoted q cs, length-skip_quoted q (d ∷ cs))

length-after_tag : (tag t : Text) → length (after_tag tag t) ≤ length t
unfolding after_tag
length-after_tag tag [] = omega arith
length-after_tag tag (c ∷ cs) =
    ground (arith, length-after_tag tag cs, length-drop (length tag) (c ∷ cs))

length-skip_block_comment :
    (depth c : ℕ) (cs : Text) → length (skip_block_comment depth (c ∷ cs)) ≤ length cs
unfolding skip_block_comment
length-skip_block_comment depth c [] = omega arith
length-skip_block_comment depth c (d ∷ []) = ground arith
length-skip_block_comment depth c (d ∷ e ∷ cs) = ground (
  arith,
  length-skip_block_comment (suc depth) e cs,
  length-skip_block_comment (depth - 1) e cs,
  length-skip_block_comment depth d (e ∷ cs),
)

length-skip_tagged :
    (o : Option Text) (c : ℕ) (cs rest : Text)
    → skip_tagged (prefix b'$' o) (c ∷ cs) ≡ some rest
    → length rest ≤ length cs
length-skip_tagged none c cs rest h = cc
length-skip_tagged (some body) c cs rest h =
    let same : after_tag (b'$' ∷ body) (drop (length body) cs) ≡ rest = cc in
    omega (
      arith,
      ap length same,
      length-after_tag (b'$' ∷ body) (drop (length body) cs),
      length-drop (length body) cs,
    )

-- How a line comment ends is a function that never gives back more, and moves on from a dash.
abbrev pub Shrinks : (Text → Text) → Type 0
Shrinks line = (cs : Text) → length (line (b'-' ∷ cs)) ≤ length cs

Shrinks-at_newline : Shrinks at_newline
unfolding at_newline
Shrinks-at_newline cs = length-at_newline cs

Shrinks-after_newline : Shrinks after_newline
unfolding after_newline
Shrinks-after_newline cs = length-after_newline cs

pub length-skip_noise :
    (line : Text → Text) (c : ℕ) (cs rest : Text)
    → Shrinks line
    → skip_noise line (c ∷ cs) ≡ some rest
    → length rest ≤ length cs
unfolding skip_noise match_dollar_tag
length-skip_noise line c cs rest k h = elim (Bool-cases (is_quote c)) [
  | inl e ↦
      let same : skip_quoted c cs ≡ rest = cc (rw (e, skip_noise) at h) in
      omega (arith, ap length same, length-skip_quoted c cs)
  | inr e ↦
      let h1 = rw (e, skip_noise) at h in
      elim (Bool-cases (c == b'$')) [
        | inl d ↦ length-skip_tagged _ c cs rest (rw d at h1)
        | inr d ↦
            let h2 = rw d at h1 in
            elim (Bool-cases ((c == b'-') && is_next b'-' cs)) [
              | inl m ↦
                  let dash : c ≡ b'-' = ground arith in
                  let same : line (c ∷ cs) ≡ rest = cc (rw m at h2) in
                  omega (arith, ap length same, ap (λ x. length (line (x ∷ cs))) dash, k cs)
              | inr m ↦
                  let h3 = rw m at h2 in
                  elim (Bool-cases ((c == b'/') && is_next b'*' cs)) [
                    | inl b ↦
                        let same : skip_block_comment 0 (c ∷ cs) ≡ rest = cc (rw b at h3) in
                        omega (arith, ap length same, length-skip_block_comment 0 c cs)
                    | inr b ↦ cc (rw b at h3)
                  ]
            ]
      ]
]

strip-skip :
    (f c : ℕ) (cs rest : Text)
    → skip_noise at_newline (c ∷ cs) ≡ some rest
    → strip (suc f) (c ∷ cs) ≡ prefix 32 (strip f rest)
unfolding strip
strip-skip f c cs rest e = rw (e, strip)

strip-keep :
    (f c : ℕ) (cs : Text)
    → skip_noise at_newline (c ∷ cs) ≡ none
    → strip (suc f) (c ∷ cs) ≡ prefix c (strip f cs)
unfolding strip
strip-keep f c cs e = rw (e, strip)

-- What the loop of `stripNoise` gives after enough rounds, however many.
strip_ends :
    (f g : ℕ) (t : Text)
    → length t ≤ f
    → length t ≤ g
    → (out : Text) × (strip f t ≡ some out) × (strip g t ≡ some out)
unfolding strip
strip_ends f g [] h k = ([], refl, refl)
strip_ends zero g (c ∷ cs) h k = elim h [ ]
strip_ends (suc f) zero (c ∷ cs) h k = elim k [ ]
strip_ends (suc f) (suc g) (c ∷ cs) h k = elim (Option-cases (skip_noise at_newline (c ∷ cs))) [
  | inl e ↦
      let (out, here, there) = strip_ends f g cs (omega (arith, h)) (omega (arith, k)) in
      (c ∷ out, strip-keep f c cs e ∙ ap (prefix c) here, strip-keep g c cs e ∙ ap (prefix c) there)
  | inr (rest, e) ↦
      let less = length-skip_noise at_newline c cs rest Shrinks-at_newline e in
      let (out, here, there) = strip_ends f g rest (omega (arith, h)) (omega (arith, k)) in
      (
        32 ∷ out,
        strip-skip f c cs rest e ∙ ap (prefix 32) here,
        strip-skip g c cs rest e ∙ ap (prefix 32) there,
      )
]

pushed :
    (start : ℕ) (raw : Text) (later : List Statement)
    → (out : List Statement) × (push start raw (some later) ≡ some out)
pushed start raw later = elim (Bool-cases (is_empty (trim raw))) [
  | inl e ↦ (later, rw e)
  | inr e ↦ (record { text = trim raw; start = start } ∷ later, rw e)
]

-- What the loop of `splitStatements` gives after enough rounds, however many.
split_ends :
    (f g start : ℕ) (raw t : Text)
    → length t ≤ f
    → length t ≤ g
    → (out : List Statement) × (split f start raw t ≡ some out) × (split g start raw t ≡ some out)
unfolding split
split_ends f g start raw [] h k = let (out, e) = pushed start raw [] in (out, e, e)
split_ends zero g start raw (c ∷ cs) h k = elim h [ ]
split_ends (suc f) zero start raw (c ∷ cs) h k = elim k [ ]
split_ends (suc f) (suc g) start raw (c ∷ cs) h k =
    elim (Option-cases (skip_noise after_newline (c ∷ cs))) [
      | inl e ↦ elim (Bool-cases (c == b';')) [
        | inl semicolon ↦
            let (later, here, there) =
              split_ends f g (start + length raw + 1) [] cs (omega (arith, h)) (omega (arith, k)) in
            let (out, p) = pushed start raw later in
            (out, rw (e, split, semicolon, here) p, rw (e, split, semicolon, there) p)
        | inr other ↦
            let (out, here, there) =
              split_ends f g start (raw ++ c ∷ []) cs (omega (arith, h)) (omega (arith, k)) in
            (out, rw (e, split, other) here, rw (e, split, other) there)
      ]
      | inr (rest, e) ↦
          let less = length-skip_noise after_newline c cs rest Shrinks-after_newline e in
          let (out, here, there) =
            split_ends f g start (raw ++ before (c ∷ cs) rest) rest (omega (arith, h))
              (omega (arith, k)) in
          (out, rw (e, split) here, rw (e, split) there)
    ]

strip_lem : (fuel : ℕ) (sql : Text) → length sql ≤ fuel → strip fuel sql ≡ some (strip_noise sql)
unfolding strip_noise
strip_lem fuel sql h =
    let (out, here, there) = strip_ends fuel (length sql) sql h (omega arith) in
    here ∙ ap some (sym (ap (or_default []) there))

pub split_lem :
    (fuel : ℕ) (sql : Text) → length sql ≤ fuel → split fuel 0 [] sql ≡ some (split_statements sql)
unfolding split_statements
split_lem fuel sql h =
    let (out, here, there) = split_ends fuel (length sql) 0 [] sql h (omega arith) in
    here ∙ ap some (sym (ap (or_default []) there))

-- The loops of `stripNoise` and `splitStatements` end on every script, within as many rounds as the
-- script has characters: neither runs out of them, and more of them change neither result.
pub loops_end :
    (fuel : ℕ) (sql : Text)
    → length sql ≤ fuel
    → (strip fuel sql ≡ some (strip_noise sql))
      × (split fuel 0 [] sql ≡ some (split_statements sql))
loops_end fuel sql h = (strip_lem fuel sql h, split_lem fuel sql h)

-- The equation of a round of `stripNoise` that skips.
pub strip_noise-skip :
    (c : ℕ) (cs rest : Text)
    → skip_noise at_newline (c ∷ cs) ≡ some rest
    → strip_noise (c ∷ cs) ≡ 32 ∷ strip_noise rest
strip_noise-skip c cs rest e =
    let less = length-skip_noise at_newline c cs rest Shrinks-at_newline e in
    some-injective _ _ (
      sym (strip_lem (length (c ∷ cs)) (c ∷ cs) (omega arith))
      ∙ strip-skip (length cs) c cs rest e
      ∙ ap (prefix 32) (strip_lem (length cs) rest less))

pub strip_noise-keep :
    (c : ℕ) (cs : Text)
    → skip_noise at_newline (c ∷ cs) ≡ none
    → strip_noise (c ∷ cs) ≡ c ∷ strip_noise cs
strip_noise-keep c cs e = some-injective _ _ (
    sym (strip_lem (length (c ∷ cs)) (c ∷ cs) (omega arith))
    ∙ strip-keep (length cs) c cs e
    ∙ ap (prefix c) (strip_lem (length cs) cs (omega arith)))

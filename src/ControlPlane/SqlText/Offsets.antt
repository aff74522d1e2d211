-- ===== src/ControlPlane/SqlText/Offsets.antt =====
-- apps/control-plane/src/data/sql-text.ts: where a statement stands in its script.
use just_postgres.Shared.{
  ℕ, zero, suc, ◌+◌, ◌-◌, ◌≡◌, refl, sym, ap, ◌∙◌, Bool, true, false, Option, none, some, List, [],
  ◌∷◌, ◌++◌, arith, ◌==◌, ◌&&◌, if◌then◌else◌, length, take, drop, is_empty, or_default,
  length-append, take-length, drop-length, append_assoc, append-nil, take-append-drop, Bool-cases,
  Option-cases, inl, inr, All, subst,
}
use just_postgres.Router.Text.{starts_with, Text}
use just_postgres.ControlPlane.Strings.{trim}
use just_postgres.ControlPlane.Quoting.{skip_quoted}
use just_postgres.ControlPlane.SqlText.{
  Statement, after_newline, after_tag, skip_block_comment, skip_tagged, skip_noise, is_quote,
  is_next, push, before, split, split_statements,
}
use just_postgres.ControlPlane.SqlText.Progress.{split_lem}

-- The second text is the end of the first.
abbrev IsEnd : Text → Text → Type 0
IsEnd t rest = (front : Text) × (t ≡ front ++ rest)

IsEnd-cons : (c : ℕ) (t rest : Text) → IsEnd t rest → IsEnd (c ∷ t) rest
IsEnd-cons c t rest (front, e) = (c ∷ front, ap (◌∷◌ c) e)

IsEnd-whole : (t : Text) → IsEnd t t
IsEnd-whole t = ([], refl)

IsEnd-nil : (t : Text) → IsEnd t []
IsEnd-nil t = (t, sym (append-nil t))

IsEnd-if : (b : Bool) (t x y : Text) → IsEnd t x → IsEnd t y → IsEnd t (if b then x else y)
IsEnd-if true t x y h k = h
IsEnd-if false t x y h k = k

IsEnd-drop : (n : ℕ) (t : Text) → IsEnd t (drop n t)
IsEnd-drop n t = (take n t, sym (take-append-drop n t))

IsEnd-trans : (t u v : Text) → IsEnd t u → IsEnd u v → IsEnd t v
IsEnd-trans t u v (f, e) (g, h) = (f ++ g, e ∙ ap (◌++◌ f) h ∙ sym (append_assoc f g v))

IsEnd-after_newline : (t : Text) → IsEnd t (after_newline t)
unfolding after_newline
IsEnd-after_newline [] = IsEnd-whole []
IsEnd-after_newline (c ∷ cs) =
    IsEnd-if (c == 10) (c ∷ cs) cs _ (IsEnd-cons c cs cs (IsEnd-whole cs))
      (IsEnd-cons c cs _ (IsEnd-after_newline cs))

IsEnd-skip_quoted : (q : ℕ) (t : Text) → IsEnd t (skip_quoted q t)
unfolding skip_quoted
IsEnd-skip_quoted q [] = IsEnd-whole []
IsEnd-skip_quoted q (c ∷ []) = IsEnd-nil (c ∷ [])
IsEnd-skip_quoted q (c ∷ d ∷ cs) =
    let two = IsEnd-cons c (d ∷ cs) _ (IsEnd-cons d cs _ (IsEnd-skip_quoted q cs)) in
    let one = IsEnd-cons c (d ∷ cs) _ (IsEnd-skip_quoted q (d ∷ cs)) in
    IsEnd-if (c == q) (c ∷ d ∷ cs) _ _
      (IsEnd-if (d == q) (c ∷ d ∷ cs) _ _ two (IsEnd-cons c _ _ (IsEnd-whole (d ∷ cs)))) one

IsEnd-after_tag : (tag t : Text) → IsEnd t (after_tag tag t)
unfolding after_tag
IsEnd-after_tag tag [] = IsEnd-whole []
IsEnd-after_tag tag (c ∷ cs) =
    IsEnd-if (starts_with tag (c ∷ cs)) (c ∷ cs) _ _ (IsEnd-drop (length tag) (c ∷ cs))
      (IsEnd-cons c cs _ (IsEnd-after_tag tag cs))

IsEnd-skip_block_comment : (depth : ℕ) (t : Text) → IsEnd t (skip_block_comment depth t)
unfolding skip_block_comment
IsEnd-skip_block_comment depth [] = IsEnd-whole []
IsEnd-skip_block_comment depth (c ∷ []) = IsEnd-nil (c ∷ [])
IsEnd-skip_block_comment depth (c ∷ d ∷ cs) =
    let t = c ∷ d ∷ cs in
    let two =
      λ (rest : Text) (h : IsEnd cs rest). IsEnd-cons c (d ∷ cs) rest (IsEnd-cons d cs rest h) in
    IsEnd-if ((c == b'/') && (d == b'*')) t _ _ (two _ (IsEnd-skip_block_comment (suc depth) cs)) (
      IsEnd-if ((c == b'*') && (d == b'/')) t _ _
        (IsEnd-if (depth == 1) t _ _ (two cs (IsEnd-whole cs))
          (two _ (IsEnd-skip_block_comment (depth - 1) cs)))
        (IsEnd-cons c (d ∷ cs) _ (IsEnd-skip_block_comment depth (d ∷ cs))))

IsEnd-skip_tagged : (o : Option Text) (t rest : Text) → skip_tagged o t ≡ some rest → IsEnd t rest
IsEnd-skip_tagged none t rest h = cc
IsEnd-skip_tagged (some tag) t rest h =
    let same : after_tag tag (drop (length tag) t) ≡ rest = cc in
    subst (IsEnd t) same
      (IsEnd-trans t (drop (length tag) t) _ (IsEnd-drop (length tag) t) (IsEnd-after_tag tag _))

IsEnd-skip_noise : (t rest : Text) → skip_noise after_newline t ≡ some rest → IsEnd t rest
unfolding skip_noise
IsEnd-skip_noise [] rest h = cc
IsEnd-skip_noise (c ∷ cs) rest h = elim (Bool-cases (is_quote c)) [
  | inl e ↦
      let same : skip_quoted c cs ≡ rest = cc (rw (e, skip_noise) at h) in
      subst (IsEnd (c ∷ cs)) same (IsEnd-cons c cs _ (IsEnd-skip_quoted c cs))
  | inr e ↦
      let h1 = rw (e, skip_noise) at h in
      elim (Bool-cases (c == b'$')) [
        | inl d ↦ IsEnd-skip_tagged _ (c ∷ cs) rest (rw d at h1)
        | inr d ↦
            let h2 = rw d at h1 in
            elim (Bool-cases ((c == b'-') && is_next b'-' cs)) [
              | inl m ↦
                  let same : after_newline (c ∷ cs) ≡ rest = cc (rw m at h2) in
                  subst (IsEnd (c ∷ cs)) same (IsEnd-after_newline (c ∷ cs))
              | inr m ↦
                  let h3 = rw m at h2 in
                  elim (Bool-cases ((c == b'/') && is_next b'*' cs)) [
                    | inl b ↦
                        let same : skip_block_comment 0 (c ∷ cs) ≡ rest = cc (rw b at h3) in
                        subst (IsEnd (c ∷ cs)) same (IsEnd-skip_block_comment 0 (c ∷ cs))
                    | inr b ↦ cc (rw b at h3)
                  ]
            ]
      ]
]

before-append : (t rest : Text) → IsEnd t rest → before t rest ++ rest ≡ t
before-append t rest (front, e) =
    let size : length t - length rest ≡ length front =
      omega (arith, ap length e, length-append front rest) in
    ap (λ u. take (length t - length rest) u ++ rest) e
    ∙ ap (λ n. take n (front ++ rest) ++ rest) size
    ∙ ap (λ u. u ++ rest) (take-length front rest)
    ∙ sym e

-- The statement is, but for white space round it, what stands at its offset.
abbrev pub IsAt : Text → Statement → Type 0
IsAt sql s = (raw rest : Text) × (drop s.start sql ≡ raw ++ rest) × (trim raw ≡ s.text)

-- The statements of a loop that has ended, if it has.
abbrev AllAt : Text → Option (List Statement) → Type 0
AllAt sql o = All (IsAt sql) (or_default [] o)

push-IsAt :
    (sql front raw rest : Text) (later : Option (List Statement))
    → sql ≡ front ++ (raw ++ rest)
    → AllAt sql later
    → AllAt sql (push (length front) raw later)
push-IsAt sql front raw rest none e h = tt
push-IsAt sql front raw rest (some later) e h = elim (Bool-cases (is_empty (trim raw))) [
  | inl k ↦ rw k h
  | inr k ↦
      rw k ((raw, rest, ap (drop (length front)) e ∙ drop-length front (raw ++ rest), refl), h)
]

split-IsAt :
    (sql : Text) (fuel : ℕ) (front raw t : Text)
    → sql ≡ front ++ (raw ++ t)
    → AllAt sql (split fuel (length front) raw t)
unfolding split
split-IsAt sql fuel front raw [] e = push-IsAt sql front raw [] (some []) e tt
split-IsAt sql zero front raw (c ∷ cs) e = tt
split-IsAt sql (suc fuel) front raw (c ∷ cs) e =
    elim (Option-cases (skip_noise after_newline (c ∷ cs))) [
      | inr (rest, k) ↦
          rw (k, split)
            (split-IsAt sql fuel front (raw ++ before (c ∷ cs) rest) rest (
              e
              ∙ ap (◌++◌ front) (
                  ap (◌++◌ raw)
                    (sym (before-append (c ∷ cs) rest (IsEnd-skip_noise (c ∷ cs) rest k)))
                  ∙ sym (append_assoc raw (before (c ∷ cs) rest) rest))))
      | inl k ↦ elim (Bool-cases (c == b';')) [
        | inl semicolon ↦
            let past : length (front ++ (raw ++ c ∷ [])) ≡ length front + length raw + 1 =
              omega (arith, length-append front (raw ++ c ∷ []), length-append raw (c ∷ [])) in
            let later = split-IsAt sql fuel (front ++ (raw ++ c ∷ [])) [] cs (
              e
              ∙ ap (◌++◌ front) (sym (append_assoc raw (c ∷ []) cs))
              ∙ sym (append_assoc front (raw ++ c ∷ []) cs)) in
            rw (k, split, semicolon)
              (push-IsAt sql front raw (c ∷ cs) _ e
                (subst (λ n. AllAt sql (split fuel n [] cs)) past later))
        | inr other ↦
            rw (k, split, other)
              (split-IsAt sql fuel front (raw ++ c ∷ []) cs
                (e ∙ ap (◌++◌ front) (sym (append_assoc raw (c ∷ []) cs))))
      ]
    ]

-- The loop over a script ends, and every statement that the script is split into stands in it at
-- the offset that is reported for it, but for white space round it.
pub split_statements-IsAt :
    (sql : Text)
    → (split (length sql) 0 [] sql ≡ some (split_statements sql))
      × All (IsAt sql) (split_statements sql)
unfolding split_statements
split_statements-IsAt sql =
    (split_lem (length sql) sql (omega arith), split-IsAt sql (length sql) [] [] sql refl)

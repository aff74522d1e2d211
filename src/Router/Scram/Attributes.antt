-- ===== src/Router/Scram/Attributes.antt =====
-- apps/router/src/scram.ts: the attributes of the messages, and `xor`.
use just_postgres.Shared.{
  ℕ, zero, suc, ◌+◌, ◌*◌, ◌/◌, ◌%◌, ◌<◌, ◌≡◌, refl, ap, ◌∙◌, true, false, none, some, [], ◌∷◌, ◌++◌,
  arith, ◌==◌, length, All,
}
use just_postgres.Router.Bytes.{Buffer}
use just_postgres.Router.Text.{
  Text, text, insert, ◌===◌, split_comma, IsPlain, split_comma_plain, split_comma-append_plain,
  starts_with,
}
use just_postgres.Router.Scram.{
  xor_digits, xor, split_equals, collect, attributes, is_proof_mark, before_proof,
}

-- The `n` low binary digits.
low : ℕ → ℕ → ℕ
low zero a = 0
low (suc n) a = a % 2 + 2 * low n (a / 2)

xor_digits-xor_digits : (n a b : ℕ) → xor_digits n (xor_digits n a b) b ≡ low n a
unfolding xor_digits low
xor_digits-xor_digits zero a b = refl
xor_digits-xor_digits (suc n) a b =
    let rest = xor_digits n (a / 2) (b / 2) in
    let digit : ((a + b) % 2 + 2 * rest + b) % 2 ≡ a % 2 = omega arith in
    let half : ((a + b) % 2 + 2 * rest) / 2 ≡ rest = omega arith in
    rw (digit, half) (ap (λ t. a % 2 + 2 * t) (xor_digits-xor_digits n (a / 2) (b / 2)))

low_all : (a : ℕ) → a < 256 → low 8 a ≡ a
unfolding low
low_all a h = omega arith

abbrev pub AreBytes : Buffer → Type 0
AreBytes bs = All (λ b. b < 256) bs

pub xor-xor : (xs ys : Buffer) → AreBytes xs → length xs ≡ length ys → xor (xor xs ys) ys ≡ xs
unfolding xor
xor-xor [] ys h e = refl
xor-xor (x ∷ xs) [] h e = let wrong : ⊥ = omega (arith, e) in elim wrong [ ]
xor-xor (x ∷ xs) (y ∷ ys) h e =
    let first = xor_digits-xor_digits 8 x y ∙ low_all x h.0 in
    rw (first, xor-xor xs ys h.1 (omega (arith, e)))

power : ℕ → ℕ
power zero = 1
power (suc n) = 2 * power n

xor_digits_bound : (n a b : ℕ) → xor_digits n a b < power n
unfolding xor_digits power
xor_digits_bound zero a b = omega arith
xor_digits_bound (suc n) a b = omega (arith, xor_digits_bound n (a / 2) (b / 2))

is_byte : (a b : ℕ) → xor_digits 8 a b < 256
unfolding power
is_byte a b = xor_digits_bound 8 a b

pub xor-AreBytes : (xs ys : Buffer) → AreBytes xs → AreBytes (xor xs ys)
unfolding xor
xor-AreBytes [] ys h = tt
xor-AreBytes (x ∷ xs) [] h = (h.0, xor-AreBytes xs [] h.1)
xor-AreBytes (x ∷ xs) (y ∷ ys) h = (is_byte x y, xor-AreBytes xs ys h.1)

pub length-xor : (xs ys : Buffer) → length (xor xs ys) ≡ length xs
unfolding xor
length-xor [] ys = refl
length-xor (x ∷ xs) [] = omega (arith, length-xor xs [])
length-xor (x ∷ xs) (y ∷ ys) = omega (arith, length-xor xs ys)

pub starts_with-append : (s t : Text) → starts_with s (s ++ t) ≡ true
unfolding starts_with
starts_with-append [] t = refl
starts_with-append (c ∷ cs) t = ground (arith, starts_with-append cs t)

pub IsPlain-append : (s t : Text) → IsPlain s → IsPlain t → IsPlain (s ++ t)
IsPlain-append [] t h k = k
IsPlain-append (c ∷ cs) t h k = (h.0, IsPlain-append cs t h.1 k)

-- The attributes of a server-first-message.
pub attributes_first :
    (a b c : Text)
    → IsPlain a
    → IsPlain b
    → IsPlain c
    → attributes (text "r=" ++ (a ++ (text ",s=" ++ (b ++ (text ",i=" ++ c)))))
      ≡ (text "r", a) ∷ (text "s", b) ∷ (text "i", c) ∷ []
unfolding attributes split_comma collect split_equals insert ◌===◌
attributes_first a b c ha hb hc = rw (
  split_comma-append_plain a (text "s=" ++ (b ++ (text ",i=" ++ c))) ha,
  split_comma-append_plain b (text "i=" ++ c) hb,
  split_comma_plain c hc,
)

final_parts :
    (a b : Text)
    → IsPlain a
    → IsPlain b
    → split_comma (text "c=biws,r=" ++ (a ++ (text ",p=" ++ b)))
      ≡ (text "c=biws", (text "r=" ++ a) ∷ (text "p=" ++ b) ∷ [])
final_parts a b ha hb =
    split_comma-append_plain (text "c=biws") (text "r=" ++ (a ++ (text ",p=" ++ b)))
      (refl, (refl, (refl, (refl, (refl, (refl, tt))))))
    ∙ ap (λ p. (text "c=biws", p.0 ∷ p.1))
        (split_comma-append_plain (text "r=" ++ a) (text "p=" ++ b) (refl, (refl, ha))
          ∙ ap (λ p. (text "r=" ++ a, p.0 ∷ p.1))
              (split_comma_plain (text "p=" ++ b) (refl, (refl, hb))))

-- Those of a client-final-message.
pub attributes_final :
    (a b : Text)
    → IsPlain a
    → IsPlain b
    → attributes (text "c=biws,r=" ++ (a ++ (text ",p=" ++ b)))
      ≡ (text "c", text "biws") ∷ (text "r", a) ∷ (text "p", b) ∷ []
unfolding attributes collect split_equals insert ◌===◌
attributes_final a b ha hb = ap (λ p. collect (p.0 ∷ p.1) []) (final_parts a b ha hb)

-- Those of a client-first-message behind its header, and of a server-final-message.
pub attributes_bare :
    (a : Text) → IsPlain a → attributes (text "n=,r=" ++ a) ≡ (text "n", []) ∷ (text "r", a) ∷ []
unfolding attributes split_comma collect split_equals insert ◌===◌
attributes_bare a h = rw (split_comma_plain a h)

pub attributes_signature : (a : Text) → IsPlain a → attributes (text "v=" ++ a) ≡ (text "v", a) ∷ []
unfolding attributes split_comma collect split_equals insert ◌===◌
attributes_signature a h = rw (split_comma_plain a h)

not_mark : (c : ℕ) (cs : Text) → (c == b',') ≡ false → is_proof_mark (c ∷ cs) ≡ false
not_mark c [] h = refl
not_mark c (d ∷ []) h = refl
not_mark c (d ∷ e ∷ es) h = rw h

no_mark : (t : Text) → IsPlain t → before_proof t ≡ none
unfolding before_proof
no_mark [] h = refl
no_mark (c ∷ cs) h = rw (no_mark cs h.1, not_mark c cs h.0)

-- The last mark is the one in front of a text without commas.
pub before_proof-append :
    (front t : Text) → IsPlain t → before_proof (front ++ (text ",p=" ++ t)) ≡ some front
unfolding before_proof
before_proof-append [] t h = rw (no_mark t h, not_mark b'=' t refl, not_mark b'p' (b'=' ∷ t) refl)
before_proof-append (c ∷ cs) t h = rw (before_proof-append cs t h)

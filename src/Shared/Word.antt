-- ===== src/Shared/Word.antt =====
-- The bitwise operators of JavaScript on integers, which take their operands as 32 binary digits
-- and give a signed number, `>>> 0` excepted.
use just_postgres.Shared.Tests.{power_positive, ◌==◌, ltb, if◌then◌else◌}
use just_postgres.Shared.Int.{ℤ, pos, negsuc}
use Prim.Native.Nat.{ℕ, zero, suc, ◌+◌, ◌-◌, ◌*◌, ◌/◌, ◌%◌, ◌^◌, ◌≤◌, ◌<◌}
use mathlib.Core.Path.{◌≡◌, refl, sym, ap, ◌∙◌}
use mathlib.Core.Bool.{Bool, true, false}
use native.Mathlib.Omega.{arith}
use native.Mathlib.Nat.{div-div-eq-div-mul}

-- `a >>> 0`: the number that the 32 digits stand for without a sign.
unfoldable pub to_uint32 : ℤ → ℕ
to_uint32 (pos n) = n % 4294967296
to_uint32 (negsuc n) = 4294967295 - n % 4294967296

-- The number that 32 digits stand for with a sign.
unfoldable pub to_int32 : ℕ → ℤ
to_int32 w = if ltb w 2147483648 then pos w else negsuc (4294967295 - w)

-- `&` and `|` of the `n` low binary digits.
unfoldable pub and_digits : ℕ → ℕ → ℕ → ℕ
and_digits zero a b = 0
and_digits (suc n) a b = (if a % 2 == 1 then b % 2 else 0) + 2 * and_digits n (a / 2) (b / 2)

unfoldable pub or_digits : ℕ → ℕ → ℕ → ℕ
or_digits zero a b = 0
or_digits (suc n) a b = (if a % 2 == 1 then 1 else b % 2) + 2 * or_digits n (a / 2) (b / 2)

unfoldable pub bit_and : ℤ → ℤ → ℤ
bit_and a b = to_int32 (and_digits 32 (to_uint32 a) (to_uint32 b))

unfoldable pub bit_or : ℤ → ℤ → ℤ
bit_or a b = to_int32 (or_digits 32 (to_uint32 a) (to_uint32 b))

-- `a << n`
unfoldable pub shift_left : ℤ → ℕ → ℤ
shift_left a n = to_int32 ((to_uint32 a * 2 ^ (n % 32)) % 4294967296)

pub to_uint32-to_int32 : (w : ℕ) → w < 4294967296 → to_uint32 (to_int32 w) ≡ w
unfolding to_uint32 to_int32
to_uint32-to_int32 w h = ground arith

pub to_uint32-small : (n : ℕ) → n < 4294967296 → to_uint32 (pos n) ≡ n
unfolding to_uint32
to_uint32-small n h = omega (arith, h)

pub to_uint32_bound : (a : ℤ) → to_uint32 a < 4294967296
unfolding to_uint32
to_uint32_bound (pos n) = omega arith
to_uint32_bound (negsuc n) = omega arith

pub and_digits-zero : (n a : ℕ) → and_digits n a 0 ≡ 0
unfolding and_digits
and_digits-zero zero a = refl
and_digits-zero (suc n) a = ground (arith, and_digits-zero n (a / 2))

and_digits_bound : (n a b : ℕ) → and_digits n a b < 2 ^ n
unfolding and_digits
and_digits_bound zero a b = omega arith
and_digits_bound (suc n) a b = ground (arith, and_digits_bound n (a / 2) (b / 2))

or_digits_bound : (n a b : ℕ) → or_digits n a b < 2 ^ n
unfolding or_digits
or_digits_bound zero a b = omega arith
or_digits_bound (suc n) a b = ground (arith, or_digits_bound n (a / 2) (b / 2))

or_digits-zero : (n a : ℕ) → a < 2 ^ n → or_digits n a 0 ≡ a
unfolding or_digits
or_digits-zero zero a h = omega (arith, h)
or_digits-zero (suc n) a h = ground (arith, or_digits-zero n (a / 2))

and_digits-ones : (n a : ℕ) → a < 2 ^ n → and_digits n a (2 ^ n - 1) ≡ a
unfolding and_digits
and_digits-ones zero a h = omega (arith, h)
and_digits-ones (suc n) a h =
    let p : 0 < 2 ^ n = power_positive n in
    let half : (2 ^ suc n - 1) / 2 ≡ 2 ^ n - 1 = omega (arith, p) in
    let rest = ap (and_digits n (a / 2)) half ∙ and_digits-ones n (a / 2) (omega (arith, h)) in
    ground (arith, rest, p)

twice : (q p : ℕ) → q * (2 * p) ≡ 2 * (q * p)
twice q p = grind arith

shift_one : (a h : ℕ) → a / 2 ^ suc h * 2 ^ suc h ≡ 2 * (a / 2 / 2 ^ h * 2 ^ h)
shift_one a h =
    let power : 2 ^ suc h ≡ 2 * 2 ^ h = omega arith in
    ap (λ p. a / p * p) power
    ∙ ap (λ q. q * (2 * 2 ^ h)) (sym (div-div-eq-div-mul a 2 (2 ^ h)))
    ∙ twice (a / 2 / 2 ^ h) (2 ^ h)

-- All ones but for the `h` lowest digits: what is left of a word without its `h` lowest digits.
pub and_digits-mask :
    (n h a : ℕ) → h ≤ n → a < 2 ^ n → and_digits n a (2 ^ n - 2 ^ h) ≡ a / 2 ^ h * 2 ^ h
unfolding and_digits
and_digits-mask n zero a l k = and_digits-ones n a k ∙ omega arith
and_digits-mask zero (suc h) a l k = elim l [ ]
and_digits-mask (suc n) (suc h) a l k =
    let half : (2 ^ suc n - 2 ^ suc h) / 2 ≡ 2 ^ n - 2 ^ h = omega arith in
    let even : (2 ^ suc n - 2 ^ suc h) % 2 ≡ 0 = omega arith in
    let rest =
      ap (and_digits n (a / 2)) half
      ∙ and_digits-mask n h (a / 2) (omega (arith, l)) (omega (arith, k)) in
    ground (arith, rest, even, shift_one a h)

-- Digits that do not meet: the sum.
pub or_digits-sum :
    (n k v b : ℕ)
    → k ≤ n
    → v * 2 ^ k < 2 ^ n
    → b < 2 ^ k
    → or_digits n (v * 2 ^ k) b ≡ v * 2 ^ k + b
unfolding or_digits
or_digits-sum n zero v b l h m =
    let none_left : b ≡ 0 = omega (arith, m) in
    rw none_left (or_digits-zero n (v * 1) h ∙ omega arith)
or_digits-sum zero (suc k) v b l h m = elim l [ ]
or_digits-sum (suc n) (suc k) v b l h m =
    let power : v * 2 ^ suc k ≡ 2 * (v * 2 ^ k) = ap (λ p. v * p) (omega arith) ∙ twice v (2 ^ k) in
    let half : v * 2 ^ suc k / 2 ≡ v * 2 ^ k = omega (arith, power) in
    let rest =
      ap (λ w. or_digits n w (b / 2)) half
      ∙ or_digits-sum n k v (b / 2) (omega (arith, l)) (omega (arith, h, power))
          (omega (arith, m)) in
    ground (arith, rest, power)

-- One octet more.
pub octet_in :
    (a : ℤ) (n : ℕ)
    → to_uint32 a < 16777216
    → n < 256
    → to_uint32 (bit_or (shift_left a 8) (pos n)) ≡ to_uint32 a * 256 + n
unfolding bit_or shift_left to_uint32
octet_in a n h l =
    let v = to_uint32 a in
    let shifted : to_uint32 (to_int32 ((v * 256) % 4294967296)) ≡ v * 256 =
      to_uint32-to_int32 ((v * 256) % 4294967296) (omega arith) ∙ omega (arith, h) in
    let byte : to_uint32 (pos n) ≡ n = omega (arith, l) in
    to_uint32-to_int32 _ (or_digits_bound 32 _ _)
    ∙ ap (λ w. or_digits 32 w (to_uint32 (pos n))) shifted
    ∙ ap (or_digits 32 (v * 256)) byte
    ∙ or_digits-sum 32 8 v n (omega arith) (omega (arith, h)) (omega (arith, l))

-- Whether a test is passed by all shifts of less than `n`.
passes : (ℕ → Bool) → ℕ → Bool
passes test zero = true
passes test (suc n) = if test n then passes test n else false

passes_each : (test : ℕ → Bool) (bound h : ℕ) → h < bound → passes test bound ≡ true → test h ≡ true
unfolding passes
passes_each test zero h less every = elim less [ ]
passes_each test (suc bound) h less every = ground (arith, passes_each test bound h)

-- `-1 << h`
is_ones : ℕ → Bool
is_ones h = to_uint32 (shift_left (negsuc 0) h) == 4294967296 - 2 ^ h

all_ones : passes is_ones 32 ≡ true
unfolding passes is_ones shift_left to_uint32 to_int32
all_ones = refl

pub ones_left : (h : ℕ) → h < 32 → to_uint32 (shift_left (negsuc 0) h) ≡ 4294967296 - 2 ^ h
unfolding is_ones
ones_left h l =
    let here : is_ones h ≡ true = passes_each is_ones 32 h l all_ones in ground (arith, here)

-- `(a & b) >>> 0` of two words.
pub bit_and-words :
    (a b : ℕ)
    → a < 4294967296
    → b < 4294967296
    → to_uint32 (bit_and (pos a) (pos b)) ≡ and_digits 32 a b
unfolding bit_and to_uint32
bit_and-words a b h k =
    let first : to_uint32 (pos a) ≡ a = omega (arith, h) in
    let second : to_uint32 (pos b) ≡ b = omega (arith, k) in
    to_uint32-to_int32 _ (and_digits_bound 32 _ _)
    ∙ ap (λ w. and_digits 32 w (to_uint32 (pos b))) first
    ∙ ap (and_digits 32 a) second

-- ===== src/Router/Bytes.antt =====
-- What the router uses of Node's Buffer: a buffer is the list of its bytes.
use just_postgres.Shared.{
  ℕ, ◌+◌, ◌-◌, ◌*◌, ◌/◌, ◌%◌, ◌≤◌, ◌<◌, ◌≡◌, Bool, Option, none, some, List, [], ◌∷◌, ◌++◌, arith,
  ltb, ◌==◌, if◌then◌else◌, ◌>>=◌, get_elem?, get_elem?-append, length, ap, suc,
}
use just_postgres.Shared.Int.{ℤ, pos, negsuc}

abbrev pub Buffer : Type 0
Buffer = List ℕ

-- The value of four bytes, most significant first.
abbrev pub be32 : ℕ → ℕ → ℕ → ℕ → ℕ
be32 a b c d = a * 16777216 + b * 65536 + c * 256 + d

-- Two's complement in 32 bits.
abbrev pub to_int32 : ℕ → ℤ
to_int32 u = if ltb u 2147483648 then pos u else negsuc (4294967295 - u)

abbrev pub of_int32 : ℤ → ℕ
of_int32 (pos n) = n
of_int32 (negsuc n) = 4294967295 - n

-- `readInt32BE(offset)`; `none` is the RangeError of a read past the end.
unfoldable pub read_int32_be : Buffer → ℕ → Option ℤ
read_int32_be b o = do
  p ← get_elem? b o
  q ← get_elem? b (o + 1)
  r ← get_elem? b (o + 2)
  s ← get_elem? b (o + 3)
  some (to_int32 (be32 p q r s))

-- `readUInt8(offset)`.
abbrev pub read_uint8 : Buffer → ℕ → Option ℕ
read_uint8 b o = get_elem? b o

abbrev pub InInt32 : ℤ → Type 0
InInt32 (pos n) = n < 2147483648
InInt32 (negsuc n) = n < 2147483648

abbrev in_int32 : ℤ → Bool
in_int32 (pos n) = ltb n 2147483648
in_int32 (negsuc n) = ltb n 2147483648

abbrev pub be_bytes : ℕ → Buffer
be_bytes u = u / 16777216 ∷ (u / 65536) % 256 ∷ (u / 256) % 256 ∷ u % 256 ∷ []

-- The bytes that `writeInt32BE(value)` stores; `none` is its RangeError.
unfoldable pub int32_be : ℤ → Option Buffer
int32_be v = if in_int32 v then some (be_bytes (of_int32 v)) else none

-- `indexOf(0, offset)`, counted from `offset`; `none` is -1.
unfoldable pub index_of_zero : Buffer → Option ℕ
index_of_zero [] = none
index_of_zero (x ∷ xs) =
    let later = index_of_zero xs in
    if x == 0 then some 0 else elim later [ none ↦ none | some i ↦ some (suc i) ]

be32-be_bytes : (u : ℕ) → be32 (u / 16777216) ((u / 65536) % 256) ((u / 256) % 256) (u % 256) ≡ u
be32-be_bytes u = omega arith

to_int32-of_int32 : (v : ℤ) → InInt32 v → to_int32 (of_int32 v) ≡ v
to_int32-of_int32 (pos n) h = ground arith
to_int32-of_int32 (negsuc n) h = ground arith

-- A value is written exactly when it is in range, as its four bytes.
pub int32_be-eq-some :
    (v : ℤ) (bs : Buffer) → int32_be v ≡ some bs → InInt32 v × (be_bytes (of_int32 v) ≡ bs)
unfolding int32_be
int32_be-eq-some (pos n) bs e = ground arith
int32_be-eq-some (negsuc n) bs e = ground arith

pub int32_be_of_InInt32 : (v : ℤ) → InInt32 v → int32_be v ≡ some (be_bytes (of_int32 v))
unfolding int32_be
int32_be_of_InInt32 (pos n) h = ground arith
int32_be_of_InInt32 (negsuc n) h = ground arith

-- The four bytes of a value in range read as that value.
pub read_be_bytes :
    (v : ℤ) (rest : Buffer) → InInt32 v → read_int32_be (be_bytes (of_int32 v) ++ rest) 0 ≡ some v
unfolding read_int32_be
read_be_bytes v rest h = rw (be32-be_bytes (of_int32 v)) (ap some (to_int32-of_int32 v h))

-- Reading back what was written, whatever follows.
pub read_int32_be-int32_be :
    (v : ℤ) (bs rest : Buffer) → int32_be v ≡ some bs → read_int32_be (bs ++ rest) 0 ≡ some v
read_int32_be-int32_be v bs rest e =
    let (inside, same) = int32_be-eq-some v bs e in rw (← same) (read_be_bytes v rest inside)

-- A read that succeeds looks at four bytes, and at nothing behind them.
pub read_int32_be-append :
    (xs ys : Buffer) (o : ℕ) → o + 4 ≤ length xs → read_int32_be (xs ++ ys) o ≡ read_int32_be xs o
unfolding read_int32_be
read_int32_be-append xs ys o h = rw (
  get_elem?-append xs ys o (omega arith),
  get_elem?-append xs ys (o + 1) (omega arith),
  get_elem?-append xs ys (o + 2) (omega arith),
  get_elem?-append xs ys (o + 3) (omega arith),
)

-- ===== src/Router/Pool/Ids.antt =====
-- Arrays and sets of connections, as apps/router/src/pool.ts uses them: a connection is its id, the
-- head of a list is the end of the array.
use just_postgres.Shared.{
  ℕ, ◌+◌, ◌-◌, ◌≤◌, ◌<◌, ◌≡◌, ◌≢◌, refl, Bool, true, false, ◌||◌, List, [], ◌∷◌, arith, ◌==◌,
  if◌then◌else◌, length, All,
}

-- `set.has`
unfoldable pub member : ℕ → List ℕ → Bool
member c [] = false
member c (x ∷ xs) = (x == c) || member c xs

-- `splice(indexOf(c), 1)` where it is found, and `set.delete`.
unfoldable pub remove : ℕ → List ℕ → List ℕ
remove c [] = []
remove c (x ∷ xs) = if x == c then xs else x ∷ remove c xs

-- `set.add`
unfoldable pub add : ℕ → List ℕ → List ℕ
add c xs = if member c xs then xs else c ∷ xs

-- How often a connection stands in a list.
unfoldable pub count : ℕ → List ℕ → ℕ
count c [] = 0
count c (x ∷ xs) = if x == c then count c xs + 1 else count c xs

pub count-remove_self : (c : ℕ) (xs : List ℕ) → count c (remove c xs) ≡ count c xs - 1
unfolding count remove
count-remove_self c [] = refl
count-remove_self c (x ∷ xs) = ground (arith, count-remove_self c xs)

pub count-remove_ne : (c d : ℕ) (xs : List ℕ) → c ≢ d → count d (remove c xs) ≡ count d xs
unfolding count remove
count-remove_ne c d [] h = refl
count-remove_ne c d (x ∷ xs) h = ground (arith, count-remove_ne c d xs h)

pub count-remove_le : (c d : ℕ) (xs : List ℕ) → count d (remove c xs) ≤ count d xs
unfolding count remove
count-remove_le c d [] = omega arith
count-remove_le c d (x ∷ xs) = ground (arith, count-remove_le c d xs)

pub length-remove_le : (c : ℕ) (xs : List ℕ) → length (remove c xs) ≤ length xs
unfolding remove
length-remove_le c [] = omega arith
length-remove_le c (x ∷ xs) = ground (arith, length-remove_le c xs)

pub length-remove : (c : ℕ) (xs : List ℕ) → 0 < count c xs → length (remove c xs) + 1 ≡ length xs
unfolding count remove
length-remove c [] h = elim h [ ]
length-remove c (x ∷ xs) h = ground (arith, length-remove c xs)

pub length-add_le : (c : ℕ) (xs : List ℕ) → length (add c xs) ≤ length xs + 1
unfolding add
length-add_le c xs = ground arith

pub count-add_le : (c d : ℕ) (xs : List ℕ) → count d xs ≤ count d (add c xs)
unfolding add count
count-add_le c d xs = ground arith

pub count_pos-member : (c : ℕ) (xs : List ℕ) → member c xs ≡ true → 0 < count c xs
unfolding count member
count_pos-member c [] h = cc
count_pos-member c (x ∷ xs) h = ground (arith, count_pos-member c xs)

pub count-add_pos : (c : ℕ) (xs : List ℕ) → 0 < count c (add c xs)
unfolding add count
count-add_pos c xs = ground (arith, count_pos-member c xs)

-- Every id in the list was given out.
abbrev pub Below : ℕ → List ℕ → Type 0
Below n = All (λ c. c < n)

pub Below-count : (n : ℕ) (xs : List ℕ) → Below n xs → count n xs ≡ 0
unfolding count
Below-count n [] h = refl
Below-count n (x ∷ xs) h = ground (arith, Below-count n xs h.1)

pub Below-suc : (n : ℕ) (xs : List ℕ) → Below n xs → Below (n + 1) xs
Below-suc n [] h = tt
Below-suc n (x ∷ xs) h = (omega arith, Below-suc n xs h.1)

pub Below-remove : (n c : ℕ) (xs : List ℕ) → Below n xs → Below n (remove c xs)
unfolding remove
Below-remove n c [] h = tt
Below-remove n c (x ∷ xs) h = ground (arith, Below-remove n c xs h.1)

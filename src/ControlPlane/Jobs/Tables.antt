-- ===== src/ControlPlane/Jobs/Tables.antt =====
-- The statements on the table `jobs`: what an update keeps, and what the primary key gives.
use just_postgres.Shared.{
  ◌≡◌, ◌≢◌, refl, sym, ap, ◌∙◌, Bool, true, false, some, [], ◌∷◌, if◌then◌else◌, All, inl, inr, ◌⊎◌,
  Bool-cases, subst,
}
use just_postgres.Router.Text.{Text, ◌===◌, ===_sound, ===_refl}
use just_postgres.ControlPlane.Jobs.Rows.{JobRow, Jobs, update, select, get, has_id}

-- The primary key.
abbrev pub AreDistinct : Jobs → Type 0
AreDistinct [] = Unit
AreDistinct (r ∷ rs) = All (λ s. s.id ≢ r.id) rs × AreDistinct rs

abbrev pub IsIn : JobRow → Jobs → Type 0
IsIn c [] = ⊥
IsIn c (r ∷ rs) = (r ≡ c) ⊎ IsIn c rs

abbrev pub Keeps : (JobRow → JobRow) → Type 0
Keeps f = (r : JobRow) → (f r).id ≡ r.id

pub All-update {ℓ} :
    (P : JobRow → Type ℓ) (t : JobRow → Bool) (f : JobRow → JobRow) (rs : Jobs)
    → All (λ r. P r → t r ≡ true → P (f r)) rs
    → All P rs
    → All P (update t f rs)
unfolding update
All-update P t f [] k h = tt
All-update P t f (r ∷ rs) k h = (
  elim (Bool-cases (t r)) [ inl e ↦ rw e (k.0 h.0 e) | inr e ↦ rw e h.0 ],
  All-update P t f rs k.1 h.1,
)

pub All-always {ℓ} : (P : JobRow → Type ℓ) → ((r : JobRow) → P r) → (rs : Jobs) → All P rs
All-always P k [] = tt
All-always P k (r ∷ rs) = (k r, All-always P k rs)

pub AreDistinct-update :
    (t : JobRow → Bool) (f : JobRow → JobRow) (rs : Jobs)
    → Keeps f
    → AreDistinct rs
    → AreDistinct (update t f rs)
unfolding update
AreDistinct-update t f [] k d = tt
AreDistinct-update t f (r ∷ rs) k d =
    let same : (if t r then f r else r).id ≡ r.id = elim (Bool-cases (t r)) [
      | inl e ↦ rw e (k r)
      | inr e ↦ rw e
    ] in
    (
      rw same (
          All-update (λ s. s.id ≢ r.id) t f rs
            (All-always (λ s. s.id ≢ r.id → t s ≡ true → (f s).id ≢ r.id)
              (λ s n e h. n (sym (k s) ∙ h)) rs)
            d.0),
      AreDistinct-update t f rs k d.1,
    )

pub All-IsIn {ℓ} : (P : JobRow → Type ℓ) (c : JobRow) (rs : Jobs) → All P rs → IsIn c rs → P c
All-IsIn P c [] h i = elim i [ ]
All-IsIn P c (r ∷ rs) h (inl e) = subst P e h.0
All-IsIn P c (r ∷ rs) h (inr i) = All-IsIn P c rs h.1 i

-- The row with an id is the only one.
abbrev pub IsOnly : JobRow → Jobs → Type 0
IsOnly c rs = All (λ r. has_id c.id r ≡ true → r ≡ c) rs

others : (c r : JobRow) (rs : Jobs) → r ≡ c → All (λ s. s.id ≢ r.id) rs → IsOnly c rs
others c r [] e h = tt
others c r (s ∷ rs) e h = (
  λ same. elim (h.0 (===_sound s.id c.id same ∙ sym (ap (λ q. q.id) e))) [ ],
  others c r rs e h.1,
)

pub IsIn-IsOnly : (c : JobRow) (rs : Jobs) → AreDistinct rs → IsIn c rs → IsOnly c rs
IsIn-IsOnly c [] d i = elim i [ ]
IsIn-IsOnly c (r ∷ rs) d (inl e) = (λ same. e, others c r rs e d.0)
IsIn-IsOnly c (r ∷ rs) d (inr i) = (
  λ same. elim (All-IsIn (λ s. s.id ≢ r.id) c rs d.0 i (sym (===_sound r.id c.id same))) [ ],
  IsIn-IsOnly c rs d.1 i,
)

pub get-eq-some :
    (id : Text) (c : JobRow) (rs : Jobs) → get id rs ≡ some c → IsIn c rs × (c.id ≡ id)
unfolding get
get-eq-some id c [] h = cc
get-eq-some id c (r ∷ rs) h = elim (Bool-cases (r.id === id)) [
  | inl e ↦
      let same : r ≡ c = cc (rw e at h) in (inl same, cc (===_sound r.id id e, ap (λ q. q.id) same))
  | inr e ↦ let (i, k) = get-eq-some id c rs (rw e at h) in (inr i, k)
]

pub get-IsIn : (c : JobRow) (rs : Jobs) → IsOnly c rs → IsIn c rs → get c.id rs ≡ some c
unfolding get
get-IsIn c [] o i = elim i [ ]
get-IsIn c (r ∷ rs) o i = elim (Bool-cases (has_id c.id r)) [
  | inl e ↦ rw e (ap some (o.0 e))
  | inr e ↦ rw e (elim i [
    | inl same ↦ cc (e, ap (λ q. has_id c.id q) same, ===_refl c.id)
    | inr j ↦ get-IsIn c rs o.1 j
  ])
]

-- What a row with the id becomes.
pub get-update :
    (t : JobRow → Bool) (f : JobRow → JobRow) (id : Text) (c : JobRow) (rs : Jobs)
    → Keeps f
    → get id rs ≡ some c
    → get id (update t f rs) ≡ some (if t c then f c else c)
unfolding get update
get-update t f id c [] k h = cc
get-update t f id c (r ∷ rs) k h =
    let same : (if t r then f r else r).id ≡ r.id = elim (Bool-cases (t r)) [
      | inl e ↦ rw e (k r)
      | inr e ↦ rw e
    ] in
    elim (Bool-cases (r.id === id)) [
      | inl e ↦
          let it : r ≡ c = cc (rw e at h) in
          rw (same, e) (ap (λ q. some (if t q then f q else q)) it)
      | inr e ↦ rw (same, e) (get-update t f id c rs k (rw e at h))
    ]

pub update_none :
    (t : JobRow → Bool) (f : JobRow → JobRow) (rs : Jobs)
    → All (λ r. t r ≡ false) rs
    → update t f rs ≡ rs
unfolding update
update_none t f [] h = refl
update_none t f (r ∷ rs) h = rw (h.0, update_none t f rs h.1)

pub select_none : (t : JobRow → Bool) (rs : Jobs) → All (λ r. t r ≡ false) rs → select t rs ≡ []
unfolding select
select_none t [] h = refl
select_none t (r ∷ rs) h = rw (h.0, select_none t rs h.1)

pub IsIn-select :
    (t : JobRow → Bool) (c : JobRow) (rs : Jobs) → IsIn c (select t rs) → IsIn c rs × (t c ≡ true)
unfolding select
IsIn-select t c [] i = elim i [ ]
IsIn-select t c (r ∷ rs) i = elim (Bool-cases (t r)) [
  | inl e ↦ elim (rw e at i) [
    | inl same ↦ (inl same, ap t (sym same) ∙ e)
    | inr j ↦ let (k, holds) = IsIn-select t c rs j in (inr k, holds)
  ]
  | inr e ↦ let (k, holds) = IsIn-select t c rs (rw e at i) in (inr k, holds)
]

-- ===== src/ControlPlane/Disk/Reserve.antt =====
-- apps/control-plane/src/storage/disk.ts: whether every filesystem keeps its reserve.
use just_postgres.Shared.{
  ℕ, ◌*◌, ◌≤◌, ◌<◌, ◌≡◌, refl, ◌∙◌, sym, ap, true, false, not, Option, none, some, List, [], ◌∷◌,
  ◌++◌, arith, leb, if◌then◌else◌, All, Bool-cases, inl, inr,
}
use just_postgres.Router.Text.{Text, text}
use just_postgres.ControlPlane.Disk.{
  DiskConfig, DiskUsage, Measurement, measured, fails, round_div, insert_usage, sort, first_usage,
  any_same, required_free, to_usage, own_filesystem, with_projects, do_sample, lacks_headroom,
  assert_can_allocate,
}

abbrev pub HasReserve : DiskUsage → Type 0
HasReserve u = u.has_headroom ≡ true

-- The filesystems whose reserve is `n` bytes.
abbrev Reserves : ℕ → DiskUsage → Type 0
Reserves n u = u.has_headroom ≡ leb n u.free_bytes

-- A list of which no filesystem has less than `n` free bytes.
abbrev Above : ℕ → List DiskUsage → Type 0
Above n us = All (λ u. n ≤ u.free_bytes) us

module _ (P : DiskUsage → Type 0) where
  insert-All : (u : DiskUsage) (us : List DiskUsage) → P u → All P us → All P (insert_usage u us)
  unfolding insert_usage
  insert-All u [] h hs = (h, tt)
  insert-All u (v ∷ vs) h hs = elim (Bool-cases (leb u.free_bytes v.free_bytes)) [
    | inl e ↦ rw e (h, hs)
    | inr e ↦ rw e (hs.0, insert-All u vs h hs.1)
  ]

  sort-All : (us : List DiskUsage) → All P us → All P (sort us)
  unfolding sort
  sort-All [] h = h
  sort-All (u ∷ us) h = insert-All u (sort us) h.0 (sort-All us h.1)

abbrev pub IsSorted : List DiskUsage → Type 0
IsSorted [] = Unit
IsSorted (u ∷ us) = Above u.free_bytes us × IsSorted us

Above-less : (m n : ℕ) (us : List DiskUsage) → m ≤ n → Above n us → Above m us
Above-less m n [] le h = tt
Above-less m n (u ∷ us) le h = (omega (arith, le, h.0), Above-less m n us le h.1)

insert-IsSorted : (u : DiskUsage) (us : List DiskUsage) → IsSorted us → IsSorted (insert_usage u us)
unfolding insert_usage
insert-IsSorted u [] h = (tt, tt)
insert-IsSorted u (v ∷ vs) h = elim (Bool-cases (leb u.free_bytes v.free_bytes)) [
  | inl e ↦
      let le : u.free_bytes ≤ v.free_bytes = ground arith in
      rw e ((le, Above-less u.free_bytes v.free_bytes vs le h.0), h)
  | inr e ↦
      let le : v.free_bytes ≤ u.free_bytes = ground arith in
      rw e (insert-All (λ w. v.free_bytes ≤ w.free_bytes) u vs le h.0, insert-IsSorted u vs h.1)
]

sort-IsSorted : (us : List DiskUsage) → IsSorted (sort us)
unfolding sort
sort-IsSorted [] = tt
sort-IsSorted (u ∷ us) = insert-IsSorted u (sort us) (sort-IsSorted us)

-- Where every filesystem has the same reserve, the one with the least free bytes decides.
first_decides :
    (n : ℕ) (us : List DiskUsage)
    → IsSorted us
    → All (Reserves n) us
    → lacks_headroom (first_usage us) ≡ false
    → All HasReserve us
first_decides n [] s h k = tt
first_decides n (u ∷ us) s h k =
    let kept : u.has_headroom ≡ true = ground (arith, k) in
    let enough : leb n u.free_bytes ≡ true = sym h.0 ∙ kept in
    let least : n ≤ u.free_bytes = ground (arith, enough) in
    (kept, all_kept n us (Above-less n u.free_bytes us least s.0) h.1)
  where
    all_kept : (n : ℕ) (us : List DiskUsage) → Above n us → All (Reserves n) us → All HasReserve us
    all_kept n [] a h = tt
    all_kept n (u ∷ us) a h =
        let enough : leb n u.free_bytes ≡ true = ground (arith, a.0) in
        (h.0 ∙ enough, all_kept n us a.1 h.1)

allowed :
    (o : Option DiskUsage)
    → (if lacks_headroom o then o else none) ≡ none
    → lacks_headroom o ≡ false
allowed none h = refl
allowed (some u) h = elim (Bool-cases u.has_headroom) [ inl e ↦ ap not e | inr e ↦ cc ]

module _ (config : DiskConfig) where
  required_same :
      (total : ℕ) → config.min_free_percent ≡ 0 → required_free config total ≡ config.min_free_bytes
  unfolding required_free
  required_same total h =
      let nothing : round_div (total * 0) 100 ≡ 0 = omega arith in rw (h, nothing) (ground arith)

  usage-Reserves :
      (label path : Text) (total free : ℕ)
      → config.min_free_percent ≡ 0
      → Reserves config.min_free_bytes (to_usage config label path total free)
  unfolding to_usage
  usage-Reserves label path total free h = ap (λ n. leb n free) (required_same total h)

  own-Reserves :
      (path : Text) (own : Measurement)
      → config.min_free_percent ≡ 0
      → All (Reserves config.min_free_bytes) (own_filesystem config path own)
  own-Reserves path (measured total free) h = (usage-Reserves _ path total free h, tt)
  own-Reserves path (fails message) h = tt

  All-append :
      (P : DiskUsage → Type 0) (us : List DiskUsage) (u : DiskUsage)
      → All P us
      → P u
      → All P (us ++ u ∷ [])
  All-append P [] u h k = (k, tt)
  All-append P (v ∷ vs) u h k = (h.0, All-append P vs u h.1 k)

  with_projects-Reserves :
      (label path : Text) (projects : Measurement) (others : List DiskUsage)
      → config.min_free_percent ≡ 0
      → All (Reserves config.min_free_bytes) others
      → All (Reserves config.min_free_bytes) (with_projects config label path projects others)
  with_projects-Reserves label path (fails message) others h k = k
  with_projects-Reserves label path (measured total free) others h k =
      elim (Bool-cases (any_same (to_usage config label path total free) others)) [
        | inl e ↦ rw e k
        | inr e ↦ rw e (All-append _ others _ k (usage-Reserves label path total free h))
      ]

  -- With a reserve in bytes alone, work that allocates is let through only where every filesystem
  -- of the sample keeps its reserve.
  pub assert_can_allocate_safe :
      (now : ℕ) (data_dir : Text) (own : Measurement) (label path : Text) (projects : Measurement)
      → config.min_free_percent ≡ 0
      → assert_can_allocate (do_sample config now data_dir own label path projects) ≡ none
      → All HasReserve (do_sample config now data_dir own label path projects).filesystems
  unfolding assert_can_allocate do_sample
  assert_can_allocate_safe now data_dir own label path projects h k =
      let us = with_projects config label path projects (own_filesystem config data_dir own) in
      first_decides config.min_free_bytes (sort us) (sort-IsSorted us)
        (sort-All (Reserves config.min_free_bytes) us
          (with_projects-Reserves label path projects _ h (own-Reserves data_dir own h)))
        (allowed (first_usage (sort us)) k)

  -- Where both measurements succeed and are of two filesystems, and the one of the control plane
  -- has no more free bytes than the one of the projects but keeps its reserve, work that allocates
  -- is let through although the filesystem of the projects is below its reserve.
  pub reserve_missed :
      (now : ℕ) (data_dir : Text) (own_total own_free : ℕ) (label path : Text) (total free : ℕ)
      → any_same
          (to_usage config label path total free)
          (own_filesystem config data_dir (measured own_total own_free))
        ≡ false
      → own_free ≤ free
      → required_free config own_total ≤ own_free
      → free < required_free config total
      → (assert_can_allocate (
            do_sample config now data_dir
              (measured own_total own_free)
              label
              path
              (measured total free))
          ≡ none)
        × ((do_sample config now data_dir
              (measured own_total own_free)
              label
              path
              (measured total free)).filesystems
            ≡ to_usage config (text "control plane and backups") data_dir own_total own_free
              ∷ to_usage config label path total free
              ∷ [])
        × ((to_usage config label path total free).has_headroom ≡ false)
  unfolding assert_can_allocate do_sample to_usage sort insert_usage
  reserve_missed now data_dir own_total own_free label path total free d le k l =
      let first : leb own_free free ≡ true = ground arith in
      let kept : leb (required_free config own_total) own_free ≡ true = ground arith in
      let low : leb (required_free config total) free ≡ false = ground arith in
      rw (d, sort, insert_usage, first, kept, low) (refl, refl, refl)

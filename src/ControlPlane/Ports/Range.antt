-- ===== src/ControlPlane/Ports/Range.antt =====
-- apps/control-plane/src/projects/ports.ts: which port is allocated, and when there is none.
use native.Mathlib.Nat.{mod-lt, mod-eq_of_lt, add-mod_right}
use just_postgres.Shared.{
  ℕ, zero, suc, ◌+◌, ◌-◌, ◌%◌, ◌≤◌, ◌<◌, ◌≡◌, sym, ap, ◌∙◌, Bool, true, false, Option, none, some,
  List, arith, Bool-cases, Option-cases, inl, inr, subst, leb, ◌&&◌,
}
use just_postgres.ControlPlane.Ports.{is_usable, port_at, scan, allocate_host_port}

module _ (is_free : ℕ → Bool) (taken : List ℕ) (start span offset : ℕ) where
  scan_sound :
      (left i port : ℕ)
      → scan is_free taken start span offset left i ≡ some port
      → (j : ℕ) × (port ≡ port_at start span offset j) × (is_usable is_free taken port ≡ true)
  unfolding scan
  scan_sound zero i port h = cc
  scan_sound (suc left) i port h =
      elim (Bool-cases (is_usable is_free taken (port_at start span offset i))) [
        | inl e ↦
            let same : port_at start span offset i ≡ port = cc (rw e at h) in
            (i, sym same, subst (λ q. is_usable is_free taken q ≡ true) same e)
        | inr e ↦ scan_sound left (suc i) port (rw e at h)
      ]

  scan-none :
      (left i j : ℕ)
      → scan is_free taken start span offset left i ≡ none
      → j < left
      → is_usable is_free taken (port_at start span offset (i + j)) ≡ false
  unfolding scan
  scan-none zero i j h l = elim l [ ]
  scan-none (suc left) i zero h l =
      elim (Bool-cases (is_usable is_free taken (port_at start span offset i))) [
        | inl e ↦ cc (rw e at h)
        | inr e ↦
            let same : i ≡ i + 0 = omega arith in
            subst (λ n. is_usable is_free taken (port_at start span offset n) ≡ false) same e
      ]
  scan-none (suc left) i (suc j) h l =
      elim (Bool-cases (is_usable is_free taken (port_at start span offset i))) [
        | inl e ↦ cc (rw e at h)
        | inr e ↦
            let more : suc i + j ≡ i + suc j = omega arith in
            subst (λ n. is_usable is_free taken (port_at start span offset n) ≡ false) more
              (scan-none left (suc i) j (rw e at h) (omega arith))
      ]

-- The round in which a port of the range is tried.
round :
    (span offset k : ℕ)
    → offset < span
    → k < span
    → (i : ℕ) × (i < span) × ((offset + i) % span ≡ k)
round span offset k o h = elim (Bool-cases (leb offset k)) [
  | inl e ↦
      let sum : offset + (k - offset) ≡ k = ground arith in
      (k - offset, omega arith, ap (λ n. n % span) sum ∙ mod-eq_of_lt h)
  | inr e ↦
      let below : k < offset = ground arith in
      let sum : offset + (k + span - offset) ≡ k + span = omega arith in
      (
        k + span - offset,
        omega arith,
        ap (λ n. n % span) sum ∙ add-mod_right k span ∙ mod-eq_of_lt h,
      )
]

module _ (is_free : ℕ → Bool) (taken : List ℕ) (start end : ℕ) where
  -- A port of the range that passes both checks.
  abbrev pub is_candidate : ℕ → Bool
  is_candidate port = leb start port && (leb port end && is_usable is_free taken port)

  -- The result, beside any port.
  abbrev pub IsRight : Option ℕ → ℕ → Type 0
  IsRight (some allocated) port = is_candidate allocated ≡ true
  IsRight none port = is_candidate port ≡ false

  none-IsRight :
      (offset port : ℕ)
      → start ≤ end
      → offset < end + 1 - start
      → allocate_host_port is_free taken start end offset ≡ none
      → is_candidate port ≡ false
  unfolding allocate_host_port
  none-IsRight offset port r o h = elim (Bool-cases (leb start port && leb port end)) [
    | inr e ↦ ground arith
    | inl e ↦
        let low : start ≤ port = ground arith in
        let high : port ≤ end = ground arith in
        let (i, l, m) = round (end + 1 - start) offset (port - start) o (omega arith) in
        let there : start + (offset + i) % (end + 1 - start) ≡ port = omega (arith, m) in
        let first_round : 0 + i ≡ i = omega arith in
        let useless =
          scan-none is_free taken start (end + 1 - start) offset (end + 1 - start) 0 i h l in
        let none_here : is_usable is_free taken port ≡ false =
          subst (λ q. is_usable is_free taken q ≡ false)
            (ap (port_at start (end + 1 - start) offset) first_round ∙ there) useless in
        ground arith
  ]

  some-IsRight :
      (offset allocated : ℕ)
      → start ≤ end
      → allocate_host_port is_free taken start end offset ≡ some allocated
      → is_candidate allocated ≡ true
  unfolding allocate_host_port
  some-IsRight offset allocated r h =
      let (j, it, good) = scan_sound is_free taken start (end + 1 - start) offset _ _ allocated h in
      let small : (offset + j) % (end + 1 - start) < end + 1 - start =
        mod-lt (offset + j) (omega arith) in
      let low : start ≤ allocated = omega (arith, it) in
      let high : allocated ≤ end = omega (arith, it, small) in ground arith

  -- Whatever the random offset, a port is allocated if and only if there is one in the range, its
  -- ends included, that the database does not know and that can be bound; and the allocated port
  -- is such a port.
  pub allocate_host_port-IsRight :
      (offset port : ℕ)
      → start ≤ end
      → offset < end + 1 - start
      → IsRight (allocate_host_port is_free taken start end offset) port
  allocate_host_port-IsRight offset port r o =
      elim (Option-cases (allocate_host_port is_free taken start end offset)) [
        | inl e ↦ rw e (none-IsRight offset port r o e)
        | inr (allocated, e) ↦ rw e (some-IsRight offset allocated r e)
      ]

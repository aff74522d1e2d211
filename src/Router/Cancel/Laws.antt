-- ===== src/Router/Cancel/Laws.antt =====
-- apps/router/src/cancel.ts: the registry is a map from the 32-bit keys.
use just_postgres.Shared.{
  ◌≡◌, ◌≢◌, refl, ◌&&◌, Bool, true, none, some, List, [], ◌∷◌, arith, ◌==◌, if◌then◌else◌,
  Bool-cases, inl, inr,
}
use just_postgres.Shared.Int.{ℤ, pos, negsuc, ◌==ℤ◌}
use just_postgres.Router.Bytes.{InInt32}
use just_postgres.Router.Cancel.{
  Key, CancelTarget, CancelRegistry, key, to_uint32, same_key, find, put, delete, register, lookup,
  unregister,
}

abbrev pub IsKeyAbsent : {V : Type 0} → Key → List (Key × V) → Type 0
IsKeyAbsent k [] = Unit
IsKeyAbsent k ((j, v) ∷ m) = (j ≢ k) × IsKeyAbsent k m

-- A map has each key once.
abbrev pub HasOnce : {V : Type 0} → List (Key × V) → Type 0
HasOnce [] = Unit
HasOnce ((j, v) ∷ m) = IsKeyAbsent j m × HasOnce m

same_key_sound : (a b : Key) → same_key a b ≡ true → a ≡ b
same_key_sound a b h = ground arith

module _ {V : Type 0} where
  find-put :
      (k j : Key) (v : V) (m : List (Key × V))
      → find j (put k v m) ≡ (if same_key k j then some v else find j m)
  unfolding find put
  find-put k j v [] = refl
  find-put k j v ((i, w) ∷ m) = ground (arith, find-put k j v m)

  IsKeyAbsent-put :
      (k j : Key) (v : V) (m : List (Key × V)) → j ≢ k → IsKeyAbsent k m → IsKeyAbsent k (put j v m)
  unfolding put
  IsKeyAbsent-put k j v [] n h = (n, tt)
  IsKeyAbsent-put k j v ((i, w) ∷ m) n h =
      ground (arith, same_key_sound i j, IsKeyAbsent-put k j v m n h.1)

  HasOnce-put : (k : Key) (v : V) (m : List (Key × V)) → HasOnce m → HasOnce (put k v m)
  unfolding put
  HasOnce-put k v [] h = (tt, tt)
  HasOnce-put k v ((i, w) ∷ m) h = elim (Bool-cases (same_key i k)) [
    | inl same ↦ rw same h
    | inr other ↦
        let apart : k ≢ i = ground arith in
        rw other (IsKeyAbsent-put i k v m apart h.0, HasOnce-put k v m h.1)
  ]

  IsKeyAbsent-delete :
      (k j : Key) (m : List (Key × V)) → IsKeyAbsent k m → IsKeyAbsent k (delete j m)
  unfolding delete
  IsKeyAbsent-delete k j [] h = tt
  IsKeyAbsent-delete k j ((i, w) ∷ m) h = ground (arith, IsKeyAbsent-delete k j m h.1)

  HasOnce-delete : (k : Key) (m : List (Key × V)) → HasOnce m → HasOnce (delete k m)
  unfolding delete
  HasOnce-delete k [] h = tt
  HasOnce-delete k ((i, w) ∷ m) h =
      ground (arith, IsKeyAbsent-delete i k m h.0, HasOnce-delete k m h.1)

  find-IsKeyAbsent : (k : Key) (m : List (Key × V)) → IsKeyAbsent k m → find k m ≡ none
  unfolding find
  find-IsKeyAbsent k [] h = refl
  find-IsKeyAbsent k ((i, w) ∷ m) h = ground (arith, find-IsKeyAbsent k m h.1)

  find-delete :
      (k j : Key) (m : List (Key × V))
      → HasOnce m
      → find j (delete k m) ≡ (if same_key k j then none else find j m)
  unfolding find delete
  find-delete k j [] h = ground arith
  find-delete k j ((i, w) ∷ m) h = elim (Bool-cases (same_key i k)) [
    | inl same ↦
        let e : i ≡ k = same_key_sound i k same in
        ground (arith, find-IsKeyAbsent i m h.0, same_key_sound k j)
    | inr other ↦ ground (arith, find-delete k j m h.1, same_key_sound i j)
  ]

-- A registry whose map has each key once.
abbrev pub IsValid : CancelRegistry → Type 0
IsValid r = HasOnce r.entries

abbrev pub same : ℤ × ℤ → ℤ × ℤ → Bool
same (p, s) (p', s') = (p ==ℤ p') && (s ==ℤ s')

to_uint32-==ℤ : (a b : ℤ) → InInt32 a → InInt32 b → (to_uint32 a == to_uint32 b) ≡ (a ==ℤ b)
to_uint32-==ℤ (pos m) (pos n) h k = ground arith
to_uint32-==ℤ (pos m) (negsuc n) h k = ground arith
to_uint32-==ℤ (negsuc m) (pos n) h k = ground arith
to_uint32-==ℤ (negsuc m) (negsuc n) h k = ground arith

module _ (p s p' s' : ℤ) (hp : InInt32 p) (hs : InInt32 s) (hp' : InInt32 p') (hs' : InInt32 s')
    (r : CancelRegistry) where
  same_key-same : same_key (key p s) (key p' s') ≡ same (p, s) (p', s')
  same_key-same = rw (to_uint32-==ℤ p p' hp hp', to_uint32-==ℤ s s' hs hs')

  -- After a key is registered, a lookup of that key gives its target and a lookup of any other
  -- 32-bit key gives what it gave before; the map keeps each key once.
  pub lookup-register :
      (target : CancelTarget)
      → IsValid r
      → (lookup p' s' (register p s target r)
          ≡ (if same (p, s) (p', s') then some target else lookup p' s' r))
        × IsValid (register p s target r)
  unfolding lookup register
  lookup-register target v = (
    rw (find-put (key p s) (key p' s') target r.entries, same_key-same),
    HasOnce-put (key p s) target r.entries v,
  )

  -- After a key is unregistered, a lookup of that key finds nothing and a lookup of any other
  -- 32-bit key gives what it gave before; the map keeps each key once.
  pub lookup-unregister :
      IsValid r
      → (lookup p' s' (unregister p s r) ≡ (if same (p, s) (p', s') then none else lookup p' s' r))
        × IsValid (unregister p s r)
  unfolding lookup unregister
  lookup-unregister v = (
    rw (find-delete (key p s) (key p' s') r.entries v, same_key-same),
    HasOnce-delete (key p s) r.entries v,
  )

-- ===== src/Router/Cancel.antt =====
-- apps/router/src/cancel.ts: which backend issued a cancel key. A Map is the list of its entries.
-- The key is the text of two unsigned numbers round a colon, which determines both: it is their pair.
pub mod Laws
use just_postgres.Shared.{
  ℕ, ◌-◌, ◌%◌, ◌^◌, ◌&&◌, Bool, Option, none, some, List, [], ◌∷◌, ◌==◌, if◌then◌else◌, length,
}
use just_postgres.Shared.Int.{ℤ, pos, negsuc}
use just_postgres.Router.Text.{Text}

-- `n >>> 0`
abbrev pub to_uint32 : ℤ → ℕ
to_uint32 (pos n) = n % 2 ^ 32
to_uint32 (negsuc n) = 2 ^ 32 - 1 - n % 2 ^ 32

pub record CancelTarget : Type 0 where
  pub host : Text
  pub port : ℕ
  pub process_id : ℤ
  pub secret_key : ℤ

pub record Key : Type 0 where
  pub process : ℕ
  pub secret : ℕ

abbrev pub key : ℤ → ℤ → Key
key process_id secret_key = record { process = to_uint32 process_id; secret = to_uint32 secret_key }

abbrev pub same_key : Key → Key → Bool
same_key a b = (a.process == b.process) && (a.secret == b.secret)

-- `map.get`, `map.set` and `map.delete`.
module _ {ℓ} {V : Type ℓ} where
  unfoldable pub find : Key → List (Key × V) → Option V
  find k [] = none
  find k ((j, v) ∷ m) = if same_key j k then some v else find k m

  unfoldable pub put : Key → V → List (Key × V) → List (Key × V)
  put k v [] = (k, v) ∷ []
  put k v ((j, w) ∷ m) = if same_key j k then (j, v) ∷ m else (j, w) ∷ put k v m

  unfoldable pub delete : Key → List (Key × V) → List (Key × V)
  delete k [] = []
  delete k ((j, w) ∷ m) = if same_key j k then m else (j, w) ∷ delete k m

pub record CancelRegistry : Type 0 where
  pub entries : List (Key × CancelTarget)

unfoldable pub register : ℤ → ℤ → CancelTarget → CancelRegistry → CancelRegistry
register process_id secret_key target r = record {
  entries = put (key process_id secret_key) target r.entries;
}

unfoldable pub lookup : ℤ → ℤ → CancelRegistry → Option CancelTarget
lookup process_id secret_key r = find (key process_id secret_key) r.entries

unfoldable pub unregister : ℤ → ℤ → CancelRegistry → CancelRegistry
unregister process_id secret_key r = record {
  entries = delete (key process_id secret_key) r.entries;
}

unfoldable pub size : CancelRegistry → ℕ
size r = length r.entries

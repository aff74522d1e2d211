-- ===== src/ControlPlane/Jobs/Rows.antt =====
-- The table `jobs` of apps/control-plane/src/db/schema.ts, and the statements on it that
-- apps/control-plane/src/jobs/queue.ts makes. A string is the list of its UTF-16 units, the table
-- the list of its rows in the order of insertion.
use just_postgres.Shared.{
  ℕ, ◌&&◌, Bool, true, false, Option, none, some, List, [], ◌∷◌, ltb, if◌then◌else◌,
}
use just_postgres.Shared.Int.{ℤ}
use just_postgres.Router.Text.{Text, ◌===◌}

pub data JobState : Type 0 where
  queued running succeeded failed cancelled : JobState

pub record JobRow : Type 0 where
  pub id : Text
  pub type : Text
  pub project_id : Option Text
  pub payload : Text
  pub state : JobState
  pub priority : ℤ
  pub run_at : ℕ
  pub attempts : ℕ
  pub max_attempts : ℕ
  pub lease_owner : Option Text
  pub lease_expires_at : Option ℕ
  pub progress : Option Text
  pub last_error : Option Text
  pub cancel_requested : Bool
  pub created_at : ℕ
  pub updated_at : ℕ
  pub started_at : Option ℕ
  pub finished_at : Option ℕ

-- The table.
abbrev pub Jobs : Type 0
Jobs = List JobRow

pub record EnqueueJobRequest : Type 0 where
  pub type : Text
  pub project_id : Option Text
  pub payload : Option Text
  pub priority : Option ℤ
  pub run_at : Option ℕ
  pub max_attempts : Option ℕ

abbrev pub is_state : JobState → JobState → Bool
is_state queued queued = true
is_state queued running = false
is_state queued succeeded = false
is_state queued failed = false
is_state queued cancelled = false
is_state running queued = false
is_state running running = true
is_state running succeeded = false
is_state running failed = false
is_state running cancelled = false
is_state succeeded queued = false
is_state succeeded running = false
is_state succeeded succeeded = true
is_state succeeded failed = false
is_state succeeded cancelled = false
is_state failed queued = false
is_state failed running = false
is_state failed succeeded = false
is_state failed failed = true
is_state failed cancelled = false
is_state cancelled queued = false
is_state cancelled running = false
is_state cancelled succeeded = false
is_state cancelled failed = false
is_state cancelled cancelled = true

-- SQL comparisons: a null is neither equal to a value nor below one.
abbrev pub is_owner : Text → Option Text → Bool
is_owner owner none = false
is_owner owner (some o) = o === owner

abbrev pub is_before : ℕ → Option ℕ → Bool
is_before now none = false
is_before now (some t) = ltb t now

-- `UPDATE jobs SET ... WHERE ...`
unfoldable pub update : (JobRow → Bool) → (JobRow → JobRow) → Jobs → Jobs
update where_ set [] = []
update where_ set (r ∷ rs) = (if where_ r then set r else r) ∷ update where_ set rs

unfoldable pub select : (JobRow → Bool) → Jobs → Jobs
select where_ [] = []
select where_ (r ∷ rs) = let later = select where_ rs in if where_ r then r ∷ later else later

-- The row with an id.
unfoldable pub get : Text → Jobs → Option JobRow
get id [] = none
get id (r ∷ rs) = if r.id === id then some r else get id rs

-- Conditions of the updates by a worker.
abbrev pub is_leased : Text → Text → JobRow → Bool
is_leased id owner r = (r.id === id) && is_owner owner r.lease_owner

abbrev pub is_running_lease : Text → Text → JobRow → Bool
is_running_lease id owner r = is_leased id owner r && is_state r.state running

abbrev pub has_id : Text → JobRow → Bool
has_id id r = r.id === id

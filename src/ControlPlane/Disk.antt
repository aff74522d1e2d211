-- ===== src/ControlPlane/Disk.antt =====
-- apps/control-plane/src/storage/disk.ts, DiskMonitor. What `statfs` and the probe container
-- measure is an argument, and so is the time. `Math.round` is exact, without the rounding of
-- floating point.
pub mod Reserve
use just_postgres.Shared.{
  ℕ, ◌+◌, ◌-◌, ◌*◌, ◌/◌, ◌^◌, ◌&&◌, ◌||◌, Bool, true, false, not, Option, none, some, List, [], ◌∷◌,
  ◌++◌, ltb, leb, ◌==◌, if◌then◌else◌, is_empty, max,
}
use just_postgres.Router.Text.{Text, text}

pub record DiskConfig : Type 0 where
  pub min_free_percent : ℕ
  pub min_free_bytes : ℕ

pub record DiskUsage : Type 0 where
  pub label : Text
  pub path : Text
  pub total_bytes : ℕ
  pub free_bytes : ℕ
  pub used_percent : ℕ
  pub has_headroom : Bool

pub record DiskReport : Type 0 where
  pub filesystems : List DiskUsage
  pub tightest : Option DiskUsage
  pub sampled_at : ℕ
  pub error : Option Text

abbrev pub initial_report : DiskReport
initial_report = record {
  filesystems = [];
  tightest = none;
  sampled_at = 0;
  error = some (text "not sampled yet");
}

-- What a measurement gives: a total and the free bytes, or the message of an error.
pub data Measurement : Type 0 where
  measured : ℕ → ℕ → Measurement
  fails : Text → Measurement

-- `Math.round(n / d)`
abbrev pub round_div : ℕ → ℕ → ℕ
round_div n d = (2 * n + d) / (2 * d)

abbrev pub distance : ℕ → ℕ → ℕ
distance a b = (a - b) + (b - a)

unfoldable pub same_filesystem : DiskUsage → DiskUsage → Bool
same_filesystem a b =
    (a.total_bytes == b.total_bytes) && ltb (distance a.free_bytes b.free_bytes) (16 * 1024 ^ 2)

-- `sort` by the free bytes; equal ones keep their order.
unfoldable pub insert_usage : DiskUsage → List DiskUsage → List DiskUsage
insert_usage u [] = u ∷ []
insert_usage u (v ∷ vs) =
    let later = v ∷ insert_usage u vs in if leb u.free_bytes v.free_bytes then u ∷ v ∷ vs else later

unfoldable pub sort : List DiskUsage → List DiskUsage
sort [] = []
sort (u ∷ us) = insert_usage u (sort us)

abbrev pub first_usage : List DiskUsage → Option DiskUsage
first_usage [] = none
first_usage (u ∷ us) = some u

unfoldable pub any_same : DiskUsage → List DiskUsage → Bool
any_same u [] = false
any_same u (v ∷ vs) = same_filesystem v u || any_same u vs

-- `errors.join("; ")`
unfoldable pub join_errors : List Text → Text
join_errors [] = []
join_errors (e ∷ []) = e
join_errors (e ∷ f ∷ es) = e ++ (text "; " ++ join_errors (f ∷ es))

module _ (config : DiskConfig) where
  unfoldable pub required_free : ℕ → ℕ
  required_free total = max (round_div (total * config.min_free_percent) 100) config.min_free_bytes

  unfoldable pub to_usage : Text → Text → ℕ → ℕ → DiskUsage
  to_usage label path total free = record {
    label = label;
    path = path;
    total_bytes = total;
    free_bytes = free;
    used_percent = if ltb 0 total then round_div ((total - free) * 100) total else 0;
    has_headroom = leb (required_free total) free;
  }

  -- The control plane's directory.
  abbrev pub own_filesystem : Text → Measurement → List DiskUsage
  own_filesystem path (measured total free) =
      to_usage (text "control plane and backups") path total free ∷ []
  own_filesystem path (fails message) = []

  -- The storage of the projects, where it is another filesystem.
  abbrev pub with_projects : Text → Text → Measurement → List DiskUsage → List DiskUsage
  with_projects label path (measured total free) others =
      if any_same (to_usage label path total free) others
      then others
      else others ++ to_usage label path total free ∷ []
  with_projects label path (fails message) others = others

  abbrev pub error_of : Measurement → List Text
  error_of (measured total free) = []
  error_of (fails message) = message ∷ []

  abbrev pub filesystems_of : Text → Measurement → Text → Text → Measurement → List DiskUsage
  filesystems_of data_dir own label path projects =
      sort (with_projects label path projects (own_filesystem data_dir own))

  unfoldable pub do_sample : ℕ → Text → Measurement → Text → Text → Measurement → DiskReport
  do_sample now data_dir own label path projects =
      let filesystems = filesystems_of data_dir own label path projects in
      let errors = error_of own ++ error_of projects in
      record {
        filesystems = filesystems;
        tightest = first_usage filesystems;
        sampled_at = now;
        error =
            if is_empty filesystems && not (is_empty errors)
            then some (join_errors errors)
            else none;
      }

abbrev pub lacks_headroom : Option DiskUsage → Bool
lacks_headroom none = false
lacks_headroom (some usage) = not usage.has_headroom

-- `assertCanAllocate`: the filesystem that the refusal names, or none.
unfoldable pub assert_can_allocate : DiskReport → Option DiskUsage
assert_can_allocate report = if lacks_headroom report.tightest then report.tightest else none

-- `backupBlockedReason`: the filesystem that the reason names, or null.
unfoldable pub backup_blocked_reason : Bool → DiskReport → Option DiskUsage
backup_blocked_reason is_posix report =
    if not is_posix then none else if lacks_headroom report.tightest then report.tightest else none

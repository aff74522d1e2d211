-- ===== src/ControlPlane/Tests/Headroom.antt =====
-- apps/control-plane/src/storage/disk.ts, DiskMonitor, at samples of two filesystems.
use just_postgres.Shared.{◌≡◌, refl, false, none, [], ◌∷◌, arith, All}
use just_postgres.Router.Text.{text}
use just_postgres.ControlPlane.Disk.{
  DiskConfig, measured, same_filesystem, insert_usage, sort, any_same, required_free, to_usage,
  do_sample, assert_can_allocate,
}
use just_postgres.ControlPlane.Disk.Reserve.{HasReserve, assert_can_allocate_safe, reserve_missed}

abbrev bytes_alone : DiskConfig
bytes_alone = record { min_free_percent = 0; min_free_bytes = 10 }

abbrev percent : DiskConfig
percent = record { min_free_percent = 5; min_free_bytes = 10 }

assert_can_allocate_safe_example :
    All HasReserve
      (do_sample bytes_alone 7
        (text "/data")
        (measured 100 40)
        (text "project volumes")
        (text "docker volumes")
        (measured 1000 30)).filesystems
unfolding assert_can_allocate do_sample required_free to_usage sort insert_usage any_same
    same_filesystem
assert_can_allocate_safe_example =
    assert_can_allocate_safe bytes_alone 7 (text "/data") (measured 100 40) (text "project volumes")
      (text "docker volumes") (measured 1000 30) refl refl

reserve_missed_example :
    (assert_can_allocate (
        do_sample percent 7
          (text "/data")
          (measured 100 20)
          (text "project volumes")
          (text "docker volumes")
          (measured 1000 30))
      ≡ none)
    × ((do_sample percent 7
          (text "/data")
          (measured 100 20)
          (text "project volumes")
          (text "docker volumes")
          (measured 1000 30)).filesystems
        ≡ to_usage percent (text "control plane and backups") (text "/data") 100 20
          ∷ to_usage percent (text "project volumes") (text "docker volumes") 1000 30
          ∷ [])
    × ((to_usage percent (text "project volumes") (text "docker volumes") 1000 30).has_headroom
        ≡ false)
unfolding required_free to_usage any_same same_filesystem
reserve_missed_example =
    reserve_missed percent 7 (text "/data") 100 20 (text "project volumes") (text "docker volumes")
      1000 30 refl (omega arith) (omega arith) (omega arith)

-- ===== src/Tests/Filesystem.antt =====
-- Mounts.
use elastic_agent_system_met.Base.{
  true, List, [], ◌∷◌, ◌≡◌, ◌≢◌, ◌⊎◌, refl, codes, Bytes, some, none, bytes_eq, bytes_comparable,
  All,
}
use elastic_agent_system_met.Go.Maps.{lookup, insert}
use elastic_agent_system_met.Go.Paths.{is_abs}
use elastic_agent_system_met.Filesystem.{FsStat, mount_of}
use elastic_agent_system_met.Filesystem.{
  keep_all, keep_one, keep_shorter, values, filter_duplicates,
}
use elastic_agent_system_met.Filesystem.Laws.{IsShortest, keep_all-IsShortest}
use elastic_agent_system_met.Tests.Fixtures.{floats, opts}

open_filesystem : Unit {0}
unfolding keep_all keep_one keep_shorter values filter_duplicates mount_of lookup insert bytes_eq
    is_abs
open_filesystem = tt

abbrev mount : Bytes → Bytes → FsStat floats opts
mount device directory = mount_of floats opts device directory (codes "ext4") (codes "rw")

abbrev mounts : List (FsStat floats opts)
mounts =
    mount (codes "/dev/sda") (codes "/mnt/data")
    ∷ mount (codes "tmpfs") (codes "/tmp")
    ∷ mount (codes "/dev/sda") (codes "/mnt")
    ∷ []

kept_mounts :
    filter_duplicates floats opts (λ ds. ds) mounts
    ≡ mount (codes "tmpfs") (codes "/tmp") ∷ mount (codes "/dev/sda") (codes "/mnt") ∷ []
unfolding open_filesystem
kept_mounts = refl

sda-is_abs : is_abs (codes "/dev/sda") ≡ true
unfolding open_filesystem
sda-is_abs = refl

keep_all-IsShortest_example :
    ((lookup
          (codes "/dev/sda")
          (keep_all floats opts mounts (record { filtered = []; devices = [] })).devices
        ≡ none)
      × All (λ g. g.device ≢ codes "/dev/sda") mounts)
    ⊎ ((fs : FsStat floats opts) × ((lookup
              (codes "/dev/sda")
              (keep_all floats opts mounts (record { filtered = []; devices = [] })).devices
            ≡ some fs)
          × IsShortest floats opts (codes "/dev/sda") sda-is_abs mounts fs))
keep_all-IsShortest_example = keep_all-IsShortest floats opts (codes "/dev/sda") sda-is_abs mounts

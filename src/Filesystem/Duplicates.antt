-- ===== src/Filesystem/Duplicates.antt =====
-- filesystem.go: a device that is mounted several times counts once. `range_order` is the order in
-- which Go ranges over the map of devices, which is not specified.
use elastic_agent_system_met.Base.{
  Bool, ◌&&◌, List, [], ◌∷◌, ◌++◌, if◌then◌else◌, Bytes, bytes_comparable, length, ltb, Option,
  none, some, Result, ok, ◌>>=◌, wrap_err,
}
use elastic_agent_system_met.Go.Maps.{lookup, insert}
use elastic_agent_system_met.Go.Paths.{is_abs}
use elastic_agent_system_met.Go.Files.{Files}
use elastic_agent_system_met.Resolve.{Resolver}
use elastic_agent_system_met.Libs.{Float64, Opt}
use elastic_agent_system_met.Filesystem.Mounts.{
  FsStat, avoid_file_system, build_default_filters, parse_mounts, get_fs_path,
}

module _ (f : Float64) (o : Opt f) where
  abbrev pub Devices : Type 0
  Devices = List (Bytes × FsStat f o)

  -- The loop's state: the mounts of no block device, and the mount that is kept of each device.
  pub record Kept : Type 0 where
    pub filtered : List (FsStat f o)
    pub devices : Devices

  unfoldable pub keep_shorter : FsStat f o → Option (FsStat f o) → Devices → Devices
  keep_shorter fs none devices = insert fs.device fs devices
  keep_shorter fs (some seen) devices =
      if ltb (length fs.directory) (length seen.directory)
      then insert fs.device fs devices
      else devices

  unfoldable pub keep_one : FsStat f o → Kept → Kept
  unfolding keep_shorter
  keep_one fs kept =
      if is_abs fs.device
      then record kept { devices = keep_shorter fs (lookup fs.device kept.devices) kept.devices }
      else record kept { filtered = kept.filtered ++ (fs ∷ []) }

  unfoldable pub keep_all : List (FsStat f o) → Kept → Kept
  keep_all [] kept = kept
  keep_all (fs ∷ fs_list) kept = keep_all fs_list (keep_one fs kept)

  unfoldable pub values : Devices → List (FsStat f o)
  values [] = []
  values ((device, fs) ∷ devices) = fs ∷ values devices

  unfoldable pub filter_duplicates : (Devices → Devices) → List (FsStat f o) → List (FsStat f o)
  filter_duplicates range_order fs_list =
      let kept = keep_all fs_list (record { filtered = []; devices = [] }) in
      kept.filtered ++ values (range_order kept.devices)

  -- The filter of the caller, or the default one for `nil`.
  unfoldable pub chosen_filter : Files → Resolver → Option (FsStat f o → Bool) → FsStat f o → Bool
  chosen_filter files hostfs none = build_default_filters f o files hostfs
  chosen_filter files hostfs (some filter) = filter

  unfoldable pub get_filesystems :
      (Devices → Devices)
      → (Bytes → Bool)
      → Files
      → Resolver
      → Option (FsStat f o → Bool)
      → Result (List (FsStat f o))
  get_filesystems range_order is_dir files hostfs filter = do
    mounts ← wrap_err "error reading mounts" (
        parse_mounts f o files (get_fs_path f o hostfs)
          (λ fs. avoid_file_system f o is_dir fs && chosen_filter files hostfs filter fs))
    ok (filter_duplicates range_order mounts)

-- ===== src/Filesystem/Mounts.antt =====
-- filesystem.go and filesystem_unix_common.go: mounts, filters and computed figures.
use elastic_agent_system_met.Base.{
  Bool, true, false, not, ◌&&◌, List, [], ◌∷◌, ◌++◌, if◌then◌else◌, Bytes, codes, ◌==◌,
  bytes_comparable, nat_eq, get_elem?, Option, none, some, Result, ok, index, ◌>>=◌, wrap_err,
}
use elastic_agent_system_met.Base.Int.{add64}
use elastic_agent_system_met.Go.Strings.{split, fields}
use elastic_agent_system_met.Go.Paths.{is_abs}
use elastic_agent_system_met.Go.Files.{Files, File, content, failed, read_file, scan}
use elastic_agent_system_met.Resolve.{Resolver}
use elastic_agent_system_met.Libs.{Float64, Opt}
use elastic_agent_system_met.Round.{round}

module _ (f : Float64) (o : Opt f) where
  open o use {
    Uint, OptFloat, uint_none, is_zero, value_or, subtract_or_none, float_with, float_none,
    float_is_zero,
  }

  pub record UsedVals : Type 0 where
    pub pct : OptFloat
    pub bytes : Uint

  pub record FsStat : Type 0 where
    pub directory : Bytes
    pub device : Bytes
    pub kind : Bytes
    pub options : Bytes
    pub flags : Uint
    pub total : Uint
    pub free : Uint
    pub avail : Uint
    pub used : UsedVals
    pub files : Uint
    pub free_files : Uint

  unfoldable pub used_is_zero : UsedVals → Bool
  used_is_zero u = float_is_zero u.pct && is_zero u.bytes

  unfoldable pub get_fs_path : Resolver → Bytes
  get_fs_path hostfs =
      if hostfs.is_set
      then hostfs.resolve_host_fs (codes "/proc/mounts")
      else hostfs.resolve_host_fs (codes "/proc/self/mounts")

  -- `fillMetrics`
  unfoldable pub fill_metrics : FsStat → FsStat
  fill_metrics fs =
      let bytes = subtract_or_none fs.total fs.free in
      let perc_total = add64 (value_or bytes 0) (value_or fs.avail 0) in
      let perc = f.div (f.of_uint (value_or bytes 0)) (f.of_uint perc_total) in
      if nat_eq perc_total 0
      then record fs { used = record { pct = fs.used.pct; bytes = bytes } }
      else record fs { used = record { pct = float_with (round f perc); bytes = bytes } }

  unfoldable pub nodev_type : List Bytes → List Bytes
  nodev_type (mark ∷ name ∷ []) = if mark == codes "nodev" then name ∷ [] else []
  nodev_type _ = []

  unfoldable pub nodev_types : List Bytes → List Bytes
  unfolding nodev_type
  nodev_types [] = []
  nodev_types (line ∷ lines) = nodev_type (fields line) ++ nodev_types lines

  unfoldable pub ignored_of : File → List Bytes
  ignored_of (content text) = nodev_types (scan text).lines
  ignored_of (failed e) = []

  unfoldable pub default_ignored_types : Files → Resolver → List Bytes
  unfolding ignored_of
  default_ignored_types files sys =
      ignored_of (files (sys.resolve_host_fs (codes "/proc/filesystems")))

  unfoldable pub build_filter_with_list : List Bytes → FsStat → Bool
  build_filter_with_list [] fs = true
  build_filter_with_list (fs_type ∷ ignored) fs =
      let later = build_filter_with_list ignored fs in if fs.kind == fs_type then false else later

  unfoldable pub build_default_filters : Files → Resolver → FsStat → Bool
  build_default_filters files hostfs = build_filter_with_list (default_ignored_types files hostfs)

  -- `is_dir` is whether `os.Stat` finds a directory at a path.
  unfoldable pub avoid_file_system : (Bytes → Bool) → FsStat → Bool
  avoid_file_system is_dir fs =
      if not (is_abs fs.directory)
      then false
      else if not (is_abs fs.device)
      then true
      else not (is_dir fs.device)

  -- A mount as the line of the file gives it.
  unfoldable pub mount_of : Bytes → Bytes → Bytes → Bytes → FsStat
  mount_of device directory kind options = record {
    directory = directory;
    device = device;
    kind = kind;
    options = options;
    flags = uint_none;
    total = uint_none;
    free = uint_none;
    avail = uint_none;
    used = record { pct = float_none; bytes = uint_none };
    files = uint_none;
    free_files = uint_none;
  }

  -- The mount of a line, on its fields: none for a blank line; fewer than four fields panic.
  unfoldable pub parse_mount : List Bytes → Result (Option FsStat)
  parse_mount [] = ok none
  parse_mount (device ∷ rest) = do
    directory ← index (get_elem? rest 0)
    kind ← index (get_elem? rest 1)
    options ← index (get_elem? rest 2)
    ok (some (mount_of device directory kind options))

  unfoldable pub keep_mount : (FsStat → Bool) → Option FsStat → List FsStat → List FsStat
  keep_mount filter none mounts = mounts
  keep_mount filter (some fs) mounts = if filter fs then fs ∷ mounts else mounts

  unfoldable pub mount_lines : (FsStat → Bool) → List Bytes → Result (List FsStat)
  mount_lines filter [] = ok []
  mount_lines filter (line ∷ lines) = do
    mount ← parse_mount (fields line)
    rest ← mount_lines filter lines
    ok (keep_mount filter mount rest)

  unfoldable pub parse_mounts : Files → Bytes → (FsStat → Bool) → Result (List FsStat)
  parse_mounts files path filter = do
    raw ← wrap_err "error reading mount file" (read_file files path)
    mount_lines filter (split b'\n' raw)

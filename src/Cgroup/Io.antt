-- ===== src/Cgroup/Io.antt =====
-- metric/system/cgroup/cgv2/io.go and io_helper_linux.go: the counters of io.stat, and the names of
-- the devices that they are about.
use elastic_agent_system_met.Base.{
  ℕ, ◌+◌, ◌*◌, ◌/◌, ◌%◌, ◌^◌, Bool, true, false, ◌&&◌, List, [], ◌∷◌, ◌++◌, if◌then◌else◌, Bytes,
  codes, ◌==◌, bytes_comparable, nat_eq, Option, none, some, Error, wrap, Result, ok, err, ◌>>=◌,
  wrap_err,
}
use elastic_agent_system_met.Go.Strings.{split, contains_byte}
use elastic_agent_system_met.Go.Numbers.{parse_uint, checked, sscanf_device}
use elastic_agent_system_met.Go.Maps.{insert}
use elastic_agent_system_met.Go.Paths.{join_path}
use elastic_agent_system_met.Go.Files.{Files, File, content, failed, is_missing, scan}

pub record IoMetric : Type 0 where
  pub bytes : ℕ
  pub ios : ℕ

pub record IoStat : Type 0 where
  pub read : IoMetric
  pub write : IoMetric
  pub discarded : IoMetric

abbrev pub no_io : IoStat
no_io = record {
  read = record { bytes = 0; ios = 0 };
  write = record { bytes = 0; ios = 0 };
  discarded = record { bytes = 0; ios = 0 };
}

-- An entry of /dev; `rdev` is none if `Info` fails.
pub record DevEntry : Type 0 where
  pub name : Bytes
  pub is_block_device : Bool
  pub rdev : Option ℕ

-- The numbers of a device id: its fields of bits do not overlap, so that `|` adds them.
unfoldable pub major_of : ℕ → ℕ
major_of dev_id = (dev_id / 2 ^ 44 % 2 ^ 20) * 2 ^ 12 + dev_id / 2 ^ 8 % 2 ^ 12

unfoldable pub minor_of : ℕ → ℕ
minor_of dev_id = dev_id % 2 ^ 8 + (dev_id / 2 ^ 20 % 2 ^ 24) * 2 ^ 8

unfoldable pub is_device : ℕ → ℕ → DevEntry → Option ℕ → Bool
is_device major minor entry none = false
is_device major minor entry (some dev_id) =
    entry.is_block_device && (nat_eq (major_of dev_id) major && nat_eq (minor_of dev_id) minor)

-- The last entry that fits wins.
unfoldable pub walk : ℕ → ℕ → List DevEntry → Option Bytes → Option Bytes
unfolding is_device
walk major minor [] found = found
walk major minor (entry ∷ entries) found =
    walk major minor entries
      (if is_device major minor entry entry.rdev then some entry.name else found)

unfoldable pub fetch_device_name : List DevEntry → ℕ → ℕ → Option Bytes
unfolding walk
fetch_device_name dev major minor = walk major minor dev none

unfoldable pub set_counter : Bytes → ℕ → IoStat → IoStat
set_counter name counter stats =
    if name == codes "rbytes"
    then record stats { read = record (stats.read) { bytes = counter } }
    else if name == codes "wbytes"
    then record stats { write = record (stats.write) { bytes = counter } }
    else if name == codes "rios"
    then record stats { read = record (stats.read) { ios = counter } }
    else if name == codes "wios"
    then record stats { write = record (stats.write) { ios = counter } }
    else if name == codes "dbytes"
    then record stats { discarded = record (stats.discarded) { bytes = counter } }
    else if name == codes "dios"
    then record stats { discarded = record (stats.discarded) { ios = counter } }
    else stats

-- What a line has given so far.
pub record LineStat : Type 0 where
  pub dev_ids : List Bytes
  pub stats : IoStat
  pub found_metrics : Bool

unfoldable pub name_or : Bytes → Option Bytes → Bytes
name_or component none = component
name_or component (some dev_name) = dev_name

module _ (dev : List DevEntry) (resolve_dev_ids : Bool) where
  unfoldable pub device_name : Bytes → ℕ × ℕ → Bytes
  unfolding name_or
  device_name component (major, minor) =
      if resolve_dev_ids then name_or component (fetch_device_name dev major minor) else component

  unfoldable pub add_counter : List Bytes → LineStat → Result LineStat
  add_counter (name ∷ text ∷ rest) line_stat = do
    counter ← wrap_err "error parsing counter in stat" (checked (parse_uint text))
    ok (record line_stat { stats = set_counter name counter line_stat.stats; found_metrics = true })
  add_counter _ line_stat = ok (record line_stat { found_metrics = true })

  unfoldable pub add_component : Bytes → LineStat → Result LineStat
  add_component component line_stat =
      if contains_byte b':' component
      then (do
        device ← wrap_err "could not read device ID" (sscanf_device component)
        ok (record line_stat {
          dev_ids = line_stat.dev_ids ++ (device_name component device ∷ []);
        }))
      else if contains_byte b'=' component
      then add_counter (split b'=' component) line_stat
      else ok line_stat

  unfoldable pub components : List Bytes → LineStat → Result LineStat
  components [] line_stat = ok line_stat
  components (component ∷ rest) line_stat = do
    next ← add_component component line_stat
    components rest next

  unfoldable pub parse_stat_line : Bytes → Result LineStat
  parse_stat_line line =
      components (split b' ' line) (record { dev_ids = []; stats = no_io; found_metrics = false })

  unfoldable pub set_all : List Bytes → IoStat → List (Bytes × IoStat) → List (Bytes × IoStat)
  set_all [] metrics stats = stats
  set_all (d ∷ devices) metrics stats = set_all devices metrics (insert d metrics stats)

  unfoldable pub stat_lines : List Bytes → List (Bytes × IoStat) → Result (List (Bytes × IoStat))
  stat_lines [] stats = ok stats
  stat_lines (text ∷ texts) stats = do
    line ← wrap_err "error parsing line in file" (parse_stat_line text)
    stat_lines texts (if line.found_metrics then set_all line.dev_ids line.stats stats else stats)

  unfoldable pub io_stats_of_file : File → Result (List (Bytes × IoStat))
  io_stats_of_file (failed e) = err (wrap "error reading cpu.stat" e)
  io_stats_of_file (content text) = stat_lines (scan text).lines []

  unfoldable pub get_io_stats : Files → Bytes → Result (List (Bytes × IoStat))
  unfolding io_stats_of_file
  get_io_stats files path = io_stats_of_file (files (join_path (path ∷ codes "io.stat" ∷ [])))

-- `P` is the type of the map that `GetPressure` returns.
pub record IoSubsystem (P : Type 0) : Type 0 where
  pub id : Bytes
  pub path : Bytes
  pub stats : List (Bytes × IoStat)
  pub pressure : P

module _ {P : Type 0} where
  unfoldable pub with_pressure : IoSubsystem P → P × Option Error → Result (IoSubsystem P)
  with_pressure io (pressure, none) = ok (record io { pressure = pressure })
  with_pressure io (pressure, some e) = err (wrap "error fetching io.pressure" e)

  -- `Get`, with what `GetPressure` returns for a path.
  unfoldable pub get_io :
      List DevEntry
      → (Files → Bytes → P × Option Error)
      → Files
      → Bytes
      → Bool
      → IoSubsystem P
      → Result (IoSubsystem P)
  unfolding with_pressure
  get_io dev get_pressure files path resolve_dev_ids io = do
    stats ← wrap_err "error getting io.stats" (get_io_stats dev resolve_dev_ids files path)
    let next = record io { stats = stats }
    let file = join_path (path ∷ codes "io.pressure" ∷ [])
    if is_missing (files file) then ok next else with_pressure next (get_pressure files file)

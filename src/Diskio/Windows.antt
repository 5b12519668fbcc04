-- ===== src/Diskio/Windows.antt =====
-- diskstat_windows.go and diskstat_windows_helper.go: the counters of the logical drives. What the
-- registry, kernel32 and the driver return is a parameter.
use elastic_agent_system_met.Base.{
  ℕ, ◌/◌, Bool, true, false, not, ◌&&◌, ◌||◌, List, [], ◌∷◌, if◌then◌else◌, Bytes, codes, length,
  ltb, leb, nat_eq, is_empty, ◌==◌, bytes_comparable, Result, ok, ◌>>=◌, wrap_err,
}
use elastic_agent_system_met.Go.Strings.{to_lower}
use elastic_agent_system_met.Go.Maps.{insert}
use elastic_agent_system_met.Diskio.{IoCountersStat}

pub record LogicalDrive : Type 0 where
  pub name : Bytes
  pub unc_path : Bytes

-- `DISK_PERFORMANCE`, as far as it is read.
pub record DiskPerformance : Type 0 where
  pub bytes_read : ℕ
  pub bytes_written : ℕ
  pub read_time : ℕ
  pub write_time : ℕ
  pub read_count : ℕ
  pub write_count : ℕ

-- The calls: the registry key with its value and the write of it, the buffer of
-- GetLogicalDriveStringsW, the type of a drive with whether the call set no error, the label of a
-- volume, and the counters of a drive.
pub record DriveCalls : Type 0 where
  pub open_key : Result (Unit {0})
  pub counter_value : Result ℕ
  pub set_counter : Result (Unit {0})
  pub drive_strings : Result Bytes
  pub drive_type : Bytes → ℕ × Bool
  pub volume_label : Bytes → Result Bytes
  pub io_counter : Bytes → Result DiskPerformance

-- The value has to be written if it cannot be read or is not 1.
unfoldable pub needs_counter : Result ℕ → Bool
needs_counter (ok value) = not (nat_eq value 1)
needs_counter _ = true

unfoldable pub enable_performance_counters : DriveCalls → Result (Unit {0})
enable_performance_counters w = do
  key ← wrap_err "cannot open new key in the registry" w.open_key
  if needs_counter w.counter_value
      then wrap_err "cannot create key in the registry" w.set_counter
      else ok key

unfoldable pub contains_drive : List Bytes → Bytes → Bool
contains_drive [] disk = false
contains_drive (vv ∷ devices) disk =
    let later = contains_drive devices disk in if vv == disk then true else later

-- A volume is a RAM disk by its label; one without a label that can be read is not valid.
unfoldable pub is_disk_label : Result Bytes → Bool
is_disk_label (ok label) = not (to_lower label == codes "ramdisk")
is_disk_label _ = false

-- The types 0, 1, 5 and 6 are an unknown drive, no root directory, a CD-ROM and a RAM disk.
unfoldable pub is_valid_logical_drive : DriveCalls → Bytes → Bool
is_valid_logical_drive w path =
    let (ret, success) = w.drive_type path in
    if nat_eq ret 1 || (nat_eq ret 5 || (nat_eq ret 0 || (nat_eq ret 6 || not success)))
    then false
    else is_disk_label (w.volume_label path)

-- The drives of the capital letters in the buffer, but A and B.
unfoldable pub logical_drives : DriveCalls → Bytes → List LogicalDrive
logical_drives w [] = []
logical_drives w (v ∷ buffer) =
    let rest = logical_drives w buffer in
    let path = v ∷ b':' ∷ [] in
    if leb 65 v && leb v 90 && not (nat_eq v b'A' || nat_eq v b'B') && is_valid_logical_drive w path
    then record { name = path; unc_path = b'\\' ∷ b'\\' ∷ b'.' ∷ b'\\' ∷ path } ∷ rest
    else rest

unfoldable pub get_logical_drive_strings : DriveCalls → Result (List LogicalDrive)
get_logical_drive_strings w = do buffer ← w.drive_strings; ok (logical_drives w buffer)

-- Times in 100 nanoseconds become milliseconds; what the counters lack is 0.
unfoldable pub drive_counters : Bytes → DiskPerformance → IoCountersStat
drive_counters name counter = record {
  name = name;
  read_count = counter.read_count;
  merged_read_count = 0;
  read_bytes = counter.bytes_read;
  read_time = counter.read_time / 10000;
  write_count = counter.write_count;
  merged_write_count = 0;
  write_bytes = counter.bytes_written;
  write_time = counter.write_time / 10000;
  io_time = 0;
  weighted_io = 0;
}

unfoldable pub store_counters :
    Bytes → Result DiskPerformance → List (Bytes × IoCountersStat) → List (Bytes × IoCountersStat)
store_counters name (ok counter) ret = insert name (drive_counters name counter) ret
store_counters name _ ret = ret

-- The loop of `ioCounters`: a drive that is not asked for, or whose counters cannot be read, is
-- passed over.
unfoldable pub each_drive :
    DriveCalls
    → List Bytes
    → List LogicalDrive
    → List (Bytes × IoCountersStat)
    → List (Bytes × IoCountersStat)
each_drive w names [] ret = ret
each_drive w names (drive ∷ drives) ret = each_drive w names drives (
    if ltb 3 (length drive.name) || (not (is_empty names) && not (contains_drive names drive.name))
    then ret
    else store_counters drive.name (w.io_counter drive.unc_path) ret)

-- `IOCounters`; with no drive the map is nil.
unfoldable pub io_counters : DriveCalls → List Bytes → Result (List (Bytes × IoCountersStat))
io_counters w names = do
  enabled ← enable_performance_counters w
  drives ← get_logical_drive_strings w
  ok (each_drive w names drives [])

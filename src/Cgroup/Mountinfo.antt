-- ===== src/Cgroup/Mountinfo.antt =====
-- metric/system/cgroup/util.go: the mounted cgroup hierarchies.
use elastic_agent_system_met.Base.{
  ℕ, suc, ◌-◌, Bool, false, not, List, [], ◌∷◌, if◌then◌else◌, Bytes, codes, ◌==◌, bytes_comparable,
  length, get_elem?, drop, ltb, nat_eq, is_empty, Option, none, some, Error, message,
  cgroups_missing, is_not_exist, Result, ok, err, index, ◌>>=◌,
}
use elastic_agent_system_met.Go.Strings.{fields, split, split_n2, trim_space, has_prefix}
use elastic_agent_system_met.Go.Maps.{lookup, insert}
use elastic_agent_system_met.Go.Files.{Files, File, content, failed, scan}
use elastic_agent_system_met.Resolve.{Resolver}

pub record Mountinfo : Type 0 where
  pub mountpoint : Bytes
  pub filesystem_type : Bytes
  pub super_options : List Bytes

-- The index of the first field "-".
unfoldable pub separator_from : ℕ → List Bytes → Option ℕ
separator_from i [] = none
separator_from i (value ∷ values) =
    let later = separator_from (suc i) values in if value == codes "-" then some i else later

abbrev pub or_zero : Option ℕ → ℕ
or_zero none = 0
or_zero (some i) = i

-- The part of the line that follows the separator.
unfoldable pub after_separator : List Bytes → ℕ → Result (List Bytes)
after_separator line_fields i = do
  value ← index (get_elem? line_fields i)
  if not (value == codes "-")
      then err (message "invalid mountinfo line, separator ('-') not found")
      else if ltb (length line_fields - i - 1) 3
      then err (message "invalid mountinfo line, expected at least 3 fields after separator")
      else ok (drop (suc i) line_fields)

unfoldable pub mountinfo_of : List Bytes → Result Mountinfo
mountinfo_of line_fields =
    if ltb (length line_fields) 10
    then err (message "invalid mountinfo line, expected at least 10 fields")
    else (do
      mountpoint ← index (get_elem? line_fields 4)
      rest ← after_separator line_fields (or_zero (separator_from 0 line_fields))
      filesystem_type ← index (get_elem? rest 0)
      options ← index (get_elem? rest 2)
      ok (record {
        mountpoint = mountpoint;
        filesystem_type = filesystem_type;
        super_options = split b',' options;
      }))

unfoldable pub parse_mountinfo_line : Bytes → Result Mountinfo
parse_mountinfo_line line = mountinfo_of (fields line)

-- `map[string]struct{}`
abbrev pub Subsystems : Type 0
Subsystems = List (Bytes × Unit {0})

abbrev pub is_comment : Bytes → Bool
is_comment [] = false
is_comment (c ∷ cs) = nat_eq c b'#'

abbrev pub is_disabled : List Bytes → Bool
is_disabled (name ∷ hierarchy ∷ count ∷ enabled ∷ rest) = enabled == codes "0"
is_disabled _ = false

unfoldable pub add_subsystem : List Bytes → Subsystems → Subsystems
add_subsystem [] set = set
add_subsystem (name ∷ rest) set = if is_disabled (name ∷ rest) then set else insert name tt set

unfoldable pub subsystem_lines : List Bytes → Subsystems → Subsystems
unfolding add_subsystem
subsystem_lines [] set = set
subsystem_lines (line ∷ lines) set =
    subsystem_lines lines (if is_comment line then set else add_subsystem (fields line) set)

-- A value beside `sc.Err()`, which the callers test first.
abbrev pub unless : {A : Type 0} → Option Error → A → Result A
unless none a = ok a
unless (some e) a = err e

unfoldable pub subsystems_of_file : File → Result Subsystems
subsystems_of_file (content text) = unless (scan text).fault (subsystem_lines (scan text).lines [])
subsystems_of_file (failed e) = if is_not_exist e then err cgroups_missing else err e

unfoldable pub supported_subsystems : Files → Resolver → Result Subsystems
unfolding subsystems_of_file
supported_subsystems files rootfs =
    subsystems_of_file (files (rootfs.resolve_host_fs (codes "/proc/cgroups")))

pub record Mountpoints : Type 0 where
  pub v1_mounts : List (Bytes × Bytes)
  pub v2_loc : Bytes

-- `name=blkio` names the subsystem behind its sign.
unfoldable pub option_name : Bytes → List Bytes → Bytes
option_name opt (name ∷ value ∷ rest) = value
option_name opt _ = opt

unfoldable pub add_if_new :
    Bytes → Bytes → Option (Unit {0}) → Option Bytes → List (Bytes × Bytes) → List (Bytes × Bytes)
add_if_new opt mountpoint (some found) none mounts = insert opt mountpoint mounts
add_if_new opt mountpoint _ _ mounts = mounts

unfoldable pub add_options :
    Subsystems → Bytes → List Bytes → List (Bytes × Bytes) → List (Bytes × Bytes)
add_options subsystems mountpoint [] mounts = mounts
add_options subsystems mountpoint (opt ∷ opts) mounts =
    let name = option_name opt (split_n2 b'=' opt) in
    add_options subsystems mountpoint opts
      (add_if_new name mountpoint (lookup name subsystems) (lookup name mounts) mounts)

unfoldable pub add_v1 : Subsystems → Mountinfo → Mountpoints → Mountpoints
add_v1 subsystems mount info =
    if mount.filesystem_type == codes "cgroup"
    then record info {
      v1_mounts = add_options subsystems mount.mountpoint mount.super_options info.v1_mounts;
    }
    else info

unfoldable pub add_v2 : Mountinfo → Mountpoints → Mountpoints
add_v2 mount info =
    if mount.filesystem_type == codes "cgroup2"
    then record info { v2_loc = mount.mountpoint }
    else info

unfoldable pub add_mount : Resolver → Subsystems → Mountinfo → Mountpoints → Mountpoints
add_mount rootfs subsystems mount info =
    if has_prefix (rootfs.resolve_host_fs []) mount.mountpoint
    then add_v2 mount (add_v1 subsystems mount info)
    else info

unfoldable pub mountinfo_lines :
    Resolver → Subsystems → List Bytes → Mountpoints → Result Mountpoints
mountinfo_lines rootfs subsystems [] info = ok info
mountinfo_lines rootfs subsystems (text ∷ texts) info = do
  next ←
      (if is_empty (trim_space text) then ok info else (do
        mount ← parse_mountinfo_line (trim_space text)
        ok (add_mount rootfs subsystems mount info)))
  mountinfo_lines rootfs subsystems texts next

unfoldable pub mountpoints_of_file : Resolver → Subsystems → File → Result Mountpoints
mountpoints_of_file rootfs subsystems (failed e) = err e
mountpoints_of_file rootfs subsystems (content text) = do
  info ←
      mountinfo_lines rootfs subsystems (scan text).lines (record { v1_mounts = []; v2_loc = [] })
  unless (scan text).fault info

unfoldable pub subsystem_mountpoints : Files → Resolver → Subsystems → Result Mountpoints
subsystem_mountpoints files rootfs subsystems =
    mountpoints_of_file rootfs subsystems
      (files (rootfs.resolve_host_fs (codes "/proc/self/mountinfo")))

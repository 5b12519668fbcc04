-- ===== src/Cgroup/Paths.antt =====
-- metric/system/cgroup/util.go and reader.go: the cgroups of one process.
use elastic_agent_system_met.Base.{
  ◌-◌, Bool, true, false, ◌&&◌, List, [], ◌∷◌, ◌++◌, if◌then◌else◌, Bytes, codes, ◌==◌,
  bytes_comparable, length, drop, take, leb, is_empty, Option, none, some, Error, message, Result,
  ok, err, ◌>>=◌, wrap_err,
}
use elastic_agent_system_met.Base.Int.{ℤ}
use elastic_agent_system_met.Go.Strings.{split, contains}
use elastic_agent_system_met.Go.Maps.{lookup, insert}
use elastic_agent_system_met.Go.Paths.{join_path}
use elastic_agent_system_met.Go.Files.{Files, File, content, failed, scan}
use elastic_agent_system_met.Resolve.{Resolver}
use elastic_agent_system_met.Process.Info.{pid_text}
use elastic_agent_system_met.Cgroup.Mountinfo.{
  Mountpoints, supported_subsystems, subsystem_mountpoints,
}

pub record ControllerPath : Type 0 where
  pub controller_path : Bytes
  pub full_path : Bytes
  pub is_v2 : Bool

abbrev pub Controllers : Type 0
Controllers = List (Bytes × ControllerPath)

pub record PathList : Type 0 where
  pub v1 : Controllers
  pub v2 : Controllers

pub record Reader : Type 0 where
  pub rootfs_mountpoint : Resolver
  pub ignore_root_cgroups : Bool
  pub cgroups_hierarchy_override : Bytes
  pub cgroup_mountpoints : Mountpoints

pub record ReaderOptions : Type 0 where
  pub rootfs_mountpoint : Resolver
  pub ignore_root_cgroups : Bool
  pub cgroups_hierarchy_override : Bytes

-- The values of a map, in the order in which Go ranges over it.
unfoldable pub paths_of : Controllers → List ControllerPath
paths_of [] = []
paths_of ((name, path) ∷ controllers) = path ∷ paths_of controllers

unfoldable pub flatten : PathList → List ControllerPath
unfolding paths_of
flatten pl = paths_of pl.v1 ++ paths_of pl.v2

unfoldable pub new_reader_options : Files → ReaderOptions → Result Reader
new_reader_options files opts = do
  subsystems ← supported_subsystems files opts.rootfs_mountpoint
  mountpoints ←
      wrap_err "error finding mountpoints"
        (subsystem_mountpoints files opts.rootfs_mountpoint subsystems)
  ok (record {
    rootfs_mountpoint = opts.rootfs_mountpoint;
    ignore_root_cgroups = opts.ignore_root_cgroups;
    cgroups_hierarchy_override = opts.cgroups_hierarchy_override;
    cgroup_mountpoints = mountpoints;
  })

unfoldable pub new_reader : Files → Resolver → Bool → Result Reader
unfolding new_reader_options
new_reader files rootfs_mountpoint ignore_root_cgroups = new_reader_options files (record {
  rootfs_mountpoint = rootfs_mountpoint;
  ignore_root_cgroups = ignore_root_cgroups;
  cgroups_hierarchy_override = [];
})

-- `strings.TrimSuffix(s, suffix)`, with the suffix first.
unfoldable pub trim_suffix : Bytes → Bytes → Bytes
trim_suffix suffix s =
    if leb (length suffix) (length s) && drop (length s - length suffix) s == suffix
    then take (length s - length suffix) s
    else s

unfoldable pub chosen_path : Reader → Bytes → Bytes
chosen_path r path =
    if is_empty r.cgroups_hierarchy_override then path else r.cgroups_hierarchy_override

-- Where the V2 controllers of a path are; none if there is no V2 mountpoint to look below.
unfoldable pub v2_directory : Reader → Bytes → Option Bytes
v2_directory r path =
    if is_empty r.cgroup_mountpoints.v2_loc
    then (if r.rootfs_mountpoint.is_set
        then some (
            r.rootfs_mountpoint.resolve_host_fs
              (join_path (codes "/sys/fs/cgroup/unified" ∷ path ∷ [])))
        else none)
    else some (join_path (r.cgroup_mountpoints.v2_loc ∷ path ∷ []))

unfoldable pub add_v2_paths : Bytes → Bytes → List Bytes → Controllers → Controllers
add_v2_paths path controller_path [] v2 = v2
add_v2_paths path controller_path (name ∷ names) v2 = add_v2_paths path controller_path names (
    if contains (codes "stat") name
    then insert (trim_suffix (codes ".stat") name)
        (record { controller_path = path; full_path = controller_path; is_v2 = true }) v2
    else v2)

abbrev pub or_empty : Option Bytes → Bytes
or_empty none = []
or_empty (some s) = s

unfoldable pub add_v1_paths : Reader → Bytes → List Bytes → Controllers → Controllers
add_v1_paths r path [] v1 = v1
add_v1_paths r path (subsystem ∷ subsystems) v1 = add_v1_paths r path subsystems (
    insert subsystem
      (record {
        controller_path = path;
        full_path =
            join_path (or_empty (lookup subsystem r.cgroup_mountpoints.v1_mounts) ∷ path ∷ []);
        is_v2 = false;
      })
      v1)

-- `read_dir` is `ioutil.ReadDir`, on names.
module _ (read_dir : Bytes → Result (List Bytes)) where
  unfoldable pub add_v2_line : Bytes → Option Bytes → PathList → Result PathList
  add_v2_line path none c_paths = ok c_paths
  add_v2_line path (some controller_path) c_paths = do
    names ← wrap_err "error fetching cgroupV2 controllers" (read_dir controller_path)
    ok (record c_paths { v2 = add_v2_paths path controller_path names c_paths.v2 })

  -- A line of `hierarchy-ID:subsystem-list:cgroup-path`; other lines are skipped.
  unfoldable pub add_line : Reader → Bytes → List Bytes → PathList → Result PathList
  add_line r line (hierarchy ∷ subsystem_list ∷ cgroup_path ∷ []) c_paths =
      if contains (codes "0::/") line
      then add_v2_line (chosen_path r cgroup_path) (v2_directory r (chosen_path r cgroup_path))
          c_paths
      else ok (record c_paths {
        v1 = add_v1_paths r (chosen_path r cgroup_path) (split b',' subsystem_list) c_paths.v1;
      })
  add_line r line _ c_paths = ok c_paths

  unfoldable pub cgroup_lines : Reader → List Bytes → PathList → Result PathList
  cgroup_lines r [] c_paths = ok c_paths
  cgroup_lines r (line ∷ lines) c_paths = do
    next ← add_line r line (split b':' line) c_paths
    cgroup_lines r lines next

  -- The error does not wrap that of the scanner.
  abbrev pub or_scan_error : Option Error → PathList → Result PathList
  or_scan_error none c_paths = ok c_paths
  or_scan_error (some e) c_paths = err (message "error scanning cgroup file")

  unfoldable pub paths_of_file : Reader → File → Result PathList
  paths_of_file r (failed e) = err e
  paths_of_file r (content text) = do
    c_paths ← cgroup_lines r (scan text).lines (record { v1 = []; v2 = [] })
    or_scan_error (scan text).fault c_paths

  unfoldable pub process_cgroup_paths : Files → Reader → ℤ → Result PathList
  process_cgroup_paths files r pid = paths_of_file r (
      files (
        r.rootfs_mountpoint.resolve_host_fs
          (join_path (codes "proc" ∷ pid_text pid ∷ codes "cgroup" ∷ []))))

-- ===== src/Cgroup/Version.antt =====
-- metric/system/cgroup/reader.go: which version of cgroups a process uses, and the path that its
-- cgroups share.
use elastic_agent_system_met.Base.{
  Bool, not, ◌&&◌, List, [], ◌∷◌, if◌then◌else◌, Bytes, codes, ◌==◌, bytes_comparable, length,
  get_elem?, nat_eq, is_empty, Option, none, some, Result, ok, index, ◌>>=◌, wrap_err,
}
use elastic_agent_system_met.Base.Int.{ℤ}
use elastic_agent_system_met.Go.Strings.{split, contains, trim_space}
use elastic_agent_system_met.Go.Paths.{join_path}
use elastic_agent_system_met.Go.Files.{Files, read_file}
use elastic_agent_system_met.Process.Info.{pid_text}
use elastic_agent_system_met.Cgroup.Paths.{Controllers, ControllerPath, Reader, paths_of}

-- `CgroupsV1` and `CgroupsV2`.
pub data CgroupsVersion : Type 0 where
  cgroups_v1 cgroups_v2 : CgroupsVersion

-- The path of the last V2 line, which has to have three fields.
unfoldable pub v2_path : List Bytes → Bytes → Result Bytes
v2_path [] cgpath = ok cgpath
v2_path (controller ∷ controllers) cgpath = do
  next ←
      (if contains (codes "0::/") controller
        then index (get_elem? (split b':' controller) 2)
        else ok cgpath)
  v2_path controllers next

unfoldable pub controllers_of : Bytes → List Bytes
controllers_of raw = if is_empty raw then [] else split b' ' raw

unfoldable pub read_controller_list : Files → Bytes → Bytes → Result (List Bytes)
read_controller_list files cgroups_file v2path = if is_empty v2path then ok [] else (do
  cgpath ← v2_path (split b'\n' cgroups_file) []
  if is_empty cgpath then ok [] else (do
    raw ←
        wrap_err "error reading"
          (read_file files (join_path (v2path ∷ cgpath ∷ codes "cgroup.controllers" ∷ [])))
    ok (controllers_of raw)))

abbrev pub version_of : List Bytes → CgroupsVersion
version_of [] = cgroups_v1
version_of (c ∷ controllers) = cgroups_v2

unfoldable pub version_of_text : Files → Reader → Bytes → Result CgroupsVersion
version_of_text files r cgstring =
    if contains (codes "0::/") cgstring
    then (if nat_eq (length (split b'\n' (trim_space cgstring))) 1 then ok cgroups_v2 else (do
      controllers ←
          wrap_err "error fetching cgroup controller list"
            (read_controller_list files cgstring r.cgroup_mountpoints.v2_loc)
      ok (version_of controllers)))
    else ok cgroups_v1

unfoldable pub cgroups_version : Files → Reader → ℤ → Result CgroupsVersion
cgroups_version files r pid = do
  cgraw ← wrap_err "error reading" (
      read_file files (
        r.rootfs_mountpoint.resolve_host_fs
          (join_path (codes "/proc/" ∷ pid_text pid ∷ codes "cgroup" ∷ []))))
  version_of_text files r cgraw

-- `filepath.Base`
unfoldable pub last_element : List Bytes → Bytes
last_element [] = []
last_element (x ∷ []) = x
last_element (x ∷ y ∷ ys) = last_element (y ∷ ys)

unfoldable pub trim_slashes : Bytes → Bytes
trim_slashes [] = []
trim_slashes (c ∷ cs) =
    let rest = trim_slashes cs in if is_empty rest && nat_eq c b'/' then [] else c ∷ rest

unfoldable pub base : Bytes → Bytes
base path =
    if is_empty path
    then codes "."
    else if is_empty (trim_slashes path)
    then codes "/"
    else last_element (split b'/' (trim_slashes path))

-- The loop of `getCommonCgroupMetadata`: none if two paths differ.
unfoldable pub common_path : Bool → List ControllerPath → Bytes → Option Bytes
common_path ignore_root [] path = some path
common_path ignore_root (m ∷ mounts) path =
    let as_new = common_path ignore_root mounts m.controller_path in
    let as_old = common_path ignore_root mounts path in
    if not m.is_v2 && (ignore_root && m.controller_path == codes "/")
    then as_old
    else if is_empty path
    then as_new
    else if path == m.controller_path
    then as_old
    else none

unfoldable pub with_id : Option Bytes → Bytes × Bytes
with_id none = ([], [])
with_id (some path) = (path, base path)

unfoldable pub get_common_cgroup_metadata : Controllers → Bool → Bytes × Bytes
unfolding common_path with_id
get_common_cgroup_metadata mounts ignore_root =
    with_id (common_path ignore_root (paths_of mounts) [])

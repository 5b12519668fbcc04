-- ===== src/Tests/Controllers.antt =====
-- The controllers of cgroups: block I/O, memory and the loop over them.
use mathlib.Core.List.{Permᴰ}
use mathlib.Core.List.Permᴰ
use mathlib.Core.List.Perm
use elastic_agent_system_met.Base.{
  ℕ, true, false, inl, List, [], ◌∷◌, ◌≡◌, refl, Bytes, codes, bytes_eq, some, ok, err, not_exist,
  arith,
}
use elastic_agent_system_met.Go.Maps.{lookup, insert}
use elastic_agent_system_met.Go.Strings.{trim_space, fields_func, to_lower}
use elastic_agent_system_met.Go.Numbers
use elastic_agent_system_met.Go.Paths.{join_path}
use elastic_agent_system_met.Go.Files.{Files, scan}
use elastic_agent_system_met.Cgroup.Common.{parse_uint, parse_uint_from_file}
use elastic_agent_system_met.Cgroup.Paths.{
  Reader, Controllers, process_cgroup_paths, paths_of_file, cgroup_lines, add_line, chosen_path,
  add_v1_paths, paths_of,
}
use elastic_agent_system_met.Base.Returns.{Returns}
use elastic_agent_system_met.Base.{All}
use elastic_agent_system_met.Process.Info.{pid_text}
use elastic_agent_system_met.Cgroup.Version.{get_common_cgroup_metadata}
use elastic_agent_system_met.Go.Strings.{split, contains, has_prefix}
use elastic_agent_system_met.Cgroup.Version.{base, trim_slashes, last_element}
use elastic_agent_system_met.Cgroup.V1.{get_cpu_v1, cpu_cfs, cpu_rt, cpu_stat, set_params}
use elastic_agent_system_met.Cgroup.MemoryV1.{get_memory_v1, memory_data, memory_stats}
use elastic_agent_system_met.Cgroup.Blkio.{
  DeviceId, BlkioValue, device_comparable, collect_op_values, read_blkio_values, blkio_lines,
  parse_blkio_value, device_eq, get_blkio,
}
use elastic_agent_system_met.Cgroup.MemoryV2.{no_memory_stat, fill_stat_struct}
use elastic_agent_system_met.Cgroup.Stats.{
  CgroupHost, StatsV1, zero_cpu, no_memory_v1, no_blkio, is_ignored, get_stats_v1, each_v1,
  start_v1, get_v1_stats_for_process,
}
use elastic_agent_system_met.Cgroup.Laws.Params.{Param, IsParam}
use elastic_agent_system_met.Cgroup.Laws.Blkio.Values.{reported, lookup-collect_op_values}
use elastic_agent_system_met.Cgroup.Laws.Blkio.Reads.{sum_read_write}
use elastic_agent_system_met.Cgroup.Laws.Blkio.Totals.{plus, get_blkio-plus}
use elastic_agent_system_met.Cgroup.Laws.Memory.{last_amounts, fill_stat_struct-last_amounts}
use elastic_agent_system_met.Cgroup.Laws.Orders.{HasPath, get_v1_stats_for_process-Permᴰ}
use elastic_agent_system_met.Base.Int.{pos}
use elastic_agent_system_met.Tests.Fixtures.{floats, opts, root, one_file}

open_io : Unit {0}
unfolding bytes_eq device_eq lookup insert join_path read_blkio_values blkio_lines scan trim_space
    parse_blkio_value fields_func Numbers.parse_uint parse_uint to_lower
open_io = tt

abbrev disk : DeviceId
disk = record { major = 8; minor = 0 }

abbrev entry : Bytes → ℕ → BlkioValue
entry operation value = record { device_id = disk; operation = operation; value = value }

abbrev served : List BlkioValue
served = entry (codes "read") 10 ∷ entry (codes "write") 5 ∷ entry (codes "total") 15 ∷ []

lookup-collect_op_values_example : lookup disk (collect_op_values served) ≡ reported disk served
lookup-collect_op_values_example = lookup-collect_op_values disk served

abbrev blkio_files : Files
blkio_files =
    one_file (codes "/b/blkio.throttle.io_service_bytes")
      (codes "8:0 Read 10\n8:0 Write 5\n8:0 Total 15\nTotal 15\n")

get_blkio-plus_example :
    get_blkio (λ ds. ds) blkio_files (codes "/b") no_blkio
    ≡ ok (record no_blkio {
      total = plus no_blkio.total (sum_read_write served) (sum_read_write []);
    })
unfolding open_io
get_blkio-plus_example =
    get_blkio-plus (λ ds. ds) (λ ds. Perm.refl ds) blkio_files (codes "/b") no_blkio {v1 = served}
      {v2 = []} {v3 = []} {v4 = []} {v5 = []} {v6 = []} refl refl refl refl refl refl
      (refl, (refl, (refl, tt))) tt (omega arith) (omega arith)

abbrev anon : Param
anon = record { key = codes "anon"; text = codes "7"; amount = 7 }

anon-IsParam : IsParam anon
anon-IsParam = record {
  word = (λ h. ground arith, (refl, (refl, (refl, (refl, tt)))));
  number =
      inl (record { ne_nil = λ h. ground arith; digits = (refl, tt); means = refl }, omega arith);
}

fill_stat_struct-last_amounts_example :
    fill_stat_struct (one_file (codes "/m/memory.stat") (codes "anon 7\n")) (codes "/m")
    ≡ ok (last_amounts (anon ∷ []) no_memory_stat)
unfolding open_io
fill_stat_struct-last_amounts_example =
    fill_stat_struct-last_amounts (one_file (codes "/m/memory.stat") (codes "anon 7\n"))
      (codes "/m") (anon ∷ []) (anon-IsParam, tt) (omega arith, tt) refl

abbrev cgroup_host : CgroupHost floats
cgroup_host = record {
  clock_ticks = 100;
  dev = [];
  device_order = λ ds. ds;
  read_dir = λ p. err not_exist;
  scan_float = λ s. err not_exist;
}

abbrev cgroup_reader : Reader
cgroup_reader = record {
  rootfs_mountpoint = root;
  ignore_root_cgroups = true;
  cgroups_hierarchy_override = [];
  cgroup_mountpoints = record { v1_mounts = []; v2_loc = [] };
}

abbrev both_read : StatsV1 floats opts
both_read = record (start_v1 floats opts cgroup_host (codes "/a", codes "a")) {
  cpu = some (record zero_cpu { id = codes "a"; path = codes "/a" });
  memory = some (record no_memory_v1 { id = codes "a"; path = codes "/a" });
}

-- Another order of the first two controllers.
abbrev swap_two : Controllers → Controllers
swap_two [] = []
swap_two (a ∷ []) = a ∷ []
swap_two (a ∷ b ∷ cs) = b ∷ a ∷ cs

swap_two-Permᴰ : (cs : Controllers) → Permᴰ cs (swap_two cs)
swap_two-Permᴰ [] = Permᴰ.refl []
swap_two-Permᴰ (a ∷ []) = Permᴰ.refl (a ∷ [])
swap_two-Permᴰ (a ∷ b ∷ cs) = Permᴰ.swap refl refl

abbrev two_controllers : Files
two_controllers = one_file (codes "proc/7/cgroup") (codes "1:cpu:/a\n2:memory:/a\n")

abbrev two_paths : Controllers
two_paths =
    (codes "cpu", record { controller_path = codes "/a"; full_path = codes "/a"; is_v2 = false })
    ∷ (
      codes "memory",
      record { controller_path = codes "/a"; full_path = codes "/a"; is_v2 = false },
    )
    ∷ []

paths_of_seven :
    process_cgroup_paths cgroup_host.read_dir two_controllers cgroup_reader (pos 7)
    ≡ ok (record { v1 = two_paths; v2 = [] })
unfolding process_cgroup_paths paths_of_file cgroup_lines add_line chosen_path add_v1_paths insert
    lookup bytes_eq split contains has_prefix scan join_path pid_text
paths_of_seven = refl

two_paths-HasPath :
    Returns
      (λ paths. All HasPath paths.v1)
      (process_cgroup_paths cgroup_host.read_dir two_controllers cgroup_reader (pos 7))
two_paths-HasPath = rw paths_of_seven (refl, (refl, tt))

two_paths_read :
    get_v1_stats_for_process floats opts cgroup_host
      (λ cs. cs)
      (λ cs. cs)
      two_controllers
      cgroup_reader
      (pos 7)
    ≡ ok both_read
unfolding open_io get_v1_stats_for_process each_v1 is_ignored get_stats_v1 get_cpu_v1 cpu_cfs
    parse_uint_from_file cpu_rt cpu_stat set_params get_memory_v1 memory_data memory_stats base
    trim_slashes last_element get_common_cgroup_metadata paths_of
two_paths_read = rw paths_of_seven refl

get_v1_stats_for_process-Permᴰ_example :
    get_v1_stats_for_process floats opts cgroup_host swap_two swap_two two_controllers cgroup_reader
      (pos 7)
    ≡ ok both_read
get_v1_stats_for_process-Permᴰ_example =
    get_v1_stats_for_process-Permᴰ floats opts cgroup_host (λ cs. cs) (λ cs. cs) swap_two swap_two
      (λ cs. Permᴰ.refl cs) (λ cs. Permᴰ.refl cs) swap_two-Permᴰ swap_two-Permᴰ two_controllers
      cgroup_reader (pos 7) both_read two_paths-HasPath two_paths_read

-- ===== src/Cgroup/Stats.antt =====
-- metric/system/cgroup/reader.go: the statistics of all the controllers of a process.
use elastic_agent_system_met.Base.{
  ℕ, Bool, true, not, ◌&&◌, List, [], ◌∷◌, if◌then◌else◌, Bytes, codes, ◌==◌, bytes_comparable,
  Option, none, some, Result, ok, ◌>>=◌, wrap_err,
}
use elastic_agent_system_met.Base.Int.{ℤ}
use elastic_agent_system_met.Go.Paths.{join_path}
use elastic_agent_system_met.Go.Files.{Files}
use elastic_agent_system_met.Libs.{Float64, Opt}
use elastic_agent_system_met.Cgroup.Paths.{
  Reader, Controllers, ControllerPath, process_cgroup_paths,
}
use elastic_agent_system_met.Cgroup.Version.{
  CgroupsVersion, cgroups_v1, cgroups_v2, cgroups_version, base, get_common_cgroup_metadata,
}
use elastic_agent_system_met.Cgroup.V1.{
  CpuSubsystem, CpuAccountingSubsystem, get_cpu_v1, get_cpuacct,
}
use elastic_agent_system_met.Cgroup.V2
use elastic_agent_system_met.Cgroup.V2.{V2Cpu, no_usage, get_cpu_v2}
use elastic_agent_system_met.Cgroup.Io.{IoSubsystem, DevEntry, get_io}
use elastic_agent_system_met.Cgroup.Blkio.{ThrottleDevices, BlockIoSubsystem, get_blkio}
use elastic_agent_system_met.Cgroup.MemoryV1
use elastic_agent_system_met.Cgroup.MemoryV1.{get_memory_v1}
use elastic_agent_system_met.Cgroup.MemoryV2
use elastic_agent_system_met.Cgroup.MemoryV2.{get_memory}
use elastic_agent_system_met.Cgroup.Pressure.{Pressures, get_pressure}

-- What the readers take from the host beside its files: clock ticks, the entries of /dev, the order
-- in which Go ranges over the block devices, `ioutil.ReadDir`, and the verb `%f` of `fmt.Sscanf`.
pub record CgroupHost (f : Float64) : Type 0 where
  pub clock_ticks : ℕ
  pub dev : List DevEntry
  pub device_order : ThrottleDevices → ThrottleDevices
  pub read_dir : Bytes → Result (List Bytes)
  pub scan_float : Bytes → Result (f.Float × Bytes)

abbrev pub zero_cpu : CpuSubsystem
zero_cpu = record {
  id = [];
  path = [];
  cfs = record { period_micros = 0; quota_micros = 0; shares = 0 };
  rt = record { period = 0; runtime = 0 };
  stats = record { periods = 0; throttled_us = 0; throttled_periods = 0 };
}

abbrev pub no_blkio : BlockIoSubsystem
no_blkio = record { id = []; path = []; total = record { bytes = 0; ios = 0 } }

abbrev pub no_memory_v1 : MemoryV1.MemorySubsystem
no_memory_v1 = record {
  id = [];
  path = [];
  mem = MemoryV1.no_memory_data;
  mem_swap = MemoryV1.no_memory_data;
  kernel = MemoryV1.no_memory_data;
  kernel_tcp = MemoryV1.no_memory_data;
  stats = MemoryV1.no_memory_stat;
}

-- A root cgroup, where those are ignored and the override does not ask for it.
unfoldable pub is_ignored : Reader → ControllerPath → Bool
is_ignored r cg_path =
    r.ignore_root_cgroups
    && (cg_path.controller_path == codes "/"
        && not (r.cgroups_hierarchy_override == cg_path.controller_path))

module _ (f : Float64) (o : Opt f) where
  pub record StatsV1 : Type 0 where
    pub id : Bytes
    pub path : Bytes
    pub cpu : Option CpuSubsystem
    pub cpu_accounting : Option (CpuAccountingSubsystem f o)
    pub memory : Option MemoryV1.MemorySubsystem
    pub block_io : Option BlockIoSubsystem
    pub version : CgroupsVersion

  abbrev pub no_cpuacct : CpuAccountingSubsystem f o
  no_cpuacct = record {
    id = [];
    path = [];
    total = no_usage f o;
    usage_per_cpu = [];
    user = no_usage f o;
    system = no_usage f o;
  }

  abbrev pub no_memory_v2 : MemoryV2.MemorySubsystem f o
  no_memory_v2 = record {
    id = [];
    path = [];
    mem = MemoryV2.no_memory_data f o;
    mem_swap = MemoryV2.no_memory_data f o;
    stats = MemoryV2.no_memory_stat;
  }

  module _ (h : CgroupHost f) where
    abbrev pub PressureMap : Type 0
    PressureMap = Pressures f o h.scan_float

    pub record StatsV2 : Type 0 where
      pub id : Bytes
      pub path : Bytes
      pub cpu : Option (V2Cpu f o PressureMap)
      pub memory : Option (MemoryV2.MemorySubsystem f o)
      pub io : Option (IoSubsystem PressureMap)
      pub version : CgroupsVersion

    abbrev pub zero_cpu_v2 : V2Cpu f o PressureMap
    zero_cpu_v2 = record { id = []; path = []; pressure = []; stats = V2.no_stats f o }

    abbrev pub no_io_v2 : IoSubsystem PressureMap
    no_io_v2 = record { id = []; path = []; stats = []; pressure = [] }

    -- Each controller sets its own part of the statistics; other names set nothing.
    unfoldable pub get_stats_v1 : Files → ControllerPath → Bytes → StatsV1 → Result StatsV1
    get_stats_v1 files path name stats =
        if name == codes "blkio"
        then (do
          blkio ←
              wrap_err "error fetching BlockIO stats"
                (get_blkio h.device_order files path.full_path no_blkio)
          ok (record stats {
            block_io =
                some (record blkio { id = base path.controller_path; path = path.controller_path });
          }))
        else if name == codes "cpu"
        then (do
          cpu ← wrap_err "error fetching cpu stats" (get_cpu_v1 files path.full_path zero_cpu)
          ok (record stats {
            cpu = some (record cpu { id = base path.controller_path; path = path.controller_path });
          }))
        else if name == codes "cpuacct"
        then (do
          acct ←
              wrap_err "error fetching cpuacct stats"
                (get_cpuacct f o h.clock_ticks files path.full_path no_cpuacct)
          ok (record stats {
            cpu_accounting =
                some (record acct { id = base path.controller_path; path = path.controller_path });
          }))
        else if name == codes "memory"
        then (do
          memory ←
              wrap_err "error fetching memory stats"
                (get_memory_v1 files path.full_path no_memory_v1)
          ok (record stats {
            memory =
                some
                  (record memory { id = base path.controller_path; path = path.controller_path });
          }))
        else ok stats

    unfoldable pub get_stats_v2 : Files → ControllerPath → Bytes → StatsV2 → Result StatsV2
    get_stats_v2 files path name stats =
        if name == codes "cpu"
        then (do
          cpu ← wrap_err "error fetching CPU stats" (
              get_cpu_v2 f o
                (get_pressure f o h.scan_float files
                  (join_path (path.full_path ∷ codes "cpu.pressure" ∷ [])))
                files path.full_path zero_cpu_v2)
          ok (record stats {
            cpu = some (record cpu { id = base path.controller_path; path = path.controller_path });
          }))
        else if name == codes "memory"
        then (do
          memory ←
              wrap_err "error fetching Memory stats"
                (get_memory f o files path.full_path no_memory_v2)
          ok (record stats {
            memory =
                some
                  (record memory { id = base path.controller_path; path = path.controller_path });
          }))
        else if name == codes "io"
        then (do
          io ← wrap_err "error fetching IO stats" (
              get_io h.dev (λ fs p. get_pressure f o h.scan_float fs p) files path.full_path true
                no_io_v2)
          ok (record stats {
            io = some (record io { id = base path.controller_path; path = path.controller_path });
          }))
        else ok stats

    -- The loops over the controllers, in the order in which Go ranges over the map.
    unfoldable pub each_v1 : Files → Reader → Controllers → StatsV1 → Result StatsV1
    each_v1 files r [] stats = ok stats
    each_v1 files r ((name, path) ∷ controllers) stats = do
      next ←
          (if is_ignored r path
            then ok stats
            else wrap_err "error fetching stats for controller"
                (get_stats_v1 files path name stats))
      each_v1 files r controllers next

    unfoldable pub each_v2 : Files → Reader → Controllers → StatsV2 → Result StatsV2
    each_v2 files r [] stats = ok stats
    each_v2 files r ((name, path) ∷ controllers) stats = do
      next ←
          (if is_ignored r path
            then ok stats
            else wrap_err "error fetching stats for controller"
                (get_stats_v2 files path name stats))
      each_v2 files r controllers next

    abbrev pub start_v1 : Bytes × Bytes → StatsV1
    start_v1 (path, id) = record {
      id = id;
      path = path;
      cpu = none;
      cpu_accounting = none;
      memory = none;
      block_io = none;
      version = cgroups_v1;
    }

    abbrev pub start_v2 : Bytes × Bytes → StatsV2
    start_v2 (path, id) = record {
      id = id;
      path = path;
      cpu = none;
      memory = none;
      io = none;
      version = cgroups_v2;
    }

    -- The interface `CGStats`, over the two types that implement it.
    pub data CgStats : Type 0 where
      stats_v1 : StatsV1 → CgStats
      stats_v2 : StatsV2 → CgStats

    -- The orders in which Go ranges over the map of the controllers, for the metadata and in the loop.
    module _ (common_order range_order : Controllers → Controllers) where
      unfoldable pub get_v1_stats_for_process : Files → Reader → ℤ → Result StatsV1
      get_v1_stats_for_process files r pid = do
        paths ← process_cgroup_paths h.read_dir files r pid
        each_v1 files r (range_order paths.v1)
            (start_v1 (get_common_cgroup_metadata (common_order paths.v1) r.ignore_root_cgroups))

      unfoldable pub get_v2_stats_for_process : Files → Reader → ℤ → Result StatsV2
      get_v2_stats_for_process files r pid = do
        paths ← process_cgroup_paths h.read_dir files r pid
        each_v2 files r (range_order paths.v2)
            (start_v2 (get_common_cgroup_metadata (common_order paths.v2) r.ignore_root_cgroups))

      unfoldable pub stats_of_version : Files → Reader → ℤ → CgroupsVersion → Result CgStats
      stats_of_version files r pid cgroups_v1 = do
        stats ← get_v1_stats_for_process files r pid
        ok (stats_v1 stats)
      stats_of_version files r pid cgroups_v2 = do
        stats ← get_v2_stats_for_process files r pid
        ok (stats_v2 stats)

      unfoldable pub get_stats_for_pid : Files → Reader → ℤ → Result CgStats
      unfolding stats_of_version
      get_stats_for_pid files r pid = do
        v ← wrap_err "error finding cgroup version" (cgroups_version files r pid)
        stats_of_version files r pid v

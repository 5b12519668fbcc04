-- ===== src/Cgroup/V2.antt =====
-- metric/system/cgroup/cgv2/cpu.go: the CPU controller of cgroups V2. What `GetPressure` returns is
-- an argument.
use elastic_agent_system_met.Base.{
  ℕ, Bool, [], ◌∷◌, if◌then◌else◌, Bytes, codes, ◌==◌, bytes_comparable, ◌&&◌, Option, none, some,
  Error, is_not_exist, wrap, Result, ok, err, ◌>>=◌, wrap_err,
}
use elastic_agent_system_met.Go.Paths.{join_path}
use elastic_agent_system_met.Go.Files.{Files, File, content, failed, scan}
use elastic_agent_system_met.Libs.{Float64, Opt}
use elastic_agent_system_met.Cgroup.Common.{each_param}
use elastic_agent_system_met.Cgroup.V1.{CpuUsage}

module _ (f : Float64) (o : Opt f) where
  pub record V2CpuStats : Type 0 where
    pub throttled_us : o.Uint
    pub throttled_periods : o.Uint
    pub periods : o.Uint
    pub usage : CpuUsage f o
    pub user : CpuUsage f o
    pub system : CpuUsage f o

  abbrev pub no_usage : CpuUsage f o
  no_usage = record { ns = 0; pct = o.float_none; norm_pct = o.float_none }

  abbrev pub no_stats : V2CpuStats
  no_stats = record {
    throttled_us = o.uint_none;
    throttled_periods = o.uint_none;
    periods = o.uint_none;
    usage = no_usage;
    user = no_usage;
    system = no_usage;
  }

  pub record V2Cpu (P : Type 0) : Type 0 where
    pub id : Bytes
    pub path : Bytes
    pub pressure : P
    pub stats : V2CpuStats

  -- `ThrottledField.IsZero`
  unfoldable pub throttled_is_zero : V2CpuStats → Bool
  throttled_is_zero s = o.is_zero s.throttled_us && o.is_zero s.throttled_periods

  unfoldable pub set_v2_stat : Bytes → ℕ → V2CpuStats → V2CpuStats
  set_v2_stat key val data' =
      if key == codes "usage_usec"
      then record data' { usage = record (data'.usage) { ns = val } }
      else if key == codes "user_usec"
      then record data' { user = record (data'.user) { ns = val } }
      else if key == codes "system_usec"
      then record data' { system = record (data'.system) { ns = val } }
      else if key == codes "nr_periods"
      then record data' { periods = o.uint_with val }
      else if key == codes "nr_throttled"
      then record data' { throttled_periods = o.uint_with val }
      else if key == codes "throttled_usec"
      then record data' { throttled_us = o.uint_with val }
      else data'

  -- What follows a fault of the scanner is not read, and the fault is not returned.
  unfoldable pub stats_of_file : File → Result V2CpuStats
  stats_of_file (content text) =
      wrap_err "error parsing cpu.stat file" (each_param set_v2_stat (scan text).lines no_stats)
  stats_of_file (failed e) =
      if is_not_exist e then ok no_stats else err (wrap "error reading cpu.stat" e)

  unfoldable pub get_stats : Files → Bytes → Result V2CpuStats
  unfolding stats_of_file
  get_stats files path = stats_of_file (files (join_path (path ∷ codes "cpu.stat" ∷ [])))

  -- `Get`, with the map that `GetPressure` returns beside an error.
  unfoldable pub get_cpu_v2 :
      {P : Type 0} → P × Option Error → Files → Bytes → V2Cpu P → Result (V2Cpu P)
  get_cpu_v2 (pressure, none) files path cpu = do
    stats ← wrap_err "error fetching CPU stat data" (get_stats files path)
    ok (record { id = cpu.id; path = cpu.path; pressure = pressure; stats = stats })
  get_cpu_v2 (pressure, some e) files path cpu =
      if is_not_exist e
      then ok (record { id = cpu.id; path = cpu.path; pressure = pressure; stats = cpu.stats })
      else err (wrap "error fetching Pressure data" e)

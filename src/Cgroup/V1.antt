-- ===== src/Cgroup/V1.antt =====
-- metric/system/cgroup/cgv1/cpu.go and cpuacct.go: the CPU controllers of cgroups V1.
use elastic_agent_system_met.Base.{
  ℕ, suc, ◌/◌, List, [], ◌∷◌, if◌then◌else◌, Bytes, codes, ◌==◌, bytes_comparable, is_not_exist,
  Result, ok, err, ◌>>=◌, wrap_err,
}
use elastic_agent_system_met.Base.Int.{mul64}
use elastic_agent_system_met.Go.Strings.{fields}
use elastic_agent_system_met.Go.Numbers.{itoa}
use elastic_agent_system_met.Go.Maps.{insert}
use elastic_agent_system_met.Go.Paths.{join_path}
use elastic_agent_system_met.Go.Files.{Files, File, content, failed, scan}
use elastic_agent_system_met.Libs.{Float64, Opt}
use elastic_agent_system_met.Cgroup.Common.{parse_uint, parse_uint_from_file, each_param}
use elastic_agent_system_met.Cgroup.Mountinfo.{unless}

pub record Cfs : Type 0 where
  pub period_micros : ℕ
  pub quota_micros : ℕ
  pub shares : ℕ

pub record Rt : Type 0 where
  pub period : ℕ
  pub runtime : ℕ

pub record CpuStats : Type 0 where
  pub periods : ℕ
  pub throttled_us : ℕ
  pub throttled_periods : ℕ

pub record CpuSubsystem : Type 0 where
  pub id : Bytes
  pub path : Bytes
  pub cfs : Cfs
  pub rt : Rt
  pub stats : CpuStats

unfoldable pub set_stat : Bytes → ℕ → CpuStats → CpuStats
set_stat t v stats =
    if t == codes "nr_periods"
    then record stats { periods = v }
    else if t == codes "nr_throttled"
    then record stats { throttled_periods = v }
    else if t == codes "throttled_time"
    then record stats { throttled_us = v }
    else stats

-- The parameters of a file, set one after the other; a file that is not there sets none.
unfoldable pub set_params : {A : Type 0} → (Bytes → ℕ → A → A) → File → A → Result A
set_params set (failed e) data' = if is_not_exist e then ok data' else err e
set_params set (content text) data' = do
  read ← each_param set (scan text).lines data'
  unless (scan text).fault read

unfoldable pub cpu_stat : Files → Bytes → CpuSubsystem → Result CpuSubsystem
cpu_stat files path cpu = do
  stats ← set_params set_stat (files (join_path (path ∷ codes "cpu.stat" ∷ []))) cpu.stats
  ok (record cpu { stats = stats })

unfoldable pub cpu_cfs : Files → Bytes → CpuSubsystem → Result CpuSubsystem
cpu_cfs files path cpu = do
  period ← parse_uint_from_file files (path ∷ codes "cpu.cfs_period_us" ∷ [])
  quota ← parse_uint_from_file files (path ∷ codes "cpu.cfs_quota_us" ∷ [])
  shares ← parse_uint_from_file files (path ∷ codes "cpu.shares" ∷ [])
  ok (record cpu { cfs = record { period_micros = period; quota_micros = quota; shares = shares } })

unfoldable pub cpu_rt : Files → Bytes → CpuSubsystem → Result CpuSubsystem
cpu_rt files path cpu = do
  period ← parse_uint_from_file files (path ∷ codes "cpu.rt_period_us" ∷ [])
  runtime ← parse_uint_from_file files (path ∷ codes "cpu.rt_runtime_us" ∷ [])
  ok (record cpu { rt = record { period = period; runtime = runtime } })

unfoldable pub get_cpu_v1 : Files → Bytes → CpuSubsystem → Result CpuSubsystem
get_cpu_v1 files path cpu = do
  c1 ← wrap_err "error fetching CFS data" (cpu_cfs files path cpu)
  c2 ← wrap_err "error fetching RT data" (cpu_rt files path c1)
  wrap_err "error fetching CPU stats" (cpu_stat files path c2)

-- `clock_ticks` is `linux.GetClockTicks()` of gosigar.
unfoldable pub convert_jiffies_to_nanos : ℕ → ℕ → ℕ
convert_jiffies_to_nanos clock_ticks j = mul64 j 1000000000 / clock_ticks

module _ (f : Float64) (o : Opt f) where
  pub record CpuUsage : Type 0 where
    pub ns : ℕ
    pub pct : o.OptFloat
    pub norm_pct : o.OptFloat

  pub record CpuAccountingSubsystem : Type 0 where
    pub id : Bytes
    pub path : Bytes
    pub total : CpuUsage
    pub usage_per_cpu : List (Bytes × ℕ)
    pub user : CpuUsage
    pub system : CpuUsage

  unfoldable pub set_acct : ℕ → Bytes → ℕ → CpuAccountingSubsystem → CpuAccountingSubsystem
  set_acct clock_ticks t v acct =
      if t == codes "user"
      then record acct { user = record (acct.user) { ns = convert_jiffies_to_nanos clock_ticks v } }
      else if t == codes "system"
      then record acct {
        system = record (acct.system) { ns = convert_jiffies_to_nanos clock_ticks v };
      }
      else acct

  unfoldable pub cpuacct_stat :
      ℕ → Files → Bytes → CpuAccountingSubsystem → Result CpuAccountingSubsystem
  cpuacct_stat clock_ticks files path acct =
      set_params (set_acct clock_ticks) (files (join_path (path ∷ codes "cpuacct.stat" ∷ []))) acct

  unfoldable pub cpuacct_usage :
      Files → Bytes → CpuAccountingSubsystem → Result CpuAccountingSubsystem
  cpuacct_usage files path acct = do
    ns ← parse_uint_from_file files (path ∷ codes "cpuacct.usage" ∷ [])
    ok (record acct { total = record (acct.total) { ns = ns } })

  -- The usages from the CPU with the number `cpu` on.
  unfoldable pub usages_from : ℕ → List Bytes → List (Bytes × ℕ) → Result (List (Bytes × ℕ))
  usages_from cpu [] values = ok values
  usages_from cpu (usage ∷ usages) values = do
    value ← parse_uint usage
    usages_from (suc cpu) usages (insert (itoa cpu) value values)

  unfoldable pub usage_of_file : File → CpuAccountingSubsystem → Result CpuAccountingSubsystem
  usage_of_file (failed e) acct = if is_not_exist e then ok acct else err e
  usage_of_file (content contents) acct = do
    values ← usages_from 1 (fields contents) []
    ok (record acct { usage_per_cpu = values })

  unfoldable pub cpuacct_usage_per_cpu :
      Files → Bytes → CpuAccountingSubsystem → Result CpuAccountingSubsystem
  cpuacct_usage_per_cpu files path acct =
      usage_of_file (files (join_path (path ∷ codes "cpuacct.usage_percpu" ∷ []))) acct

  unfoldable pub get_cpuacct :
      ℕ → Files → Bytes → CpuAccountingSubsystem → Result CpuAccountingSubsystem
  get_cpuacct clock_ticks files path acct = do
    a1 ←
        wrap_err "error fetching cpuacct stats"
          (cpuacct_stat clock_ticks files path (record acct { usage_per_cpu = [] }))
    a2 ← wrap_err "error fetching cpuacct usage" (cpuacct_usage files path a1)
    wrap_err "error fetching per_cpu data" (cpuacct_usage_per_cpu files path a2)

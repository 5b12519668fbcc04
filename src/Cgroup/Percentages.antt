-- ===== src/Cgroup/Percentages.antt =====
-- metric/system/cgroup/cgstats.go: the CPU shares of a cgroup between two samples.
use elastic_agent_system_met.Base.{
  ℕ, List, [], ◌∷◌, length, Bytes, Option, none, some, Result, ok, ◌>>=◌,
}
use elastic_agent_system_met.Base.Int.{ℤ, pos, sub64, signed64}
use elastic_agent_system_met.Libs.{Float64, Opt}
use elastic_agent_system_met.Round.{round}
use elastic_agent_system_met.Process.Percent.{time_sub}
use elastic_agent_system_met.Cgroup.V1.{CpuUsage, CpuAccountingSubsystem}
use elastic_agent_system_met.Cgroup.V2.{V2Cpu, V2CpuStats}
use elastic_agent_system_met.Cgroup.Version.{CgroupsVersion, cgroups_v1, cgroups_v2}
use elastic_agent_system_met.Cgroup.Stats.{CgroupHost, PressureMap, CgStats, stats_v1, stats_v2}

module _ (f : Float64) (o : Opt f) where
  -- `int64(cur - prev)` over the time between the samples in nanoseconds.
  unfoldable pub rate : ℤ → CpuUsage f o → CpuUsage f o → f.Float
  rate nanos cur prev = f.div (f.of_int (signed64 (sub64 cur.ns prev.ns))) (f.of_int nanos)

  unfoldable pub with_rate : ℤ → ℤ → CpuUsage f o → CpuUsage f o → CpuUsage f o
  unfolding rate
  with_rate nanos cpu_count cur prev = record cur {
    pct = o.float_with (round f (rate nanos cur prev));
    norm_pct = o.float_with (round f (f.div (rate nanos cur prev) (f.of_int cpu_count)));
  }

  -- The count of the CPUs that the cgroup lists, or that of the host.
  unfoldable pub count_of : Result ℤ → List (Bytes × ℕ) → Result ℤ
  count_of cpus [] = cpus
  count_of cpus (u ∷ usages) = ok (pos (length (u ∷ usages)))

  -- `StatsV1.FillPercentages` on the accounting of both samples; `none` is a nil pointer, or a
  -- previous sample of another version.
  unfoldable pub fill_v1 :
      Result ℤ
      → Option (CpuAccountingSubsystem f o)
      → Option (CpuAccountingSubsystem f o)
      → ℤ
      → ℤ
      → Result (Option (CpuAccountingSubsystem f o))
  unfolding with_rate count_of
  fill_v1 cpus (some stat) (some prev) cur_time prev_time = do
    cpu_count ← count_of cpus stat.usage_per_cpu
    let nanos = time_sub cur_time prev_time
    ok (
        some (record stat {
          total = with_rate nanos cpu_count stat.total prev.total;
          user = with_rate nanos cpu_count stat.user prev.user;
          system = with_rate nanos cpu_count stat.system prev.system;
        }))
  fill_v1 cpus stat _ cur_time prev_time = ok stat

  -- `StatsV2.FillPercentages`, on the statistics of the CPU controllers.
  unfoldable pub fill_v2 :
      Result ℤ
      → Option (V2CpuStats f o)
      → Option (V2CpuStats f o)
      → ℤ
      → ℤ
      → Result (Option (V2CpuStats f o))
  unfolding with_rate
  fill_v2 cpus (some stat) (some prev) cur_time prev_time = do
    cpu_count ← cpus
    let nanos = time_sub cur_time prev_time
    ok (
        some (record stat {
          usage = with_rate nanos cpu_count stat.usage prev.usage;
          user = with_rate nanos cpu_count stat.user prev.user;
          system = with_rate nanos cpu_count stat.system prev.system;
        }))
  fill_v2 cpus stat _ cur_time prev_time = ok stat

  module _ (h : CgroupHost f) where
    unfoldable pub cg_version : CgStats f o h → CgroupsVersion
    cg_version (stats_v1 stat) = cgroups_v1
    cg_version (stats_v2 stat) = cgroups_v2

    abbrev stats_of_cpu : Option (V2Cpu f o (PressureMap f o h)) → Option (V2CpuStats f o)
    stats_of_cpu none = none
    stats_of_cpu (some cpu) = some cpu.stats

    abbrev with_stats :
        Option (V2Cpu f o (PressureMap f o h))
        → Option (V2CpuStats f o)
        → Option (V2Cpu f o (PressureMap f o h))
    with_stats (some cpu) (some stats) = some (record cpu { stats = stats })
    with_stats cpu _ = cpu

    -- `FillPercentages` of both types: a previous sample of the other version changes nothing.
    unfoldable pub fill_cg_stats :
        Result ℤ → CgStats f o h → CgStats f o h → ℤ → ℤ → Result (CgStats f o h)
    unfolding fill_v1 fill_v2
    fill_cg_stats cpus (stats_v1 stat) (stats_v1 prev) cur_time prev_time = do
      acct ← fill_v1 cpus stat.cpu_accounting prev.cpu_accounting cur_time prev_time
      ok (stats_v1 (record stat { cpu_accounting = acct }))
    fill_cg_stats cpus (stats_v2 stat) (stats_v2 prev) cur_time prev_time = do
      stats ← fill_v2 cpus (stats_of_cpu stat.cpu) (stats_of_cpu prev.cpu) cur_time prev_time
      ok (stats_v2 (record stat { cpu = with_stats stat.cpu stats }))
    fill_cg_stats cpus stat _ cur_time prev_time = ok stat

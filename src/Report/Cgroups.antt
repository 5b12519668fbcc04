-- ===== src/Report/Cgroups.antt =====
-- report/report.go: the cgroups of the own process.
use elastic_agent_system_met.Base.{
  true, List, [], ◌∷◌, ◌++◌, Bytes, codes, Option, none, some, Result, ok, err, panic, ◌>>=◌,
}
use elastic_agent_system_met.Base.Int.{ℤ}
use elastic_agent_system_met.Go.Files.{Files}
use elastic_agent_system_met.Libs.{Float64, Opt}
use elastic_agent_system_met.Resolve.{new_test_resolver, as_resolver}
use elastic_agent_system_met.Cgroup.Paths.{Reader, Controllers, new_reader_options}
use elastic_agent_system_met.Cgroup.Version.{
  CgroupsVersion, cgroups_v1, cgroups_v2, cgroups_version,
}
use elastic_agent_system_met.Cgroup.V1.{CpuSubsystem, CpuAccountingSubsystem}
use elastic_agent_system_met.Cgroup.V2.{V2Cpu}
use elastic_agent_system_met.Cgroup.MemoryV1
use elastic_agent_system_met.Cgroup.MemoryV2
use elastic_agent_system_met.Cgroup.Stats.{
  CgroupHost, StatsV1, StatsV2, get_v1_stats_for_process, get_v2_stats_for_process,
}
use elastic_agent_system_met.Report.Calls.{
  Call, report_uint, report_namespace, report_id, in_registry, unless_error,
}

-- A part of the statistics, if the pointer is not nil.
abbrev pub if_present {ℓ κ} : {A : Type ℓ} {B : Type κ} → Option A → (A → List B) → List B
if_present none calls = []
if_present (some a) calls = calls a

module _ (f : Float64) (o : Opt f) where
  unfoldable pub cpu_v1_calls : CpuSubsystem → List (Call f)
  cpu_v1_calls cpu = report_namespace f (codes "cpu") (
      report_id f cpu.id
      ++ (report_namespace f (codes "cfs") (
            report_namespace f (codes "period")
              (report_uint f (codes "us") cpu.cfs.period_micros ∷ [])
            ++ report_namespace f (codes "quota")
                (report_uint f (codes "us") cpu.cfs.quota_micros ∷ []))
          ++ report_namespace f (codes "stats") (
              report_uint f (codes "periods") cpu.stats.periods
              ∷ report_namespace f (codes "throttled") (
                  report_uint f (codes "periods") cpu.stats.throttled_periods
                  ∷ report_uint f (codes "ns") cpu.stats.throttled_us
                  ∷ []))))

  unfoldable pub cpuacct_calls : CpuAccountingSubsystem f o → List (Call f)
  cpuacct_calls cpuacct = report_namespace f (codes "cpuacct") (
      report_id f cpuacct.id
      ++ report_namespace f (codes "total") (report_uint f (codes "ns") cpuacct.total.ns ∷ []))

  unfoldable pub memory_v1_calls : MemoryV1.MemorySubsystem → List (Call f)
  memory_v1_calls memory = report_namespace f (codes "memory") (
      report_id f memory.id
      ++ report_namespace f (codes "mem") (
          report_namespace f (codes "limit") (report_uint f (codes "bytes") memory.mem.limit ∷ [])
          ++ report_namespace f (codes "usage")
              (report_uint f (codes "bytes") memory.mem.usage.bytes ∷ [])))

  unfoldable pub stats_v1_calls : StatsV1 f o → List (Call f)
  stats_v1_calls stats =
      if_present stats.cpu (λ cpu. cpu_v1_calls cpu)
      ++ (if_present stats.cpu_accounting (λ cpuacct. cpuacct_calls cpuacct)
          ++ if_present stats.memory (λ memory. memory_v1_calls memory))

  unfoldable pub cpu_v2_calls : {P : Type 0} → V2Cpu f o P → List (Call f)
  cpu_v2_calls cpu = report_namespace f (codes "cpu") (
      report_id f cpu.id
      ++ report_namespace f (codes "stats") (
          report_uint f (codes "periods") (o.value_or cpu.stats.periods 0)
          ∷ report_namespace f (codes "throttled") (
              report_uint f (codes "periods") (o.value_or cpu.stats.throttled_periods 0)
              ∷ report_uint f (codes "ns") (o.value_or cpu.stats.throttled_us 0)
              ∷ [])))

  unfoldable pub memory_v2_calls : MemoryV2.MemorySubsystem f o → List (Call f)
  memory_v2_calls memory = report_namespace f (codes "memory") (
      report_id f memory.id
      ++ report_namespace f (codes "mem") (
          report_namespace f (codes "usage") (report_uint f (codes "bytes") memory.mem.usage ∷ [])))

  module _ (h : CgroupHost f) where
    unfoldable pub stats_v2_calls : StatsV2 f o h → List (Call f)
    stats_v2_calls stats =
        if_present stats.cpu (λ cpu. cpu_v2_calls cpu)
        ++ if_present stats.memory (λ memory. memory_v2_calls memory)

    -- The orders in which Go ranges over the controllers, as in `GetV1StatsForProcess`.
    module _ (common_order range_order : Controllers → Controllers) (files : Files) where
      unfoldable pub report_metrics_cgv1 : ℤ → Reader → Result (List (Call f))
      report_metrics_cgv1 pid cgroups =
          unless_error f (get_v1_stats_for_process f o h common_order range_order files cgroups pid)
            (λ stats. stats_v1_calls stats)

      unfoldable pub report_metrics_cgv2 : ℤ → Reader → Result (List (Call f))
      report_metrics_cgv2 pid cgroups =
          unless_error f (get_v2_stats_for_process f o h common_order range_order files cgroups pid)
            (λ stats. stats_v2_calls stats)

      abbrev metrics_of : ℤ → Reader → Result CgroupsVersion → Result (List (Call f))
      metrics_of pid cgroups (ok cgroups_v1) = report_metrics_cgv1 pid cgroups
      metrics_of pid cgroups (ok cgroups_v2) = report_metrics_cgv2 pid cgroups
      metrics_of pid cgroups (err e) = ok []
      metrics_of pid cgroups panic = panic

      abbrev reader_metrics : ℤ → Result Reader → Result (List (Call f))
      reader_metrics pid (ok cgroups) = metrics_of pid cgroups (cgroups_version files cgroups pid)
      reader_metrics pid (err e) = ok []
      reader_metrics pid panic = panic

      -- `override` is the value of the environment variable, `pid` is `os.Getpid()`.
      unfoldable pub instance_cgroups_reporter : ℤ → Bytes → Result (List (Call f))
      instance_cgroups_reporter pid override = do
        body ← reader_metrics pid (
            new_reader_options files (record {
              rootfs_mountpoint = as_resolver (new_test_resolver (codes "/"));
              ignore_root_cgroups = true;
              cgroups_hierarchy_override = override;
            }))
        ok (in_registry f body)

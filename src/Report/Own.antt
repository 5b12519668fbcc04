-- ===== src/Report/Own.antt =====
-- report/report.go and metrics_file_descriptors.go: the own process, the runtime and the load.
use elastic_agent_system_met.Base.{
  ℕ, Bool, List, [], ◌∷◌, ◌++◌, if◌then◌else◌, codes, Result, ok, ◌>>=◌,
}
use elastic_agent_system_met.Base.Int.{ℤ}
use elastic_agent_system_met.Libs.{Float64}
use elastic_agent_system_met.Load.{LoadMetrics, LoadAverages, load, averages, normalized_averages}
use elastic_agent_system_met.Process.Types.{Deps, ProcState}
use elastic_agent_system_met.Process.Stats.{Options, Calls, State}
use elastic_agent_system_met.Process.Report.{get_self}
use elastic_agent_system_met.Report.Calls.{
  Call, report_int, report_float, report_uint, report_namespace, in_registry, unless_error,
}

-- The figures of `runtime.MemStats` that are reported.
pub record MemStats : Type 0 where
  pub total_alloc : ℕ
  pub alloc : ℕ
  pub sys : ℕ
  pub next_gc : ℕ

module _ (d : Deps) where
  abbrev pub ReportResult : Type 0
  ReportResult = Result (List (Call d.f))

  unfoldable pub rss_calls : ProcState d → List (Call d.f)
  rss_calls state = report_uint d.f (codes "rss") (d.o.value_or state.memory.rss.bytes 0) ∷ []

  -- `full` is the mode `monitoring.Full`; the heap figures come before the process is asked.
  unfoldable pub mem_stats_calls : Bool → MemStats → List (Call d.f)
  mem_stats_calls full stats =
      report_uint d.f (codes "memory_total") stats.total_alloc
      ∷ (if full
          then report_uint d.f (codes "memory_alloc") stats.alloc
            ∷ report_uint d.f (codes "memory_sys") stats.sys
            ∷ report_uint d.f (codes "gc_next") stats.next_gc
            ∷ []
          else [])

  abbrev mem_stats_body : Bool → MemStats → Result (ProcState d) → ReportResult
  mem_stats_body full stats self = do
    rest ← unless_error d.f self (λ state. rss_calls state)
    ok (in_registry d.f (mem_stats_calls full stats ++ rest))

  unfoldable pub ticks_calls : d.o.Uint → List (Call d.f)
  ticks_calls ticks =
      report_uint d.f (codes "ticks") (d.o.value_or ticks 0)
      ∷ report_namespace d.f (codes "time")
          (report_uint d.f (codes "ms") (d.o.value_or ticks 0) ∷ [])

  unfoldable pub cpu_calls : ProcState d → List (Call d.f)
  unfolding ticks_calls
  cpu_calls state =
      report_namespace d.f (codes "user") (ticks_calls state.cpu.user_ticks)
      ++ (report_namespace d.f (codes "system") (ticks_calls state.cpu.system_ticks)
          ++ report_namespace d.f (codes "total") (
              report_float (codes "value")
                (d.o.float_value_or state.cpu.total.value (d.f.of_uint 0))
              ∷ ticks_calls state.cpu.total.ticks))

  unfoldable pub fd_calls : ProcState d → List (Call d.f)
  fd_calls state =
      report_uint d.f (codes "open") (d.o.value_or state.fd.opened 0)
      ∷ report_namespace d.f (codes "limit") (
          report_uint d.f (codes "hard") (d.o.value_or state.fd.hard 0)
          ∷ report_uint d.f (codes "soft") (d.o.value_or state.fd.soft 0)
          ∷ [])

  abbrev in_own : (ProcState d → List (Call d.f)) → Result (ProcState d) → ReportResult
  in_own calls self = do body ← unless_error d.f self calls; ok (in_registry d.f body)

  -- The reporters that ask the collector for the own process; `self` is `os.Getpid()`.
  module _ (c : Options) (k : Calls d) (self : ℤ) where
    unfoldable pub mem_stats_reporter : Bool → MemStats → State d → ReportResult × State d
    mem_stats_reporter full stats st =
        let (state, next) = get_self d c k st self in (mem_stats_body full stats state, next)

    unfoldable pub instance_cpu_reporter : State d → ReportResult × State d
    instance_cpu_reporter st =
        let (state, next) = get_self d c k st self in (in_own (λ s. cpu_calls s) state, next)

    unfoldable pub fd_usage_reporter : State d → ReportResult × State d
    fd_usage_reporter st =
        let (state, next) = get_self d c k st self in (in_own (λ s. fd_calls s) state, next)

module _ (f : Float64) where
  unfoldable pub averages_calls : LoadAverages f → List (Call f)
  averages_calls avgs =
      report_float (codes "1") avgs.one_minute
      ∷ report_float (codes "5") avgs.five_minute
      ∷ report_float (codes "15") avgs.fifteen_minute
      ∷ []

  -- `cpus` is `numcpu.NumCPU()`.
  unfoldable pub report_system_load_average : ℤ → Result (LoadMetrics f) → Result (List (Call f))
  unfolding averages_calls
  report_system_load_average cpus sample = do
    body ← unless_error f (load f sample) (λ m.
        averages_calls (averages f m)
        ++ report_namespace f (codes "norm") (averages_calls (normalized_averages f cpus m)))
    ok (in_registry f body)

  unfoldable pub report_system_cpu_usage : ℤ → List (Call f)
  report_system_cpu_usage cpus = in_registry f (report_int (codes "cores") cpus ∷ [])

  unfoldable pub report_runtime : ℤ → List (Call f)
  report_runtime goroutines = in_registry f (report_int (codes "goroutines") goroutines ∷ [])

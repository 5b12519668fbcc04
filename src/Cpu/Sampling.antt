-- ===== src/Cpu/Sampling.antt =====
-- metrics.go: the monitor that keeps the last sample.
use elastic_agent_system_met.Base.{
  ℕ, suc, true, false, List, [], ◌∷◌, length, get_elem?, Option, none, some, Error, Result, ok, err,
  panic, index, ◌>>=◌, wrap_err,
}
use elastic_agent_system_met.Go.Files.{Files}
use elastic_agent_system_met.Resolve.{Resolver}
use elastic_agent_system_met.Libs.{Float64, Opt}
use elastic_agent_system_met.Cpu.Types.{
  Cpu, no_cpu, CpuInfo, no_info, CpuMetrics, no_metrics, Metrics,
}
use elastic_agent_system_met.Cpu.Info.{get_cpu_metrics}

module _ (f : Float64) (o : Opt f) where
  pub record Monitor : Type 0 where
    pub last_sample : CpuMetrics f o
    pub hostfs : Resolver

  -- `New`
  unfoldable pub new : Resolver → Monitor
  new hostfs = record { last_sample = no_metrics f o; hostfs = hostfs }

  -- The metrics of all CPUs together, with the sample that the monitor keeps next.
  unfoldable pub totals_of : Monitor → CpuMetrics f o → Metrics f o
  totals_of m sample = record {
    previous_sample = m.last_sample.totals;
    current_sample = sample.totals;
    count = length sample.list;
    cpu_info = no_info f o;
    is_totals = true;
  }

  unfoldable pub or_no_cpu : Option (Cpu f o) → Cpu f o
  or_no_cpu none = no_cpu f o
  or_no_cpu (some cpu) = cpu

  -- `metric.CPUInfo[i]`, if there is any entry.
  unfoldable pub info_at : List (CpuInfo f o) → ℕ → Result (CpuInfo f o)
  info_at [] i = ok (no_info f o)
  info_at (c ∷ cs) i = index (get_elem? (c ∷ cs) i)

  unfoldable pub core_of : CpuMetrics f o → ℕ → Cpu f o → CpuInfo f o → Metrics f o
  core_of last i cur info = record {
    previous_sample = or_no_cpu (get_elem? last.list i);
    current_sample = cur;
    count = 0;
    cpu_info = info;
    is_totals = false;
  }

  -- The loop of `FetchCores`, from the CPU at index `i` on.
  unfoldable pub core_metrics :
      CpuMetrics f o → CpuMetrics f o → ℕ → List (Cpu f o) → Result (List (Metrics f o))
  core_metrics last metric i [] = ok []
  core_metrics last metric i (cur ∷ curs) = do
    info ← info_at metric.cpu_info i
    rest ← core_metrics last metric (suc i) curs
    ok (core_of last i cur info ∷ rest)

  -- Keeps the sample if the call returns metrics.
  unfoldable pub keep : {A : Type 0} → Monitor → CpuMetrics f o → Result A → Result A × Monitor
  keep m sample (ok a) = (ok a, record m { last_sample = sample })
  keep m sample (err e) = (err e, m)
  keep m sample panic = (panic, m)

  unfoldable pub fetch_with :
      {A : Type 0}
      → Monitor
      → (CpuMetrics f o → Result A)
      → Result (CpuMetrics f o)
      → Result A × Monitor
  fetch_with m use_sample (ok sample) = keep m sample (use_sample sample)
  fetch_with m use_sample (err e) = (err e, m)
  fetch_with m use_sample panic = (panic, m)

  module _ (multi_err : List Error → Option Error) where
    unfoldable pub sampled : Files → Monitor → Result (CpuMetrics f o)
    sampled fs m = wrap_err "error fetching Cpu metrics" (get_cpu_metrics f o multi_err fs m.hostfs)

    unfoldable pub fetch : Files → Monitor → Result (Metrics f o) × Monitor
    fetch fs m = fetch_with m (λ sample. ok (totals_of m sample)) (sampled fs m)

    unfoldable pub fetch_cores : Files → Monitor → Result (List (Metrics f o)) × Monitor
    fetch_cores fs m =
        fetch_with m (λ sample. core_metrics m.last_sample sample 0 sample.list) (sampled fs m)

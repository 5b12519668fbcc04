-- ===== src/Load.antt =====
-- metric/system/cpu/cpu.go: load averages. The sample comes from `sigar.LoadAverage`.
use elastic_agent_system_met.Base.{Result, ok, ◌>>=◌}
use elastic_agent_system_met.Base.Int.{ℤ}
use elastic_agent_system_met.Libs.{Float64}
use elastic_agent_system_met.Round.{round}

module _ (f : Float64) where
  -- `sigar.LoadAverage`
  pub record LoadMetrics : Type 0 where
    pub one : f.Float
    pub five : f.Float
    pub fifteen : f.Float

  pub record LoadAverages : Type 0 where
    pub one_minute : f.Float
    pub five_minute : f.Float
    pub fifteen_minute : f.Float

  -- `Load`, with what `load.Get()` gives.
  unfoldable pub load : Result LoadMetrics → Result LoadMetrics
  load sample = do metrics ← sample; ok metrics

  unfoldable pub averages : LoadMetrics → LoadAverages
  averages m = record {
    one_minute = round f m.one;
    five_minute = round f m.five;
    fifteen_minute = round f m.fifteen;
  }

  -- `cpus` is `numcpu.NumCPU()`.
  unfoldable pub normalized_averages : ℤ → LoadMetrics → LoadAverages
  normalized_averages cpus m = record {
    one_minute = round f (f.div m.one (f.of_int cpus));
    five_minute = round f (f.div m.five (f.of_int cpus));
    fifteen_minute = round f (f.div m.fifteen (f.of_int cpus));
  }

-- ===== src/Cpu/Types.antt =====
-- The data of metrics.go.
use elastic_agent_system_met.Base.{ℕ, Bool, List, [], ◌∷◌, Bytes}
use elastic_agent_system_met.Base.Int.{ℤ, pos}
use elastic_agent_system_met.Libs.{Float64, Opt}

pub record MetricOpts : Type 0 where
  pub ticks : Bool
  pub percentages : Bool
  pub normalized_percentages : Bool

module _ (f : Float64) (o : Opt f) where
  open o use {Uint, uint_none, sum_opt_uint}

  pub record Cpu : Type 0 where
    pub user : Uint
    pub sys : Uint
    pub idle : Uint
    pub nice : Uint
    pub irq : Uint
    pub wait : Uint
    pub soft_irq : Uint
    pub stolen : Uint

  -- `CPU{}`
  abbrev pub no_cpu : Cpu
  no_cpu = record {
    user = uint_none;
    sys = uint_none;
    idle = uint_none;
    nice = uint_none;
    irq = uint_none;
    wait = uint_none;
    soft_irq = uint_none;
    stolen = uint_none;
  }

  pub record CpuInfo : Type 0 where
    pub model_name : Bytes
    pub model_number : Bytes
    pub mhz : f.Float
    pub physical_id : ℤ
    pub core_id : ℤ

  -- `CPUInfo{}`
  abbrev pub no_info : CpuInfo
  no_info = record {
    model_name = [];
    model_number = [];
    mhz = f.of_uint 0;
    physical_id = pos 0;
    core_id = pos 0;
  }

  pub record CpuMetrics : Type 0 where
    pub totals : Cpu
    pub list : List Cpu
    pub cpu_info : List CpuInfo

  abbrev pub no_metrics : CpuMetrics
  no_metrics = record { totals = no_cpu; list = []; cpu_info = [] }

  unfoldable pub total : Cpu → ℕ
  total cpu = sum_opt_uint (
      cpu.user ∷ cpu.nice ∷ cpu.sys ∷ cpu.idle ∷ cpu.wait ∷ cpu.irq ∷ cpu.soft_irq ∷ cpu.stolen
      ∷ [])

  pub record Metrics : Type 0 where
    pub previous_sample : Cpu
    pub current_sample : Cpu
    pub count : ℕ
    pub cpu_info : CpuInfo
    pub is_totals : Bool

  -- `CPUCount`
  unfoldable pub cpu_count : Metrics → ℕ
  cpu_count metric = metric.count

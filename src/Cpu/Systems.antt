-- ===== src/Cpu/Systems.antt =====
-- metrics_darwin.go, metrics_freebsd.go, metrics_openbsd.go, metrics_aix.go and metrics_windows.go.
-- What the calls of the systems return is a parameter.
use elastic_agent_system_met.Base.{
  ℕ, suc, zero, ◌/◌, List, [], ◌∷◌, ◌++◌, Bytes, get_elem?, Option, Error, message, Result, ok, err,
  index, ◌>>=◌, wrap_err,
}
use elastic_agent_system_met.Base.Int.{mul64}
use elastic_agent_system_met.Go.Strings.{fields}
use elastic_agent_system_met.Go.Numbers.{parse_uint}
use elastic_agent_system_met.Libs.{Float64, Opt}
use elastic_agent_system_met.Libs.Calls.{Calls, more, final, failed}
use elastic_agent_system_met.Cpu.Types.{Cpu, no_cpu, CpuMetrics, no_metrics}
use elastic_agent_system_met.Cpu.Stat.{problem, with_fault, try_parse_uint, stat_scanner}

-- The times of a CPU on AIX, in ticks.
pub record PerfstatCpu : Type 0 where
  pub user : ℕ
  pub sys : ℕ
  pub idle : ℕ
  pub wait : ℕ

-- The durations of GetSystemTimes and of the CPUs, in nanoseconds.
pub record SystemTimes : Type 0 where
  pub idle : ℕ
  pub kernel : ℕ
  pub user : ℕ

-- The array of `CPUSTATES` times that OpenBSD fills: user, nice, system, interrupts, idle.
pub record CpuStates : Type 0 where
  pub user : ℕ
  pub nice : ℕ
  pub sys : ℕ
  pub intr : ℕ
  pub idle : ℕ

-- `tick2msec`, where the ticks of a second are not 0.
unfoldable pub tick2msec : ℕ → ℕ → ℕ
tick2msec ticks val = mul64 val 1000 / ticks

module _ (f : Float64) (o : Opt f) where
  open o use {uint_with}

  abbrev metrics : Cpu f o → List (Cpu f o) → CpuMetrics f o
  metrics totals list = record (no_metrics f o) { totals = totals; list = list }

  -- The totals of AIX: the user time is not converted.
  unfoldable pub get_cpu_totals : ℕ → PerfstatCpu → Cpu f o
  get_cpu_totals ticks cpudata = record (no_cpu f o) {
    user = uint_with cpudata.user;
    sys = uint_with (tick2msec ticks cpudata.sys);
    idle = uint_with (tick2msec ticks cpudata.idle);
    wait = uint_with (tick2msec ticks cpudata.wait);
  }

  unfoldable pub per_cpu_aix : ℕ → PerfstatCpu → Cpu f o
  per_cpu_aix ticks cpudata = record (no_cpu f o) {
    user = uint_with (tick2msec ticks cpudata.user);
    sys = uint_with (tick2msec ticks cpudata.sys);
    idle = uint_with (tick2msec ticks cpudata.idle);
    wait = uint_with (tick2msec ticks cpudata.wait);
  }

  -- The loop over the calls of `perfstat_cpu`, the last of which leaves an empty name.
  unfoldable pub per_cpu_loop : ℕ → Calls PerfstatCpu → Result (List (Cpu f o))
  per_cpu_loop ticks (more cpudata calls) = do
    list ← per_cpu_loop ticks calls
    ok (per_cpu_aix ticks cpudata ∷ list)
  per_cpu_loop ticks (final cpudata) = ok (per_cpu_aix ticks cpudata ∷ [])
  per_cpu_loop ticks (failed e) = err (message "perfstat_cpu")

  -- `Get` of AIX; `capacity` is the call that counts the CPUs.
  unfoldable pub get_aix_cpu :
      ℕ → Result PerfstatCpu → Result ℕ → Calls PerfstatCpu → Result (CpuMetrics f o)
  get_aix_cpu ticks cpu_total capacity calls = do
    cpudata ← wrap_err "error getting CPU totals" cpu_total
    n ← wrap_err "error getting per-cpu metrics" capacity
    list ← wrap_err "error getting per-cpu metrics" (per_cpu_loop ticks calls)
    ok (metrics (get_cpu_totals ticks cpudata) list)

  unfoldable pub windows_cpu : SystemTimes → Cpu f o
  windows_cpu times = record (no_cpu f o) {
    idle = uint_with (times.idle / 1000000);
    sys = uint_with (times.kernel / 1000000);
    user = uint_with (times.user / 1000000);
  }

  unfoldable pub windows_cpus : List SystemTimes → List (Cpu f o)
  windows_cpus [] = []
  windows_cpus (times ∷ cpus) = windows_cpu times ∷ windows_cpus cpus

  -- `Get` of Windows.
  unfoldable pub get_windows_cpu :
      Result SystemTimes → Result (List SystemTimes) → Result (CpuMetrics f o)
  get_windows_cpu system_times processors = do
    times ← wrap_err "call to GetSystemTimes failed" system_times
    cpus ← wrap_err "catll to NtQuerySystemProcessorPerformanceInformation failed" processors
    ok (metrics (windows_cpu times) (windows_cpus cpus))

  unfoldable pub openbsd_cpu : CpuStates → Cpu f o
  openbsd_cpu load = record (no_cpu f o) {
    user = uint_with load.user;
    nice = uint_with load.nice;
    sys = uint_with load.sys;
    irq = uint_with load.intr;
    idle = uint_with load.idle;
  }

  -- The loop of OpenBSD: each CPU is filled from the times of the host.
  unfoldable pub openbsd_cpus : ℕ → CpuStates → List (Cpu f o)
  openbsd_cpus zero load_global = []
  openbsd_cpus (suc ncpu) load_global = openbsd_cpu load_global ∷ openbsd_cpus ncpu load_global

  -- `Get` of OpenBSD, on the times of the host and the count of its CPUs.
  unfoldable pub get_openbsd_cpu : Result CpuStates → Result ℕ → Result (CpuMetrics f o)
  get_openbsd_cpu cptime ncpu = do
    load_global ← cptime
    n ← ncpu
    ok (metrics (openbsd_cpu load_global) (openbsd_cpus n load_global))

  module _ (multi_err : List Error → Option Error) where
    -- The four counters of a line of FreeBSD.
    unfoldable pub freebsd_counters : Bytes → Bytes → Bytes → Bytes → Result (Cpu f o)
    freebsd_counters user nice sys idle =
        with_fault
          (record (no_cpu f o) {
            user = try_parse_uint f o multi_err (parse_uint user);
            nice = try_parse_uint f o multi_err (parse_uint nice);
            sys = try_parse_uint f o multi_err (parse_uint sys);
            idle = try_parse_uint f o multi_err (parse_uint idle);
          })
          (multi_err (
            problem (parse_uint user)
            ++ (problem (parse_uint nice)
                ++ (problem (parse_uint sys) ++ problem (parse_uint idle)))))

    unfoldable pub parse_line_freebsd : Bytes → Result (Cpu f o)
    parse_line_freebsd line = do
      user ← index (get_elem? (fields line) 1)
      nice ← index (get_elem? (fields line) 2)
      sys ← index (get_elem? (fields line) 3)
      idle ← index (get_elem? (fields line) 4)
      freebsd_counters user nice sys idle

    -- `scanStatFile` of FreeBSD.
    unfoldable pub scan_stat_freebsd : List Bytes → Result (CpuMetrics f o)
    scan_stat_freebsd lines =
        wrap_err "error scanning stat file"
          (stat_scanner f o multi_err parse_line_freebsd (no_metrics f o) lines)

  -- `cpu.TimesStat` of github.com/shirou/gopsutil, as far as it is read.
  pub record TimesStat : Type 0 where
    pub system : f.Float
    pub user : f.Float
    pub idle : f.Float
    pub nice : f.Float

  module _ (to_uint : f.Float → ℕ) where
    -- `fillCPU`; `to_uint` is the conversion of a float64 to uint64.
    unfoldable pub fill_cpu : TimesStat → Cpu f o
    fill_cpu raw = record (no_cpu f o) {
      sys = uint_with (to_uint raw.system);
      user = uint_with (to_uint raw.user);
      idle = uint_with (to_uint raw.idle);
      nice = uint_with (to_uint raw.nice);
    }

    unfoldable pub fill_cpus : List TimesStat → List (Cpu f o)
    fill_cpus [] = []
    fill_cpus (raw ∷ raws) = fill_cpu raw ∷ fill_cpus raws

    -- `Get` of Darwin, on `cpu.Times(false)` and `cpu.Times(true)`.
    unfoldable pub get_darwin_cpu :
        Result (List TimesStat) → Result (List TimesStat) → Result (CpuMetrics f o)
    get_darwin_cpu times per_cpu = do
      sum ← wrap_err "error fetching CPU summary data" times
      cpus ← wrap_err "error fetching per-CPU data" per_cpu
      first ← index (get_elem? sum 0)
      ok (metrics (fill_cpu first) (fill_cpus cpus))

-- ===== src/Cpu/Format.antt =====
-- metrics.go: the event that is reported for a pair of samples.
use elastic_agent_system_met.Base.{
  ℕ, Bool, true, false, not, ◌&&◌, if◌then◌else◌, Bytes, codes, nat_eq, message, Result, ok, err,
  is_empty,
}
use elastic_agent_system_met.Base.Int.{pos, int_eq, sub64, signed64}
use elastic_agent_system_met.Libs.{Float64, Opt}
use elastic_agent_system_met.Libs.Mapstr.{
  Value, uint, int, float, text, object, M, empty, set_value, Mapstr,
}
use elastic_agent_system_met.Round.{round}
use elastic_agent_system_met.Cpu.Types.{MetricOpts, Cpu, total, CpuInfo, Metrics}

module _ (f : Float64) (o : Opt f) (ms : Mapstr f) where
  open f use {Float, of_uint, of_int, add, sub, mul, div}
  open o use {Uint, is_zero, value_or}

  unfoldable pub cpu_metric_time_delta : Uint → Uint → ℕ → ℕ → Float
  cpu_metric_time_delta prev current time_delta num_cpu =
      let cpu_delta = signed64 (sub64 (value_or current 0) (value_or prev 0)) in
      let pct = div (of_int cpu_delta) (of_uint time_delta) in round f (mul pct (of_uint num_cpu))

  unfoldable pub create_total : Cpu f o → Cpu f o → ℕ → ℕ → Float
  create_total prev cur time_delta num_cpu =
      let idle_time = cpu_metric_time_delta prev.idle cur.idle time_delta num_cpu in
      let all_idle =
        if is_zero cur.wait
        then idle_time
        else add idle_time (cpu_metric_time_delta prev.wait cur.wait time_delta num_cpu) in
      round f (sub (of_uint num_cpu) all_idle)

  -- `if on { m.Put(key, value) }`
  abbrev pub put_if : Bool → Bytes → Value f → M f → M f
  put_if true key value m = ms.put m key value
  put_if false key value m = m

  unfoldable pub fill_metric : MetricOpts → Uint → Uint → ℕ → ℕ → M f
  fill_metric opts cur prev time_delta num_cpu =
      let e1 = put_if opts.ticks (codes "ticks") (uint (value_or cur 0)) empty in
      let e2 =
        put_if opts.percentages (codes "pct")
          (float (cpu_metric_time_delta prev cur time_delta num_cpu)) e1 in
      put_if opts.normalized_percentages (codes "norm.pct")
        (float (cpu_metric_time_delta prev cur time_delta 1)) e2

  -- `reportOptMetric`
  unfoldable pub report_opt_metric : MetricOpts → ℕ → ℕ → Bytes → Uint → Uint → M f → M f
  report_opt_metric opts time_delta norm name current previous m =
      if is_zero current
      then m
      else set_value f name (object (fill_metric opts current previous time_delta norm)) m

  -- `metric.cpuInfo != (CPUInfo{})`
  unfoldable pub has_info : CpuInfo f o → Bool
  has_info info = not (
      is_empty info.model_name
      && (is_empty info.model_number
          && (f.eq info.mhz (of_uint 0)
              && (int_eq info.physical_id (pos 0) && int_eq info.core_id (pos 0)))))

  unfoldable pub add_info : Metrics f o → M f → M f
  unfolding has_info
  add_info metric m =
      if not metric.is_totals && has_info metric.cpu_info
      then (set_value f (codes "physical_id") (int metric.cpu_info.physical_id) (
          set_value f (codes "core_id") (int metric.cpu_info.core_id) (
            set_value f (codes "mhz") (float metric.cpu_info.mhz) (
              set_value f (codes "model_name") (text metric.cpu_info.model_name)
                (set_value f (codes "model_number") (text metric.cpu_info.model_number) m)))))
      else m

  unfoldable pub add_totals : MetricOpts → Metrics f o → ℕ → ℕ → M f → M f
  add_totals opts metric time_delta norm m =
      let prev = metric.previous_sample in
      let cur = metric.current_sample in
      let m1 =
        put_if opts.percentages (codes "total.pct") (float (create_total prev cur time_delta norm))
          m in
      put_if opts.normalized_percentages (codes "total.norm.pct")
        (float (create_total prev cur time_delta 1)) m1

  unfoldable pub add_counters : MetricOpts → Metrics f o → ℕ → ℕ → M f → M f
  add_counters opts metric time_delta norm m =
      let prev = metric.previous_sample in
      let cur = metric.current_sample in
      let report = report_opt_metric opts time_delta norm in
      report (codes "steal") cur.stolen prev.stolen (
        report (codes "softirq") cur.soft_irq prev.soft_irq (
          report (codes "iowait") cur.wait prev.wait (
            report (codes "irq") cur.irq prev.irq (
              report (codes "nice") cur.nice prev.nice (
                report (codes "idle") cur.idle prev.idle (
                  report (codes "system") cur.sys prev.sys
                    (report (codes "user") cur.user prev.user m)))))))

  abbrev pub norm_cpu : Metrics f o → ℕ
  norm_cpu metric = if metric.is_totals then metric.count else 1

  abbrev pub time_delta_of : Metrics f o → ℕ
  time_delta_of metric = sub64 (total f o metric.current_sample) (total f o metric.previous_sample)

  -- `Format`: `timeDelta <= 0` on a uint64.
  unfoldable pub format : MetricOpts → Metrics f o → Result (M f)
  format opts metric =
      let time_delta = time_delta_of metric in
      let norm = norm_cpu metric in
      if nat_eq time_delta 0
      then err (message "previous sample is newer than current sample")
      else ok (
          add_info metric (
            add_counters opts metric time_delta norm
              (add_totals opts metric time_delta norm empty)))

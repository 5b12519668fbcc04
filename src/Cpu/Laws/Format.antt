-- ===== src/Cpu/Laws/Format.antt =====
-- When `Format` refuses a pair of samples, and what it reports.
use elastic_agent_system_met.Base.{
  ℕ, ◌<◌, Bool, true, false, not, ◌∷◌, ◌≡◌, refl, ◌∙◌, ◌↔◌, Bytes, codes, arith, ◌++◌, ◌&&◌, none,
  some, ok, err, message, Error, if◌then◌else◌, ◌==◌, bytes_comparable, Bool-cases, inl, inr,
  bytes_eq, All, nat_eq,
}
use elastic_agent_system_met.Base.Int.{u64_mod}
use elastic_agent_system_met.Libs.{Float64, Opt, OptLaws}
use elastic_agent_system_met.Libs.Mapstr.{
  Value, object, M, empty, get_value, get_value-set_value, Mapstr, MapstrLaws,
}
use elastic_agent_system_met.Cpu.Types.{MetricOpts, Cpu, total, Metrics}
use elastic_agent_system_met.Cpu.Format.{
  fill_metric, report_opt_metric, has_info, add_info, add_totals, add_counters, put_if, format,
  time_delta_of, norm_cpu,
}

module _ (f : Float64) (o : Opt f) (laws : OptLaws o) where
  total-lt : (c : Cpu f o) → total f o c < u64_mod
  unfolding total
  total-lt c = rw laws.sum-cons (omega arith)

  module _ (ms : Mapstr f) where
    -- `Format` returns its error exactly when both samples have the same total: a sample that is
    -- older than the previous one is not refused.
    pub format-err_iff :
        (opts : MetricOpts) (metric : Metrics f o)
        → ((e : Error) × (format f o ms opts metric ≡ err e))
          ↔ (total f o metric.current_sample ≡ total f o metric.previous_sample)
    unfolding format
    format-err_iff opts metric =
        let a = total-lt metric.current_sample in
        let b = total-lt metric.previous_sample in
        (
          λ (e, h). ground arith,
          λ h. (message "previous sample is newer than current sample", ground arith),
        )

-- The eight counters, with the names under which they are reported.
pub data Counter : Type 0 where
  user system idle nice irq iowait softirq steal : Counter

abbrev pub counter_name : Counter → Bytes
counter_name user = codes "user"
counter_name system = codes "system"
counter_name idle = codes "idle"
counter_name nice = codes "nice"
counter_name irq = codes "irq"
counter_name iowait = codes "iowait"
counter_name softirq = codes "softirq"
counter_name steal = codes "steal"

counter_name-Free : (c : Counter) → All (λ b. nat_eq b b'.' ≡ false) (counter_name c)
counter_name-Free user = (refl, (refl, (refl, (refl, tt))))
counter_name-Free system = (refl, (refl, (refl, (refl, (refl, (refl, tt))))))
counter_name-Free idle = (refl, (refl, (refl, (refl, tt))))
counter_name-Free nice = (refl, (refl, (refl, (refl, tt))))
counter_name-Free irq = (refl, (refl, (refl, tt)))
counter_name-Free iowait = (refl, (refl, (refl, (refl, (refl, (refl, tt))))))
counter_name-Free softirq = (refl, (refl, (refl, (refl, (refl, (refl, (refl, tt)))))))
counter_name-Free steal = (refl, (refl, (refl, (refl, (refl, tt)))))

module _ (f : Float64) (o : Opt f) where
  abbrev pub counter_of : Counter → Cpu f o → o.Uint
  counter_of user cpu = cpu.user
  counter_of system cpu = cpu.sys
  counter_of idle cpu = cpu.idle
  counter_of nice cpu = cpu.nice
  counter_of irq cpu = cpu.irq
  counter_of iowait cpu = cpu.wait
  counter_of softirq cpu = cpu.soft_irq
  counter_of steal cpu = cpu.stolen

  module _ (ms : Mapstr f) where
    -- The key `j` of an event after one call of `reportOptMetric`.
    get-report :
        (opts : MetricOpts) (d n : ℕ) (name j : Bytes) (cur prev : o.Uint) (m : M f)
        → get_value f j (report_opt_metric f o ms opts d n name cur prev m) ≡ (
            if name == j
            then (if o.is_zero cur
                then get_value f j m
                else some (object (fill_metric f o ms opts cur prev d n)))
            else get_value f j m)
    unfolding report_opt_metric
    get-report opts d n name j cur prev m =
        ground
          (arith, get_value-set_value f name j (object (fill_metric f o ms opts cur prev d n)) m)

    get-add_counters :
        (c : Counter) (opts : MetricOpts) (metric : Metrics f o) (d n : ℕ) (m : M f)
        → get_value f (counter_name c) (add_counters f o ms opts metric d n m) ≡ (
            if o.is_zero (counter_of c metric.current_sample)
            then get_value f (counter_name c) m
            else some (
                object (
                  fill_metric f o ms opts
                    (counter_of c metric.current_sample)
                    (counter_of c metric.previous_sample)
                    d
                    n)))
    unfolding add_counters bytes_eq
    get-add_counters user opts metric d n m = simp get-report
    get-add_counters _ opts metric d n m = simp get-report

    get-add_info :
        (c : Counter) (metric : Metrics f o) (m : M f)
        → get_value f (counter_name c) (add_info f o ms metric m) ≡ get_value f (counter_name c) m
    unfolding add_info bytes_eq
    get-add_info user metric m =
        elim (Bool-cases (not metric.is_totals && has_info f o ms metric.cpu_info)) [
          | inl has ↦ rw has (simp (get_value-set_value f))
          | inr has_not ↦ rw has_not
        ]
    get-add_info _ metric m =
        elim (Bool-cases (not metric.is_totals && has_info f o ms metric.cpu_info)) [
          | inl has ↦ rw has (simp (get_value-set_value f))
          | inr has_not ↦ rw has_not
        ]

    module _ (put_laws : MapstrLaws f ms) where
      not_total : (c : Counter) → (codes "total" == counter_name c) ≡ false
      unfolding bytes_eq
      not_total user = refl
      not_total _ = refl

      get-put_total :
          (on : Bool) (c : Counter) (rest : Bytes) (v : Value f) (m : M f)
          → get_value f (counter_name c) (put_if f o ms on (codes "total" ++ (b'.' ∷ rest)) v m)
            ≡ get_value f (counter_name c) m
      get-put_total true c rest v m =
          put_laws.put_dotted m (codes "total") rest (counter_name c) v
            (refl, (refl, (refl, (refl, (refl, tt))))) (counter_name-Free c) (not_total c)
      get-put_total false c rest v m = refl

      get-add_totals :
          (c : Counter) (opts : MetricOpts) (metric : Metrics f o) (d n : ℕ) (m : M f)
          → get_value f (counter_name c) (add_totals f o ms opts metric d n m)
            ≡ get_value f (counter_name c) m
      unfolding add_totals
      get-add_totals c opts metric d n m =
          get-put_total opts.normalized_percentages c (codes "norm.pct") _ _
          ∙ get-put_total opts.percentages c (codes "pct") _ m

      -- The event of a pair of samples that is not refused.
      event : MetricOpts → Metrics f o → M f
      event opts metric =
          let d = time_delta_of f o ms metric in
          let n = norm_cpu f o ms metric in
          add_info f o ms metric
            (add_counters f o ms opts metric d n (add_totals f o ms opts metric d n empty))

      format-event :
          (opts : MetricOpts) (metric : Metrics f o) (m : M f)
          → format f o ms opts metric ≡ ok m
          → event opts metric ≡ m
      unfolding format event
      format-event opts metric m h = ground arith

      get-event :
          (opts : MetricOpts) (metric : Metrics f o) (c : Counter)
          → get_value f (counter_name c) (event opts metric) ≡ (
              if o.is_zero (counter_of c metric.current_sample)
              then none
              else some (
                  object (
                    fill_metric f o ms opts
                      (counter_of c metric.current_sample)
                      (counter_of c metric.previous_sample)
                      (time_delta_of f o ms metric)
                      (norm_cpu f o ms metric))))
      unfolding event get_value
      get-event opts metric c =
          let d = time_delta_of f o ms metric in
          let n = norm_cpu f o ms metric in
          get-add_info c metric _
          ∙ get-add_counters c opts metric d n (add_totals f o ms opts metric d n empty)
          ∙ rw (get-add_totals c opts metric d n empty)

      -- If `Format` returns an event, the event holds under the name of each counter that the
      -- current sample has what `fillMetric` makes of that counter in both samples, and no entry
      -- for a counter that the current sample lacks.
      pub format-counter :
          (opts : MetricOpts) (metric : Metrics f o) (m : M f) (c : Counter)
          → format f o ms opts metric ≡ ok m
          → get_value f (counter_name c) m ≡ (
              if o.is_zero (counter_of c metric.current_sample)
              then none
              else some (
                  object (
                    fill_metric f o ms opts
                      (counter_of c metric.current_sample)
                      (counter_of c metric.previous_sample)
                      (time_delta_of f o ms metric)
                      (norm_cpu f o ms metric))))
      format-counter opts metric m c h =
          rw (← format-event opts metric m h) (get-event opts metric c)

-- ===== src/Cpu/Laws/Cores.antt =====
-- `FetchCores` reports each CPU beside its own last sample.
use elastic_agent_system_met.Base.{
  ℕ, zero, suc, ◌+◌, ◌≤◌, ◌<◌, false, List, [], ◌∷◌, ◌≡◌, refl, ◌≢◌, ◌⊎◌, inl, inr, arith, Option,
  none, some, ok, panic, Error, length, get_elem?,
}
use native.Mathlib.Decide.{dec_lt}
use elastic_agent_system_met.Go.Files.{Files}
use elastic_agent_system_met.Libs.{Float64, Opt}
use elastic_agent_system_met.Cpu.Types.{Cpu, CpuInfo, no_info, CpuMetrics, Metrics}
use elastic_agent_system_met.Cpu.Sampling.{
  or_no_cpu, info_at, core_of, core_metrics, sampled, fetch_cores, fetch_with, keep, Monitor,
}

module _ (f : Float64) (o : Opt f) where
  -- The entries of /proc/cpuinfo reach as far as index `n`, or there are none at all.
  abbrev pub Covers : List (CpuInfo f o) → ℕ → Type 0
  Covers infos n = (infos ≡ []) ⊎ (n ≤ length infos)

  get_elem?-lt :
      {A : Type 0} (xs : List A) (i : ℕ) → i < length xs → (a : A) × (get_elem? xs i ≡ some a)
  get_elem?-lt [] i h = elim h [ ]
  get_elem?-lt (x ∷ xs) zero h = (x, refl)
  get_elem?-lt (x ∷ xs) (suc i) h = get_elem?-lt xs i (omega arith)

  get_elem?-ge : {A : Type 0} (xs : List A) (i : ℕ) → length xs ≤ i → get_elem? xs i ≡ none
  get_elem?-ge [] i h = refl
  get_elem?-ge (x ∷ xs) zero h = elim h [ ]
  get_elem?-ge (x ∷ xs) (suc i) h = get_elem?-ge xs i (omega arith)

  info_at-Covers :
      (infos : List (CpuInfo f o)) (i n : ℕ)
      → Covers infos n
      → i < n
      → (c : CpuInfo f o) × (info_at f o infos i ≡ ok c)
  unfolding info_at
  info_at-Covers [] i n h l = (no_info f o, refl)
  info_at-Covers (c ∷ cs) i n (inl e) l = absurd (cc e)
  info_at-Covers (c ∷ cs) i n (inr h) l =
      let (d, found) = get_elem?-lt (c ∷ cs) i (omega arith) in (d, rw found)

  Covers-suc :
      (infos : List (CpuInfo f o)) (i n : ℕ) → Covers infos (i + suc n) → Covers infos (suc i + n)
  Covers-suc infos i n (inl e) = inl e
  Covers-suc infos i n (inr h) = inr (omega arith)

  Covers-zero : (infos : List (CpuInfo f o)) (n : ℕ) → Covers infos n → Covers infos (0 + n)
  Covers-zero infos n (inl e) = inl e
  Covers-zero infos n (inr h) = inr (omega arith)

  info_at-end :
      (infos : List (CpuInfo f o)) (i : ℕ)
      → infos ≢ []
      → length infos ≤ i
      → info_at f o infos i ≡ panic
  unfolding info_at
  info_at-end [] i n h = absurd (n refl)
  info_at-end (c ∷ cs) i n h = rw (get_elem?-ge (c ∷ cs) i h)

  module _ (last metric : CpuMetrics f o) where
    -- The metrics `r` are those of the CPU at index `i`, whose sample is `cur`.
    pub record IsCore (i : ℕ) (cur : Cpu f o) (r : Metrics f o) : Type 0 where
      pub current : r.current_sample ≡ cur
      pub previous : r.previous_sample ≡ or_no_cpu f o (get_elem? last.list i)
      pub info : info_at f o metric.cpu_info i ≡ ok r.cpu_info
      pub by_core : r.is_totals ≡ false

    abbrev pub AreCores : ℕ → List (Cpu f o) → List (Metrics f o) → Type 0
    AreCores i [] [] = Unit
    AreCores i (cur ∷ curs) (r ∷ rs) = IsCore i cur r × AreCores (suc i) curs rs
    AreCores i [] (r ∷ rs) = ⊥
    AreCores i (cur ∷ curs) [] = ⊥

    -- With an entry of /proc/cpuinfo for each CPU, or none at all, every CPU is reported in order,
    -- each beside the sample that the monitor kept for it.
    pub core_metrics-AreCores :
        (i : ℕ) (curs : List (Cpu f o))
        → Covers metric.cpu_info (i + length curs)
        → (rs : List (Metrics f o)) × (core_metrics f o last metric i curs ≡ ok rs)
          × AreCores i curs rs
    unfolding core_metrics core_of
    core_metrics-AreCores i [] h = ([], refl, tt)
    core_metrics-AreCores i (cur ∷ curs) h =
        let (c, found) =
          info_at-Covers metric.cpu_info i (i + length (cur ∷ curs)) h (omega arith) in
        let (rs, later, cores) =
          core_metrics-AreCores (suc i) curs (Covers-suc metric.cpu_info i (length curs) h) in
        (
          core_of f o last i cur c ∷ rs,
          rw (found, later),
          (record { current = refl; previous = refl; info = found; by_core = refl }, cores),
        )

    core_metrics-panic :
        (i : ℕ) (curs : List (Cpu f o))
        → metric.cpu_info ≢ []
        → length metric.cpu_info < i + length curs
        → i ≤ length metric.cpu_info
        → core_metrics f o last metric i curs ≡ panic
    unfolding core_metrics
    core_metrics-panic i [] n h l = absurd (omega arith)
    core_metrics-panic i (cur ∷ curs) n h l = elim (dec_lt i (length metric.cpu_info)) [
      | yes inside ↦
          let (c, found) =
            info_at-Covers metric.cpu_info i (length metric.cpu_info) (inr (omega arith)) inside in
          rw (found, core_metrics-panic (suc i) curs n (omega arith) (omega arith))
      | no outside ↦ rw (info_at-end metric.cpu_info i n (omega arith))
    ]

  module _ (multi_err : List Error → Option Error) (fs : Files) (m : Monitor f o)
      (metric : CpuMetrics f o) (taken : sampled f o multi_err fs m ≡ ok metric) where
    -- With an entry of /proc/cpuinfo for each CPU of /proc/stat, or none at all, `FetchCores` reports
    -- every CPU in order, each beside the sample that the monitor kept for it, and keeps the new one.
    pub fetch_cores-AreCores :
        Covers metric.cpu_info (length metric.list)
        → (rs : List (Metrics f o)) × (fetch_cores f o multi_err fs m
            ≡ (ok rs, record m { last_sample = metric }))
          × AreCores m.last_sample metric 0 metric.list rs
    unfolding fetch_cores fetch_with keep
    fetch_cores-AreCores h =
        let (rs, made, cores) =
          core_metrics-AreCores m.last_sample metric 0 metric.list
            (Covers-zero metric.cpu_info (length metric.list) h) in
        (rs, rw (taken, made), cores)

    -- If the call of `FetchCores` takes a sample with fewer entries of /proc/cpuinfo than CPUs of
    -- /proc/stat, but at least one, it panics.
    pub fetch_cores-panic :
        metric.cpu_info ≢ []
        → length metric.cpu_info < length metric.list
        → (fetch_cores f o multi_err fs m).0 ≡ panic
    unfolding fetch_cores fetch_with keep
    fetch_cores-panic n h =
        rw (
          taken,
          core_metrics-panic m.last_sample metric 0 metric.list n (omega arith) (omega arith),
        )

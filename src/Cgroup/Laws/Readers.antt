-- ===== src/Cgroup/Laws/Readers.antt =====
-- The loop over the V1 controllers of a process: each controller has its own part of the
-- statistics, so the order of the controllers does not matter.
use mathlib.Core.Path.{fun_ext}
use mathlib.Core.HLevel.{¬_prop}
use mathlib.Core.List.{Permᴰ, Pairwise}
use elastic_agent_system_met.Base.{
  String, [], ◌∷◌, if◌then◌else◌, ◌≡◌, ◌≢◌, refl, sym, ◌∙◌, ap, subst, Bytes, codes, ◌==◌,
  bytes_comparable, bytes_eq_iff, Bool-cases, inl, inr, some, Result, ok, err, panic, ◌>>=◌,
  wrap_err,
}
use elastic_agent_system_met.Base.Returns.{Returns}
use elastic_agent_system_met.Go.Maps.Ranges.{loop, loop-Permᴰ, bind-ok}
use elastic_agent_system_met.Go.Files.{Files}
use elastic_agent_system_met.Libs.{Float64, Opt}
use elastic_agent_system_met.Cgroup.Paths.{Reader, Controllers, ControllerPath}
use elastic_agent_system_met.Cgroup.Version.{base}
use elastic_agent_system_met.Cgroup.V1.{
  CpuSubsystem, CpuAccountingSubsystem, get_cpu_v1, get_cpuacct,
}
use elastic_agent_system_met.Cgroup.Blkio.{BlockIoSubsystem, get_blkio}
use elastic_agent_system_met.Cgroup.MemoryV1
use elastic_agent_system_met.Cgroup.MemoryV1.{get_memory_v1}
use elastic_agent_system_met.Cgroup.Stats.{
  CgroupHost, is_ignored, zero_cpu, no_blkio, no_memory_v1, StatsV1, no_cpuacct, get_stats_v1,
  each_v1,
}

module _ (f : Float64) (o : Opt f) where
  -- What a controller sets.
  data Part : Type 0 where
    blkio_part : BlockIoSubsystem → Part
    cpu_part : CpuSubsystem → Part
    cpuacct_part : CpuAccountingSubsystem f o → Part
    memory_part : MemoryV1.MemorySubsystem → Part
    no_part : Part

  abbrev set_part : Part → StatsV1 f o → StatsV1 f o
  set_part (blkio_part b) stats = record stats { block_io = some b }
  set_part (cpu_part c) stats = record stats { cpu = some c }
  set_part (cpuacct_part a) stats = record stats { cpu_accounting = some a }
  set_part (memory_part m) stats = record stats { memory = some m }
  set_part no_part stats = stats

  abbrev IsOf : Bytes → Part → Type 0
  IsOf name (blkio_part b) = name ≡ codes "blkio"
  IsOf name (cpu_part c) = name ≡ codes "cpu"
  IsOf name (cpuacct_part a) = name ≡ codes "cpuacct"
  IsOf name (memory_part m) = name ≡ codes "memory"
  IsOf name no_part = Unit

  set_part_comm :
      (n m : Bytes) (p q : Part)
      → IsOf n p
      → IsOf m q
      → n ≢ m
      → (stats : StatsV1 f o) → set_part q (set_part p stats) ≡ set_part p (set_part q stats)
  set_part_comm n m (blkio_part x) (blkio_part y) h k d stats = absurd (d (h ∙ sym k))
  set_part_comm n m (blkio_part x) (cpu_part y) h k d stats = refl
  set_part_comm n m (blkio_part x) (cpuacct_part y) h k d stats = refl
  set_part_comm n m (blkio_part x) (memory_part y) h k d stats = refl
  set_part_comm n m (cpu_part x) (blkio_part y) h k d stats = refl
  set_part_comm n m (cpu_part x) (cpu_part y) h k d stats = absurd (d (h ∙ sym k))
  set_part_comm n m (cpu_part x) (cpuacct_part y) h k d stats = refl
  set_part_comm n m (cpu_part x) (memory_part y) h k d stats = refl
  set_part_comm n m (cpuacct_part x) (blkio_part y) h k d stats = refl
  set_part_comm n m (cpuacct_part x) (cpu_part y) h k d stats = refl
  set_part_comm n m (cpuacct_part x) (cpuacct_part y) h k d stats = absurd (d (h ∙ sym k))
  set_part_comm n m (cpuacct_part x) (memory_part y) h k d stats = refl
  set_part_comm n m (memory_part x) (blkio_part y) h k d stats = refl
  set_part_comm n m (memory_part x) (cpu_part y) h k d stats = refl
  set_part_comm n m (memory_part x) (cpuacct_part y) h k d stats = refl
  set_part_comm n m (memory_part x) (memory_part y) h k d stats = absurd (d (h ∙ sym k))
  set_part_comm n m no_part q h k d stats = refl
  set_part_comm n m p no_part h k d stats = refl

  module _ (h : CgroupHost f) (files : Files) (r : Reader) where
    -- A step of the loop.
    unfoldable step : Bytes × ControllerPath → StatsV1 f o → Result (StatsV1 f o)
    step (name, path) stats =
        if is_ignored r path
        then ok stats
        else wrap_err "error fetching stats for controller"
            (get_stats_v1 f o h files path name stats)

    -- What a step reads, whatever was read before.
    unfoldable reading : Bytes × ControllerPath → Result Part
    reading (name, path) =
        if is_ignored r path
        then ok no_part
        else wrap_err "error fetching stats for controller" (
            if name == codes "blkio"
            then (do
              blkio ←
                  wrap_err "error fetching BlockIO stats"
                    (get_blkio h.device_order files path.full_path no_blkio)
              ok (
                  blkio_part
                    (record blkio { id = base path.controller_path; path = path.controller_path })))
            else if name == codes "cpu"
            then (do
              cpu ← wrap_err "error fetching cpu stats" (get_cpu_v1 files path.full_path zero_cpu)
              ok (
                  cpu_part
                    (record cpu { id = base path.controller_path; path = path.controller_path })))
            else if name == codes "cpuacct"
            then (do
              acct ←
                  wrap_err "error fetching cpuacct stats"
                    (get_cpuacct f o h.clock_ticks files path.full_path (no_cpuacct f o))
              ok (
                  cpuacct_part
                    (record acct { id = base path.controller_path; path = path.controller_path })))
            else if name == codes "memory"
            then (do
              memory ←
                  wrap_err "error fetching memory stats"
                    (get_memory_v1 files path.full_path no_memory_v1)
              ok (
                  memory_part (record memory {
                    id = base path.controller_path;
                    path = path.controller_path;
                  })))
            else ok no_part)

    branch :
        {X : Type 0} (s s' : String) (r' : Result X) (g : X → Part) (stats : StatsV1 f o)
        → wrap_err s (do x ← wrap_err s' r'; ok (set_part (g x) stats))
          ≡ (do p ← wrap_err s (do x ← wrap_err s' r'; ok (g x)); ok (set_part p stats))
    branch s s' (ok x) g stats = refl
    branch s s' (err e) g stats = refl
    branch s s' panic g stats = refl

    step-reading :
        (c : Bytes × ControllerPath) (stats : StatsV1 f o)
        → step c stats ≡ (do p ← reading c; ok (set_part p stats))
    unfolding step reading get_stats_v1
    step-reading (name, path) stats = elim (Bool-cases (is_ignored r path)) [
      | inl e ↦ rw e refl
      | inr e ↦ elim (Bool-cases (name == codes "blkio")) [
        | inl e1 ↦ rw (e, e1) (branch _ _ _ _ stats)
        | inr e1 ↦ elim (Bool-cases (name == codes "cpu")) [
          | inl e2 ↦ rw (e, e1, e2) (branch _ _ _ _ stats)
          | inr e2 ↦ elim (Bool-cases (name == codes "cpuacct")) [
            | inl e3 ↦ rw (e, e1, e2, e3) (branch _ _ _ _ stats)
            | inr e3 ↦ elim (Bool-cases (name == codes "memory")) [
              | inl e4 ↦ rw (e, e1, e2, e3, e4) (branch _ _ _ _ stats)
              | inr e4 ↦ rw (e, e1, e2, e3, e4) refl
            ]
          ]
        ]
      ]
    ]

    part-IsOf :
        {X : Type 0} (name : Bytes) (s s' : String) (r' : Result X) (g : X → Part)
        → ((x : X) → IsOf name (g x))
        → Returns (λ p. IsOf name p) (wrap_err s (do x ← wrap_err s' r'; ok (g x)))
    part-IsOf name s s' (ok x) g k = k x
    part-IsOf name s s' (err e) g k = tt
    part-IsOf name s s' panic g k = tt

    reading-IsOf : (c : Bytes × ControllerPath) → Returns (λ p. IsOf (c.0) p) (reading c)
    unfolding reading
    reading-IsOf (name, path) = elim (Bool-cases (is_ignored r path)) [
      | inl e ↦ rw e tt
      | inr e ↦ elim (Bool-cases (name == codes "blkio")) [
        | inl e1 ↦
            rw (e, e1)
              (part-IsOf name "error fetching stats for controller" "error fetching BlockIO stats"
                (get_blkio h.device_order files path.full_path no_blkio)
                (λ x.
                  blkio_part
                    (record x { id = base path.controller_path; path = path.controller_path }))
                (λ x. (bytes_eq_iff name (codes "blkio")).0 e1))
        | inr e1 ↦ elim (Bool-cases (name == codes "cpu")) [
          | inl e2 ↦
              rw (e, e1, e2)
                (part-IsOf name "error fetching stats for controller" "error fetching cpu stats"
                  (get_cpu_v1 files path.full_path zero_cpu)
                  (λ x.
                    cpu_part
                      (record x { id = base path.controller_path; path = path.controller_path }))
                  (λ x. (bytes_eq_iff name (codes "cpu")).0 e2))
          | inr e2 ↦ elim (Bool-cases (name == codes "cpuacct")) [
            | inl e3 ↦
                rw (e, e1, e2, e3)
                  (part-IsOf name "error fetching stats for controller"
                    "error fetching cpuacct stats"
                    (get_cpuacct f o h.clock_ticks files path.full_path (no_cpuacct f o))
                    (λ x.
                      cpuacct_part
                        (record x { id = base path.controller_path; path = path.controller_path }))
                    (λ x. (bytes_eq_iff name (codes "cpuacct")).0 e3))
            | inr e3 ↦ elim (Bool-cases (name == codes "memory")) [
              | inl e4 ↦
                  rw (e, e1, e2, e3, e4)
                    (part-IsOf name "error fetching stats for controller"
                      "error fetching memory stats"
                      (get_memory_v1 files path.full_path no_memory_v1)
                      (λ x.
                        memory_part (record x {
                          id = base path.controller_path;
                          path = path.controller_path;
                        }))
                      (λ x. (bytes_eq_iff name (codes "memory")).0 e4))
              | inr e4 ↦ rw (e, e1, e2, e3, e4) tt
            ]
          ]
        ]
      ]
    ]

    steps_commute :
        (a b : Bytes × ControllerPath)
        → a.0 ≢ b.0
        → (s t : StatsV1 f o) → (step a s >>= step b) ≡ ok t
        → (step b s >>= step a) ≡ ok t
    steps_commute a b d s t e =
        let (m, e1, e2) = bind-ok (step a s) (step b) e in
        let (p, e3, e4) =
          bind-ok (reading a) (λ p. ok (set_part p s)) (sym (step-reading a s) ∙ e1) in
        let (q, e5, e6) =
          bind-ok (reading b) (λ q. ok (set_part q m)) (sym (step-reading b m) ∙ e2) in
        let of_p = subst (λ x. Returns (λ p. IsOf (a.0) p) x) e3 (reading-IsOf a) in
        let of_q = subst (λ x. Returns (λ p. IsOf (b.0) p) x) e5 (reading-IsOf b) in
        let first : step b s ≡ ok (set_part q s) = step-reading b s ∙ rw e5 refl in
        let second : step a (set_part q s) ≡ ok (set_part p (set_part q s)) =
          step-reading a (set_part q s) ∙ rw e3 refl in
        rw first (
          second
          ∙ ap ok (set_part_comm (b.0) (a.0) q p of_q of_p (λ g. d (sym g)) s)
          ∙ ap (λ x. x >>= (λ u. ok (set_part q u))) e4
          ∙ e6)

    each_v1-loop :
        (controllers : Controllers) (stats : StatsV1 f o)
        → each_v1 f o h files r controllers stats ≡ loop step controllers stats
    unfolding each_v1 loop step
    each_v1-loop [] stats = refl
    each_v1-loop ((name, path) ∷ controllers) stats =
        ap (λ g. step (name, path) stats >>= g) (fun_ext (λ next. each_v1-loop controllers next))

    -- The statistics do not depend on the order in which Go ranges over the map of the controllers,
    -- whose names are distinct: what one order returns without an error, any other returns too.
    pub each_v1-Permᴰ :
        {controllers others : Controllers}
        → Permᴰ controllers others
        → Pairwise (λ a b. a.0 ≢ b.0) controllers
        → (start stats : StatsV1 f o) → each_v1 f o h files r controllers start ≡ ok stats
        → each_v1 f o h files r others start ≡ ok stats
    each_v1-Permᴰ {controllers} {others} d p start stats e =
        each_v1-loop others start
        ∙ loop-Permᴰ step (λ a b. a.0 ≢ b.0) (λ a b. ¬_prop) (λ a b k g. k (sym g)) steps_commute d
            p start stats (sym (each_v1-loop controllers start) ∙ e)

-- ===== src/Cpu/Info.antt =====
-- metrics_procfs_common.go: reading /proc/cpuinfo, and `Get` over both files.
use elastic_agent_system_met.Base.{
  List, [], ◌∷◌, ◌++◌, if◌then◌else◌, Bytes, codes, Error, syntax, Option, Result, ok, err, ◌>>=◌,
  wrap_err, ◌==◌, bytes_comparable,
}
use elastic_agent_system_met.Go.Strings.{split, trim_space}
use elastic_agent_system_met.Go.Numbers.{atoi}
use elastic_agent_system_met.Go.Files.{Files, read_file, scan}
use elastic_agent_system_met.Resolve.{Resolver}
use elastic_agent_system_met.Libs.{Float64, Opt}
use elastic_agent_system_met.Cpu.Types.{CpuInfo, no_info, CpuMetrics}
use elastic_agent_system_met.Cpu.Stat.{scan_stat_file}

module _ (f : Float64) (o : Opt f) where
  -- `strconv.ParseFloat(v, 64)`
  abbrev parse_float : Bytes → Result f.Float
  parse_float v = if f.is_number v then ok (f.parse v) else err syntax

  -- The `switch` on the key.
  unfoldable pub set_field : CpuInfo f o → Bytes → Bytes → Result (CpuInfo f o)
  set_field current k v =
      if k == codes "model"
      then ok (record current { model_number = v })
      else if k == codes "model name"
      then ok (record current { model_name = v })
      else if k == codes "physical id"
      then (do
        id ← wrap_err "parsing physical ID" (atoi v)
        ok (record current { physical_id = id }))
      else if k == codes "core id"
      then (do id ← wrap_err "parsing core ID" (atoi v); ok (record current { core_id = id }))
      else if k == codes "cpu MHz"
      then (do mhz ← wrap_err "parsing Cpu Mhz" (parse_float v); ok (record current { mhz = mhz }))
      else ok current

  -- The state of the loop: the CPUs that are complete, and the one that is being read.
  pub record InfoScan : Type 0 where
    pub infos : List (CpuInfo f o)
    pub current : CpuInfo f o

  -- One line, cut at its colons.
  unfoldable pub info_parts : InfoScan → List Bytes → Result InfoScan
  info_parts s (k ∷ v ∷ []) = do
    next ← set_field s.current (trim_space k) (trim_space v)
    ok (record s { current = next })
  info_parts s _ = ok (record { infos = s.infos ++ (s.current ∷ []); current = no_info f o })

  unfoldable pub info_lines : InfoScan → List Bytes → Result (List (CpuInfo f o))
  info_lines s [] = ok s.infos
  info_lines s (line ∷ lines) = do next ← info_parts s (split b':' line); info_lines next lines

  unfoldable pub cpuinfo_scanner : List Bytes → Result (List (CpuInfo f o))
  cpuinfo_scanner lines = info_lines (record { infos = []; current = no_info f o }) lines

  -- `Get`
  unfoldable pub get_cpu_metrics :
      (List Error → Option Error) → Files → Resolver → Result (CpuMetrics f o)
  get_cpu_metrics multi_err fs procfs = do
    stat ←
        wrap_err "error opening file" (read_file fs (procfs.resolve_host_fs (codes "/proc/stat")))
    metrics ← wrap_err "scanning stat file" (scan_stat_file f o multi_err (scan stat).lines)
    info ← wrap_err "opening" (read_file fs (procfs.resolve_host_fs (codes "/proc/cpuinfo")))
    cpu_info ← cpuinfo_scanner (scan info).lines
    ok (record metrics { cpu_info = cpu_info })

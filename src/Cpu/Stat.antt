-- ===== src/Cpu/Stat.antt =====
-- metrics_linux.go and metrics_procfs_common.go: reading /proc/stat. `multi_err` is `Errs.Err()` of
-- github.com/joeshaw/multierror.
use elastic_agent_system_met.Base.{
  ℕ, Bool, false, not, ◌&&◌, List, [], ◌∷◌, ◌++◌, if◌then◌else◌, Bytes, codes, length, get_elem?,
  ltb, nat_eq, Option, none, some, Error, message, Result, ok, err, index, ◌>>=◌, wrap_err,
}
use elastic_agent_system_met.Go.Strings.{fields, has_prefix}
use elastic_agent_system_met.Go.Numbers.{parse_uint}
use elastic_agent_system_met.Libs.{Float64, Opt}
use elastic_agent_system_met.Cpu.Types.{Cpu, CpuMetrics, no_metrics}

unfoldable pub is_cpu_global_line : Bytes → Bool
unfolding has_prefix
is_cpu_global_line line = ltb 4 (length line) && has_prefix (codes "cpu ") line

unfoldable pub not_space : Option ℕ → Bool
not_space none = false
not_space (some c) = not (nat_eq c b' ')

unfoldable pub is_cpu_line : Bytes → Bool
unfolding has_prefix not_space
is_cpu_line line =
    ltb 3 (length line) && (has_prefix (codes "cpu") line && not_space (get_elem? line 3))

-- The error that `tryParseUint` appends.
unfoldable pub problem : ℕ × Option Error → List Error
problem (u, none) = []
problem (u, some e) = message "failed to parse" ∷ []

-- `errs.Err()` beside the value.
unfoldable pub with_fault {ℓ} : {A : Type ℓ} → A → Option Error → Result A
with_fault a none = ok a
with_fault a (some e) = err e

module _ (f : Float64) (o : Opt f) (multi_err : List Error → Option Error) where
  open o use {Uint, uint_with, uint_none}

  unfoldable pub try_parse_uint : ℕ × Option Error → Uint
  try_parse_uint (u, none) = uint_with u
  try_parse_uint (u, some e) = uint_none

  -- The eight counters, and then the errors of all of them.
  unfoldable pub read_counters :
      Bytes → Bytes → Bytes → Bytes → Bytes → Bytes → Bytes → Bytes → Result (Cpu f o)
  unfolding try_parse_uint problem with_fault
  read_counters user nice sys idle wait irq soft_irq stolen =
      let errs =
        problem (parse_uint user)
        ++ (problem (parse_uint nice)
            ++ (problem (parse_uint sys)
                ++ (problem (parse_uint idle)
                    ++ (problem (parse_uint wait)
                        ++ (problem (parse_uint irq)
                            ++ (problem (parse_uint soft_irq)
                                ++ problem (parse_uint stolen))))))) in
      with_fault
        (record {
          user = try_parse_uint (parse_uint user);
          sys = try_parse_uint (parse_uint sys);
          idle = try_parse_uint (parse_uint idle);
          nice = try_parse_uint (parse_uint nice);
          irq = try_parse_uint (parse_uint irq);
          wait = try_parse_uint (parse_uint wait);
          soft_irq = try_parse_uint (parse_uint soft_irq);
          stolen = try_parse_uint (parse_uint stolen);
        })
        (multi_err errs)

  -- A line of fewer than nine fields is indexed out of range.
  unfoldable pub read_fields : List Bytes → Result (Cpu f o)
  read_fields parts = do
    user ← index (get_elem? parts 1)
    nice ← index (get_elem? parts 2)
    sys ← index (get_elem? parts 3)
    idle ← index (get_elem? parts 4)
    wait ← index (get_elem? parts 5)
    irq ← index (get_elem? parts 6)
    soft_irq ← index (get_elem? parts 7)
    stolen ← index (get_elem? parts 8)
    read_counters user nice sys idle wait irq soft_irq stolen

  unfoldable pub parse_cpu_line : Bytes → Result (Cpu f o)
  parse_cpu_line line = read_fields (fields line)

  -- One round of the loop of `statScanner`: the global line, and then the line of one Cpu.
  unfoldable pub scan_global :
      (Bytes → Result (Cpu f o)) → CpuMetrics f o → Bytes → Result (CpuMetrics f o)
  scan_global line_reader data' text =
      if is_cpu_global_line text
      then (do
        totals ← wrap_err "error parsing global Cpu line" (line_reader text)
        ok (record data' { totals = totals }))
      else ok data'

  unfoldable pub scan_cpu :
      (Bytes → Result (Cpu f o)) → CpuMetrics f o → Bytes → Result (CpuMetrics f o)
  scan_cpu line_reader data' text =
      if is_cpu_line text
      then (do
        per_cpu ← wrap_err "error parsing Cpu line" (line_reader text)
        ok (record data' { list = data'.list ++ (per_cpu ∷ []) }))
      else ok data'

  unfoldable pub stat_scanner :
      (Bytes → Result (Cpu f o)) → CpuMetrics f o → List Bytes → Result (CpuMetrics f o)
  stat_scanner line_reader cpu_data [] = ok cpu_data
  stat_scanner line_reader cpu_data (text ∷ texts) = do
    d1 ← scan_global line_reader cpu_data text
    d2 ← scan_cpu line_reader d1 text
    stat_scanner line_reader d2 texts

  unfoldable pub scan_stat_file : List Bytes → Result (CpuMetrics f o)
  scan_stat_file lines =
      wrap_err "error scanning stat file" (stat_scanner parse_cpu_line (no_metrics f o) lines)

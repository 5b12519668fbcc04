-- ===== src/Cpu/Laws/Stat/File.antt =====
-- The whole of /proc/stat is read back.
use elastic_agent_system_met.Base.{
  ℕ, true, false, List, [], ◌∷◌, ◌++◌, ◌≡◌, refl, ◌∙◌, Bytes, codes, All, arith, Option, none, ok,
  Error, map,
}
use mathlib.Core.List.{append-nil, append_assoc}
use elastic_agent_system_met.Go.Strings.{is_digit, has_prefix}
use elastic_agent_system_met.Go.Strings.Words.{spaced, IsWord, AllWord-of_AllDigits}
use elastic_agent_system_met.Libs.{Float64, Opt}
use elastic_agent_system_met.Cpu.Types.{Cpu, CpuMetrics, no_metrics, no_cpu}
use elastic_agent_system_met.Cpu.Stat.{
  is_cpu_global_line, is_cpu_line, parse_cpu_line, scan_global, scan_cpu, stat_scanner,
  scan_stat_file,
}
use elastic_agent_system_met.Cpu.Laws.Stat.{Counters, words_of, sample_of, parse_cpu_line-sample}

-- A line of the file: the counters of all CPUs, those of one CPU by its number, or another line.
pub data Line : Type 0 where
  global : Counters → Line
  core : (first : ℕ) (more : Bytes) → Counters → Line
  other : Bytes → Line

-- The kernel writes two spaces behind "cpu", and one behind "cpu0".
abbrev pub print_line : Line → Bytes
print_line (global c) = codes "cpu" ++ (codes " " ++ spaced (words_of c))
print_line (core d ds c) = (codes "cpu" ++ (d ∷ ds)) ++ ([] ++ spaced (words_of c))
print_line (other s) = s

abbrev pub IsLine : Line → Type 0
IsLine (global c) = Unit
IsLine (core d ds c) = All (λ x. is_digit x ≡ true) (d ∷ ds)
IsLine (other s) = has_prefix (codes "cpu") s ≡ false

global-is_global : (c : Counters) → is_cpu_global_line (print_line (global c)) ≡ true
unfolding is_cpu_global_line
global-is_global c = ground arith

global-not_core : (c : Counters) → is_cpu_line (print_line (global c)) ≡ false
unfolding is_cpu_line
global-not_core c = ground arith

core-not_global :
    (d : ℕ) (ds : Bytes) (c : Counters)
    → is_digit d ≡ true
    → is_cpu_global_line (print_line (core d ds c)) ≡ false
unfolding is_cpu_global_line
core-not_global d ds c h = ground arith

core-is_core :
    (d : ℕ) (ds : Bytes) (c : Counters)
    → is_digit d ≡ true
    → is_cpu_line (print_line (core d ds c)) ≡ true
unfolding is_cpu_line
core-is_core d ds c h = ground arith

other-not_core : (s : Bytes) → has_prefix (codes "cpu") s ≡ false → is_cpu_line s ≡ false
unfolding is_cpu_line
other-not_core s h = ground arith

other-not_global : (s : Bytes) → has_prefix (codes "cpu") s ≡ false → is_cpu_global_line s ≡ false
unfolding is_cpu_global_line
other-not_global [] h = refl
other-not_global (a ∷ []) h = ground arith
other-not_global (a ∷ b ∷ []) h = ground arith
other-not_global (a ∷ b ∷ c ∷ rest) h = ground arith

cpu-IsWord : IsWord (codes "cpu")
cpu-IsWord = (cc, (refl, (refl, (refl, tt))))

core-IsWord : (ds : Bytes) → All (λ x. is_digit x ≡ true) ds → IsWord (codes "cpu" ++ ds)
core-IsWord ds h = (cc, (refl, (refl, (refl, AllWord-of_AllDigits ds h))))

module _ (f : Float64) (o : Opt f) (multi_err : List Error → Option Error)
    (no_errors : multi_err [] ≡ none) where
  -- The totals are those of the last line of all CPUs, or what was there before.
  abbrev pub totals_after : Cpu f o → List Line → Cpu f o
  totals_after before [] = before
  totals_after before (global c ∷ ls) = totals_after (sample_of f o multi_err no_errors c) ls
  totals_after before (core d ds c ∷ ls) = totals_after before ls
  totals_after before (other s ∷ ls) = totals_after before ls

  -- The samples of the single CPUs, in order.
  abbrev pub cores_of : List Line → List (Cpu f o)
  cores_of [] = []
  cores_of (global c ∷ ls) = cores_of ls
  cores_of (core d ds c ∷ ls) = sample_of f o multi_err no_errors c ∷ cores_of ls
  cores_of (other s ∷ ls) = cores_of ls

  scanned : CpuMetrics f o → List Line → CpuMetrics f o
  scanned m ls = record m { totals = totals_after m.totals ls; list = m.list ++ cores_of ls }

  stat_scanner-lines :
      (ls : List Line) (m : CpuMetrics f o)
      → All IsLine ls
      → stat_scanner f o multi_err (parse_cpu_line f o multi_err) m (map print_line ls)
        ≡ ok (scanned m ls)
  unfolding stat_scanner scan_global scan_cpu scanned
  stat_scanner-lines [] m h = rw append-nil
  stat_scanner-lines (global c ∷ ls) m (_, h) =
      rw
        (
          global-is_global c,
          global-not_core c,
          parse_cpu_line-sample f o multi_err no_errors (codes "cpu") (codes " ") c cpu-IsWord
              (refl, tt),
        )
        (stat_scanner-lines ls (record m { totals = sample_of f o multi_err no_errors c }) h)
  stat_scanner-lines (core d ds c ∷ ls) m (digits, h) =
      rw
        (
          core-not_global d ds c digits.0,
          core-is_core d ds c digits.0,
          parse_cpu_line-sample f o multi_err no_errors (codes "cpu" ++ (d ∷ ds)) [] c
              (core-IsWord (d ∷ ds) digits) tt,
        )
        (stat_scanner-lines ls
            (record m { list = m.list ++ (sample_of f o multi_err no_errors c ∷ []) }) h
          ∙ rw append_assoc)
  stat_scanner-lines (other s ∷ ls) m (plain, h) =
      rw (other-not_global s plain, other-not_core s plain) (stat_scanner-lines ls m h)

  -- A stat file is read back: its lines are those of all CPUs and of single CPUs, each with eight
  -- decimal counters below 2 ^ 64 and any further words, and lines that do not begin with "cpu",
  -- in any order. The sample has the totals of the last line of all CPUs and the samples of the
  -- single CPUs in the order of their lines. An empty list of errors has to be no error.
  pub scan_stat_file-lines :
      (ls : List Line)
      → All IsLine ls
      → scan_stat_file f o multi_err (map print_line ls)
        ≡ ok (record { totals = totals_after (no_cpu f o) ls; list = cores_of ls; cpu_info = [] })
  unfolding scan_stat_file scanned
  scan_stat_file-lines ls h = rw (stat_scanner-lines ls (no_metrics f o) h)

-- ===== src/Tests/Cpu.antt =====
-- /proc/stat and the monitor.
use elastic_agent_system_met.Base.{
  ℕ, ◌<◌, ◌^◌, List, [], ◌∷◌, ◌≡◌, ◌↔◌, refl, Bytes, codes, arith, true, false, ok, err, panic,
  some, bytes_eq, map, Error, length, if◌then◌else◌, bytes_comparable, inl, not_exist, Option, none,
  false, ◌==◌, ◌∙◌,
}
use elastic_agent_system_met.Go.Strings.{split, fields, trim_space, has_prefix}
use elastic_agent_system_met.Go.Strings.Laws.{split_of_Free, split-append}
use elastic_agent_system_met.Go.Numbers.{parse_uint, atoi, parse_int, signed}
use elastic_agent_system_met.Go.Numbers.Decimal.{Decimal}
use elastic_agent_system_met.Go.Files.{Files, scan, content, failed}
use elastic_agent_system_met.Libs.Mapstr.{
  Value, object, M, empty, get_value, set_value, get_value-set_value, Mapstr, MapstrLaws,
}
use elastic_agent_system_met.Cpu.{
  Cpu, no_cpu, CpuMetrics, MetricOpts, Metrics, total, parse_cpu_line, read_fields, read_counters,
  problem, with_fault, try_parse_uint, scan_stat_file, stat_scanner, scan_global, scan_cpu,
  is_cpu_global_line, is_cpu_line, not_space, get_cpu_metrics, cpuinfo_scanner, info_lines,
  info_parts, set_field, Monitor, new, fetch, fetch_cores, fetch_with, keep, sampled, totals_of,
  core_metrics, core_of, info_at, or_no_cpu, format, add_info, add_counters, add_totals, no_info,
  fill_metric,
}
use elastic_agent_system_met.Cpu.Laws.Stat.{Numeral, Counters, parse_cpu_line-panic_iff}
use elastic_agent_system_met.Cpu.Laws.Stat.File.{
  Line, global, core, other, print_line, scan_stat_file-lines, totals_after, cores_of,
}
use elastic_agent_system_met.Cpu.Laws.Format.{user, format-err_iff, format-counter}
use elastic_agent_system_met.Cpu.Laws.Monitor.{latest, after, attempts, fetch-after}
use elastic_agent_system_met.Cpu.Laws.Cores.{AreCores, fetch_cores-AreCores, fetch_cores-panic}
use elastic_agent_system_met.Tests.Fixtures.{floats, opts, opt_laws, root, first_error}

open_stat : Unit {0}
unfolding scan_stat_file stat_scanner scan_global scan_cpu is_cpu_global_line is_cpu_line not_space
    parse_cpu_line read_fields read_counters problem with_fault try_parse_uint fields parse_uint
    split trim_space scan has_prefix bytes_eq atoi parse_int signed set_field info_parts info_lines
    cpuinfo_scanner get_cpu_metrics
open_stat = tt

abbrev stat_text : Bytes
stat_text =
    codes "cpu  4 0 2 9 1 0 0 0 0 0\ncpu0 3 0 1 5 1 0 0 0 0 0\ncpu1 1 0 1 4 0 0 0 0 0 0\nintr 7\n"

abbrev sample : ℕ → ℕ → ℕ → ℕ → Cpu floats opts
sample u s i w = record {
  user = some u;
  sys = some s;
  idle = some i;
  nice = some 0;
  irq = some 0;
  wait = some w;
  soft_irq = some 0;
  stolen = some 0;
}

-- Two files: the counters, and what /proc/cpuinfo holds.
abbrev host : Bytes → Bytes → Files
host stat info p =
    if bytes_eq p (codes "/proc/stat")
    then content stat
    else if bytes_eq p (codes "/proc/cpuinfo")
    then content info
    else failed not_exist

abbrev metrics : CpuMetrics floats opts
metrics = record {
  totals = sample 4 2 9 1;
  list = sample 3 1 5 1 ∷ sample 1 1 4 0 ∷ [];
  cpu_info = [];
}

get_test : get_cpu_metrics floats opts first_error (host stat_text []) root ≡ ok metrics
unfolding open_stat
get_test = refl

abbrev digit : (c n : ℕ) → Decimal (c ∷ []) n → n < 2 ^ 64 → Numeral
digit c n d h = record { digits = c ∷ []; number = n; written = d; fits = h }

one_written : Decimal (codes "1") 1
one_written = record { ne_nil = cc; digits = (refl, tt); means = refl }

one_fits : 1 < 2 ^ 64
one_fits = omega arith

abbrev one : Numeral
one = digit b'1' 1 one_written one_fits

abbrev ones : Counters
ones = record {
  user = one;
  nice = one;
  system = one;
  idle = one;
  iowait = one;
  irq = one;
  softirq = one;
  steal = one;
  more = [];
  more_words = tt;
}

abbrev file : List Line
file = global ones ∷ core b'0' [] ones ∷ other (codes "intr 7") ∷ []

intr_plain : has_prefix (codes "cpu") (codes "intr 7") ≡ false
unfolding has_prefix
intr_plain = refl

scan_stat_file-lines_example :
    scan_stat_file floats opts first_error (map print_line file)
    ≡ ok (record {
      totals = totals_after floats opts first_error refl (no_cpu floats opts) file;
      list = cores_of floats opts first_error refl file;
      cpu_info = [];
    })
scan_stat_file-lines_example =
    scan_stat_file-lines floats opts first_error refl file (tt, ((refl, tt), (intr_plain, tt)))

parse_cpu_line-panic_iff_example :
    (parse_cpu_line floats opts first_error (codes "cpu 1 2") ≡ panic)
    ↔ (length (fields (codes "cpu 1 2")) < 9)
parse_cpu_line-panic_iff_example =
    parse_cpu_line-panic_iff floats opts first_error (codes "cpu 1 2")

open_monitor : Unit {0}
unfolding open_stat fetch fetch_cores fetch_with keep sampled totals_of core_metrics core_of info_at
    or_no_cpu new
open_monitor = tt

abbrev monitor : Monitor floats opts
monitor = record { last_sample = metrics; hostfs = root }

abbrev later : Files
later = host (codes "cpu  6 0 2 9 1 0 0 0\ncpu0 6 0 1 5 1 0 0 0\n") []

abbrev later_metrics : Metrics floats opts
later_metrics =
    (totals_of floats opts monitor
      (record { totals = sample 6 2 9 1; list = sample 6 1 5 1 ∷ []; cpu_info = [] }))

fetch_test :
    fetch floats opts first_error later
      (after floats opts first_error (host [] [] ∷ host stat_text [] ∷ []) monitor)
    ≡ (
      ok later_metrics,
      record {
        last_sample = record { totals = sample 6 2 9 1; list = sample 6 1 5 1 ∷ []; cpu_info = [] };
        hostfs = root;
      },
    )
unfolding open_monitor
fetch_test = refl

fetch-after_example :
    (later_metrics.previous_sample
      ≡ (latest floats opts metrics
          (attempts floats opts first_error (host [] [] ∷ host stat_text [] ∷ []) monitor)).totals)
    × (sample 6 2 9 1 ≡ later_metrics.current_sample)
fetch-after_example =
    fetch-after floats opts first_error (host [] [] ∷ host stat_text [] ∷ []) later monitor
      (record {
        last_sample = record { totals = sample 6 2 9 1; list = sample 6 1 5 1 ∷ []; cpu_info = [] };
        hostfs = root;
      })
      later_metrics fetch_test

taken : sampled floats opts first_error (host stat_text []) monitor ≡ ok metrics
unfolding open_monitor
taken = refl

fetch_cores-AreCores_example :
    (rs : List (Metrics floats opts)) × (fetch_cores floats opts first_error
        (host stat_text [])
        monitor
      ≡ (ok rs, record monitor { last_sample = metrics }))
    × AreCores floats opts metrics metrics 0 metrics.list rs
fetch_cores-AreCores_example =
    fetch_cores-AreCores floats opts first_error (host stat_text []) monitor metrics taken
      (inl refl)

-- One blank line in /proc/cpuinfo gives one entry for two CPUs.
abbrev short_metrics : CpuMetrics floats opts
short_metrics = record metrics { cpu_info = no_info floats opts ∷ [] }

taken_short :
    sampled floats opts first_error (host stat_text (codes "\n")) monitor ≡ ok short_metrics
unfolding open_monitor
taken_short = refl

fetch_cores-panic_example :
    (fetch_cores floats opts first_error (host stat_text (codes "\n")) monitor).0 ≡ panic
fetch_cores-panic_example =
    fetch_cores-panic floats opts first_error (host stat_text (codes "\n")) monitor short_metrics
      taken_short (cc) (omega arith)

-- A map whose `Put` walks down the parts of a key: a missing part is made, and nothing is put below
-- a value that is no map.
unfoldable put_below : Bytes → M floats → (M floats → M floats) → Option (Value floats) → M floats
put_below top m put none = set_value floats top (object (put empty)) m
put_below top m put (some (object below)) = set_value floats top (object (put below)) m
put_below top m put (some _) = m

unfoldable put_path : List Bytes → Value floats → M floats → M floats
unfolding put_below
put_path [] v m = m
put_path (k ∷ []) v m = set_value floats k v m
put_path (top ∷ k ∷ ks) v m = put_below top m (put_path (k ∷ ks) v) (get_value floats top m)

abbrev maps : Mapstr floats
maps = record { put = λ m k v. put_path (split b'.' k) v m }

put_below-other :
    (top j : Bytes) (m : M floats) (put : M floats → M floats) (below : Option (Value floats))
    → (top == j) ≡ false
    → get_value floats j (put_below top m put below) ≡ get_value floats j m
unfolding put_below
put_below-other top j m put none h = get_value-set_value floats top j (object (put empty)) m ∙ rw h
put_below-other top j m put (some (object below)) h =
    get_value-set_value floats top j (object (put below)) m ∙ rw h
put_below-other top j m put (some _) h = refl

put_path-other :
    (top : Bytes) (ks : List Bytes) (j : Bytes) (v : Value floats) (m : M floats)
    → (top == j) ≡ false
    → get_value floats j (put_path (top ∷ ks) v m) ≡ get_value floats j m
unfolding put_path
put_path-other top [] j v m h = get_value-set_value floats top j v m ∙ rw h
put_path-other top (k ∷ ks) j v m h =
    put_below-other top j m (put_path (k ∷ ks) v) (get_value floats top m) h

maps_laws : MapstrLaws floats maps
unfolding put_path
maps_laws = record {
  put_plain = λ m k v h. rw (split_of_Free b'.' k h) refl;
  put_dotted = λ m top rest j v free _ h.
      rw (split-append b'.' top rest free) (put_path-other top (split b'.' rest) j v m h);
}

abbrev all_opts : MetricOpts
all_opts = record { ticks = true; percentages = true; normalized_percentages = false }

-- The previous sample has the larger counters, and is not refused.
abbrev backwards : Metrics floats opts
backwards = record {
  previous_sample = sample 9 2 9 1;
  current_sample = sample 4 2 9 1;
  count = 2;
  cpu_info = no_info floats opts;
  is_totals = true;
}

format-err_iff_example :
    ((e : Error) × (format floats opts maps all_opts backwards ≡ err e))
    ↔ (total floats opts backwards.current_sample ≡ total floats opts backwards.previous_sample)
format-err_iff_example = format-err_iff floats opts opt_laws maps all_opts backwards

abbrev event : M floats
event = add_info floats opts maps later_metrics (
    add_counters floats opts maps all_opts later_metrics 2 1
      (add_totals floats opts maps all_opts later_metrics 2 1 empty))

event_made : format floats opts maps all_opts later_metrics ≡ ok event
unfolding format total totals_of
event_made = refl

format-counter_example :
    get_value floats (codes "user") event
    ≡ some (object (fill_metric floats opts maps all_opts (some 6) (some 4) 2 1))
unfolding total totals_of
format-counter_example =
    format-counter floats opts maps maps_laws all_opts later_metrics event user event_made

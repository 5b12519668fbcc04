-- ===== src/Tests/Process.antt =====
-- The process collector.
use elastic_agent_system_met.Base.{
  ℕ, true, false, Bool, List, [], ◌∷◌, ◌≡◌, ◌≢◌, ◌↔◌, refl, codes, Bytes, Option, some, none, ok,
  err, not_exist, bytes_eq, bytes_comparable, if◌then◌else◌, is_empty, arith,
}
use elastic_agent_system_met.Base.Int.{ℤ, pos, int_comparable}
use elastic_agent_system_met.Base.Returns.{Returns, NoPanic}
use elastic_agent_system_met.Libs.Ints.{OptInt, OptIntLaws}
use elastic_agent_system_met.Libs.Mapstr.{empty}
use elastic_agent_system_met.Go.Files.{Files, content, failed}
use elastic_agent_system_met.Go.Strings.{
  split, fields, fields_func, contains_byte, join, has_prefix,
}
use elastic_agent_system_met.Go.Strings.Laws.{Free, Free-of_contains_byte}
use elastic_agent_system_met.Go.Numbers.{parse_uint}
use elastic_agent_system_met.Go.Numbers.Decimal.{Decimal}
use elastic_agent_system_met.Process.Types.{Deps, ProcState, with_ids, sleeping}
use elastic_agent_system_met.Process.Info.{get_info_for_pid, info_of_stat, get_proc_state}
use elastic_agent_system_met.Process.Pid.{Host, get_linux_boot_time, boot_time_line}
use elastic_agent_system_met.Process.Top.{include_top_processes, is_process_in_slice, more_cpu}
use elastic_agent_system_met.Process.Stats.{Options, Calls, State, pid_fill}
use elastic_agent_system_met.Process.Fetch.{fetch_pids}
use elastic_agent_system_met.Process.Report.{get, get_one, get_self}
use elastic_agent_system_met.Process.Laws.Top.{Distinct, IsOrder}
use elastic_agent_system_met.Process.Laws.Top.Ranked.{IsTop, include_top_processes-IsTop}
use elastic_agent_system_met.Process.Laws.Comm.{stat_text, info_of_stat-text}
use elastic_agent_system_met.Process.Laws.Total.{Gives, get_info_for_pid-NoPanic, fetch_pids-Gives}
use elastic_agent_system_met.Process.Laws.Boot.{get_linux_boot_time-cached}
use elastic_agent_system_met.Process.Laws.Tracked.{
  AfterOne, AfterGet, get_one-AfterOne, get-AfterGet,
}
use elastic_agent_system_met.Process.Laws.Pids.Agree.{Agree, fetch_pids-Agree}
use elastic_agent_system_met.Tests.Fixtures.{floats, opts, or_else}
use elastic_agent_system_met.Tests.Sorting.{insertion_sort, insertion_sort-SortLaws}

open_process : Unit {0}
unfolding is_process_in_slice more_cpu get_linux_boot_time boot_time_line has_prefix split fields
    bytes_eq get_proc_state info_of_stat join parse_uint
open_process = tt

abbrev same_ids : Option ℤ → Option ℤ → Bool
same_ids none none = true
same_ids (some a) (some b) = int_comparable.same a b
same_ids _ _ = false

same_ids_iff : (a b : Option ℤ) → (same_ids a b ≡ true) ↔ (a ≡ b)
same_ids_iff none none = ground arith
same_ids_iff none (some b) = ground arith
same_ids_iff (some a) none = ground arith
same_ids_iff (some a) (some b) = ground (arith, int_comparable.same_iff a b)

abbrev ints : OptInt
ints = record {
  Int = Option ℤ;
  int_with = λ n. some n;
  int_none = none;
  value_or = λ u d. or_else u d;
  comparable = record { same = same_ids; same_iff = same_ids_iff };
}

abbrev int_laws : OptIntLaws ints
int_laws = record { value_or-int_with = λ n d. refl; value_or-int_none = λ d. refl }

abbrev deps : Deps
deps = record {
  f = floats;
  o = opts;
  i = ints;
  CgStats = Unit;
  no_stats = tt;
  fill_percentages = λ a b t u. a;
}

abbrev proc_files : Files
proc_files p =
    if bytes_eq p (codes "proc/stat") then content (codes "cpu 1\nbtime 77\n") else failed not_exist

abbrev host : Host
host = record {
  files = proc_files;
  read_link = λ p. err not_exist;
  read_dir = λ p. ok (codes "self" ∷ codes "7" ∷ []);
  user_name = λ u. none;
  time_text = λ t. [];
  hostfs = record { resolve_host_fs = λ p. p; is_set = false; join = λ ps. join (codes "/") ps };
}

abbrev calls : Calls deps
calls = record {
  host = host;
  now = λ pid. pos 0;
  cgroup_stats = λ pid. ok tt;
  network_counters = λ pid. none;
  cpus = ok (pos 1);
  total_phy_mem = 0;
  convert = λ p. ok empty;
  convert_root = λ p. empty;
}

abbrev options : Options
options = record {
  procs = codes ".*" ∷ [];
  cpu_ticks = true;
  cache_cmd_line = true;
  include_top = record { enabled = false; by_cpu = pos 0; by_memory = pos 0 };
  enable_cgroups = false;
  enable_network = false;
  network_metrics = [];
  skip_extended = true;
  proc_regexps = (λ s. true) ∷ [];
  env_regexps = [];
}

abbrev no_state_yet : State deps
no_state_yet = record { procs_map = record { pids = [] }; boot_time = 0 }

get_one-AfterOne_example :
    AfterOne deps no_state_yet
      (pos 7)
      (pid_fill deps options calls no_state_yet (pos 7) false).0
      (get_one deps options calls no_state_yet (pos 7)).1
    × AfterOne deps no_state_yet
        (pos 7)
        (pid_fill deps options calls no_state_yet (pos 7) false).0
        (get_self deps options calls no_state_yet (pos 7)).1
get_one-AfterOne_example = get_one-AfterOne deps options calls no_state_yet (pos 7)

get-AfterGet_example :
    (is_empty options.procs ≡ false
      → AfterGet deps no_state_yet
          (fetch_pids deps options calls no_state_yet).0
          (get deps (insertion_sort deps) options calls no_state_yet).1)
    × (is_empty options.procs ≡ true
        → (get deps (insertion_sort deps) options calls no_state_yet).1 ≡ no_state_yet)
get-AfterGet_example = get-AfterGet deps (insertion_sort deps) options calls no_state_yet

fetch_pids-Agree_example : Returns (Agree deps) (fetch_pids deps options calls no_state_yet).0
fetch_pids-Agree_example = fetch_pids-Agree deps int_laws options calls no_state_yet

boot_of_host : get_linux_boot_time host 0 ≡ (ok 77, 77)
unfolding open_process
boot_of_host = refl

abbrev btime : ℕ
btime = 77

btime_ne_zero : btime ≢ 0
btime_ne_zero h = omega arith

get_linux_boot_time-cached_example :
    get_linux_boot_time (record host { files = λ p. failed not_exist }) 77 ≡ (ok 77, 77)
get_linux_boot_time-cached_example =
    get_linux_boot_time-cached host (record host { files = λ p. failed not_exist }) 0 77 77
      boot_of_host btime_ne_zero

-- Two processes, whose ids are their figures.
abbrev proc : ℕ → ProcState deps
proc n = record (with_ids deps (codes "p") sleeping (some (pos n)) none none) {
  cpu = record {
    start_time = [];
    total = record { value = none; ticks = none; pct = some n; norm_pct = none };
    user_ticks = none;
    system_ticks = none;
  };
}

abbrev two_procs : List (ProcState deps)
two_procs = proc 1 ∷ proc 2 ∷ []

two_procs-Distinct : Distinct deps two_procs
unfolding open_process
two_procs-Distinct = (refl, (refl, tt))

more_cpu-IsOrder : IsOrder deps (more_cpu deps) two_procs
unfolding more_cpu
more_cpu-IsOrder = record {
  asymmetric = λ p q x y h. ground arith;
  negative = λ p q r x y z h k. ground arith;
}

include_top_processes-IsTop_example : IsTop deps 1 1 two_procs (
    include_top_processes deps
      (insertion_sort deps)
      (record { enabled = true; by_cpu = pos 1; by_memory = pos 1 })
      two_procs)
include_top_processes-IsTop_example =
    include_top_processes-IsTop deps (insertion_sort deps) (insertion_sort-SortLaws deps) 0 0
      two_procs two_procs-Distinct more_cpu-IsOrder

-- "12 (a b) S 1 2 0 ..." with a name that has a blank and a parenthesis.
abbrev zeros : List Bytes
zeros =
    let z = codes "0" in
    let four = λ (t : List Bytes). z ∷ z ∷ z ∷ z ∷ t in
    let twelve = λ (t : List Bytes). four (four (four t)) in twelve (twelve (twelve []))

abbrev stat_rest : Bytes
stat_rest = codes "S 1 2 0 0 0 0 0 0 0 0 0 0 0 0 0 0 0 0 0 0 0 0 0 0 0 0 0 0 0 0 0 0 0 0 0 0 0 0"

stat_rest-fields : fields stat_rest ≡ codes "S" ∷ codes "1" ∷ codes "2" ∷ zeros
unfolding open_process fields_func
stat_rest-fields = refl

Decimal-one : Decimal (codes "1") 1
Decimal-one = record { ne_nil = λ h. ground arith; digits = (refl, tt); means = refl }

Decimal-two : Decimal (codes "2") 2
Decimal-two = record { ne_nil = λ h. ground arith; digits = (refl, tt); means = refl }

no_parenthesis : contains_byte b')' stat_rest ≡ false
unfolding contains_byte
no_parenthesis = refl

stat_rest-Free : Free b')' stat_rest
stat_rest-Free = Free-of_contains_byte b')' stat_rest no_parenthesis

info_of_stat-text_example :
    info_of_stat deps (pos 12) (stat_text (codes "12 ") (codes "a) (b") stat_rest)
    ≡ ok (
        with_ids deps
          (codes "a) (b")
          (get_proc_state b'S')
          (some (pos 12))
          (some (pos 1))
          (some (pos 2)))
info_of_stat-text_example =
    info_of_stat-text deps (pos 12) (codes "12 ") (codes "a) (b") stat_rest b'S' [] (codes "1")
      (codes "2") zeros (refl, (refl, (refl, tt))) stat_rest-Free stat_rest-fields Decimal-one tt
      (omega arith) Decimal-two tt (omega arith) (omega arith)

get_info_for_pid-NoPanic_example : NoPanic (get_info_for_pid deps proc_files host.hostfs (pos 7))
get_info_for_pid-NoPanic_example = get_info_for_pid-NoPanic deps proc_files host.hostfs (pos 7)

fetch_pids-Gives_example : Gives deps (fetch_pids deps options calls no_state_yet).0
fetch_pids-Gives_example =
    fetch_pids-Gives deps options calls no_state_yet (codes "self" ∷ codes "7" ∷ []) refl refl
      (λ h. ground arith, (λ h. ground arith, tt))

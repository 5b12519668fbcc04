-- ===== src/Numcpu.antt =====
-- metric/system/numcpu: the number of online CPUs, from the list that sysfs prints.
pub mod Lists
pub mod Systems
use elastic_agent_system_met.Base.{
  ℕ, Bool, true, false, List, [], ◌∷◌, if◌then◌else◌, Bytes, codes, Error, Result, ok, err, panic,
  ◌>>=◌, wrap_err, errors_is_not_exist,
}
use elastic_agent_system_met.Base.Int.{ℤ, pos, negsuc, ◌+ℤ◌, ◌-ℤ◌, wrap64}
use elastic_agent_system_met.Go.Strings.{split, contains_byte}
use elastic_agent_system_met.Go.Numbers.{sscanf_range}
use elastic_agent_system_met.Go.Files.{Files, File, content, failed}

unfoldable pub parse_cpu_range : Bytes → Result ℤ
parse_cpu_range cpu_range = do
  (first, last) ← wrap_err "error reading from range" (sscanf_range cpu_range)
  ok (wrap64 (wrap64 (last -ℤ first) +ℤ pos 1))

-- The loop of `parseCPUList`.
unfoldable pub count_parts : ℤ → List Bytes → Result ℤ
count_parts count [] = ok count
count_parts count (v ∷ vs) = do
  more ←
      (if contains_byte b'-' v
        then wrap_err "error parsing line" (parse_cpu_range v)
        else ok (pos 1))
  count_parts (wrap64 (count +ℤ more)) vs

unfoldable pub parse_cpu_list : Bytes → Result ℤ
parse_cpu_list raw = count_parts (pos 0) (split b',' raw)

-- The paths of `getCPU`; the flag is whether LINUX_CPU_COUNT_PRESENT is set.
unfoldable pub cpu_path : Bool → Bytes
cpu_path present =
    if present
    then codes "/sys/devices/system/cpu/present"
    else codes "/sys/devices/system/cpu/online"

unfoldable pub counted : Result ℤ → Result (ℤ × Bool)
counted m = do n ← wrap_err "error parsing file" m; ok (n, true)

unfoldable pub missing_or_failed : Error → Result (ℤ × Bool)
missing_or_failed e =
    if errors_is_not_exist e then ok (negsuc 0, false) else wrap_err "error reading file" (err e)

unfoldable pub cpu_of_file : File → Result (ℤ × Bool)
cpu_of_file (failed e) = missing_or_failed e
cpu_of_file (content raw) = counted (parse_cpu_list raw)

-- `getCPU` on Linux: the count, and whether the file exists.
unfoldable pub get_cpu : Bool → Files → Result (ℤ × Bool)
unfolding cpu_of_file counted missing_or_failed
get_cpu present fs = cpu_of_file (fs (cpu_path present))

-- What `NumCPU` returns; `runtime` is `runtime.NumCPU()`. A panic ends the program.
unfoldable pub use_count : ℤ → Result (ℤ × Bool) → Result ℤ
use_count runtime (err e) = ok runtime
use_count runtime (ok (n, exists)) = ok (if exists then n else runtime)
use_count runtime panic = panic

unfoldable pub num_cpu : Bool → Files → ℤ → Result ℤ
unfolding use_count
num_cpu present fs runtime = use_count runtime (get_cpu present fs)

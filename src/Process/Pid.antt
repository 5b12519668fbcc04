-- ===== src/Process/Pid.antt =====
-- process_linux_common.go: the files of one process. `boot` is the package variable bootTime, which
-- the first read of /proc/stat sets; `ticks` is 100.
use elastic_agent_system_met.Base.{
  ℕ, ◌/◌, Bool, not, ◌&&◌, List, [], ◌∷◌, if◌then◌else◌, Bytes, codes, bytes_comparable, length,
  get_elem?, drop, ltb, nat_eq, is_empty, Option, none, some, message, errors_is_permission, Result,
  ok, err, panic, index, ◌>>=◌, wrap_err, wrap,
}
use elastic_agent_system_met.Base.Int.{ℤ, add64, mul64, signed64}
use elastic_agent_system_met.Go.Strings.{fields, split, split_n2, has_prefix, trim_space}
use elastic_agent_system_met.Go.Numbers.{parse_uint, checked}
use elastic_agent_system_met.Go.Maps.{lookup, insert}
use elastic_agent_system_met.Go.Files.{Files, read_file}
use elastic_agent_system_met.Resolve.{Resolver}
use elastic_agent_system_met.Process.Types.{
  Env, Deps, ProcMemInfo, ProcCpuInfo, ProcFdInfo, no_fd_info,
}
use elastic_agent_system_met.Process.Info.{pid_text}

-- The host at the time of a call: its files, links and directories, the users that
-- `user.LookupId` knows, and `typeconv.Time(t).String()` for a time in nanoseconds.
pub record Host : Type 0 where
  pub files : Files
  pub read_link : Bytes → Result Bytes
  pub read_dir : Bytes → Result (List Bytes)
  pub user_name : Bytes → Option Bytes
  pub time_text : ℤ → Bytes
  pub hostfs : Resolver

unfoldable pub proc_path : Host → ℤ → Bytes → Bytes
proc_path h pid file = h.hostfs.join (codes "proc" ∷ pid_text pid ∷ file ∷ [])

-- `x << 12` of a uint64.
unfoldable pub pages : ℕ → ℕ
pages x = mul64 x 4096

unfoldable pub lift : {A : Type 0} → Result A → ℕ → Result A × ℕ
lift r boot = (r, boot)

unfoldable pub boot_time_line : List Bytes → ℕ → Result ℕ × ℕ
boot_time_line [] boot = (err (message "no boot time find in file"), boot)
boot_time_line (line ∷ lines) boot =
    let later = boot_time_line lines boot in
    if has_prefix (codes "btime") line
    then elim (if ltb (length line) 6
        then panic
        else wrap_err "error reading boot time" (checked (parse_uint (drop 6 line)))) [
          | ok btime ↦ (ok btime, btime)
          | err e ↦ (err e, boot)
          | panic ↦ (panic, boot)
        ]
    else later

unfoldable pub get_linux_boot_time : Host → ℕ → Result ℕ × ℕ
get_linux_boot_time h boot =
    if nat_eq boot 0
    then elim (read_file h.files (h.hostfs.join (codes "proc" ∷ codes "stat" ∷ []))) [
      | ok text ↦ boot_time_line (split b'\n' text) boot
      | err e ↦ (err (wrap "error opening file" e), boot)
      | panic ↦ (panic, boot)
    ]
    else (ok boot, boot)

module _ (d : Deps) where
  unfoldable pub get_mem_data : Host → ℤ → Result (ProcMemInfo d)
  get_mem_data h pid = do
    text ← wrap_err "error opening file" (read_file h.files (proc_path h pid (codes "statm")))
    size_text ← index (get_elem? (fields text) 0)
    size ← wrap_err "error parsing memory size" (checked (parse_uint size_text))
    rss_text ← index (get_elem? (fields text) 1)
    rss ← wrap_err "error parsing memory rss" (checked (parse_uint rss_text))
    share_text ← index (get_elem? (fields text) 2)
    let (share, fault) = parse_uint share_text
    ok (record {
      size = d.o.uint_with (pages size);
      share = d.o.uint_with (pages share);
      rss = record { bytes = d.o.uint_with (pages rss); pct = d.o.float_none };
    })

  -- User and system time in milliseconds.
  unfoldable pub stat_times : List Bytes → Result (ℕ × ℕ)
  stat_times stat_fields = do
    user_text ← index (get_elem? stat_fields 13)
    user ← wrap_err "error parsing user CPU times" (checked (parse_uint user_text))
    sys_text ← index (get_elem? stat_fields 14)
    sys ← wrap_err "error parsing system CPU times" (checked (parse_uint sys_text))
    ok (mul64 user 10, mul64 sys 10)

  unfoldable pub cpu_info : Host → List Bytes → ℕ × ℕ → ℕ → Result (ProcCpuInfo d)
  cpu_info h stat_fields (user, sys) btime = do
    start_text ← index (get_elem? stat_fields 21)
    start ← wrap_err "error parsing start time value" (checked (parse_uint start_text))
    ok (record {
      start_time = h.time_text (signed64 (mul64 (mul64 (add64 (start / 100) btime) 1000) 1000000));
      total = record {
        value = d.o.float_none;
        ticks = d.o.uint_with (d.o.sum_opt_uint (d.o.uint_with user ∷ d.o.uint_with sys ∷ []));
        pct = d.o.float_none;
        norm_pct = d.o.float_none;
      };
      user_ticks = d.o.uint_with user;
      system_ticks = d.o.uint_with sys;
    })

  unfoldable pub with_boot_time :
      Host → List Bytes → ℕ × ℕ → Result ℕ × ℕ → Result (ProcCpuInfo d) × ℕ
  with_boot_time h stat_fields times (btime, boot) =
      ((do b ← wrap_err "error feting boot time" btime; cpu_info h stat_fields times b), boot)

  unfoldable pub cpu_time_of : Host → ℕ → List Bytes → Result (ℕ × ℕ) → Result (ProcCpuInfo d) × ℕ
  cpu_time_of h boot stat_fields (ok times) =
      with_boot_time h stat_fields times (get_linux_boot_time h boot)
  cpu_time_of h boot stat_fields (err e) = (err e, boot)
  cpu_time_of h boot stat_fields panic = (panic, boot)

  unfoldable pub get_cpu_time : Host → ℤ → ℕ → Result (ProcCpuInfo d) × ℕ
  get_cpu_time h pid boot = elim (read_file h.files (proc_path h pid (codes "stat"))) [
    | ok text ↦ cpu_time_of h boot (fields text) (stat_times (fields text))
    | err e ↦ (err (wrap "error opening file" e), boot)
    | panic ↦ (panic, boot)
  ]

  -- The lines of `limits`.
  unfoldable pub limit_fields : List Bytes → ProcFdInfo d → Result (ProcFdInfo d)
  limit_fields (w0 ∷ w1 ∷ w2 ∷ soft_text ∷ hard_text ∷ w5 ∷ []) state = do
    soft ← wrap_err "error parsing limits value" (checked (parse_uint soft_text))
    hard ← wrap_err "error parsing limits value" (checked (parse_uint hard_text))
    ok (record state { soft = d.o.uint_with soft; hard = d.o.uint_with hard })
  limit_fields _ state = ok state

  unfoldable pub limit_lines : List Bytes → ProcFdInfo d → Result (ProcFdInfo d)
  limit_lines [] state = ok state
  limit_lines (line ∷ lines) state = do
    next ←
        (if has_prefix (codes "Max open files") line
          then limit_fields (fields line) state
          else ok state)
    limit_lines lines next

  unfoldable pub with_open : ProcFdInfo d → Result (List Bytes) → Result (ProcFdInfo d)
  with_open state (ok fds) = ok (record state { opened = d.o.uint_with (length fds) })
  with_open state (err e) =
      if errors_is_permission e then ok state else err (wrap "error reading FD directory" e)
  with_open state panic = panic

  unfoldable pub get_fd_stats : Host → ℤ → Result (ProcFdInfo d)
  get_fd_stats h pid = do
    text ← wrap_err "error opening file" (read_file h.files (proc_path h pid (codes "limits")))
    state ← limit_lines (split b'\n' text) (no_fd_info d)
    with_open state (h.read_dir (proc_path h pid (codes "fd")))

-- `ReadBytes(0)` until the end of the file: what follows the last zero byte is dropped.
unfoldable pub all_but_last : List Bytes → List Bytes
all_but_last [] = []
all_but_last (x ∷ []) = []
all_but_last (x ∷ y ∷ ys) = x ∷ all_but_last (y ∷ ys)

unfoldable pub get_args : Host → ℤ → Result (List Bytes)
unfolding all_but_last
get_args h pid = do
  text ← wrap_err "error opening file" (read_file h.files (proc_path h pid (codes "cmdline")))
  ok (all_but_last (split 0 text))

unfoldable pub env_pair : (Bytes → Bool) → List Bytes → List (Bytes × Bytes) → List (Bytes × Bytes)
env_pair filter (key ∷ value ∷ []) env =
    if not (is_empty (trim_space key)) && filter (trim_space key)
    then insert (trim_space key) (trim_space value) env
    else env
env_pair filter _ env = env

unfoldable pub env_pairs : (Bytes → Bool) → List Bytes → List (Bytes × Bytes) → List (Bytes × Bytes)
unfolding env_pair
env_pairs filter [] env = env
env_pairs filter (kv ∷ pairs) env = env_pairs filter pairs (env_pair filter (split_n2 b'=' kv) env)

-- Nil for an error, which the caller drops.
unfoldable pub get_env_data : Host → ℤ → (Bytes → Bool) → Env
get_env_data h pid filter = elim (read_file h.files (proc_path h pid (codes "environ"))) [
  | ok text ↦ some (env_pairs filter (split 0 text) [])
  | err e ↦ none
  | panic ↦ none
]

unfoldable pub status_pair : List Bytes → List (Bytes × Bytes) → List (Bytes × Bytes)
status_pair (key ∷ value ∷ []) status = insert key (trim_space value) status
status_pair _ status = status

unfoldable pub status_lines : List Bytes → List (Bytes × Bytes) → List (Bytes × Bytes)
unfolding status_pair
status_lines [] status = status
status_lines (line ∷ lines) status = status_lines lines (status_pair (split_n2 b':' line) status)

unfoldable pub get_proc_status : Host → ℤ → Result (List (Bytes × Bytes))
get_proc_status h pid = do
  text ← wrap_err "error opening file" (read_file h.files (proc_path h pid (codes "status")))
  ok (status_lines (split b'\n' text) [])

unfoldable pub user_or_id : Bytes → Option Bytes → Bytes
user_or_id uid none = uid
user_or_id uid (some name) = name

unfoldable pub user_of_status : Host → Option Bytes → Result Bytes
user_of_status h none = err (message "field Uid not found in proc status")
user_of_status h (some uid_values) = do
  uid ← index (get_elem? (fields uid_values) 0)
  ok (user_or_id uid (h.user_name uid))

unfoldable pub get_user : Host → ℤ → Result Bytes
get_user h pid = do
  status ← wrap_err "error fetching user ID" (get_proc_status h pid)
  user_of_status h (lookup (codes "Uid") status)

-- A permission error passes through, any other one is wrapped.
unfoldable pub pass_permission : Result Bytes → Result Bytes
pass_permission (ok text) = ok text
pass_permission (err e) = if errors_is_permission e then err e else err (wrap "error fetching" e)
pass_permission panic = panic

unfoldable pub get_proc_string_data : Host → ℤ → Result (Bytes × Bytes)
get_proc_string_data h pid = do
  exe ← pass_permission (h.read_link (proc_path h pid (codes "exe")))
  cwd ← pass_permission (h.read_link (proc_path h pid (codes "cwd")))
  ok (exe, cwd)

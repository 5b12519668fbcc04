-- ===== src/Process/Systems/Windows.antt =====
-- process_windows.go. The calls of the system, of github.com/elastic/gosigar/sys/windows and of
-- package syscall, are parameters.
use elastic_agent_system_met.Base.{
  ℕ, ◌/◌, List, ◌∷◌, ◌++◌, if◌then◌else◌, Bytes, nat_eq, Result, ok, err, panic, ◌>>=◌, wrap_err,
  wrap,
}
use elastic_agent_system_met.Base.Int.{ℤ, pos, add64}
use elastic_agent_system_met.Process.Types.{
  Deps, PidState, running, sleeping, ProcState, with_ids, ProcCpuInfo,
}
use elastic_agent_system_met.Process.Systems.Darwin.{iterate, unix_time_ms_to_time}

-- The rights that a handle is opened with.
pub data Access : Type 0 where
  query_limited query_limited_vm_read query : Access

-- `times` are the user, kernel and creation times in nanoseconds, `memory` the working set and the
-- private usage, `account` a result with the account and the domain, and `base` is `filepath.Base`.
pub record Win : Type 1 where
  pub Handle : Type 0
  pub Token : Type 0
  pub Pbi : Type 0
  pub Params : Type 0
  pub User : Type 0
  pub enum_processes : Result (List ℤ)
  pub open_process : Access → ℤ → Result Handle
  pub image_file_name : Handle → Result Bytes
  pub exit_code : Handle → Result ℕ
  pub basic_information : Handle → Result Pbi
  pub parent : Pbi → ℤ
  pub user_params : Handle → Pbi → Result Params
  pub command_line : Handle → Params → Result Bytes
  pub to_strings : Bytes → Result (List Bytes)
  pub times : Handle → Result (ℕ × (ℕ × ℕ))
  pub memory : Handle → Result (ℕ × ℕ)
  pub open_token : Handle → Result Token
  pub token_user : Token → Result User
  pub account : User → Result (Bytes × Bytes)
  pub sid_text : User → Result Bytes
  pub base : Bytes → Bytes

-- `FetchPids`
unfoldable pub fetch_pids_windows : {X : Type 0} → Win → (ℤ → X → X) → X → Result X
fetch_pids_windows w iter found = do
  pids ← wrap_err "EnumProcesses failed" w.enum_processes
  ok (iterate iter pids found)

module _ (w : Win) where
  unfoldable pub get_proc_args : ℤ → Result (List Bytes)
  get_proc_args pid = do
    handle ← wrap_err "OpenProcess failed" (w.open_process query_limited_vm_read pid)
    pbi ← wrap_err "NtQueryProcessBasicInformation failed" (w.basic_information handle)
    params ← wrap_err "GetUserProcessParams failed" (w.user_params handle pbi)
    args ← wrap_err "ReadProcessUnicodeString failed" (w.command_line handle params)
    wrap_err "ByteSliceToStringSlice failed" (w.to_strings args)

  -- User, system and start time in milliseconds.
  unfoldable pub get_proc_times : ℤ → Result (ℕ × (ℕ × ℕ))
  get_proc_times pid = do
    handle ← wrap_err "OpenProcess failed" (w.open_process query_limited pid)
    (user, (kernel, creation)) ← wrap_err "GetProcessTimes failed" (w.times handle)
    ok (user / 1000000, (kernel / 1000000, creation / 1000000))

  unfoldable pub proc_mem : ℤ → Result (ℕ × ℕ)
  proc_mem pid = do
    handle ← wrap_err "OpenProcess failed" (w.open_process query_limited_vm_read pid)
    wrap_err "GetProcessMemoryInfo failed" (w.memory handle)

  unfoldable pub get_proc_name : ℤ → Result Bytes
  get_proc_name pid = do
    handle ← wrap_err "OpenProcess failed" (w.open_process query_limited pid)
    filename ← wrap_err "GetProcessImageFileName failed" (w.image_file_name handle)
    ok (w.base filename)

  -- 259 is STILL_ACTIVE.
  unfoldable pub get_pid_status : ℤ → Result PidState
  get_pid_status pid = do
    handle ← wrap_err "OpenProcess failed" (w.open_process query_limited pid)
    exit_code ← wrap_err "GetExitCodeProcess failed" (w.exit_code handle)
    ok (if nat_eq exit_code 259 then running else sleeping)

  unfoldable pub get_parent_pid : ℤ → Result ℤ
  get_parent_pid pid = do
    handle ← wrap_err "OpenProcess failed" (w.open_process query_limited pid)
    pbi ← wrap_err "NtQueryProcessBasicInformation failed" (w.basic_information handle)
    ok (w.parent pbi)

  -- The name `domain\account`.
  unfoldable pub account_name : Result (Bytes × Bytes) → Result Bytes → Result Bytes
  account_name (ok (account, domain)) sid = ok (domain ++ (b'\\' ∷ account))
  account_name (err e) (ok sid) = err (wrap "failed while looking up account name for SID" e)
  account_name (err e) (err f) = err (wrap "failed while looking up account name for pid" e)
  account_name (err e) panic = panic
  account_name panic sid = panic

  unfoldable pub get_proc_cred_name : ℤ → Result Bytes
  get_proc_cred_name pid = do
    handle ← wrap_err "OpenProcess failed" (w.open_process query pid)
    token ← wrap_err "OpenProcessToken failed" (w.open_token handle)
    user ← wrap_err "GetTokenInformation failed" (w.token_user token)
    account_name (w.account user) (w.sid_text user)

  module _ (d : Deps) where
    -- `GetInfoForPid`
    unfoldable pub get_info_windows : ℤ → Result (ProcState d)
    get_info_windows pid = do
      name ← wrap_err "error fetching name" (get_proc_name pid)
      status ← wrap_err "error fetching status" (get_pid_status pid)
      ok (with_ids d name status (d.i.int_with pid) d.i.int_none d.i.int_none)

    unfoldable pub or_zero_pid : Result ℤ → Result ℤ
    or_zero_pid (ok ppid) = ok ppid
    or_zero_pid (err e) = ok (pos 0)
    or_zero_pid panic = panic

    unfoldable pub windows_times : (ℤ → Bytes) → ℕ × (ℕ × ℕ) → ProcCpuInfo d → ProcCpuInfo d
    windows_times time_text (user, (sys, start)) cpu = record cpu {
      system_ticks = d.o.uint_with sys;
      user_ticks = d.o.uint_with user;
      total = record (cpu.total) { ticks = d.o.uint_with (add64 user sys) };
      start_time = unix_time_ms_to_time time_text start;
    }

    -- `FillPidMetrics`: the error of the parent's id is dropped.
    unfoldable pub fill_windows : (ℤ → Bytes) → ℤ → ProcState d → Result (ProcState d)
    fill_windows time_text pid state = do
      user ← wrap_err "error fetching username" (get_proc_cred_name pid)
      ppid ← or_zero_pid (get_parent_pid pid)
      (wss, size) ← wrap_err "error fetching memory" (proc_mem pid)
      times ← wrap_err "error getting CPU times" (get_proc_times pid)
      args ← wrap_err "error fetching process args" (get_proc_args pid)
      ok (record state {
        username = user;
        ppid = d.i.int_with ppid;
        memory = record (state.memory) {
          rss = record (state.memory.rss) { bytes = d.o.uint_with wss };
          size = d.o.uint_with size;
        };
        cpu = windows_times time_text times state.cpu;
        args = args;
      })

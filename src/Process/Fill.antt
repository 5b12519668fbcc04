-- ===== src/Process/Fill.antt =====
-- process_linux_common.go: FillPidMetrics, which adds the other files of a process to its record.
use elastic_agent_system_met.Base.{
  ℕ, Bool, if◌then◌else◌, List, [], ◌∷◌, Bytes, none, some, Result, ok, err, panic, ◌>>=◌, wrap_err,
  wrap, errors_is_permission,
}
use elastic_agent_system_met.Base.Int.{ℤ}
use elastic_agent_system_met.Process.Types.{Env, Deps, ProcState, ProcMemInfo, ProcCpuInfo}
use elastic_agent_system_met.Process.Pid.{
  Host, get_mem_data, get_cpu_time, get_args, get_fd_stats, get_env_data, get_proc_string_data,
  get_user,
}

-- The arguments and the environment that are kept, or else read.
unfoldable pub args_or : Result (List Bytes) → List Bytes → Result (List Bytes)
args_or read [] = wrap_err "error getting CLI args" read
args_or read (a ∷ args) = ok (a ∷ args)

unfoldable pub env_or : Env → Env → Env
env_or read none = read
env_or read (some env) = some env

-- The path and the directory; permission errors leave them empty.
unfoldable pub strings_or_empty : Result (Bytes × Bytes) → Result (Bytes × Bytes)
strings_or_empty (ok strings) = ok strings
strings_or_empty (err e) =
    if errors_is_permission e then ok ([], []) else err (wrap "error getting metadata" e)
strings_or_empty panic = panic

module _ (d : Deps) where
  unfoldable pub fill_files :
      Host → ℤ → (Bytes → Bool) → ProcState d → ProcMemInfo d → ProcCpuInfo d → Result (ProcState d)
  fill_files h pid filter state memory cpu = do
    args ← args_or (get_args h pid) state.args
    fd ← wrap_err "error getting FD metrics" (get_fd_stats d h pid)
    (exe, cwd) ← strings_or_empty (get_proc_string_data h pid)
    username ← wrap_err "error creating username" (get_user h pid)
    ok (record state {
      memory = memory;
      cpu = cpu;
      args = args;
      fd = fd;
      env = env_or (get_env_data h pid filter) state.env;
      exe = exe;
      cwd = cwd;
      username = username;
    })

  unfoldable pub fill_with_cpu :
      Host
      → ℤ
      → (Bytes → Bool)
      → ProcState d
      → ProcMemInfo d
      → Result (ProcCpuInfo d) × ℕ
      → Result (ProcState d) × ℕ
  fill_with_cpu h pid filter state memory (cpu, boot) =
      ((do c ← wrap_err "error getting CPU data" cpu; fill_files h pid filter state memory c), boot)

  unfoldable pub fill_with_memory :
      Host
      → ℤ
      → (Bytes → Bool)
      → ProcState d
      → ℕ
      → Result (ProcMemInfo d)
      → Result (ProcState d) × ℕ
  fill_with_memory h pid filter state boot (ok memory) =
      fill_with_cpu h pid filter state memory (get_cpu_time d h pid boot)
  fill_with_memory h pid filter state boot (err e) =
      (err (wrap "error getting memory data" e), boot)
  fill_with_memory h pid filter state boot panic = (panic, boot)

  unfoldable pub fill_pid_metrics :
      Host → ℤ → ProcState d → (Bytes → Bool) → ℕ → Result (ProcState d) × ℕ
  fill_pid_metrics h pid state filter boot =
      fill_with_memory h pid filter state boot (get_mem_data d h pid)

-- ===== src/Process/Systems/Darwin.antt =====
-- process_darwin.go, and unixTimeMsToTime of helpers.go. What libproc and sysctl return is a
-- parameter.
use elastic_agent_system_met.Base.{
  ℕ, ◌/◌, Bool, List, [], ◌∷◌, if◌then◌else◌, Bytes, nat_eq, Option, none, some, message, Result,
  ok, err, ◌>>=◌, wrap_err, ◌==◌,
}
use elastic_agent_system_met.Base.Int.{ℤ, pos, int_comparable, add64, mul64, signed64}
use elastic_agent_system_met.Go.Numbers.{itoa}
use elastic_agent_system_met.Process.Types.{
  Env, Deps, PidState, idle, running, sleeping, stopped, zombie, unknown, ProcState, with_ids,
  ProcCpuInfo, no_mem_info, no_cpu_info,
}
use elastic_agent_system_met.Process.Systems.Args.{Vars, int32, proc_args}

-- The fields that the code reads of `struct_proc_taskallinfo`.
pub record TaskInfo : Type 0 where
  pub comm : Bytes
  pub status : ℕ
  pub ppid : ℕ
  pub pgid : ℕ
  pub uid : ℕ
  pub virtual_size : ℕ
  pub resident_size : ℕ
  pub total_user : ℕ
  pub total_system : ℕ
  pub start_tvsec : ℕ
  pub start_tvusec : ℕ

-- The constants of <sys/proc.h>.
pub record StatusCodes : Type 0 where
  pub sidl : ℕ
  pub srun : ℕ
  pub ssleep : ℕ
  pub sstop : ℕ
  pub szomb : ℕ

unfoldable pub darwin_state : StatusCodes → ℕ → PidState
darwin_state c status =
    if nat_eq status c.sidl
    then idle
    else if nat_eq status c.srun
    then running
    else if nat_eq status c.ssleep
    then sleeping
    else if nat_eq status c.sstop
    then stopped
    else if nat_eq status c.szomb
    then zombie
    else unknown

-- The name of a user that is found and not empty, or else the id.
unfoldable pub user_or_id : (Bytes → Option Bytes) → ℕ → Bytes
user_or_id user_name uid = elim (user_name (itoa uid)) [
  | none ↦ itoa uid
  | some [] ↦ itoa uid
  | some (c ∷ cs) ↦ c ∷ cs
]

-- `unixTimeMsToTime`; `time_text` is `typeconv.Time(t).String()` for a time in nanoseconds.
unfoldable pub unix_time_ms_to_time : (ℤ → Bytes) → ℕ → Bytes
unix_time_ms_to_time time_text ms = time_text (signed64 (mul64 ms 1000000))

-- The ids of a buffer of `int32`, `num` of them at most; one that cannot be read is passed over,
-- and the id 0 too.
unfoldable pub listed_pids : ℕ → Bytes → List ℤ
listed_pids (ℕ.suc num) (a ∷ b ∷ c ∷ d ∷ rest) =
    let later = listed_pids num rest in
    if int32 a b c d == pos 0 then later else int32 a b c d ∷ later
listed_pids _ _ = []

-- `pidIter` on each process.
unfoldable pub iterate : {X : Type 0} → (ℤ → X → X) → List ℤ → X → X
iterate iter [] found = found
iterate iter (pid ∷ pids) found = iterate iter pids (iter pid found)

-- `FetchPids`: `size` and `filled` are what the two calls of `proc_listpids` return, the second of
-- which fills the buffer.
unfoldable pub fetch_pids_darwin : {X : Type 0} → (ℤ → X → X) → ℤ → ℤ → Bytes → X → Result X
fetch_pids_darwin iter (pos (ℕ.suc n)) (pos (ℕ.suc filled)) buffer found =
    ok (iterate iter (listed_pids (ℕ.suc filled / 4) buffer) found)
fetch_pids_darwin iter (pos (ℕ.suc n)) _ buffer found = err (message "cannot allocate memory")
fetch_pids_darwin iter _ _ buffer found = err (message "invalid argument")

module _ (d : Deps) where
  unfoldable pub task_cpu : (ℤ → Bytes) → TaskInfo → ProcCpuInfo d
  task_cpu time_text info =
      let user = d.o.uint_with (info.total_user / 1000000) in
      let system = d.o.uint_with (info.total_system / 1000000) in
      record (no_cpu_info d) {
        user_ticks = user;
        system_ticks = system;
        total = record ((no_cpu_info d).total) {
          ticks = d.o.uint_with (d.o.sum_opt_uint (user ∷ system ∷ []));
        };
        start_time =
            unix_time_ms_to_time time_text
              (add64 (mul64 info.start_tvsec 1000) (info.start_tvusec / 1000));
      }

  -- `GetInfoForPid`; `task_info` is none if `proc_pidinfo` does not fill its record.
  unfoldable pub get_info_darwin :
      StatusCodes
      → (ℤ → Option TaskInfo)
      → (Bytes → Option Bytes)
      → (ℤ → Bytes)
      → ℤ
      → Result (ProcState d)
  get_info_darwin codes task_info user_name time_text pid = elim (task_info pid) [
    | none ↦ err (message "could not read task for pid")
    | some info ↦
        ok
          (record (with_ids d info.comm (darwin_state codes info.status) (d.i.int_with pid)
            (d.i.int_with (pos info.ppid)) (d.i.int_with (pos info.pgid))) {
              username = user_or_id user_name info.uid;
              memory = record (no_mem_info d) {
                size = d.o.uint_with info.virtual_size;
                rss = record { bytes = d.o.uint_with info.resident_size; pct = d.o.float_none };
              };
              cpu = task_cpu time_text info;
            })
  ]

  unfoldable pub or_env : Env → Vars → Env
  or_env none vars = some vars
  or_env (some env) vars = some env

  -- `FillPidMetrics`; `sysctl` gives the buffer of KERN_PROCARGS2.
  unfoldable pub fill_darwin :
      (ℤ → Result Bytes) → ℤ → (Bytes → Bool) → ProcState d → Result (ProcState d)
  fill_darwin sysctl pid filter state = do
    (args, (exe, env)) ←
        wrap_err "error fetching string data from process"
          (do buffer ← wrap_err "error in sysctl" (sysctl pid); proc_args buffer filter)
    ok (record state { args = args; exe = exe; env = or_env state.env env })

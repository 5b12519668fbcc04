-- ===== src/Process/Systems/Aix.antt =====
-- process_aix.go. What getprocs, getargs and getevars return is a parameter.
use elastic_agent_system_met.Base.{
  ℕ, Bool, true, false, List, [], ◌∷◌, if◌then◌else◌, Bytes, nat_eq, Option, none, some, esrch,
  Result, ok, err, ◌>>=◌, wrap_err, wrap, ◌==◌,
}
use elastic_agent_system_met.Base.Int.{ℤ, pos, int_comparable, add64, mul64}
use elastic_agent_system_met.Libs.Calls.{Calls, more, final, failed}
use elastic_agent_system_met.Process.Types.{
  Deps, PidState, idle, running, sleeping, stopped, zombie, unknown, ProcState, with_ids,
  ProcCpuInfo,
}
use elastic_agent_system_met.Process.Systems.Args.{read_lines, read_env, until_empty}
use elastic_agent_system_met.Process.Systems.Darwin.{user_or_id, unix_time_ms_to_time}

-- `FetchPids`, on the calls of `getprocs`: the record of the last call, which finds no process, is passed to `pidIter` as well.
unfoldable pub fetch_pids_aix : {X : Type 0} → (ℤ → X → X) → Calls ℤ → X → Result X
fetch_pids_aix iter (more pid calls) procs = fetch_pids_aix iter calls (iter pid procs)
fetch_pids_aix iter (final pid) procs = ok (iter pid procs)
fetch_pids_aix iter (failed e) procs = err (wrap "error fetching PIDs" e)

unfoldable pub has_pid : ℤ → List ℤ → Bool
has_pid pid [] = false
has_pid pid (p ∷ pids) = let later = has_pid pid pids in if p == pid then true else later

-- `procExists`, with the ids of the whole buffer after each call.
unfoldable pub proc_exists : ℤ → Calls (List ℤ) → Result Bool
proc_exists pid (more pids calls) =
    let later = proc_exists pid calls in if has_pid pid pids then ok true else later
proc_exists pid (final pids) = ok false
proc_exists pid (failed e) = err (wrap "error fetching PID at IndexPointer" e)

-- The fields that the code reads of `struct_procsinfo64`.
pub record ProcsInfo : Type 0 where
  pub comm : Bytes
  pub state : ℕ
  pub ppid : ℕ
  pub pgrp : ℕ
  pub uid : ℕ
  pub size : ℕ
  pub sdsize : ℕ
  pub drss : ℕ
  pub trss : ℕ
  pub start : ℕ
  pub utime : ℕ
  pub stime : ℕ

-- The constants of <sys/proc.h>.
pub record AixCodes : Type 0 where
  pub sactive : ℕ
  pub sidl : ℕ
  pub sstop : ℕ
  pub szomb : ℕ
  pub sswap : ℕ

unfoldable pub aix_state : AixCodes → ℕ → PidState
aix_state c state =
    if nat_eq state c.sactive
    then running
    else if nat_eq state c.sidl
    then idle
    else if nat_eq state c.sstop
    then stopped
    else if nat_eq state c.szomb
    then zombie
    else if nat_eq state c.sswap
    then sleeping
    else unknown

-- The record of one process, from the count of processes found and the record.
unfoldable pub one_process : Result (ℕ × ProcsInfo) → Result ProcsInfo
one_process call = do
  (num, info) ← wrap_err "error in getprocs" call
  if nat_eq num 1 then ok info else err esrch

module _ (d : Deps) where
  -- `GetInfoForPid`
  unfoldable pub get_info_aix :
      AixCodes
      → Result (ℕ × ProcsInfo)
      → Calls (List ℤ)
      → (Bytes → Option Bytes)
      → ℤ
      → Result (ProcState d)
  get_info_aix codes call calls user_name pid = do
    info ← one_process call
    exists ← wrap_err "error in procExists" (proc_exists pid calls)
    let state =
        record (with_ids d info.comm (aix_state codes info.state) (d.i.int_with pid)
          (d.i.int_with (pos info.ppid)) (d.i.int_with (pos info.pgrp))) {
            username = user_or_id user_name info.uid;
          }
    if exists then ok state else err esrch

  unfoldable pub aix_cpu : (ℤ → Bytes) → ProcsInfo → ProcCpuInfo d → ProcCpuInfo d
  aix_cpu time_text info cpu =
      let user = d.o.uint_with (mul64 info.utime 1000) in
      let system = d.o.uint_with (mul64 info.stime 1000) in
      record cpu {
        start_time = unix_time_ms_to_time time_text (mul64 info.start 1000);
        user_ticks = user;
        system_ticks = system;
        total = record (cpu.total) {
          ticks = d.o.uint_with (d.o.sum_opt_uint (user ∷ system ∷ []));
        };
      }

  -- The figures of the record; `pagesize` is `os.Getpagesize()`.
  unfoldable pub aix_figures : ℕ → (ℤ → Bytes) → ProcsInfo → ProcState d → ProcState d
  aix_figures pagesize time_text info state = record state {
    memory = record (state.memory) {
      size = d.o.uint_with (mul64 info.size pagesize);
      share = d.o.uint_with (mul64 info.sdsize pagesize);
      rss = record (state.memory.rss) {
        bytes = d.o.uint_with (mul64 (add64 info.drss info.trss) pagesize);
      };
    };
    cpu = aix_cpu time_text info state.cpu;
  }

  unfoldable pub with_args : List Bytes → ProcState d → ProcState d
  with_args [] state = record state { args = [] }
  with_args (exe ∷ args) state = record state { args = exe ∷ args; exe = exe }

  unfoldable pub aix_env : (Bytes → Bool) → Bytes → ProcState d → Result (ProcState d)
  aix_env filter buffer state = elim state.env [
    | some env ↦ ok state
    | none ↦ do
      vars ← read_env "error reading environment" filter [] (read_lines buffer)
      ok (record state { env = some vars })
  ]

  -- `FillPidMetrics`; `getargs` and `getevars` give what they write to their buffers.
  unfoldable pub fill_aix :
      Result (ℕ × ProcsInfo)
      → Result Bytes
      → Result Bytes
      → ℕ
      → (ℤ → Bytes)
      → (Bytes → Bool)
      → ProcState d
      → Result (ProcState d)
  fill_aix call getargs getevars pagesize time_text filter state = do
    info ← one_process call
    args ← wrap_err "error in getargs" getargs
    let known = aix_figures pagesize time_text info state
    let filled = with_args (until_empty (read_lines args)) known
    vars ← wrap_err "error in getevars" getevars
    aix_env filter vars filled

-- ===== src/Process/Stats.antt =====
-- process.go: the collector, which keeps the processes of the last sample.
use elastic_agent_system_met.Base.{
  ℕ, Bool, true, false, not, ◌&&◌, ◌||◌, if◌then◌else◌, List, [], ◌∷◌, Bytes, codes, Option, none,
  some, is_empty, Result, ok, err, panic, ◌>>=◌, wrap_err, wrap,
}
use elastic_agent_system_met.Base.Int.{ℤ, pos}
use elastic_agent_system_met.Go.Strings.{join}
use elastic_agent_system_met.Libs.Mapstr.{M}
use elastic_agent_system_met.Base.Int.{int_comparable}
use elastic_agent_system_met.Round.{round}
use elastic_agent_system_met.Network.{NetworkCountersInfo}
use elastic_agent_system_met.Process.Types.{Deps, ProcState, RootEvent}
use elastic_agent_system_met.Process.Info.{get_info_for_pid}
use elastic_agent_system_met.Process.Pid.{Host}
use elastic_agent_system_met.Process.Fill.{fill_pid_metrics}
use elastic_agent_system_met.Process.Percent.{get_proc_cpu_percentage}
use elastic_agent_system_met.Process.Top.{IncludeTopConfig}
use elastic_agent_system_met.Process.Track.{ProcsTrack, get_pid}

-- The options of `Stats`, its matchers compiled.
pub record Options : Type 0 where
  pub procs : List Bytes
  pub cpu_ticks : Bool
  pub cache_cmd_line : Bool
  pub include_top : IncludeTopConfig
  pub enable_cgroups : Bool
  pub enable_network : Bool
  pub network_metrics : List Bytes
  pub skip_extended : Bool
  pub proc_regexps : List (Bytes → Bool)
  pub env_regexps : List (Bytes → Bool)

unfoldable pub any_match : List (Bytes → Bool) → Bytes → Bool
any_match [] name = false
any_match (reg ∷ regs) name = reg name || any_match regs name

unfoldable pub match_process : Options → Bytes → Bool
unfolding any_match
match_process c name = any_match c.proc_regexps name

-- With no pattern the loop finds none, as the early return says.
unfoldable pub is_whitelisted_env_var : Options → Bytes → Bool
unfolding any_match
is_whitelisted_env_var c var_name = any_match c.env_regexps var_name

module _ (d : Deps) where
  -- What a call takes from elsewhere: the clock as it stands when each process is read, the reader
  -- of cgroups, `NetworkCounters()` (`none` without a handle that has it), `numcpu.NumCPU()`, the
  -- memory of the host (0 if it is not known), and `typeconv.Convert`.
  pub record Calls : Type 0 where
    pub host : Host
    pub now : ℤ → ℤ
    pub cgroup_stats : ℤ → Result d.CgStats
    pub network_counters : ℤ → Option (Option NetworkCountersInfo)
    pub cpus : Result ℤ
    pub total_phy_mem : ℕ
    pub convert : ProcState d → Result (M d.f)
    pub convert_root : RootEvent d → M d.f

  -- The collector, and the package variable bootTime.
  pub record State : Type 0 where
    pub procs_map : ProcsTrack d
    pub boot_time : ℕ

  unfoldable pub reuse : Options → ProcState d → Option (ProcState d) → ProcState d
  reuse c in' none = in'
  reuse c in' (some previous) =
      if c.cache_cmd_line
      then record in' { args = previous.args; cmdline = previous.cmdline; env = previous.env }
      else record in' { env = previous.env }

  unfoldable pub cache_cmd_line : Options → ProcsTrack d → ProcState d → ProcState d
  cache_cmd_line c pm in' = reuse c in' (get_pid d (d.i.value_or in'.pid (pos 0)) pm)

  unfoldable pub with_cmdline : ProcState d → ProcState d
  with_cmdline p =
      if not (is_empty p.args) && is_empty p.cmdline
      then record p { cmdline = join (codes " ") p.args }
      else p

  unfoldable pub since : Option (ProcState d) → ProcState d → d.CgStats → d.CgStats
  since none p stats = stats
  since (some last) p stats = d.fill_percentages stats last.cgroup p.sample_time last.sample_time

  unfoldable pub add_cgroups :
      Options → Calls → Option (ProcState d) → ProcState d → Result (ProcState d)
  add_cgroups c k last p =
      if c.enable_cgroups
      then (do
        stats ← wrap_err "cgroups.GetStatsForPid" (k.cgroup_stats (d.i.value_or p.pid (pos 0)))
        ok (record p { cgroup = since last p stats }))
      else ok p

  unfoldable pub take_network : ProcState d → Option (Option NetworkCountersInfo) → ProcState d
  take_network p none = p
  take_network p (some counters) = record p { network = counters }

  unfoldable pub add_network : Options → Calls → ℤ → ProcState d → ProcState d
  add_network c k pid p = if c.enable_network then take_network p (k.network_counters pid) else p

  unfoldable pub add_total_value : ProcState d → ProcState d
  add_total_value p =
      if d.o.exists p.cpu.total.ticks
      then record p {
        cpu = record (p.cpu) {
          total = record (p.cpu.total) {
            value = d.o.float_with (round d.f (d.f.of_uint (d.o.value_or p.cpu.total.ticks 0)));
          };
        };
      }
      else p

  unfoldable pub add_percent : Calls → Option (ProcState d) → ProcState d → Result (ProcState d)
  add_percent k none p = ok p
  add_percent k (some last) p = get_proc_cpu_percentage d k.cpus last p

  -- What `pidFill` does to a process whose files are read.
  unfoldable pub post_process :
      Options → Calls → ProcsTrack d → ℤ → ProcState d → Result (ProcState d)
  post_process c k pm pid status = do
    let p0 = with_cmdline status
    let last = get_pid d (d.i.value_or p0.pid (pos 0)) pm
    let p1 = record p0 { sample_time = k.now pid }
    p2 ← add_cgroups c k last p1
    add_percent k last (add_total_value (add_network c k pid p2))

  unfoldable pub finish :
      Options
      → Calls
      → ProcsTrack d
      → ℤ
      → Result (ProcState d) × ℕ
      → Result (ProcState d × Bool) × ℕ
  finish c k pm pid (filled, boot) = (
    (do
      status ← wrap_err "FillPidMetrics" filled
      p ← post_process c k pm pid status
      ok (p, true)),
    boot,
  )

  unfoldable pub fill_known :
      Options → Calls → State → ℤ → Bool → ProcState d → Result (ProcState d × Bool) × ℕ
  fill_known c k st pid filter status =
      if filter && not (match_process c status.name)
      then (ok (status, false), st.boot_time)
      else finish c k st.procs_map pid
          (fill_pid_metrics d k.host pid status (is_whitelisted_env_var c) st.boot_time)

  -- On the result of `GetInfoForPid`.
  unfoldable pub fill_info :
      Options → Calls → State → ℤ → Bool → Result (ProcState d) → Result (ProcState d × Bool) × ℕ
  fill_info c k st pid filter (ok status) =
      if c.skip_extended
      then (ok (status, true), st.boot_time)
      else fill_known c k st pid filter (cache_cmd_line c st.procs_map status)
  fill_info c k st pid filter (err e) = (err (wrap "GetInfoForPid" e), st.boot_time)
  fill_info c k st pid filter panic = (panic, st.boot_time)

  -- The process, and whether it passes the filter; beside it bootTime.
  unfoldable pub pid_fill : Options → Calls → State → ℤ → Bool → Result (ProcState d × Bool) × ℕ
  pid_fill c k st pid filter =
      fill_info c k st pid filter (get_info_for_pid d k.host.files k.host.hostfs pid)

-- ===== src/Process/Report.antt =====
-- process.go: Get, GetOne and GetSelf.
use elastic_agent_system_met.Base.{
  ℕ, Bool, false, if◌then◌else◌, List, [], ◌∷◌, Option, none, some, is_empty, Result, ok, err,
  panic, ◌>>=◌, wrap_err, wrap,
}
use elastic_agent_system_met.Base.Int.{ℤ}
use elastic_agent_system_met.Libs.Mapstr.{M}
use elastic_agent_system_met.Base.Int.{int_comparable}
use elastic_agent_system_met.Network.{NetworkCountersInfo, Event, map_proc_net_counters_with_filter}
use elastic_agent_system_met.Process.Types.{Deps, ProcState, format_for_root}
use elastic_agent_system_met.Process.Percent.{get_proc_mem_percentage}
use elastic_agent_system_met.Process.Top.{include_top_processes}
use elastic_agent_system_met.Process.Track.{set_pid, set_map}
use elastic_agent_system_met.Process.Stats.{Options, Calls, State, pid_fill}
use elastic_agent_system_met.Process.Fetch.{Found, fetch_pids}

module _ (d : Deps) where
  -- The formatted process; `network` is the entry of that name.
  pub record ProcEvent : Type 0 where
    pub fields : M d.f
    pub network : Option Event

  unfoldable pub drop_ticks : Options → ProcState d → ProcState d
  drop_ticks c p = if c.cpu_ticks then p else record p {
    cpu = record (p.cpu) {
      user_ticks = d.o.uint_none;
      system_ticks = d.o.uint_none;
      total = record (p.cpu.total) { ticks = d.o.uint_none };
    };
  }

  unfoldable pub network_event : Options → Option NetworkCountersInfo → Option Event
  network_event c none = none
  network_event c (some counters) =
      if c.enable_network
      then some (map_proc_net_counters_with_filter counters c.network_metrics)
      else none

  unfoldable pub get_process_event : Options → Calls d → ProcState d → Result ProcEvent
  get_process_event c k process = do
    proc ← k.convert (drop_ticks c process)
    ok (record { fields = proc; network = network_event c process.network })

  unfoldable pub with_mem_pct : Calls d → ProcState d → ProcState d
  with_mem_pct k p = record p {
    memory = record (p.memory) {
      rss = record (p.memory.rss) { pct = get_proc_mem_percentage d p k.total_phy_mem };
    };
  }

  unfoldable pub format_one : Options → Calls d → ProcState d → Result (ProcEvent × M d.f)
  format_one c k process = do
    let (root, rest) = format_for_root d (with_mem_pct k process)
    proc ← wrap_err "error converting process" (get_process_event c k rest)
    ok (proc, k.convert_root root)

  unfoldable pub format_all :
      Options → Calls d → List (ProcState d) → Result (List (ProcEvent × M d.f))
  format_all c k [] = ok []
  format_all c k (process ∷ plist) = do
    event ← format_one c k process
    events ← format_all c k plist
    ok (event ∷ events)

  unfoldable pub set_one :
      ℤ → State d → Result (ProcState d × Bool) × ℕ → Result (ProcState d) × State d
  set_one pid st (err e, boot) = (err (wrap "error fetching PID" e), record st { boot_time = boot })
  set_one pid st (panic, boot) = (panic, record st { boot_time = boot })
  set_one pid st (ok (status, saved), boot) =
      (ok status, record { procs_map = set_pid d pid status st.procs_map; boot_time = boot })

  -- `GetSelf`, whose process id is `os.Getpid()`.
  unfoldable pub get_self : Options → Calls d → State d → ℤ → Result (ProcState d) × State d
  get_self c k st self = set_one self st (pid_fill d c k st self false)

  unfoldable pub event_of :
      Options → Calls d → Result (ProcState d) × State d → Result ProcEvent × State d
  event_of c k (r, st) = ((do status ← r; get_process_event c k status), st)

  unfoldable pub get_one : Options → Calls d → State d → ℤ → Result ProcEvent × State d
  get_one c k st pid = event_of c k (set_one pid st (pid_fill d c k st pid false))

  module _
      (sort_slice : (ProcState d → ProcState d → Bool)
        → List (ProcState d)
        → List (ProcState d)) where
    unfoldable pub report :
        Options → Calls d → Result (Found d) × State d → Result (List (ProcEvent × M d.f)) × State d
    report c k (err e, st) = (err (wrap "error gathering PIDs" e), st)
    report c k (panic, st) = (panic, st)
    report c k (ok (pid_map, plist), st) = (
      format_all c k (include_top_processes d sort_slice c.include_top plist),
      record st { procs_map = set_map d pid_map st.procs_map },
    )

    -- `Get`: an event and a root event for each process, in two lists that the model pairs.
    unfoldable pub get : Options → Calls d → State d → Result (List (ProcEvent × M d.f)) × State d
    get c k st = if is_empty c.procs then (ok [], st) else report c k (fetch_pids d c k st)

-- ===== src/Process/Init.antt =====
-- process_common.go and process.go: Init, ListStates and GetPIDState. `compile` is `match.Compile` of
-- github.com/elastic/elastic-agent-libs.
use elastic_agent_system_met.Base.{
  ℕ, Bool, true, false, not, if◌then◌else◌, List, [], ◌∷◌, Bytes, codes, Option, none, some,
  is_empty, proc_not_exist, errors_is_cgroups_missing, wrap, Result, ok, err, panic, ◌>>=◌,
  wrap_err,
}
use elastic_agent_system_met.Base.Int.{ℤ, pos}
use elastic_agent_system_met.Go.Files.{Files}
use elastic_agent_system_met.Resolve.{Resolver, new_test_resolver, as_resolver}
use elastic_agent_system_met.Cgroup.Paths.{Reader}
use elastic_agent_system_met.Process.Types.{Deps, ProcState, PidState}
use elastic_agent_system_met.Process.Info.{get_info_for_pid}
use elastic_agent_system_met.Process.Track.{new_procs_track}
use elastic_agent_system_met.Process.Stats.{Options, Calls}
use elastic_agent_system_met.Process.Fetch.{Found, fetch_pids}

abbrev pub Matcher : Type 0
Matcher = Bytes → Bool

-- What the caller sets in `Stats`; the matchers of the options are not read.
pub record Config : Type 0 where
  pub hostfs : Option Resolver
  pub env_whitelist : List Bytes
  pub options : Options

-- What `Init` leaves in `Stats`.
pub record Started : Type 0 where
  pub hostfs : Resolver
  pub options : Options
  pub cgroups : Option Reader

abbrev pub or_root : Option Resolver → Resolver
or_root none = as_resolver (new_test_resolver (codes "/"))
or_root (some hostfs) = hostfs

module _ (compile : Bytes → Result Matcher) where
  unfoldable pub compile_all : List Bytes → Result (List Matcher)
  compile_all [] = ok []
  compile_all (pattern' ∷ patterns) = do
    reg ← wrap_err "failed to compile regexp" (compile pattern')
    regs ← compile_all patterns
    ok (reg ∷ regs)

  unfoldable pub with_reader : Resolver → Options → Result Reader → Result Started
  with_reader hostfs options (ok reader) =
      ok (record { hostfs = hostfs; options = options; cgroups = some reader })
  with_reader hostfs options (err e) =
      if errors_is_cgroups_missing e
      then ok (record {
        hostfs = hostfs;
        options = record options { enable_cgroups = false };
        cgroups = none;
      })
      else err (wrap "error initializing cgroup reader" e)
  with_reader hostfs options panic = panic

  unfoldable pub start_cgroups : Resolver → Options → Result Reader → Result Started
  start_cgroups hostfs options reader =
      if options.enable_cgroups
      then with_reader hostfs options reader
      else ok (record { hostfs = hostfs; options = options; cgroups = none })

  -- `reader` is what `cgroup.NewReaderOptions` gives.
  unfoldable pub init : Config → Result Reader → Result Started
  init c reader =
      if is_empty c.options.procs
      then ok (record { hostfs = or_root c.hostfs; options = c.options; cgroups = none })
      else (do
        proc_regexps ← compile_all c.options.procs
        env_regexps ← compile_all c.env_whitelist
        start_cgroups (or_root c.hostfs)
            (record (c.options) { proc_regexps = proc_regexps; env_regexps = env_regexps }) reader)

  abbrev pub states_config : Resolver → Config
  states_config hostfs = record {
    hostfs = some hostfs;
    env_whitelist = [];
    options = record {
      procs = codes ".*" ∷ [];
      cpu_ticks = false;
      cache_cmd_line = false;
      include_top = record { enabled = false; by_cpu = pos 0; by_memory = pos 0 };
      enable_cgroups = false;
      enable_network = false;
      network_metrics = [];
      skip_extended = true;
      proc_regexps = [];
      env_regexps = [];
    };
  }

  module _ (d : Deps) where
    unfoldable pub list_found : Result (Found d) → Result (List (ProcState d))
    list_found r = do (pid_map, plist) ← wrap_err "error gathering PIDs" r; ok plist

    unfoldable pub states_of : Calls d → ℕ → Started → Result (List (ProcState d))
    unfolding list_found
    states_of k boot started =
        list_found
          (fetch_pids d started.options k
            (record { procs_map = new_procs_track d; boot_time = boot })).0

    -- `ListStates`; `boot` is the package variable bootTime.
    unfoldable pub list_states : Calls d → ℕ → Result (List (ProcState d))
    list_states k boot = do
      started ←
          wrap_err "error initializing process collectors"
            (init (states_config k.host.hostfs) (err proc_not_exist))
      states_of k boot started

-- `GetPIDState`; `exists` is `psutil.PidExistsWithContext`.
unfoldable pub get_pid_state :
    (d : Deps) → (ℤ → Result Bool) → Files → Resolver → ℤ → Result PidState
get_pid_state d exists files hostfs pid = do
  found ← wrap_err "Error trying to find process" (exists pid)
  if not found then err proc_not_exist else (do
    proc_state ← wrap_err "error getting state info" (get_info_for_pid d files hostfs pid)
    ok proc_state.state)

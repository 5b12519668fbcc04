-- ===== src/Process/Laws/Started.antt =====
-- ListStates.
use elastic_agent_system_met.Base.{ℕ, List, [], ◌∷◌, ◌≡◌, refl, ◌≢◌, Bytes, codes, Result, ok, All}
use elastic_agent_system_met.Process.Types.{Deps}
use elastic_agent_system_met.Process.Track.{new_procs_track}
use elastic_agent_system_met.Process.Stats.{Calls}
use elastic_agent_system_met.Process.Fetch.{Found}
use elastic_agent_system_met.Process.Init.{
  Matcher, compile_all, start_cgroups, init, states_config, list_found, states_of, list_states,
}
use elastic_agent_system_met.Process.Laws.Total.{Gives, fetch_pids-Gives}

module _ (compile : Bytes → Result Matcher) (d : Deps) where
  list_found-Gives : (r : Result (Found d)) → Gives d r → Gives d (list_found compile d r)
  unfolding list_found
  list_found-Gives r ((pid_map, plist), e) = (plist, rw e refl)

  -- `ListStates` returns its list whenever the pattern ".*" compiles, /proc can be listed and no name in
  -- it is empty, whatever the files of the processes are.
  list_states-Gives :
      (k : Calls d) (boot : ℕ) (names : List Bytes) (m : Matcher)
      → compile (codes ".*") ≡ ok m
      → k.host.read_dir (k.host.hostfs.resolve_host_fs (codes "proc")) ≡ ok names
      → All (λ n. n ≢ []) names
      → Gives d (list_states compile d k boot)
  unfolding list_states init compile_all start_cgroups states_of
  list_states-Gives k boot names m compiled listed h = rw compiled (
      list_found-Gives _ (
        fetch_pids-Gives d
          (record ((states_config compile k.host.hostfs).options) {
            proc_regexps = m ∷ [];
            env_regexps = [];
          })
          k (record { procs_map = new_procs_track d; boot_time = boot }) names refl listed h))

-- ===== src/Process/Fetch.antt =====
-- process.go and process_linux_common.go: pidIter and FetchPids, which read every process.
use elastic_agent_system_met.Base.{
  Bool, true, false, if◌then◌else◌, List, [], ◌∷◌, ◌++◌, Bytes, codes, Option, none, some, Result,
  ok, err, panic, ◌>>=◌, wrap,
}
use elastic_agent_system_met.Base.Int.{ℤ}
use elastic_agent_system_met.Go.Numbers.{atoi}
use elastic_agent_system_met.Go.Maps.{insert}
use elastic_agent_system_met.Base.Int.{int_comparable}
use elastic_agent_system_met.Process.Types.{Deps, ProcState}
use elastic_agent_system_met.Process.Info.{dir_is_pid}
use elastic_agent_system_met.Process.Track.{ProcsMap}
use elastic_agent_system_met.Process.Stats.{Options, Calls, State, pid_fill}

module _ (d : Deps) where
  abbrev pub Found : Type 0
  Found = ProcsMap d × List (ProcState d)

  unfoldable pub add_found : ℤ → Found → Result (ProcState d × Bool) → Result Found
  add_found pid found (err e) = ok found
  add_found pid found panic = panic
  add_found pid (proc_map, proclist) (ok (status, saved)) =
      if saved
      then ok (insert pid status proc_map, proclist ++ (status ∷ []))
      else ok (proc_map, proclist)

  unfoldable pub pid_iter : Options → Calls d → State d → ℤ → Found → Result Found × State d
  pid_iter c k st pid found =
      let (filled, boot) = pid_fill d c k st pid true in
      (add_found pid found filled, record st { boot_time = boot })

  -- The id of a directory's name; none for a name that is skipped.
  unfoldable pub pid_of : Bytes → Bool → Option ℤ
  pid_of name false = none
  pid_of name true = elim (atoi name) [ ok pid ↦ some pid | err e ↦ none | panic ↦ none ]

  unfoldable pub step_name :
      Options → Calls d → State d → Found → Result (Option ℤ) → Result Found × State d
  step_name c k st found (ok none) = (ok found, st)
  step_name c k st found (ok (some pid)) = pid_iter c k st pid found
  step_name c k st found (err e) = (err e, st)
  step_name c k st found panic = (panic, st)

  unfoldable pub fetch_names :
      Options → Calls d → List Bytes → Result Found × State d → Result Found × State d
  fetch_names c k [] s = s
  fetch_names c k (name ∷ names) (err e, st) = (err e, st)
  fetch_names c k (name ∷ names) (panic, st) = (panic, st)
  fetch_names c k (name ∷ names) (ok found, st) =
      fetch_names c k names
        (step_name c k st found (do is_pid ← dir_is_pid name; ok (pid_of name is_pid)))

  unfoldable pub fetch_listed :
      Options → Calls d → State d → Result (List Bytes) → Result Found × State d
  fetch_listed c k st (ok names) = fetch_names c k names (ok ([], []), st)
  fetch_listed c k st (err e) = (err (wrap "error reading from procfs" e), st)
  fetch_listed c k st panic = (panic, st)

  unfoldable pub fetch_pids : Options → Calls d → State d → Result Found × State d
  fetch_pids c k st =
      fetch_listed c k st (k.host.read_dir (k.host.hostfs.resolve_host_fs (codes "proc")))

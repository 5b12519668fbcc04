-- ===== src/Process/Track.antt =====
-- process_common.go: ProcsTrack, the processes of the last sample by their ids. Its lock makes each
-- method one step.
use elastic_agent_system_met.Base.{List, [], Option}
use elastic_agent_system_met.Base.Int.{ℤ, int_comparable}
use elastic_agent_system_met.Go.Maps.{lookup, insert}
use elastic_agent_system_met.Process.Types.{Deps, ProcState}

module _ (d : Deps) where
  abbrev pub ProcsMap : Type 0
  ProcsMap = List (ℤ × ProcState d)

  pub record ProcsTrack : Type 0 where
    pub pids : ProcsMap

  abbrev pub new_procs_track : ProcsTrack
  new_procs_track = record { pids = [] }

  unfoldable pub get_pid : ℤ → ProcsTrack → Option (ProcState d)
  get_pid pid pm = lookup pid pm.pids

  unfoldable pub set_pid : ℤ → ProcState d → ProcsTrack → ProcsTrack
  set_pid pid ps pm = record { pids = insert pid ps pm.pids }

  unfoldable pub set_map : ProcsMap → ProcsTrack → ProcsTrack
  set_map pids pm = record { pids = pids }

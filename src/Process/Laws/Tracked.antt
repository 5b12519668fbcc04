-- ===== src/Process/Laws/Tracked.antt =====
-- The processes that the collector remembers.
use elastic_agent_system_met.Base.{
  ℕ, Bool, true, false, List, [], ◌∷◌, ◌≡◌, refl, ◌∙◌, Option, none, some, Result, ok, err, panic,
  Bytes, codes, ◌>>=◌, is_empty, if◌then◌else◌,
}
use elastic_agent_system_met.Base.Int.{ℤ, int_comparable, int_eq}
use elastic_agent_system_met.Go.Maps.{lookup, lookup-insert}
use elastic_agent_system_met.Process.Types.{Deps, ProcState}
use elastic_agent_system_met.Process.Info.{dir_is_pid}
use elastic_agent_system_met.Process.Track.{get_pid, set_pid, set_map}
use elastic_agent_system_met.Process.Stats.{Options, Calls, State, pid_fill}
use elastic_agent_system_met.Process.Fetch.{
  Found, pid_of, pid_iter, step_name, fetch_names, fetch_listed, fetch_pids,
}
use elastic_agent_system_met.Process.Report.{set_one, get_self, get_one, event_of, get, report}

module _ (d : Deps) where
  -- The collector after `GetOne` or `GetSelf` of `pid`, by what `pidFill` gave.
  abbrev pub AfterOne : State d → ℤ → Result (ProcState d × Bool) → State d → Type 0
  AfterOne st pid (ok (status, saved)) st' =
      (q : ℤ)
      → get_pid d q st'.procs_map ≡ (if int_eq pid q then some status else get_pid d q st.procs_map)
  AfterOne st pid (err e) st' = st'.procs_map ≡ st.procs_map
  AfterOne st pid panic st' = st'.procs_map ≡ st.procs_map

  set_one-AfterOne :
      (st : State d) (pid : ℤ) (r : Result (ProcState d × Bool)) (boot : ℕ)
      → AfterOne st pid r (set_one d pid st (r, boot)).1
  unfolding set_one get_pid set_pid
  set_one-AfterOne st pid (ok (status, saved)) boot =
      λ q. lookup-insert pid q status st.procs_map.pids
  set_one-AfterOne st pid (err e) boot = refl
  set_one-AfterOne st pid panic boot = refl

  -- `GetOne` and `GetSelf` remember the process that was read under its id and leave the other ids as
  -- they are; if the process cannot be read, they remember what they did before.
  pub get_one-AfterOne :
      (c : Options) (k : Calls d) (st : State d) (pid : ℤ)
      → AfterOne st pid (pid_fill d c k st pid false).0 (get_one d c k st pid).1
        × AfterOne st pid (pid_fill d c k st pid false).0 (get_self d c k st pid).1
  unfolding get_one get_self event_of
  get_one-AfterOne c k st pid =
      let (r, boot) = pid_fill d c k st pid false in
      (set_one-AfterOne st pid r boot, set_one-AfterOne st pid r boot)

  -- The collector after `Get`, by what `FetchPids` gave.
  abbrev pub AfterGet : State d → Result (Found d) → State d → Type 0
  AfterGet st (ok (pid_map, plist)) st' = (q : ℤ) → get_pid d q st'.procs_map ≡ lookup q pid_map
  AfterGet st (err e) st' = st'.procs_map ≡ st.procs_map
  AfterGet st panic st' = st'.procs_map ≡ st.procs_map

  add_found_name-keeps :
      (c : Options) (k : Calls d) (st : State d) (found : Found d) (pid : Result (Option ℤ))
      → (step_name d c k st found pid).1.procs_map ≡ st.procs_map
  unfolding step_name pid_iter
  add_found_name-keeps c k st found (ok none) = refl
  add_found_name-keeps c k st found (ok (some pid)) = refl
  add_found_name-keeps c k st found (err e) = refl
  add_found_name-keeps c k st found panic = refl

  fetch_names-keeps :
      (c : Options) (k : Calls d) (names : List Bytes) (r : Result (Found d)) (st : State d)
      → (fetch_names d c k names (r, st)).1.procs_map ≡ st.procs_map
  unfolding fetch_names
  fetch_names-keeps c k [] r st = refl
  fetch_names-keeps c k (name ∷ names) (err e) st = refl
  fetch_names-keeps c k (name ∷ names) panic st = refl
  fetch_names-keeps c k (name ∷ names) (ok found) st =
      let pid = (do is_pid ← dir_is_pid name; ok (pid_of d name is_pid)) in
      let (r, next) = step_name d c k st found pid in
      fetch_names-keeps c k names r next ∙ add_found_name-keeps c k st found pid

  fetch_listed-keeps :
      (c : Options) (k : Calls d) (st : State d) (names : Result (List Bytes))
      → (fetch_listed d c k st names).1.procs_map ≡ st.procs_map
  unfolding fetch_listed
  fetch_listed-keeps c k st (ok names) = fetch_names-keeps c k names (ok ([], [])) st
  fetch_listed-keeps c k st (err e) = refl
  fetch_listed-keeps c k st panic = refl

  module _
      (sort_slice : (ProcState d → ProcState d → Bool)
        → List (ProcState d)
        → List (ProcState d)) where
    report-AfterGet :
        (c : Options) (k : Calls d) (st : State d) (r : Result (Found d)) (next : State d)
        → next.procs_map ≡ st.procs_map
        → AfterGet st r (report d sort_slice c k (r, next)).1
    unfolding report get_pid set_map
    report-AfterGet c k st (ok (pid_map, plist)) next h = λ q. refl
    report-AfterGet c k st (err e) next h = h
    report-AfterGet c k st panic next h = h

    -- `Get` with a pattern of processes remembers every process that was fetched and matched, not only
    -- those that it reports, and forgets the others; if the fetch fails, it remembers what it did
    -- before. With no pattern nothing changes.
    pub get-AfterGet :
        (c : Options) (k : Calls d) (st : State d)
        → (is_empty c.procs ≡ false
            → AfterGet st (fetch_pids d c k st).0 (get d sort_slice c k st).1)
          × (is_empty c.procs ≡ true → (get d sort_slice c k st).1 ≡ st)
    unfolding get fetch_pids
    get-AfterGet c k st =
        let names = k.host.read_dir (k.host.hostfs.resolve_host_fs (codes "proc")) in
        let (r, next) = fetch_listed d c k st names in
        (
          (λ some_pattern.
              rw some_pattern (report-AfterGet c k st r next (fetch_listed-keeps c k st names))),
          (λ no_pattern. rw no_pattern refl),
        )

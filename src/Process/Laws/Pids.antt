-- ===== src/Process/Laws/Pids.antt =====
-- The id of a process that is read, and the map against the list of `FetchPids`.
pub mod Agree
use elastic_agent_system_met.Base.{
  ℕ, codes, Bool, true, false, List, [], ◌∷◌, ◌++◌, ◌≡◌, refl, sym, ◌∙◌, ap, ◌⊎◌, inl, inr, Option,
  none, some, Result, ok, err, panic, String, wrap_err, ◌>>=◌, Bytes, Bool-cases, arith,
  if◌then◌else◌, Error, is_empty, leb, length, not, ◌&&◌, is_not_exist, ◌||◌, index, get_elem?,
}
use elastic_agent_system_met.Base.Int.{ℤ, pos, int_comparable, int_eq, int_eq_iff}
use elastic_agent_system_met.Base.Returns.{
  Returns, Returns-wrap_err, Returns-if, Returns-bind, Returns-then,
}
use elastic_agent_system_met.Go.Maps.{lookup, insert, lookup-insert}
use elastic_agent_system_met.Go.Strings.{fields, join}
use elastic_agent_system_met.Go.Numbers.Prefixed.{scan_value, scan_word}
use elastic_agent_system_met.Network.{NetworkCountersInfo}
use elastic_agent_system_met.Go.Files.{File, content, failed}
use elastic_agent_system_met.Libs.Ints.{OptIntLaws}
use elastic_agent_system_met.Process.Types.{Deps, ProcState, ProcMemInfo, ProcCpuInfo}
use elastic_agent_system_met.Process.Info.{
  extract_comm, index_of, last_index_of, scan_ids, read_ids, info_of_stat, info_of_file,
  get_info_for_pid, dir_is_pid,
}
use elastic_agent_system_met.Process.Pid.{
  Host, get_mem_data, get_cpu_time, get_args, get_fd_stats, get_proc_string_data, get_user,
}
use elastic_agent_system_met.Process.Fill.{
  args_or, strings_or_empty, fill_files, fill_with_cpu, fill_with_memory, fill_pid_metrics,
}
use elastic_agent_system_met.Process.Percent.{get_proc_cpu_percentage, with_share, cpu_share}
use elastic_agent_system_met.Process.Track.{ProcsTrack, get_pid}
use elastic_agent_system_met.Process.Stats.{
  Options, Calls, State, reuse, cache_cmd_line, with_cmdline, add_cgroups, take_network,
  add_network, add_total_value, add_percent, post_process, finish, fill_known, fill_info, pid_fill,
  match_process, is_whitelisted_env_var,
}
use elastic_agent_system_met.Process.Fetch.{
  Found, add_found, pid_iter, pid_of, step_name, fetch_names, fetch_listed, fetch_pids,
}

module _ (d : Deps) (pid : ℤ) where
  abbrev pub HasPid : ProcState d → Type 0
  HasPid p = p.pid ≡ d.i.int_with pid

  HasPid-info : (text : Bytes) → Returns HasPid (info_of_stat d pid text)
  unfolding info_of_stat read_ids scan_ids
  HasPid-info text =
      Returns-bind HasPid (extract_comm text (index_of b'(' text) (last_index_of b')' text)) _
        (λ (name, rest). Returns-if HasPid (leb (length (fields rest)) 36) _ _ tt (
          Returns-bind HasPid (index (get_elem? (fields rest) 0)) _ (λ state_field.
            Returns-bind HasPid (index (get_elem? (fields rest) 1)) _ (λ ppid_field.
              Returns-bind HasPid (index (get_elem? (fields rest) 2)) _ (λ pgrp_field.
                let interests = join (codes " ") (state_field ∷ ppid_field ∷ pgrp_field ∷ []) in
                Returns-bind HasPid (scan_word interests) _ (λ (proc_state, r1).
                  Returns-bind HasPid (scan_value r1) _ (λ (ppid, r2).
                    Returns-bind HasPid (scan_value r2) _ (λ (pgid, r3).
                      Returns-bind HasPid (index (get_elem? proc_state 0)) _ (λ c. refl)))))))))

  HasPid-file : (file : File) → Returns HasPid (info_of_file d pid file)
  unfolding info_of_file
  HasPid-file (content text) = HasPid-info text
  HasPid-file (failed e) = Returns-if HasPid (is_not_exist e) _ _ tt tt

  HasPid-fill_files :
      (h : Host) (filter : Bytes → Bool) (state : ProcState d) (memory : ProcMemInfo d)
      (cpu : ProcCpuInfo d)
      → HasPid state
      → Returns HasPid (fill_files d h pid filter state memory cpu)
  unfolding fill_files
  HasPid-fill_files h filter state memory cpu e =
      Returns-bind HasPid (args_or (get_args h pid) state.args) _ (λ args.
        Returns-bind HasPid (wrap_err "error getting FD metrics" (get_fd_stats d h pid)) _ (λ fd.
          Returns-bind HasPid (strings_or_empty (get_proc_string_data h pid)) _ (λ (exe, cwd).
            Returns-bind HasPid (wrap_err "error creating username" (get_user h pid)) _
              (λ username. e))))

  HasPid-fill_with_memory :
      (h : Host) (filter : Bytes → Bool) (state : ProcState d) (boot : ℕ)
      (memory : Result (ProcMemInfo d))
      → HasPid state
      → Returns HasPid (fill_with_memory d h pid filter state boot memory).0
  unfolding fill_with_memory fill_with_cpu
  HasPid-fill_with_memory h filter state boot (ok memory) e =
      let (cpu, stored) = get_cpu_time d h pid boot in
      Returns-bind HasPid (wrap_err "error getting CPU data" cpu) _
        (λ c. HasPid-fill_files h filter state memory c e)
  HasPid-fill_with_memory h filter state boot (err x) e = tt
  HasPid-fill_with_memory h filter state boot panic e = tt

  HasPid-reuse :
      (c : Options) (p : ProcState d) (last : Option (ProcState d))
      → HasPid p
      → HasPid (reuse d c p last)
  unfolding reuse
  HasPid-reuse c p none e = e
  HasPid-reuse c p (some last) e = elim (Bool-cases c.cache_cmd_line) [
    | inl cached ↦ rw cached e
    | inr fresh ↦ rw fresh e
  ]

  HasPid-with_cmdline : (p : ProcState d) → HasPid p → HasPid (with_cmdline d p)
  unfolding with_cmdline
  HasPid-with_cmdline p e = elim (Bool-cases (not (is_empty p.args) && is_empty p.cmdline)) [
    | inl joined ↦ rw joined e
    | inr kept ↦ rw kept e
  ]

  HasPid-add_cgroups :
      (c : Options) (k : Calls d) (last : Option (ProcState d)) (p : ProcState d)
      → HasPid p
      → Returns HasPid (add_cgroups d c k last p)
  unfolding add_cgroups
  HasPid-add_cgroups c k last p e =
      Returns-if HasPid c.enable_cgroups _ (ok p)
        (Returns-bind HasPid
          (wrap_err "cgroups.GetStatsForPid" (k.cgroup_stats (d.i.value_or p.pid (pos 0)))) _
          (λ stats. e))
        e

  HasPid-take_network :
      (p : ProcState d) (n : Option (Option NetworkCountersInfo))
      → HasPid p
      → HasPid (take_network d p n)
  unfolding take_network
  HasPid-take_network p none e = e
  HasPid-take_network p (some n) e = e

  HasPid-add_network :
      (c : Options) (k : Calls d) (at : ℤ) (p : ProcState d)
      → HasPid p
      → HasPid (add_network d c k at p)
  unfolding add_network
  HasPid-add_network c k at p e = elim (Bool-cases c.enable_network) [
    | inl on ↦ rw on (HasPid-take_network p (k.network_counters at) e)
    | inr off ↦ rw off e
  ]

  HasPid-add_total_value : (p : ProcState d) → HasPid p → HasPid (add_total_value d p)
  unfolding add_total_value
  HasPid-add_total_value p e = elim (Bool-cases (d.o.exists p.cpu.total.ticks)) [
    | inl there ↦ rw there e
    | inr missing ↦ rw missing e
  ]

  HasPid-add_percent :
      (k : Calls d) (last : Option (ProcState d)) (p : ProcState d)
      → HasPid p
      → Returns HasPid (add_percent d k last p)
  unfolding add_percent get_proc_cpu_percentage with_share
  HasPid-add_percent k none p e = e
  HasPid-add_percent k (some last) p e =
      Returns-if HasPid (d.o.is_zero last.cpu.total.ticks || d.o.is_zero p.cpu.total.ticks) (ok p) _
        e
        (Returns-if HasPid (d.f.is_nan (cpu_share d last p)) (ok p) _ e
          (Returns-bind HasPid k.cpus _ (λ n. e)))

  HasPid-post_process :
      (c : Options) (k : Calls d) (pm : ProcsTrack d) (status : ProcState d)
      → HasPid status
      → Returns HasPid (post_process d c k pm pid status)
  unfolding post_process
  HasPid-post_process c k pm status e =
      let p0 = with_cmdline d status in
      let last = get_pid d (d.i.value_or p0.pid (pos 0)) pm in
      let p1 = record p0 { sample_time = k.now pid } in
      Returns-then HasPid HasPid (add_cgroups d c k last p1) _
        (HasPid-add_cgroups c k last p1 (HasPid-with_cmdline status e))
        (λ p2 h.
          HasPid-add_percent k last (add_total_value d (add_network d c k pid p2))
            (HasPid-add_total_value (add_network d c k pid p2) (HasPid-add_network c k pid p2 h)))

  abbrev pub Saved : ProcState d × Bool → Type 0
  Saved r = HasPid r.0

  HasPid-fill_known :
      (c : Options) (k : Calls d) (st : State d) (filter : Bool) (status : ProcState d)
      → HasPid status
      → Returns Saved (fill_known d c k st pid filter status).0
  unfolding fill_known finish fill_pid_metrics
  HasPid-fill_known c k st filter status e =
      elim (Bool-cases (filter && not (match_process c status.name))) [
        | inl left_out ↦ rw left_out e
        | inr wanted ↦ rw wanted (
            Returns-then Saved HasPid
              (wrap_err "FillPidMetrics"
                (fill_with_memory d k.host pid (is_whitelisted_env_var c) status st.boot_time
                  (get_mem_data d k.host pid)).0)
              _
              (Returns-wrap_err HasPid "FillPidMetrics" _ (
                HasPid-fill_with_memory k.host (is_whitelisted_env_var c) status st.boot_time
                  (get_mem_data d k.host pid) e))
              (λ p h.
                Returns-then Saved HasPid (post_process d c k st.procs_map pid p) _
                  (HasPid-post_process c k st.procs_map p h) (λ q g. g)))
      ]

  HasPid-fill_info :
      (c : Options) (k : Calls d) (st : State d) (filter : Bool) (r : Result (ProcState d))
      → Returns HasPid r
      → Returns Saved (fill_info d c k st pid filter r).0
  unfolding fill_info cache_cmd_line
  HasPid-fill_info c k st filter (ok status) e = elim (Bool-cases c.skip_extended) [
    | inl basic ↦ rw basic e
    | inr extended ↦ simp extended (
        HasPid-fill_known c k st filter (cache_cmd_line d c st.procs_map status)
          (HasPid-reuse c status (get_pid d (d.i.value_or status.pid (pos 0)) st.procs_map) e))
  ]
  HasPid-fill_info c k st filter (err x) e = tt
  HasPid-fill_info c k st filter panic e = tt

  -- A process that is read has the id that was asked for.
  pub pid_fill-HasPid :
      (c : Options) (k : Calls d) (st : State d) (filter : Bool)
      → Returns Saved (pid_fill d c k st pid filter).0
  unfolding pid_fill get_info_for_pid
  pid_fill-HasPid c k st filter = HasPid-fill_info c k st filter _ (HasPid-file _)

-- ===== src/Process/Laws/Total.antt =====
-- GetInfoForPid and FetchPids end without a panic.
use elastic_agent_system_met.Base.{
  ℕ, suc, arith, Bool, true, false, List, [], ◌∷◌, ◌≡◌, refl, ◌∙◌, ap, ◌≢◌, inl, inr, Bytes, codes,
  Option, none, some, Result, ok, err, panic, index, get_elem?, length, leb, ◌||◌, ◌&&◌, ◌+◌, All,
  Bool-cases, is_not_exist,
}
use elastic_agent_system_met.Base.Int.{ℤ}
use elastic_agent_system_met.Base.Returns.{NoPanic, NoPanic-if, NoPanic-bind, NoPanic-then}
use elastic_agent_system_met.Go.Strings.{fields, join}
use elastic_agent_system_met.Go.Slices.{slice, slice_from}
use elastic_agent_system_met.Go.Numbers.Prefixed.{scan_value, scan_word}
use elastic_agent_system_met.Go.Numbers.PrefixedLaws.{
  NoPanic-scan_value, NoPanic-scan_word, scan_word-ne_nil,
}
use elastic_agent_system_met.Go.Files.{Files, File, content, failed}
use elastic_agent_system_met.Resolve.{Resolver}
use elastic_agent_system_met.Process.Types.{Deps, ProcState}
use elastic_agent_system_met.Process.Info.{
  extract_comm, comm_error, index_of, last_index_of, scan_ids, read_ids, info_of_stat, info_of_file,
  get_info_for_pid, dir_is_pid,
}
use elastic_agent_system_met.Process.Stats.{Options, Calls, State, fill_info, pid_fill}
use elastic_agent_system_met.Process.Fetch.{
  Found, add_found, pid_iter, pid_of, step_name, fetch_names, fetch_listed, fetch_pids,
}

NoPanic-extract_comm : (text : Bytes) (l r : Option ℕ) → NoPanic (extract_comm text l r)
unfolding extract_comm comm_error slice slice_from
NoPanic-extract_comm text none r = tt
NoPanic-extract_comm text (some l) none = tt
NoPanic-extract_comm text (some l) (some r) =
    elim (Bool-cases (leb r l || leb (length text) (r + 2))) [
      | inl missing ↦ rw missing tt
      | inr found ↦
          let low : leb (suc l) r ≡ true = ground (arith, found) in
          let high : leb r (length text) ≡ true = ground (arith, found) in
          let behind : leb (r + 2) (length text) ≡ true = ground (arith, found) in
          rw (found, low, high, behind) tt
    ]

NoPanic-first : (w : Bytes) → w ≢ [] → NoPanic (index (get_elem? w 0))
NoPanic-first [] n = n refl
NoPanic-first (c ∷ cs) n = tt

module _ (d : Deps) where
  NoPanic-scan_ids : (pid : ℤ) (name interests : Bytes) → NoPanic (scan_ids d pid name interests)
  unfolding scan_ids
  NoPanic-scan_ids pid name interests =
      NoPanic-then (λ r. r.0 ≢ []) (scan_word interests) _ (NoPanic-scan_word interests)
        (scan_word-ne_nil interests)
        (λ (proc_state, r1) n. NoPanic-bind (scan_value r1) _ (NoPanic-scan_value r1) (λ (ppid, r2).
          NoPanic-bind (scan_value r2) _ (NoPanic-scan_value r2) (λ (pgid, r3).
            NoPanic-bind (index (get_elem? proc_state 0)) _ (NoPanic-first proc_state n)
              (λ x. tt))))

  NoPanic-read_ids : (pid : ℤ) (name : Bytes) (ws : List Bytes) → NoPanic (read_ids d pid name ws)
  unfolding read_ids
  NoPanic-read_ids pid name [] = tt
  NoPanic-read_ids pid name (a ∷ []) = tt
  NoPanic-read_ids pid name (a ∷ b ∷ []) = tt
  NoPanic-read_ids pid name (a ∷ b ∷ c ∷ ws) =
      NoPanic-if (leb (length (a ∷ b ∷ c ∷ ws)) 36) (err _) _ tt
        (NoPanic-scan_ids pid name (join (codes " ") (a ∷ b ∷ c ∷ [])))

  NoPanic-info_of_file : (pid : ℤ) (file : File) → NoPanic (info_of_file d pid file)
  unfolding info_of_file info_of_stat
  NoPanic-info_of_file pid (failed e) = NoPanic-if (is_not_exist e) (err _) (err _) tt tt
  NoPanic-info_of_file pid (content text) =
      NoPanic-bind (extract_comm text (index_of b'(' text) (last_index_of b')' text)) _
        (NoPanic-extract_comm text (index_of b'(' text) (last_index_of b')' text))
        (λ (name, rest). NoPanic-read_ids pid name (fields rest))

  -- Reading the stat file of a process returns the process or an error, whatever the file is: no
  -- index and no bound of a slice is out of range.
  pub get_info_for_pid-NoPanic :
      (files : Files) (hostfs : Resolver) (pid : ℤ) → NoPanic (get_info_for_pid d files hostfs pid)
  unfolding get_info_for_pid
  get_info_for_pid-NoPanic files hostfs pid = NoPanic-info_of_file pid _

  -- The call returns a value.
  abbrev pub Gives : {A : Type 0} → Result A → Type 0
  Gives {A = A} r = (a : A) × (r ≡ ok a)

  add_found-Gives :
      (pid : ℤ) (found : Found d) (r : Result (ProcState d × Bool))
      → NoPanic r
      → Gives (add_found d pid found r)
  unfolding add_found
  add_found-Gives pid found (err e) h = (found, refl)
  add_found-Gives pid found panic h = absurd h
  add_found-Gives pid (pid_map, plist) (ok (status, true)) h = (_, refl)
  add_found-Gives pid (pid_map, plist) (ok (status, false)) h = (_, refl)

  NoPanic-fill_info :
      (c : Options) (k : Calls d) (st : State d) (pid : ℤ) (filter : Bool)
      (r : Result (ProcState d))
      → c.skip_extended ≡ true
      → NoPanic r
      → NoPanic (fill_info d c k st pid filter r).0
  unfolding fill_info
  NoPanic-fill_info c k st pid filter (ok status) e h = simp e tt
  NoPanic-fill_info c k st pid filter (err x) e h = tt
  NoPanic-fill_info c k st pid filter panic e h = h

  step_name-Gives :
      (c : Options) (k : Calls d) (st : State d) (found : Found d) (pid : Option ℤ)
      → c.skip_extended ≡ true
      → Gives (step_name d c k st found (ok pid)).0
  unfolding step_name pid_iter pid_fill
  step_name-Gives c k st found none e = (found, refl)
  step_name-Gives c k st found (some pid) e = add_found-Gives pid found _ (
      NoPanic-fill_info c k st pid true _ e
        (get_info_for_pid-NoPanic k.host.files k.host.hostfs pid))

  fetch_names-Gives :
      (c : Options) (k : Calls d) (names : List Bytes) (found : Found d) (st : State d)
      → c.skip_extended ≡ true
      → All (λ n. n ≢ []) names
      → Gives (fetch_names d c k names (ok found, st)).0
  unfolding fetch_names dir_is_pid
  fetch_names-Gives c k [] found st e h = (found, refl)
  fetch_names-Gives c k ([] ∷ names) found st e (n, h) = absurd (n refl)
  fetch_names-Gives c k ((b ∷ bs) ∷ names) found st e (n, h) =
      let pid = pid_of d (b ∷ bs) (leb b'0' b && leb b b'9') in
      let (next, gives) = step_name-Gives c k st found pid e in
      let (last, done) =
        fetch_names-Gives c k names next (step_name d c k st found (ok pid)).1 e h in
      (
        last,
        ap (λ r. (fetch_names d c k names (r, (step_name d c k st found (ok pid)).1)).0) gives
            ∙ done,
      )

  -- `FetchPids`, when it reads only the basic data of each process, returns its map and its list
  -- whenever /proc can be listed and no name is empty, whatever the files of the processes are.
  pub fetch_pids-Gives :
      (c : Options) (k : Calls d) (st : State d) (names : List Bytes)
      → c.skip_extended ≡ true
      → k.host.read_dir (k.host.hostfs.resolve_host_fs (codes "proc")) ≡ ok names
      → All (λ n. n ≢ []) names
      → Gives (fetch_pids d c k st).0
  unfolding fetch_pids fetch_listed
  fetch_pids-Gives c k st names e listed h = rw listed (fetch_names-Gives c k names ([], []) st e h)

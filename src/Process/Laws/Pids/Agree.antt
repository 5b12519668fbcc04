-- ===== src/Process/Laws/Pids/Agree.antt =====
-- The map that `FetchPids` returns against its list.
use elastic_agent_system_met.Base.{
  Bool, true, false, List, [], ◌∷◌, ◌++◌, ◌≡◌, refl, sym, ◌∙◌, ap, inl, inr, Option, none, some,
  Result, ok, err, panic, codes, ◌>>=◌, Bytes, Bool-cases, if◌then◌else◌,
}
use elastic_agent_system_met.Base.Int.{ℤ, pos, int_comparable, int_eq, int_eq_iff}
use elastic_agent_system_met.Base.Returns.{Returns}
use elastic_agent_system_met.Go.Maps.{lookup, lookup-insert}
use elastic_agent_system_met.Libs.Ints.{OptIntLaws}
use elastic_agent_system_met.Process.Types.{Deps, ProcState}
use elastic_agent_system_met.Process.Info.{dir_is_pid}
use elastic_agent_system_met.Process.Stats.{Options, Calls, State, pid_fill}
use elastic_agent_system_met.Process.Fetch.{
  Found, add_found, pid_iter, pid_of, step_name, fetch_names, fetch_listed, fetch_pids,
}
use elastic_agent_system_met.Process.Laws.Pids.{HasPid, Saved, pid_fill-HasPid}

module _ (d : Deps) where
  abbrev pub or_else : Option (ProcState d) → Option (ProcState d) → Option (ProcState d)
  or_else none b = b
  or_else (some a) b = some a

  -- The last process of the list with the id.
  abbrev pub last_with : ℤ → List (ProcState d) → Option (ProcState d)
  last_with q [] = none
  last_with q (p ∷ ps) =
      or_else (last_with q ps) (if d.i.comparable.same p.pid (d.i.int_with q) then some p else none)

  -- The map has, for each id, the last process of the list with that id.
  abbrev pub Agree : Found d → Type 0
  Agree (pid_map, plist) = (q : ℤ) → lookup q pid_map ≡ last_with q plist

  last_with-append :
      (q : ℤ) (ps : List (ProcState d)) (p : ProcState d)
      → last_with q (ps ++ (p ∷ []))
        ≡ (if d.i.comparable.same p.pid (d.i.int_with q) then some p else last_with q ps)
  last_with-append q [] p = refl
  last_with-append q (x ∷ ps) p =
      ap (λ r. or_else r (if d.i.comparable.same x.pid (d.i.int_with q) then some x else none))
        (last_with-append q ps p)
      ∙ elim (Bool-cases (d.i.comparable.same p.pid (d.i.int_with q))) [
        | inl same ↦ rw same
        | inr other ↦ rw other
      ]

  module _ (laws : OptIntLaws d.i) where
    same_id :
        (pid q : ℤ) (p : ProcState d)
        → HasPid d pid p
        → d.i.comparable.same p.pid (d.i.int_with q) ≡ int_eq pid q
    same_id pid q p e =
        let back = ap (λ x. d.i.value_or x (pos 0)) in
        let first = laws.value_or-int_with pid (pos 0) in
        let second = laws.value_or-int_with q (pos 0) in
        elim (Bool-cases (int_eq pid q)) [
          | inl same ↦
              (d.i.comparable.same_iff p.pid (d.i.int_with q)).1
                (e ∙ ap (λ x. d.i.int_with x) ((int_eq_iff pid q).0 same))
              ∙ sym same
          | inr other ↦ elim (Bool-cases (d.i.comparable.same p.pid (d.i.int_with q))) [
            | inr no_match ↦ no_match ∙ sym other
            | inl same ↦
                let joined = (d.i.comparable.same_iff p.pid (d.i.int_with q)).0 same in
                let equal : pid ≡ q = sym first ∙ back (sym e ∙ joined) ∙ second in
                same ∙ sym ((int_eq_iff pid q).1 equal)
          ]
        ]

    add_found-Agree :
        (pid : ℤ) (found : Found d) (r : Result (ProcState d × Bool))
        → Agree found
        → Returns (Saved d pid) r
        → Returns Agree (add_found d pid found r)
    unfolding add_found
    add_found-Agree pid found (err e) a h = a
    add_found-Agree pid found panic a h = tt
    add_found-Agree pid (pid_map, plist) (ok (status, false)) a h = a
    add_found-Agree pid (pid_map, plist) (ok (status, true)) a h = λ q.
        lookup-insert pid q status pid_map
        ∙ rw (same_id pid q status h, ← a q) at (sym (last_with-append q plist status))

    step_name-Agree :
        (c : Options) (k : Calls d) (st : State d) (found : Found d) (pid : Result (Option ℤ))
        → Agree found
        → Returns Agree (step_name d c k st found pid).0
    unfolding step_name pid_iter
    step_name-Agree c k st found (ok none) a = a
    step_name-Agree c k st found (ok (some pid)) a =
        add_found-Agree pid found (pid_fill d c k st pid true).0 a
          (pid_fill-HasPid d pid c k st true)
    step_name-Agree c k st found (err e) a = tt
    step_name-Agree c k st found panic a = tt

    fetch_names-Agree :
        (c : Options) (k : Calls d) (names : List Bytes) (r : Result (Found d)) (st : State d)
        → Returns Agree r
        → Returns Agree (fetch_names d c k names (r, st)).0
    unfolding fetch_names
    fetch_names-Agree c k [] r st a = a
    fetch_names-Agree c k (name ∷ names) (err e) st a = tt
    fetch_names-Agree c k (name ∷ names) panic st a = tt
    fetch_names-Agree c k (name ∷ names) (ok found) st a =
        let pid = (do is_pid ← dir_is_pid name; ok (pid_of d name is_pid)) in
        let (r, next) = step_name d c k st found pid in
        fetch_names-Agree c k names r next (step_name-Agree c k st found pid a)

    fetch_listed-Agree :
        (c : Options) (k : Calls d) (st : State d) (names : Result (List Bytes))
        → Returns Agree (fetch_listed d c k st names).0
    unfolding fetch_listed lookup
    fetch_listed-Agree c k st (ok names) = fetch_names-Agree c k names (ok ([], [])) st (λ q. refl)
    fetch_listed-Agree c k st (err e) = tt
    fetch_listed-Agree c k st panic = tt

    -- If `FetchPids` returns, then its map has for each id the last process of its list with that id,
    -- and no entry for the other ids.
    pub fetch_pids-Agree :
        (c : Options) (k : Calls d) (st : State d) → Returns Agree (fetch_pids d c k st).0
    unfolding fetch_pids
    fetch_pids-Agree c k st =
        fetch_listed-Agree c k st (k.host.read_dir (k.host.hostfs.resolve_host_fs (codes "proc")))

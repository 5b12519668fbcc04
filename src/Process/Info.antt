-- ===== src/Process/Info.antt =====
-- process_linux_common.go: GetInfoForPid, which reads the name, the state and the ids of a process
-- from /proc/[pid]/stat.
use elastic_agent_system_met.Base.{
  ℕ, suc, ◌+◌, Bool, ◌&&◌, ◌||◌, List, [], ◌∷◌, if◌then◌else◌, Bytes, codes, nat_comparable, length,
  get_elem?, leb, nat_eq, Option, none, some, message, esrch, is_not_exist, Result, ok, err, index,
  ◌>>=◌, wrap,
}
use elastic_agent_system_met.Base.Int.{ℤ, pos, negsuc}
use elastic_agent_system_met.Go.Strings.{fields, join}
use elastic_agent_system_met.Go.Slices.{slice, slice_from}
use elastic_agent_system_met.Go.Numbers.{itoa}
use elastic_agent_system_met.Go.Numbers.Prefixed.{scan_value, scan_word}
use elastic_agent_system_met.Go.Maps.{lookup}
use elastic_agent_system_met.Go.Files.{Files, File, content, failed}
use elastic_agent_system_met.Resolve.{Resolver}
use elastic_agent_system_met.Process.Types.{
  PidState, unknown, pid_states, Deps, ProcState, with_ids,
}

unfoldable pub one_later : Option ℕ → Option ℕ
one_later none = none
one_later (some n) = some (suc n)

-- `bytes.Index` of one byte.
unfoldable pub index_of : ℕ → Bytes → Option ℕ
unfolding one_later
index_of b [] = none
index_of b (c ∷ cs) = let rest = one_later (index_of b cs) in if nat_eq c b then some 0 else rest

unfoldable pub or_here : ℕ → ℕ → Option ℕ → Option ℕ
or_here b c none = if nat_eq c b then some 0 else none
or_here b c (some n) = some (suc n)

-- `bytes.LastIndex` of one byte.
unfoldable pub last_index_of : ℕ → Bytes → Option ℕ
unfolding or_here
last_index_of b [] = none
last_index_of b (c ∷ cs) = or_here b c (last_index_of b cs)

unfoldable pub pid_text : ℤ → Bytes
unfolding itoa
pid_text (pos n) = itoa n
pid_text (negsuc n) = b'-' ∷ itoa (suc n)

unfoldable pub dir_is_pid : Bytes → Result Bool
dir_is_pid name = do c ← index (get_elem? name 0); ok (leb b'0' c && leb c b'9')

unfoldable pub or_unknown : Option PidState → PidState
or_unknown none = unknown
or_unknown (some s) = s

unfoldable pub get_proc_state : ℕ → PidState
unfolding or_unknown lookup
get_proc_state b = or_unknown (lookup b pid_states)

unfoldable pub comm_error : {A : Type 0} → Result A
comm_error = err (message "failed to extract comm")

-- The name between the first `(` and the last `)`, and what follows the space behind it.
unfoldable pub extract_comm : Bytes → Option ℕ → Option ℕ → Result (Bytes × Bytes)
unfolding comm_error
extract_comm data' none r = comm_error
extract_comm data' (some l) none = comm_error
extract_comm data' (some l) (some r) =
    if leb r l || leb (length data') (r + 2)
    then comm_error
    else (do name ← slice data' (suc l) r; rest ← slice_from data' (r + 2); ok (name, rest))

module _ (d : Deps) where
  -- `fmt.Fscan` of the state, the parent and the group.
  unfoldable pub scan_ids : ℤ → Bytes → Bytes → Result (ProcState d)
  scan_ids pid name interests = do
    (proc_state, r1) ← scan_word interests
    (ppid, r2) ← scan_value r1
    (pgid, r3) ← scan_value r2
    state_byte ← index (get_elem? proc_state 0)
    ok (
        with_ids d name (get_proc_state state_byte) (d.i.int_with pid) (d.i.int_with ppid)
          (d.i.int_with pgid))

  unfoldable pub read_ids : ℤ → Bytes → List Bytes → Result (ProcState d)
  read_ids pid name stat_fields =
      if leb (length stat_fields) 36 then err (message "expected more stat fields") else (do
        state_field ← index (get_elem? stat_fields 0)
        ppid_field ← index (get_elem? stat_fields 1)
        pgrp_field ← index (get_elem? stat_fields 2)
        scan_ids pid name (join (codes " ") (state_field ∷ ppid_field ∷ pgrp_field ∷ [])))

  -- The text of the file.
  unfoldable pub info_of_stat : ℤ → Bytes → Result (ProcState d)
  info_of_stat pid data' = do
    (name, rest) ← extract_comm data' (index_of b'(' data') (last_index_of b')' data')
    read_ids pid name (fields rest)

  unfoldable pub info_of_file : ℤ → File → Result (ProcState d)
  info_of_file pid (content data') = info_of_stat pid data'
  info_of_file pid (failed e) =
      if is_not_exist e then err esrch else err (wrap "error reading procdir" e)

  unfoldable pub get_info_for_pid : Files → Resolver → ℤ → Result (ProcState d)
  unfolding pid_text
  get_info_for_pid files hostfs pid =
      info_of_file pid (files (hostfs.join (codes "proc" ∷ pid_text pid ∷ codes "stat" ∷ [])))

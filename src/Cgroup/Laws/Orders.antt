-- ===== src/Cgroup/Laws/Orders.antt =====
-- GetV1StatsForProcess: the controllers of a process are the keys of a map, so the order in which
-- Go ranges over them does not matter.
use mathlib.Core.List.{Mem, Permᴰ, Pairwise, mem-cons, not-mem-nil}
use mathlib.Core.HLevel.{⊥_prop, ¬_prop}
use mathlib.Core.Logic.Or
use mathlib.Core.List.Permᴰ
use elastic_agent_system_met.Base.{
  List, [], ◌∷◌, ◌≡◌, ◌≢◌, refl, sym, ◌∙◌, ap, subst, Bytes, bytes_comparable, ◌==◌, bytes_eq_iff,
  Bool-cases, inl, inr, codes, Option, none, some, Error, Result, ok, panic, ◌>>=◌, arith, wrap_err,
  is_empty, not, ◌&&◌, if◌then◌else◌, Bool, false, All,
}
use elastic_agent_system_met.Base.Int.{ℤ}
use elastic_agent_system_met.Base.Returns.{Returns, Returns-bind, Returns-then}
use elastic_agent_system_met.Go.Strings.{contains, split}
use elastic_agent_system_met.Go.Maps.{lookup}
use elastic_agent_system_met.Go.Maps.Sums.{HasDistinctKeys, insert-HasDistinctKeys}
use elastic_agent_system_met.Go.Maps.Ranges.{loop, loop-Permᴰ, bind-ok}
use elastic_agent_system_met.Go.Files.{Files, File, content, failed, scan}
use elastic_agent_system_met.Libs.{Float64, Opt}
use elastic_agent_system_met.Cgroup.Paths.{
  Reader, PathList, Controllers, ControllerPath, paths_of, chosen_path, v2_directory, add_v1_paths,
  add_v2_line, add_line, cgroup_lines, or_scan_error, paths_of_file, process_cgroup_paths,
}
use elastic_agent_system_met.Cgroup.Version.{common_path, with_id, get_common_cgroup_metadata}
use elastic_agent_system_met.Cgroup.Stats.{
  CgroupHost, StatsV1, start_v1, each_v1, get_v1_stats_for_process,
}
use elastic_agent_system_met.Cgroup.Laws.Readers.{each_v1-Permᴰ}

module _ {V : Type 0} where
  lookup_of_mem : (x : Bytes × V) (m : List (Bytes × V)) → Mem x m → ¬ (lookup (x.0) m ≡ none)
  unfolding lookup
  lookup_of_mem x [] h e = absurd (not-mem-nil h)
  lookup_of_mem x ((k, v) ∷ m) h e =
      Or.elim ⊥_prop (mem-cons.0 h) (λ g. ground (arith, e, ap (λ a. a.0) g, bytes_eq_iff k (x.0)))
        (λ t. lookup_of_mem x m t (ground (arith, e)))

  Pairwise-of_HasDistinctKeys :
      (m : List (Bytes × V)) → HasDistinctKeys m → Pairwise (λ a b. a.0 ≢ b.0) m
  Pairwise-of_HasDistinctKeys [] h = Pairwise.nil
  Pairwise-of_HasDistinctKeys ((k, v) ∷ m) (h, t) =
      Pairwise.cons (λ x i e. lookup_of_mem x m i (subst (λ key. lookup key m ≡ none) e h))
        (Pairwise-of_HasDistinctKeys m t)

abbrev HasNames : PathList → Type 0
HasNames paths = HasDistinctKeys paths.v1

add_v1_paths-HasDistinctKeys :
    (r : Reader) (path : Bytes) (subsystems : List Bytes) (v1 : Controllers)
    → HasDistinctKeys v1
    → HasDistinctKeys (add_v1_paths r path subsystems v1)
unfolding add_v1_paths
add_v1_paths-HasDistinctKeys r path [] v1 h = h
add_v1_paths-HasDistinctKeys r path (s ∷ subsystems) v1 h =
    add_v1_paths-HasDistinctKeys r path subsystems _ (insert-HasDistinctKeys s _ v1 h)

module _ (read_dir : Bytes → Result (List Bytes)) (r : Reader) where
  HasNames-add_v2_line :
      (path : Bytes) (directory : Option Bytes) (pl : PathList)
      → HasNames pl
      → Returns HasNames (add_v2_line read_dir path directory pl)
  unfolding add_v2_line
  HasNames-add_v2_line path none pl h = h
  HasNames-add_v2_line path (some directory) pl h =
      Returns-bind HasNames (wrap_err "error fetching cgroupV2 controllers" (read_dir directory)) _
        (λ names. h)

  HasNames-add_line :
      (line : Bytes) (fields : List Bytes) (pl : PathList)
      → HasNames pl
      → Returns HasNames (add_line read_dir r line fields pl)
  unfolding add_line
  HasNames-add_line line [] pl h = h
  HasNames-add_line line (a ∷ []) pl h = h
  HasNames-add_line line (a ∷ b ∷ []) pl h = h
  HasNames-add_line line (a ∷ b ∷ c ∷ []) pl h = elim (Bool-cases (contains (codes "0::/") line)) [
    | inl v2 ↦
        rw v2 (HasNames-add_v2_line (chosen_path r c) (v2_directory r (chosen_path r c)) pl h)
    | inr v1 ↦ rw v1 (add_v1_paths-HasDistinctKeys r (chosen_path r c) (split b',' b) pl.v1 h)
  ]
  HasNames-add_line line (a ∷ b ∷ c ∷ d ∷ rest) pl h = h

  HasNames-cgroup_lines :
      (lines : List Bytes) (pl : PathList)
      → HasNames pl
      → Returns HasNames (cgroup_lines read_dir r lines pl)
  unfolding cgroup_lines
  HasNames-cgroup_lines [] pl h = h
  HasNames-cgroup_lines (line ∷ lines) pl h =
      Returns-then HasNames HasNames (add_line read_dir r line (split b':' line) pl) _
        (HasNames-add_line line (split b':' line) pl h)
        (λ next k. HasNames-cgroup_lines lines next k)

  HasNames-or_scan_error :
      (fault : Option Error) (pl : PathList)
      → HasNames pl
      → Returns HasNames (or_scan_error read_dir fault pl)
  HasNames-or_scan_error none pl h = h
  HasNames-or_scan_error (some e) pl h = tt

  HasNames-paths_of_file : (file : File) → Returns HasNames (paths_of_file read_dir r file)
  unfolding paths_of_file
  HasNames-paths_of_file (failed e) = tt
  HasNames-paths_of_file (content text) =
      Returns-then HasNames HasNames
        (cgroup_lines read_dir r (scan text).lines (record { v1 = []; v2 = [] })) _
        (HasNames-cgroup_lines (scan text).lines _ tt)
        (λ pl k. HasNames-or_scan_error (scan text).fault pl k)

  process_cgroup_paths-HasNames :
      (files : Files) (pid : ℤ) → Returns HasNames (process_cgroup_paths read_dir files r pid)
  unfolding process_cgroup_paths
  process_cgroup_paths-HasNames files pid = HasNames-paths_of_file _

-- Every controller has a path.
abbrev pub HasPath : Bytes × ControllerPath → Type 0
HasPath (name, m) = is_empty m.controller_path ≡ false

module _ (ignore_root : Bool) where
  -- One round of the loop over the metadata; a difference ends it.
  abbrev share : Bytes × ControllerPath → Bytes → Result Bytes
  share (name, m) path =
      if not m.is_v2 && (ignore_root && m.controller_path == codes "/")
      then ok path
      else if is_empty path
      then ok m.controller_path
      else if path == m.controller_path
      then ok path
      else panic

  abbrev ok_or_panic : Option Bytes → Result Bytes
  ok_or_panic none = panic
  ok_or_panic (some path) = ok path

  common_path-loop :
      (cs : Controllers) (path : Bytes)
      → ok_or_panic (common_path ignore_root (paths_of cs) path) ≡ loop share cs path
  unfolding common_path loop paths_of
  common_path-loop [] path = refl
  common_path-loop ((name, m) ∷ cs) path =
      ground (arith, common_path-loop cs path, common_path-loop cs m.controller_path)

  share_commute :
      (a b : Bytes × ControllerPath)
      → HasPath a × HasPath b
      → (s t : Bytes) → (share a s >>= share b) ≡ ok t
      → (share b s >>= share a) ≡ ok t
  share_commute (n, a) (k, b) (h, g) s t e = ground (
    arith,
    h,
    g,
    e,
    bytes_eq_iff a.controller_path b.controller_path,
    bytes_eq_iff b.controller_path a.controller_path,
    bytes_eq_iff s a.controller_path,
    bytes_eq_iff s b.controller_path,
  )

  some_of_ok : (x : Option Bytes) (t : Bytes) → ok_or_panic x ≡ ok t → x ≡ some t
  some_of_ok none t e = cc
  some_of_ok (some path) t e = cc

  common_path-Permᴰ :
      {cs ds : Controllers}
      → Permᴰ cs ds
      → Pairwise (λ a b. HasPath a × HasPath b) cs
      → (t : Bytes) → common_path ignore_root (paths_of cs) [] ≡ some t
      → common_path ignore_root (paths_of ds) [] ≡ some t
  common_path-Permᴰ {cs} {ds} d p t e = some_of_ok _ t (
      common_path-loop ds []
      ∙ loop-Permᴰ share (λ a b. HasPath a × HasPath b) (λ a b. hlevel) (λ a b (g, k). (k, g))
          share_commute d p [] t (sym (common_path-loop cs []) ∙ ap ok_or_panic e))

  same_option :
      (x y : Option Bytes)
      → ((t : Bytes) → x ≡ some t → y ≡ some t)
      → ((t : Bytes) → y ≡ some t → x ≡ some t)
      → x ≡ y
  same_option none none g k = refl
  same_option none (some t) g k = k t refl
  same_option (some t) y g k = sym (g t refl)

  All-mem :
      (cs : Controllers) → All HasPath cs → (x : Bytes × ControllerPath) → Mem x cs → HasPath x
  All-mem [] h x i = absurd (not-mem-nil i)
  All-mem (c ∷ cs) (h, t) x i =
      Or.elim (hlevel) (mem-cons.0 i) (λ e. subst HasPath (sym e) h) (λ j. All-mem cs t x j)

  Pairwise-of_All : (cs : Controllers) → All HasPath cs → Pairwise (λ a b. HasPath a × HasPath b) cs
  Pairwise-of_All [] h = Pairwise.nil
  Pairwise-of_All (c ∷ cs) (h, t) =
      Pairwise.cons (λ x i. (h, All-mem cs t x i)) (Pairwise-of_All cs t)

  -- The metadata do not depend on the order of the controllers.
  metadata-Permᴰ :
      {cs ds : Controllers}
      → Permᴰ cs ds
      → Pairwise (λ a b. HasPath a × HasPath b) cs
      → get_common_cgroup_metadata cs ignore_root ≡ get_common_cgroup_metadata ds ignore_root
  unfolding get_common_cgroup_metadata
  metadata-Permᴰ {cs} {ds} d p = ap with_id (
      same_option (common_path ignore_root (paths_of cs) [])
        (common_path ignore_root (paths_of ds) []) (λ t e. common_path-Permᴰ d p t e)
        (λ t e.
          common_path-Permᴰ (Permᴰ.symm d)
            (Permᴰ.pairwise (λ a b. hlevel) (λ a b (g, k). (k, g)) d p) t e))

module _ (f : Float64) (o : Opt f) (h : CgroupHost f) where
  -- `GetV1StatsForProcess` does not depend on the orders in which Go ranges over the controllers of
  -- the process, for the metadata and for the statistics: what two orders return without an error,
  -- any other two return too. The controllers have to have paths that are not empty.
  pub get_v1_stats_for_process-Permᴰ :
      (common order common' order' : Controllers → Controllers)
      → ((cs : Controllers) → Permᴰ cs (common cs))
      → ((cs : Controllers) → Permᴰ cs (order cs))
      → ((cs : Controllers) → Permᴰ cs (common' cs))
      → ((cs : Controllers) → Permᴰ cs (order' cs))
      → (files : Files) (r : Reader) (pid : ℤ) (stats : StatsV1 f o)
      → Returns (λ paths. All HasPath paths.v1) (process_cgroup_paths h.read_dir files r pid)
      → get_v1_stats_for_process f o h common order files r pid ≡ ok stats
      → get_v1_stats_for_process f o h common' order' files r pid ≡ ok stats
  unfolding get_v1_stats_for_process
  get_v1_stats_for_process-Permᴰ common order common' order' c p c' p' files r pid stats have e =
      let (paths, e1, e2) = bind-ok (process_cgroup_paths h.read_dir files r pid) _ e in
      let distinct =
        subst (λ x. Returns HasNames x) e1 (process_cgroup_paths-HasNames h.read_dir r files pid) in
      let all = subst (λ x. Returns (λ paths. All HasPath paths.v1) x) e1 have in
      let pairs = Pairwise-of_All r.ignore_root_cgroups paths.v1 all in
      let same =
        sym (metadata-Permᴰ r.ignore_root_cgroups (c paths.v1) pairs)
        ∙ metadata-Permᴰ r.ignore_root_cgroups (c' paths.v1) pairs in
      rw e1 (
        each_v1-Permᴰ f o h files r (Permᴰ.trans (Permᴰ.symm (p paths.v1)) (p' paths.v1))
          (Permᴰ.pairwise (λ a b. ¬_prop) (λ a b k g. k (sym g)) (p paths.v1)
            (Pairwise-of_HasDistinctKeys paths.v1 distinct))
          _ stats
          (ap (λ m. each_v1 f o h files r (order paths.v1) (start_v1 f o h m)) (sym same) ∙ e2))

-- ===== src/Cgroup/Laws/Override.antt =====
-- The paths of the cgroups of a process.
use elastic_agent_system_met.Base.{
  subst, Bool, true, false, not, ◌&&◌, List, [], ◌∷◌, ◌≡◌, refl, sym, ◌≢◌, ◌⊎◌, inl, inr, Bytes,
  codes, ◌==◌, bytes_comparable, bytes_eq, bytes_eq_iff, is_empty, Option, none, some, Error,
  Result, wrap_err, All, arith, Bool-cases,
}
use elastic_agent_system_met.Base.Int.{ℤ}
use elastic_agent_system_met.Base.Returns.{Returns, Returns-bind, Returns-then}
use elastic_agent_system_met.Go.Strings.{split, contains}
use elastic_agent_system_met.Go.Maps.{insert}
use elastic_agent_system_met.Go.Files.{Files, File, content, failed, scan}
use elastic_agent_system_met.Cgroup.Paths.{
  ControllerPath, Controllers, PathList, Reader, paths_of, chosen_path, v2_directory, add_v2_paths,
  add_v1_paths, add_v2_line, add_line, cgroup_lines, or_scan_error, paths_of_file,
  process_cgroup_paths, trim_suffix,
}
use elastic_agent_system_met.Cgroup.Version.{base, common_path, with_id, get_common_cgroup_metadata}

abbrev pub AllAt : Bytes → Controllers → Type 0
AllAt p [] = Unit
AllAt p ((name, c) ∷ cs) = (c.controller_path ≡ p) × AllAt p cs

AllAt-insert :
    (p name : Bytes) (c : ControllerPath) (cs : Controllers)
    → c.controller_path ≡ p
    → AllAt p cs
    → AllAt p (insert name c cs)
unfolding insert
AllAt-insert p name c [] e h = (e, tt)
AllAt-insert p name c ((n, o) ∷ cs) e (h, t) = elim (Bool-cases (bytes_eq n name)) [
  | inl same ↦ rw same (e, t)
  | inr other ↦ rw other (h, AllAt-insert p name c cs e t)
]

AllAt-add_v2_paths :
    (p path directory : Bytes) (names : List Bytes) (v2 : Controllers)
    → path ≡ p
    → AllAt p v2
    → AllAt p (add_v2_paths path directory names v2)
unfolding add_v2_paths
AllAt-add_v2_paths p path directory [] v2 e h = h
AllAt-add_v2_paths p path directory (name ∷ names) v2 e h =
    elim (Bool-cases (contains (codes "stat") name)) [
      | inl stat ↦ rw stat (
          AllAt-add_v2_paths p path directory names _ e (
            AllAt-insert p (trim_suffix (codes ".stat") name)
              (record { controller_path = path; full_path = directory; is_v2 = true }) v2 e h))
      | inr other ↦ rw other (AllAt-add_v2_paths p path directory names v2 e h)
    ]

AllAt-add_v1_paths :
    (p : Bytes) (r : Reader) (path : Bytes) (subsystems : List Bytes) (v1 : Controllers)
    → path ≡ p
    → AllAt p v1
    → AllAt p (add_v1_paths r path subsystems v1)
unfolding add_v1_paths
AllAt-add_v1_paths p r path [] v1 e h = h
AllAt-add_v1_paths p r path (s ∷ subsystems) v1 e h =
    AllAt-add_v1_paths p r path subsystems _ e (AllAt-insert p s _ v1 e h)

abbrev pub BothAt : Bytes → PathList → Type 0
BothAt p pl = AllAt p pl.v1 × AllAt p pl.v2

module _ (read_dir : Bytes → Result (List Bytes)) (r : Reader)
    (set : is_empty r.cgroups_hierarchy_override ≡ false) where
  abbrev p : Bytes
  p = r.cgroups_hierarchy_override

  chosen : (path : Bytes) → chosen_path r path ≡ p
  unfolding chosen_path
  chosen path = simp set

  BothAt-add_v2_line :
      (path : Bytes) (directory : Option Bytes) (pl : PathList)
      → path ≡ p
      → BothAt p pl
      → Returns (BothAt p) (add_v2_line read_dir path directory pl)
  unfolding add_v2_line
  BothAt-add_v2_line path none pl e h = h
  BothAt-add_v2_line path (some directory) pl e (h, k) =
      Returns-bind (BothAt p) (wrap_err "error fetching cgroupV2 controllers" (read_dir directory))
        _ (λ names. (h, AllAt-add_v2_paths p path directory names pl.v2 e k))

  BothAt-add_line :
      (line : Bytes) (fields : List Bytes) (pl : PathList)
      → BothAt p pl
      → Returns (BothAt p) (add_line read_dir r line fields pl)
  unfolding add_line
  BothAt-add_line line [] pl h = h
  BothAt-add_line line (a ∷ []) pl h = h
  BothAt-add_line line (a ∷ b ∷ []) pl h = h
  BothAt-add_line line (a ∷ b ∷ c ∷ []) pl (h, k) =
      elim (Bool-cases (contains (codes "0::/") line)) [
        | inl v2 ↦ rw v2 (
            BothAt-add_v2_line (chosen_path r c) (v2_directory r (chosen_path r c)) pl (chosen c)
              (h, k))
        | inr v1 ↦
            rw v1 (AllAt-add_v1_paths p r (chosen_path r c) (split b',' b) pl.v1 (chosen c) h, k)
      ]
  BothAt-add_line line (a ∷ b ∷ c ∷ d ∷ rest) pl h = h

  BothAt-cgroup_lines :
      (lines : List Bytes) (pl : PathList)
      → BothAt p pl
      → Returns (BothAt p) (cgroup_lines read_dir r lines pl)
  unfolding cgroup_lines
  BothAt-cgroup_lines [] pl h = h
  BothAt-cgroup_lines (line ∷ lines) pl h =
      Returns-then (BothAt p) (BothAt p) (add_line read_dir r line (split b':' line) pl) _
        (BothAt-add_line line (split b':' line) pl h) (λ next k. BothAt-cgroup_lines lines next k)

  BothAt-or_scan_error :
      (fault : Option Error) (pl : PathList)
      → BothAt p pl
      → Returns (BothAt p) (or_scan_error read_dir fault pl)
  BothAt-or_scan_error none pl h = h
  BothAt-or_scan_error (some e) pl h = tt

  BothAt-paths_of_file : (file : File) → Returns (BothAt p) (paths_of_file read_dir r file)
  unfolding paths_of_file
  BothAt-paths_of_file (failed e) = tt
  BothAt-paths_of_file (content text) =
      Returns-then (BothAt p) (BothAt p)
        (cgroup_lines read_dir r (scan text).lines (record { v1 = []; v2 = [] })) _
        (BothAt-cgroup_lines (scan text).lines _ (tt, tt))
        (λ pl k. BothAt-or_scan_error (scan text).fault pl k)

  -- A reader with a path override reports that path, if it returns, for every controller of the
  -- process, V1 or V2, and none of the paths that the file of the process names.
  pub process_cgroup_paths-BothAt :
      (files : Files) (pid : ℤ) → Returns (BothAt p) (process_cgroup_paths read_dir files r pid)
  unfolding process_cgroup_paths
  process_cgroup_paths-BothAt files pid = BothAt-paths_of_file _

-- A cgroup that is not passed over: V1 cgroups at the root are, if the reader ignores them.
abbrev pub counted : Bool → ControllerPath → Bool
counted ignore_root m = not (not m.is_v2 && (ignore_root && m.controller_path == codes "/"))

abbrev pub AllShare : Bool → Bytes → List ControllerPath → Type 0
AllShare ignore_root path = All (λ m. counted ignore_root m ≡ true → m.controller_path ≡ path)

shared_with :
    (ignore_root : Bool) (mounts : List ControllerPath) (path : Bytes)
    → path ≢ []
    → ((common_path ignore_root mounts path ≡ none) × ¬ AllShare ignore_root path mounts)
      ⊎ ((common_path ignore_root mounts path ≡ some path) × AllShare ignore_root path mounts)
unfolding common_path
shared_with ignore_root [] path n = inr (refl, tt)
shared_with ignore_root (m ∷ mounts) [] n = absurd (n refl)
shared_with ignore_root (m ∷ mounts) (c ∷ cs) n =
    elim (Bool-cases (not m.is_v2 && (ignore_root && m.controller_path == codes "/"))) [
      | inl skipped ↦ elim (shared_with ignore_root mounts (c ∷ cs) n) [
        | inl (e, d) ↦ inl (simp skipped e, λ h. d h.1)
        | inr (e, h) ↦ inr (simp skipped e, (λ k. absurd (ground (arith, skipped, k)), h))
      ]
      | inr taken ↦ elim (Bool-cases (bytes_eq (c ∷ cs) m.controller_path)) [
        | inr other ↦ inl (
          simp (taken, other),
          λ h.
              let same = h.0 (rw taken refl) in
              ground (arith, other, (bytes_eq_iff (c ∷ cs) m.controller_path).1 (sym same)),
        )
        | inl same ↦ elim (shared_with ignore_root mounts (c ∷ cs) n) [
          | inl (e, d) ↦ inl (simp (taken, same) e, λ h. d h.1)
          | inr (e, h) ↦ inr (
            simp (taken, same) e,
            (λ k. sym ((bytes_eq_iff (c ∷ cs) m.controller_path).0 same), h),
          )
        ]
      ]
    ]

shared_from :
    (ignore_root : Bool) (mounts : List ControllerPath)
    → All (λ m. m.controller_path ≢ []) mounts
    → ((common_path ignore_root mounts [] ≡ none)
        × ((path : Bytes) → ¬ AllShare ignore_root path mounts))
      ⊎ ((path : Bytes) × ((common_path ignore_root mounts [] ≡ some path)
            × AllShare ignore_root path mounts))
unfolding common_path
shared_from ignore_root [] h = inr ([], (refl, tt))
shared_from ignore_root (m ∷ mounts) (n, h) =
    elim (Bool-cases (not m.is_v2 && (ignore_root && m.controller_path == codes "/"))) [
      | inl skipped ↦ elim (shared_from ignore_root mounts h) [
        | inl (e, d) ↦ inl (simp skipped e, λ path k. d path k.1)
        | inr (path, (e, k)) ↦
            inr (path, (simp skipped e, (λ c. absurd (ground (arith, skipped, c)), k)))
      ]
      | inr taken ↦ elim (shared_with ignore_root mounts m.controller_path n) [
        | inl (e, d) ↦ inl (
          simp taken e,
          λ path k. d (subst (λ p. AllShare ignore_root p mounts) (sym (k.0 (rw taken refl))) k.1),
        )
        | inr (e, k) ↦ inr (m.controller_path, (simp taken e, (λ c. refl, k)))
      ]
    ]

-- Of cgroups that all have a path, either every one that is not passed over has the same path, and
-- the metadata are that path and its last element, or no path is that of all of them, and the
-- metadata are empty.
pub get_common_cgroup_metadata-AllShare :
    (ignore_root : Bool) (mounts : Controllers)
    → All (λ m. m.controller_path ≢ []) (paths_of mounts)
    → ((get_common_cgroup_metadata mounts ignore_root ≡ ([], []))
        × ((path : Bytes) → ¬ AllShare ignore_root path (paths_of mounts)))
      ⊎ ((path : Bytes) × ((get_common_cgroup_metadata mounts ignore_root ≡ (path, base path))
            × AllShare ignore_root path (paths_of mounts)))
unfolding get_common_cgroup_metadata with_id
get_common_cgroup_metadata-AllShare ignore_root mounts h =
    elim (shared_from ignore_root (paths_of mounts) h) [
      | inl (e, d) ↦ inl (rw e refl, d)
      | inr (path, (e, k)) ↦ inr (path, (rw e refl, k))
    ]

-- ===== src/Filesystem/Laws.antt =====
-- What is kept of the mounts of one device.
use elastic_agent_system_met.Base.{
  ◌≤◌, true, List, [], ◌∷◌, ◌++◌, ◌≡◌, refl, sym, ◌∙◌, ap, ◌≢◌, ◌⊎◌, inl, inr, arith, Option, none,
  some, All, Bytes, length, if◌then◌else◌, ◌==◌, bytes_comparable, bytes_eq_iff, Bool-cases,
  Option-cases, ltb,
}
use mathlib.Core.List.{append-nil, append_assoc}
use elastic_agent_system_met.Go.Maps.{lookup, lookup-insert}
use elastic_agent_system_met.Go.Paths.{is_abs}
use elastic_agent_system_met.Libs.{Float64, Opt}
use elastic_agent_system_met.Filesystem.Mounts.{FsStat}
use elastic_agent_system_met.Filesystem.Duplicates.{Kept, keep_one, keep_all}

module _ (f : Float64) (o : Opt f) where
  abbrev pub In : FsStat f o → List (FsStat f o) → Type 0
  In fs [] = ⊥
  In fs (g ∷ gs) = (fs ≡ g) ⊎ In fs gs

  -- The mounts whose device is no path, in their order.
  abbrev pub relative : List (FsStat f o) → List (FsStat f o)
  relative [] = []
  relative (fs ∷ fs_list) = if is_abs fs.device then relative fs_list else fs ∷ relative fs_list

  module _ (d : Bytes) (absolute : is_abs d ≡ true) where
    abbrev pub Longer : FsStat f o → FsStat f o → Type 0
    Longer fs g = g.device ≡ d → length fs.directory ≤ length g.directory

    -- `fs` is a listed mount of the device, and none of that device has a shorter mount point.
    pub record IsShortest (fs_list : List (FsStat f o)) (fs : FsStat f o) : Type 0 where
      pub listed : In fs fs_list
      pub of_device : fs.device ≡ d
      pub least : All (Longer fs) fs_list

    -- The shorter of a mount and the one that is kept; the kept one if they are equally long.
    abbrev shorter_of : FsStat f o → Option (FsStat f o) → FsStat f o
    shorter_of g none = g
    shorter_of g (some h) = if ltb (length g.directory) (length h.directory) then g else h

    lookup-keep_same :
        (g : FsStat f o) (k : Kept f o)
        → g.device ≡ d
        → lookup d (keep_one f o g k).devices ≡ some (shorter_of g (lookup d k.devices))
    unfolding keep_one
    lookup-keep_same g k e =
        let is_path : is_abs g.device ≡ true = ap (λ x. is_abs x) e ∙ absolute in
        let stored = lookup-insert g.device d g k.devices in
        let found = ap (λ x. lookup x k.devices) e in
        elim (Option-cases (lookup d k.devices)) [
          | inl missing ↦ ground (arith, is_path, stored, found, missing, bytes_eq_iff g.device d)
          | inr (h, kept) ↦ ground (arith, is_path, stored, found, kept, bytes_eq_iff g.device d)
        ]

    lookup-keep_other :
        (g : FsStat f o) (k : Kept f o)
        → g.device ≢ d
        → lookup d (keep_one f o g k).devices ≡ lookup d k.devices
    unfolding keep_one
    lookup-keep_other g k n = elim (Option-cases (lookup g.device k.devices)) [
      | inl missing ↦
          ground (arith, missing, lookup-insert g.device d g k.devices, bytes_eq_iff g.device d)
      | inr (h, kept) ↦
          ground (arith, kept, lookup-insert g.device d g k.devices, bytes_eq_iff g.device d)
    ]

    abbrev best : Option (FsStat f o) → List (FsStat f o) → Option (FsStat f o)
    best b [] = b
    best b (g ∷ gs) = best (if g.device == d then some (shorter_of g b) else b) gs

    lookup-keep_all :
        (gs : List (FsStat f o)) (k : Kept f o)
        → lookup d (keep_all f o gs k).devices ≡ best (lookup d k.devices) gs
    unfolding keep_all
    lookup-keep_all [] k = refl
    lookup-keep_all (g ∷ gs) k =
        lookup-keep_all gs (keep_one f o g k)
        ∙ ap (λ b. best b gs)
            (elim (Bool-cases (g.device == d)) [
              | inl same ↦ lookup-keep_same g k ((bytes_eq_iff g.device d).0 same) ∙ rw same
              | inr other ↦
                  lookup-keep_other g k (λ e. ground (arith, (bytes_eq_iff g.device d).1 e, other))
                  ∙ rw other
            ])

    -- The kept mount against the mounts that are still to come.
    record Beats (h : FsStat f o) (gs : List (FsStat f o)) (fs : FsStat f o) : Type 0 where
      listed : (fs ≡ h) ⊎ In fs gs
      of_device : fs.device ≡ d
      shorter : length fs.directory ≤ length h.directory
      least : All (Longer fs) gs

    best-some :
        (h : FsStat f o) (gs : List (FsStat f o))
        → h.device ≡ d
        → (fs : FsStat f o) × ((best (some h) gs ≡ some fs) × Beats h gs fs)
    best-some h [] e =
        (h, (refl, record { listed = inl refl; of_device = e; shorter = omega arith; least = tt }))
    best-some h (g ∷ gs) e = elim (Bool-cases (g.device == d)) [
      | inr other ↦
          let (fs, (q, b)) = best-some h gs e in
          (
            fs,
            (
              rw other q,
              record {
                listed = elim b.listed [ inl x ↦ inl x | inr x ↦ inr (inr x) ];
                of_device = b.of_device;
                shorter = b.shorter;
                least =
                    (λ c. absurd (ground (arith, (bytes_eq_iff g.device d).1 c, other)), b.least);
              },
            ),
          )
      | inl same ↦ elim (Bool-cases (ltb (length g.directory) (length h.directory))) [
        | inl less ↦
            let (fs, (q, b)) = best-some g gs ((bytes_eq_iff g.device d).0 same) in
            (
              fs,
              (
                rw (same, less) q,
                record {
                  listed = elim b.listed [ inl x ↦ inr (inl x) | inr x ↦ inr (inr x) ];
                  of_device = b.of_device;
                  shorter = ground (arith, b.shorter);
                  least = (λ c. b.shorter, b.least);
                },
              ),
            )
        | inr more ↦
            let (fs, (q, b)) = best-some h gs e in
            (
              fs,
              (
                rw (same, more) q,
                record {
                  listed = elim b.listed [ inl x ↦ inl x | inr x ↦ inr (inr x) ];
                  of_device = b.of_device;
                  shorter = b.shorter;
                  least = (λ c. ground (arith, b.shorter), b.least);
                },
              ),
            )
      ]
    ]

    best-none :
        (gs : List (FsStat f o))
        → ((best none gs ≡ none) × All (λ g. g.device ≢ d) gs)
          ⊎ ((fs : FsStat f o) × ((best none gs ≡ some fs) × IsShortest gs fs))
    best-none [] = inl (refl, tt)
    best-none (g ∷ gs) = elim (Bool-cases (g.device == d)) [
      | inl same ↦
          let (fs, (q, b)) = best-some g gs ((bytes_eq_iff g.device d).0 same) in
          inr (
            fs,
            (
              rw same q,
              record {
                listed = b.listed;
                of_device = b.of_device;
                least = (λ c. b.shorter, b.least);
              },
            ),
          )
      | inr other ↦
          let differs : g.device ≢ d = λ c. ground (arith, (bytes_eq_iff g.device d).1 c, other) in
          elim (best-none gs) [
            | inl (q, none_of) ↦ inl (rw other q, (differs, none_of))
            | inr (fs, (q, b)) ↦ inr (
              fs,
              (
                rw other q,
                record {
                  listed = inr b.listed;
                  of_device = b.of_device;
                  least = (λ c. absurd (differs c), b.least);
                },
              ),
            )
          ]
    ]

    -- For a device that is an absolute path, the pass over the mounts keeps none if none is of that
    -- device, and otherwise one of its mounts, whose mount point is the shortest of them.
    pub keep_all-IsShortest :
        (fs_list : List (FsStat f o))
        → let kept =
            lookup d (keep_all f o fs_list (record { filtered = []; devices = [] })).devices in
          ((kept ≡ none) × All (λ g. g.device ≢ d) fs_list)
          ⊎ ((fs : FsStat f o) × ((kept ≡ some fs) × IsShortest fs_list fs))
    unfolding lookup
    keep_all-IsShortest fs_list =
        let eq = lookup-keep_all fs_list (record { filtered = []; devices = [] }) in
        elim (best-none fs_list) [
          | inl (q, none_of) ↦ inl (eq ∙ q, none_of)
          | inr (fs, (q, b)) ↦ inr (fs, (eq ∙ q, b))
        ]

  -- Mounts that are not of a block device are all kept, in their order.
  keep_all-filtered :
      (gs : List (FsStat f o)) (k : Kept f o)
      → (keep_all f o gs k).filtered ≡ k.filtered ++ relative gs
  unfolding keep_all keep_one
  keep_all-filtered [] k = sym (append-nil k.filtered)
  keep_all-filtered (g ∷ gs) k = elim (Bool-cases (is_abs g.device)) [
    | inl path ↦ keep_all-filtered gs (keep_one f o g k) ∙ rw path
    | inr name ↦ keep_all-filtered gs (keep_one f o g k) ∙ rw (name, append_assoc)
  ]

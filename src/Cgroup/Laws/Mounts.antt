-- ===== src/Cgroup/Laws/Mounts.antt =====
-- Lines of mountinfo, and which mountpoint a subsystem gets.
use elastic_agent_system_met.Base.{
  ℕ, suc, ◌+◌, false, List, [], ◌∷◌, ◌++◌, ◌≡◌, refl, ◌∙◌, ap, Bytes, codes, ◌==◌, bytes_comparable,
  bytes_eq, bytes_eq_iff, length, length-append, get_elem?, drop, is_empty, Option, none, some,
  Result, ok, err, panic, All, arith, Option-cases, Bool-cases, inl, inr, beq_self, ◌>>=◌,
}
use elastic_agent_system_met.Go.Strings.{split, split_n2, trim_space, has_prefix}
use elastic_agent_system_met.Go.Maps.{lookup, lookup-insert}
use elastic_agent_system_met.Resolve.{Resolver}
use elastic_agent_system_met.Base.Returns.{Returns, Returns-then, Returns-bind}
use elastic_agent_system_met.Cgroup.Mountinfo.{
  Mountinfo, separator_from, after_separator, mountinfo_of, Subsystems, Mountpoints, option_name,
  add_if_new, add_options, add_v1, add_v2, add_mount, mountinfo_lines, parse_mountinfo_line,
}

-- No field is the separator.
abbrev pub NoDash : List Bytes → Type 0
NoDash = All (λ v. (v == codes "-") ≡ false)

separator_from-append :
    (i : ℕ) (pre rest : List Bytes)
    → NoDash pre
    → separator_from i (pre ++ (codes "-" ∷ rest)) ≡ some (i + length pre)
unfolding separator_from
separator_from-append i [] rest h = rw (beq_self (codes "-")) (ap some (omega arith))
separator_from-append i (v ∷ pre) rest (h, t) =
    rw h (separator_from-append (suc i) pre rest t ∙ ap some (omega arith))

get_elem?-after :
    (pre : List Bytes) (x : Bytes) (rest : List Bytes)
    → get_elem? (pre ++ (x ∷ rest)) (length pre) ≡ some x
get_elem?-after [] x rest = refl
get_elem?-after (v ∷ pre) x rest = get_elem?-after pre x rest

drop-after :
    (pre : List Bytes) (x : Bytes) (rest : List Bytes)
    → drop (suc (length pre)) (pre ++ (x ∷ rest)) ≡ rest
drop-after [] x rest = refl
drop-after (v ∷ pre) x rest = drop-after pre x rest

after_separator-append :
    (pre : List Bytes) (kind source options : Bytes) (more : List Bytes)
    → after_separator (pre ++ (codes "-" ∷ kind ∷ source ∷ options ∷ more)) (length pre)
      ≡ ok (kind ∷ source ∷ options ∷ more)
unfolding after_separator
after_separator-append pre kind source options more =
    rw (get_elem?-after pre (codes "-") (kind ∷ source ∷ options ∷ more), beq_self (codes "-"))
      (ground (
        arith,
        drop-after pre (codes "-") (kind ∷ source ∷ options ∷ more),
        length-append pre (codes "-" ∷ kind ∷ source ∷ options ∷ more),
      ))

-- The fields of a mountinfo line are read: at least six of them before the first "-", the fifth of
-- which is the mountpoint, and behind it the type of the file system, its source and its options.
pub mountinfo_of-fields :
    (id parent device root mountpoint flags : Bytes) (optional : List Bytes)
    (kind source options : Bytes) (more : List Bytes)
    → NoDash (id ∷ parent ∷ device ∷ root ∷ mountpoint ∷ flags ∷ optional)
    → mountinfo_of (
        id
        ∷ parent
        ∷ device
        ∷ root
        ∷ mountpoint
        ∷ flags
        ∷ (optional ++ (codes "-" ∷ kind ∷ source ∷ options ∷ more)))
      ≡ ok (record {
        mountpoint = mountpoint;
        filesystem_type = kind;
        super_options = split b',' options;
      })
unfolding mountinfo_of
mountinfo_of-fields id parent device root mountpoint flags optional kind source options more h =
    let pre = id ∷ parent ∷ device ∷ root ∷ mountpoint ∷ flags ∷ optional in
    ground (
      arith,
      separator_from-append 0 pre (kind ∷ source ∷ options ∷ more) h,
      after_separator-append pre kind source options more,
      length-append optional (codes "-" ∷ kind ∷ source ∷ options ∷ more),
    )

module _ (subsystems : Subsystems) (k : Bytes) where
  -- What is known of the mountpoint of `k` stays known: a mountpoint that is found is kept, and a name
  -- that is no subsystem gets none.
  abbrev pub Keeps : Option Bytes → Option Bytes → Type 0
  Keeps before after =
      ((m : Bytes) → before ≡ some m → after ≡ some m)
      × (lookup k subsystems ≡ none → before ≡ none → after ≡ none)

  Keeps-refl : (a : Option Bytes) → Keeps a a
  Keeps-refl a = (λ m h. h, λ n h. h)

  Keeps-trans : (a b c : Option Bytes) → Keeps a b → Keeps b c → Keeps a c
  Keeps-trans a b c (h1, h2) (k1, k2) = (λ m e. k1 m (h1 m e), λ n e. k2 n (h2 n e))

  Keeps-add_if_new :
      (name mountpoint : Bytes) (mounts : List (Bytes × Bytes))
      → Keeps (lookup k mounts) (
          lookup k
            (add_if_new name mountpoint (lookup name subsystems) (lookup name mounts) mounts))
  unfolding add_if_new
  Keeps-add_if_new name mountpoint mounts = elim (Option-cases (lookup name subsystems)) [
    | inl unknown ↦ rw unknown (Keeps-refl (lookup k mounts))
    | inr (u, known) ↦ elim (Option-cases (lookup name mounts)) [
      | inr (m, there) ↦ rw (known, there) (Keeps-refl (lookup k mounts))
      | inl fresh ↦
          rw (known, fresh, lookup-insert name k mountpoint mounts)
            (
              (λ m e. elim (Bool-cases (bytes_eq name k)) [
                | inr other ↦ rw other e
                | inl same ↦
                    absurd
                      (ground (arith, ap (λ x. lookup x mounts) ((bytes_eq_iff name k).0 same)))
              ]),
              (λ n e. elim (Bool-cases (bytes_eq name k)) [
                | inr other ↦ rw other e
                | inl same ↦
                    absurd
                      (ground (arith, ap (λ x. lookup x subsystems) ((bytes_eq_iff name k).0 same)))
              ]),
            )
    ]
  ]

  Keeps-add_options :
      (mountpoint : Bytes) (opts : List Bytes) (mounts : List (Bytes × Bytes))
      → Keeps (lookup k mounts) (lookup k (add_options subsystems mountpoint opts mounts))
  unfolding add_options
  Keeps-add_options mountpoint [] mounts = Keeps-refl (lookup k mounts)
  Keeps-add_options mountpoint (opt ∷ opts) mounts =
      let name = option_name opt (split_n2 b'=' opt) in
      let next = add_if_new name mountpoint (lookup name subsystems) (lookup name mounts) mounts in
      Keeps-trans _ (lookup k next) _ (Keeps-add_if_new name mountpoint mounts)
        (Keeps-add_options mountpoint opts next)

  Keeps-add_v1 :
      (mount : Mountinfo) (info : Mountpoints)
      → Keeps (lookup k info.v1_mounts) (lookup k (add_v1 subsystems mount info).v1_mounts)
  unfolding add_v1
  Keeps-add_v1 mount info = elim (Bool-cases (bytes_eq mount.filesystem_type (codes "cgroup"))) [
    | inl v1 ↦ simp v1 (Keeps-add_options mount.mountpoint mount.super_options info.v1_mounts)
    | inr other ↦ simp other (Keeps-refl (lookup k info.v1_mounts))
  ]

  add_v2_keeps_v1 :
      (mount : Mountinfo) (info : Mountpoints) → (add_v2 mount info).v1_mounts ≡ info.v1_mounts
  unfolding add_v2
  add_v2_keeps_v1 mount info = ground arith

  Keeps-add_mount :
      (rootfs : Resolver) (mount : Mountinfo) (info : Mountpoints)
      → Keeps
          (lookup k info.v1_mounts)
          (lookup k (add_mount rootfs subsystems mount info).v1_mounts)
  unfolding add_mount
  Keeps-add_mount rootfs mount info =
      elim (Bool-cases (has_prefix (rootfs.resolve_host_fs []) mount.mountpoint)) [
        | inr outside ↦ simp outside (Keeps-refl (lookup k info.v1_mounts))
        | inl inside ↦
            simp (inside, add_v2_keeps_v1 mount (add_v1 subsystems mount info))
              (Keeps-add_v1 mount info)
      ]

  after_mount :
      (info next : Mountpoints) (r : Result Mountpoints)
      → Keeps (lookup k info.v1_mounts) (lookup k next.v1_mounts)
      → Returns (λ last. Keeps (lookup k next.v1_mounts) (lookup k last.v1_mounts)) r
      → Returns (λ last. Keeps (lookup k info.v1_mounts) (lookup k last.v1_mounts)) r
  after_mount info next (ok last) h g = Keeps-trans _ (lookup k next.v1_mounts) _ h g
  after_mount info next (err e) h g = tt
  after_mount info next panic h g = tt

  -- Reading the lines of mountinfo, if it returns, keeps every mountpoint that a subsystem has: the
  -- first one wins. A name that is no supported subsystem gets no mountpoint.
  pub mountinfo_lines-Keeps :
      (rootfs : Resolver) (texts : List Bytes) (info : Mountpoints)
      → Returns
          (λ next. Keeps (lookup k info.v1_mounts) (lookup k next.v1_mounts))
          (mountinfo_lines rootfs subsystems texts info)
  unfolding mountinfo_lines
  mountinfo_lines-Keeps rootfs [] info = Keeps-refl (lookup k info.v1_mounts)
  mountinfo_lines-Keeps rootfs (text ∷ texts) info =
      elim (Bool-cases (is_empty (trim_space text))) [
        | inl blank ↦ rw blank (mountinfo_lines-Keeps rootfs texts info)
        | inr line ↦ rw line (
            Returns-then _ (λ next. Keeps (lookup k info.v1_mounts) (lookup k next.v1_mounts))
              (do
                mount ← parse_mountinfo_line (trim_space text)
                ok (add_mount rootfs subsystems mount info))
              (λ next. mountinfo_lines rootfs subsystems texts next)
              (Returns-bind _ (parse_mountinfo_line (trim_space text)) _
                (λ mount. Keeps-add_mount rootfs mount info))
              (λ next h.
                after_mount info next (mountinfo_lines rootfs subsystems texts next) h
                  (mountinfo_lines-Keeps rootfs texts next)))
      ]

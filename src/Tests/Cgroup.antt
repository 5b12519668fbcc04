-- ===== src/Tests/Cgroup.antt =====
-- The files of cgroups.
use elastic_agent_system_met.Base.{
  ℕ, ◌≢◌, false, true, List, [], ◌∷◌, ◌≡◌, refl, ◌⊎◌, inl, inr, Bytes, codes, ok, err, not_exist,
  All, arith, bytes_eq, bytes_comparable,
}
use elastic_agent_system_met.Base.Int.{pos}
use elastic_agent_system_met.Base.Returns.{Returns}
use elastic_agent_system_met.Go.Strings.{split}
use elastic_agent_system_met.Go.Numbers.Decimal.{Decimal}
use elastic_agent_system_met.Go.Maps.{lookup, insert}
use elastic_agent_system_met.Cgroup.Common.{each_param}
use elastic_agent_system_met.Cgroup.Mountinfo.{
  mountinfo_of, mountinfo_lines, Subsystems, Mountpoints,
}
use elastic_agent_system_met.Cgroup.Paths.{Reader, Controllers, paths_of, process_cgroup_paths}
use elastic_agent_system_met.Cgroup.Version.{base, get_common_cgroup_metadata}
use elastic_agent_system_met.Cgroup.V2.{set_v2_stat, no_stats}
use elastic_agent_system_met.Cgroup.Io.{major_of, minor_of}
use elastic_agent_system_met.Cgroup.Laws.Params.{
  Param, IsParam, param_lines, set_params_of, each_param-lines,
}
use elastic_agent_system_met.Cgroup.Laws.Mounts.{Keeps, mountinfo_of-fields, mountinfo_lines-Keeps}
use elastic_agent_system_met.Cgroup.Laws.Devices.{make_dev, device_numbers-make_dev}
use elastic_agent_system_met.Cgroup.Laws.Override.{
  BothAt, AllShare, process_cgroup_paths-BothAt, get_common_cgroup_metadata-AllShare,
}
use elastic_agent_system_met.Tests.Fixtures.{floats, opts, root, one_file}

open_cgroup : Unit {0}
unfolding bytes_eq lookup insert paths_of
open_cgroup = tt

device_numbers-make_dev_example :
    (major_of (make_dev 259 70000) ≡ 259) × (minor_of (make_dev 259 70000) ≡ 70000)
device_numbers-make_dev_example = device_numbers-make_dev 259 70000 (omega arith) (omega arith)

mountinfo_of-fields_example :
    mountinfo_of (
      codes "25"
      ∷ codes "21"
      ∷ codes "0:20"
      ∷ codes "/"
      ∷ codes "/cgroup/cpu"
      ∷ codes "rw"
      ∷ codes "shared:9"
      ∷ codes "-"
      ∷ codes "cgroup"
      ∷ codes "cgroup"
      ∷ codes "rw,cpu"
      ∷ [])
    ≡ ok (record {
      mountpoint = codes "/cgroup/cpu";
      filesystem_type = codes "cgroup";
      super_options = split b',' (codes "rw,cpu");
    })
unfolding open_cgroup
mountinfo_of-fields_example =
    mountinfo_of-fields (codes "25") (codes "21") (codes "0:20") (codes "/") (codes "/cgroup/cpu")
      (codes "rw") (codes "shared:9" ∷ []) (codes "cgroup") (codes "cgroup") (codes "rw,cpu") []
      (refl, (refl, (refl, (refl, (refl, (refl, (refl, tt)))))))

abbrev cpu_only : Subsystems
cpu_only = (codes "cpu", tt) ∷ []

abbrev mounted : Mountpoints
mounted = record { v1_mounts = (codes "cpu", codes "/cgroup/cpu") ∷ []; v2_loc = [] }

mountinfo_lines-Keeps_example :
    Returns
      (λ next.
        Keeps cpu_only
          (codes "cpu")
          (lookup (codes "cpu") mounted.v1_mounts)
          (lookup (codes "cpu") next.v1_mounts))
      (mountinfo_lines root cpu_only
        (codes "26 21 0:20 / /other/cpu rw - cgroup cgroup rw,cpu" ∷ [])
        mounted)
mountinfo_lines-Keeps_example =
    mountinfo_lines-Keeps cpu_only (codes "cpu") root
      (codes "26 21 0:20 / /other/cpu rw - cgroup cgroup rw,cpu" ∷ []) mounted

abbrev params : List Param
params =
    record { key = codes "usage_usec"; text = codes "42"; amount = 42 }
    ∷ record { key = codes "nr_periods"; text = codes "-1"; amount = 0 }
    ∷ []

Decimal-one : Decimal (codes "1") 1
Decimal-one = record { ne_nil = λ h. ground arith; digits = (refl, tt); means = refl }

abbrev one : ℕ
one = 1

one_ne_zero : one ≢ 0
one_ne_zero h = omega arith

params-IsParam : All IsParam params
params-IsParam = (
  record {
    word = (
      λ h. ground arith,
      (refl, (refl, (refl, (refl, (refl, (refl, (refl, (refl, (refl, (refl, tt)))))))))),
    );
    number = inl (
      record { ne_nil = λ h. ground arith; digits = (refl, (refl, tt)); means = refl },
      omega arith,
    );
  },
  (
    record {
      word = (
        λ h. ground arith,
        (refl, (refl, (refl, (refl, (refl, (refl, (refl, (refl, (refl, (refl, tt)))))))))),
      );
      number = inr (codes "1", (1, (refl, (Decimal-one, (one_ne_zero, refl)))));
    },
    tt,
  ),
)

each_param-lines_example :
    each_param (set_v2_stat floats opts) (param_lines params) (no_stats floats opts)
    ≡ ok (set_params_of (set_v2_stat floats opts) params (no_stats floats opts))
each_param-lines_example =
    each_param-lines (set_v2_stat floats opts) params (no_stats floats opts) params-IsParam

abbrev reader : Reader
reader = record {
  rootfs_mountpoint = root;
  ignore_root_cgroups = true;
  cgroups_hierarchy_override = codes "/docker";
  cgroup_mountpoints = mounted;
}

process_cgroup_paths-BothAt_example : Returns (BothAt (codes "/docker")) (
    process_cgroup_paths
      (λ p. err not_exist)
      (one_file (codes "proc/7/cgroup") (codes "2:cpu:/a\n"))
      reader
      (pos 7))
process_cgroup_paths-BothAt_example =
    process_cgroup_paths-BothAt (λ p. err not_exist) reader refl
      (one_file (codes "proc/7/cgroup") (codes "2:cpu:/a\n")) (pos 7)

abbrev controllers : Controllers
controllers =
    (
      codes "cpu",
      record { controller_path = codes "/a"; full_path = codes "/cgroup/cpu/a"; is_v2 = false },
    )
    ∷ (
      codes "memory",
      record { controller_path = codes "/"; full_path = codes "/cgroup/memory"; is_v2 = false },
    )
    ∷ []

controllers_have_paths : All (λ m. m.controller_path ≢ []) (paths_of controllers)
unfolding open_cgroup
controllers_have_paths = (λ h. ground arith, (λ h. ground arith, tt))

get_common_cgroup_metadata-AllShare_example :
    ((get_common_cgroup_metadata controllers true ≡ ([], []))
      × ((path : Bytes) → ¬ AllShare true path (paths_of controllers)))
    ⊎ ((path : Bytes) × ((get_common_cgroup_metadata controllers true ≡ (path, base path))
          × AllShare true path (paths_of controllers)))
get_common_cgroup_metadata-AllShare_example =
    get_common_cgroup_metadata-AllShare true controllers controllers_have_paths

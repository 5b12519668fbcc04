-- ===== src/Report/Setup.antt =====
-- report/setup.go: which reporters are registered, and the name of the own process.
use elastic_agent_system_met.Base.{
  Bool, ◌&&◌, ◌||◌, List, [], ◌∷◌, ◌++◌, if◌then◌else◌, Bytes, codes, ◌==◌, bytes_comparable,
  length, take, ltb, Result, ok, wrap_err,
}
use elastic_agent_system_met.Base.Int.{ℤ}
use elastic_agent_system_met.Libs.{Float64}
use elastic_agent_system_met.Report.Calls.{
  Call, report_int, report_string, report_namespace, in_registry,
}

-- `runtime.GOOS`
unfoldable pub is_darwin : Bytes → Bool
is_darwin goos = goos == codes "darwin"

unfoldable pub is_linux : Bytes → Bool
is_linux goos = goos == codes "linux"

unfoldable pub is_windows : Bytes → Bool
is_windows goos = goos == codes "windows"

unfoldable pub process_name : Bytes → Bytes → Bytes
unfolding is_linux is_darwin
process_name goos name =
    if (is_linux goos || is_darwin goos) && ltb 15 (length name) then take 15 name else name

-- The registries of the package.
pub data Registry : Type 0 where
  system_metrics process_metrics : Registry

abbrev pub Registered : Type 0
Registered = List (Registry × Bytes)

-- The functions of `setupPlatformSpecificMetrics`; `handles` are those that the set-up for Windows
-- registers.
unfoldable pub setup_platform_specific_metrics : Bytes → Registered → Registered
unfolding is_linux is_windows
setup_platform_specific_metrics goos handles =
    (if is_linux goos then (process_metrics, codes "cgroup") ∷ [] else [])
    ++ ((if is_windows goos then handles else (system_metrics, codes "load") ∷ [])
        ++ ((process_metrics, codes "handles") ∷ []))

-- What is registered beside the outcome; `init` is `Stats.Init` for the process of this name.
unfoldable pub setup_metrics :
    Bytes → Registered → (Bytes → Result (Unit {0})) → Bytes → Registered × Result (Unit {0})
unfolding setup_platform_specific_metrics process_name
setup_metrics goos handles init name = registered (init (process_name goos name))
  where
    registered : Result (Unit {0}) → Registered × Result (Unit {0})
    registered (ok u) = (
      (system_metrics, codes "cpu")
          ∷ (process_metrics, codes "memstats")
          ∷ (process_metrics, codes "cpu")
          ∷ (process_metrics, codes "runtime")
          ∷ (process_metrics, codes "info")
          ∷ setup_platform_specific_metrics goos handles,
      ok u,
    )
    registered failed = (
      (system_metrics, codes "cpu") ∷ [],
      wrap_err "failed to init process stats for agent" failed,
    )

module _ (f : Float64) where
  -- `uptime` is the time since the start in milliseconds.
  unfoldable pub info_reporter : Bytes → Bytes → ℤ → Bytes → List (Call f)
  info_reporter service_name version uptime ephemeral_id = in_registry f (
      report_namespace f (codes "uptime") (report_int (codes "ms") uptime ∷ [])
      ++ (report_string (codes "ephemeral_id") ephemeral_id
          ∷ report_string (codes "name") service_name
          ∷ report_string (codes "version") version
          ∷ []))

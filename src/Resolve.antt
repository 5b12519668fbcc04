-- ===== src/Resolve.antt =====
-- metric/system/resolve/resolve.go: where the host's file system is mounted.
use elastic_agent_system_met.Base.{
  Bool, true, false, ◌||◌, List, [], ◌∷◌, if◌then◌else◌, Bytes, codes, ◌==◌, is_empty,
  bytes_comparable,
}
use elastic_agent_system_met.Go.Paths.{join_path}

-- The interface that the collectors take.
pub record Resolver : Type 0 where
  pub resolve_host_fs : Bytes → Bytes
  pub is_set : Bool
  pub join : List Bytes → Bytes

pub record TestingResolver : Type 0 where
  pub path : Bytes
  pub is_set : Bool

unfoldable pub new_test_resolver : Bytes → TestingResolver
new_test_resolver path =
    if is_empty path || path == codes "/"
    then record { path = codes "/"; is_set = false }
    else record { path = path; is_set = true }

-- The methods of `TestingResolver`.
unfoldable pub as_resolver : TestingResolver → Resolver
unfolding join_path
as_resolver t = record {
  resolve_host_fs = λ path. join_path (t.path ∷ path ∷ []);
  is_set = t.is_set;
  join = λ path. join_path (t.path ∷ path);
}

-- ===== src/Cgroup/MemoryV1.antt =====
-- metric/system/cgroup/cgv1/memory.go: the memory controller of cgroups V1.
use elastic_agent_system_met.Base.{
  ℕ, [], ◌∷◌, ◌++◌, if◌then◌else◌, Bytes, codes, ◌==◌, bytes_comparable, Result, ok, ◌>>=◌,
  wrap_err,
}
use elastic_agent_system_met.Go.Paths.{join_path}
use elastic_agent_system_met.Go.Files.{Files}
use elastic_agent_system_met.Cgroup.Common.{parse_uint_from_file}
use elastic_agent_system_met.Cgroup.V1.{set_params}

pub record MemSubsystemUsage : Type 0 where
  pub bytes : ℕ
  pub max : ℕ

pub record MemoryData : Type 0 where
  pub usage : MemSubsystemUsage
  pub limit : ℕ
  pub failures : ℕ

pub record MemoryStat : Type 0 where
  pub cache : ℕ
  pub rss : ℕ
  pub rss_huge : ℕ
  pub mapped_file : ℕ
  pub pages_in : ℕ
  pub pages_out : ℕ
  pub page_faults : ℕ
  pub major_page_faults : ℕ
  pub swap : ℕ
  pub active_anon : ℕ
  pub inactive_anon : ℕ
  pub active_file : ℕ
  pub inactive_file : ℕ
  pub unevictable : ℕ
  pub hierarchical_memory_limit : ℕ
  pub hierarchical_memsw_limit : ℕ

abbrev pub no_memory_data : MemoryData
no_memory_data = record { usage = record { bytes = 0; max = 0 }; limit = 0; failures = 0 }

abbrev pub no_memory_stat : MemoryStat
no_memory_stat = record {
  cache = 0;
  rss = 0;
  rss_huge = 0;
  mapped_file = 0;
  pages_in = 0;
  pages_out = 0;
  page_faults = 0;
  major_page_faults = 0;
  swap = 0;
  active_anon = 0;
  inactive_anon = 0;
  active_file = 0;
  inactive_file = 0;
  unevictable = 0;
  hierarchical_memory_limit = 0;
  hierarchical_memsw_limit = 0;
}

pub record MemorySubsystem : Type 0 where
  pub id : Bytes
  pub path : Bytes
  pub mem : MemoryData
  pub mem_swap : MemoryData
  pub kernel : MemoryData
  pub kernel_tcp : MemoryData
  pub stats : MemoryStat

unfoldable pub set_memory_stat : Bytes → ℕ → MemoryStat → MemoryStat
set_memory_stat t v stats =
    if t == codes "cache"
    then record stats { cache = v }
    else if t == codes "rss"
    then record stats { rss = v }
    else if t == codes "rss_huge"
    then record stats { rss_huge = v }
    else if t == codes "mapped_file"
    then record stats { mapped_file = v }
    else if t == codes "pgpgin"
    then record stats { pages_in = v }
    else if t == codes "pgpgout"
    then record stats { pages_out = v }
    else if t == codes "pgfault"
    then record stats { page_faults = v }
    else if t == codes "pgmajfault"
    then record stats { major_page_faults = v }
    else if t == codes "swap"
    then record stats { swap = v }
    else if t == codes "active_anon"
    then record stats { active_anon = v }
    else if t == codes "inactive_anon"
    then record stats { inactive_anon = v }
    else if t == codes "active_file"
    then record stats { active_file = v }
    else if t == codes "inactive_file"
    then record stats { inactive_file = v }
    else if t == codes "unevictable"
    then record stats { unevictable = v }
    else if t == codes "hierarchical_memory_limit"
    then record stats { hierarchical_memory_limit = v }
    else if t == codes "hierarchical_memsw_limit"
    then record stats { hierarchical_memsw_limit = v }
    else stats

unfoldable pub memory_stats : Files → Bytes → MemorySubsystem → Result MemorySubsystem
memory_stats files path mem = do
  stats ← set_params set_memory_stat (files (join_path (path ∷ codes "memory.stat" ∷ []))) mem.stats
  ok (record mem { stats = stats })

unfoldable pub memory_data : Files → Bytes → Bytes → Result MemoryData
memory_data files path prefix = do
  bytes ←
      wrap_err "error fetching usage_in_bytes"
        (parse_uint_from_file files (path ∷ (prefix ++ codes ".usage_in_bytes") ∷ []))
  max ←
      wrap_err "error fetching max_usage_in_bytes"
        (parse_uint_from_file files (path ∷ (prefix ++ codes ".max_usage_in_bytes") ∷ []))
  limit ←
      wrap_err "error fetching limit_in_bytes"
        (parse_uint_from_file files (path ∷ (prefix ++ codes ".limit_in_bytes") ∷ []))
  failures ←
      wrap_err "error fetching failcnt"
        (parse_uint_from_file files (path ∷ (prefix ++ codes ".failcnt") ∷ []))
  ok (record { usage = record { bytes = bytes; max = max }; limit = limit; failures = failures })

unfoldable pub get_memory_v1 : Files → Bytes → MemorySubsystem → Result MemorySubsystem
get_memory_v1 files path memory = do
  mem ← wrap_err "error fetching memory stats" (memory_data files path (codes "memory"))
  mem_swap ← wrap_err "error fetching memsw stats" (memory_data files path (codes "memory.memsw"))
  kernel ← wrap_err "error fetching kmem stats" (memory_data files path (codes "memory.kmem"))
  kernel_tcp ←
      wrap_err "error fetching kmem.tcp stats" (memory_data files path (codes "memory.kmem.tcp"))
  wrap_err "error fetching memory.stat metrics" (
      memory_stats files path (record memory {
        mem = mem;
        mem_swap = mem_swap;
        kernel = kernel;
        kernel_tcp = kernel_tcp;
      }))

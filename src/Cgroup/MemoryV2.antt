-- ===== src/Cgroup/MemoryV2.antt =====
-- metric/system/cgroup/cgv2/memory.go: the memory controller of cgroups V2.
use elastic_agent_system_met.Base.{
  ℕ, List, [], ◌∷◌, ◌++◌, if◌then◌else◌, Bytes, codes, ◌==◌, bytes_comparable, wrap, Result, ok,
  err, ◌>>=◌, wrap_err,
}
use elastic_agent_system_met.Go.Strings.{split_n2, trim_space}
use elastic_agent_system_met.Go.Paths.{join_path}
use elastic_agent_system_met.Go.Files.{Files, File, content, failed, is_missing, read_file, scan}
use elastic_agent_system_met.Libs.{Float64, Opt}
use elastic_agent_system_met.Cgroup.Common.{parse_uint, parse_uint_from_file, each_param}

-- The fields of `memory.stat`; `opt.Bytes` holds one number.
pub record MemoryStat : Type 0 where
  pub anon : ℕ
  pub file : ℕ
  pub kernel_stack : ℕ
  pub pagetables : ℕ
  pub per_cpu : ℕ
  pub sock : ℕ
  pub shmem : ℕ
  pub file_mapped : ℕ
  pub file_dirty : ℕ
  pub file_writeback : ℕ
  pub swap_cached : ℕ
  pub anon_thp : ℕ
  pub file_thp : ℕ
  pub shmem_thp : ℕ
  pub inactive_anon : ℕ
  pub active_anon : ℕ
  pub inactive_file : ℕ
  pub active_file : ℕ
  pub unevictable : ℕ
  pub slab_reclaimable : ℕ
  pub slab_unreclaimable : ℕ
  pub slab : ℕ
  pub working_set_refault_anon : ℕ
  pub working_set_refault_file : ℕ
  pub working_set_activate_anon : ℕ
  pub working_set_activate_file : ℕ
  pub working_set_restore_anon : ℕ
  pub working_set_restore_file : ℕ
  pub working_set_node_reclaim : ℕ
  pub page_faults : ℕ
  pub major_page_faults : ℕ
  pub page_refill : ℕ
  pub page_scan : ℕ
  pub page_steal : ℕ
  pub page_activate : ℕ
  pub page_deactivate : ℕ
  pub page_lazy_free : ℕ
  pub page_lazy_freed : ℕ
  pub thp_fault_alloc : ℕ
  pub thp_collapse_alloc : ℕ

abbrev pub no_memory_stat : MemoryStat
no_memory_stat = record {
  anon = 0;
  file = 0;
  kernel_stack = 0;
  pagetables = 0;
  per_cpu = 0;
  sock = 0;
  shmem = 0;
  file_mapped = 0;
  file_dirty = 0;
  file_writeback = 0;
  swap_cached = 0;
  anon_thp = 0;
  file_thp = 0;
  shmem_thp = 0;
  inactive_anon = 0;
  active_anon = 0;
  inactive_file = 0;
  active_file = 0;
  unevictable = 0;
  slab_reclaimable = 0;
  slab_unreclaimable = 0;
  slab = 0;
  working_set_refault_anon = 0;
  working_set_refault_file = 0;
  working_set_activate_anon = 0;
  working_set_activate_file = 0;
  working_set_restore_anon = 0;
  working_set_restore_file = 0;
  working_set_node_reclaim = 0;
  page_faults = 0;
  major_page_faults = 0;
  page_refill = 0;
  page_scan = 0;
  page_steal = 0;
  page_activate = 0;
  page_deactivate = 0;
  page_lazy_free = 0;
  page_lazy_freed = 0;
  thp_fault_alloc = 0;
  thp_collapse_alloc = 0;
}

-- A field with the tag `orig`, when the loop over the fields comes to it.
abbrev pub field : Bytes → Bytes → ℕ → ℕ → ℕ
field tag key value old = if tag == key then value else old

-- The loop over all fields, by reflection: it sets those with this tag.
unfoldable pub set_fields : Bytes → ℕ → MemoryStat → MemoryStat
set_fields key value stats = record {
  anon = field (codes "anon") key value stats.anon;
  file = field (codes "file") key value stats.file;
  kernel_stack = field (codes "kernel_stack") key value stats.kernel_stack;
  pagetables = field (codes "pagetables") key value stats.pagetables;
  per_cpu = field (codes "percpu") key value stats.per_cpu;
  sock = field (codes "sock") key value stats.sock;
  shmem = field (codes "shmem") key value stats.shmem;
  file_mapped = field (codes "file_mapped") key value stats.file_mapped;
  file_dirty = field (codes "file_dirty") key value stats.file_dirty;
  file_writeback = field (codes "file_writeback") key value stats.file_writeback;
  swap_cached = field (codes "swapcached") key value stats.swap_cached;
  anon_thp = field (codes "anon_thp") key value stats.anon_thp;
  file_thp = field (codes "file_thp") key value stats.file_thp;
  shmem_thp = field (codes "shmem_thp") key value stats.shmem_thp;
  inactive_anon = field (codes "inactive_anon") key value stats.inactive_anon;
  active_anon = field (codes "active_anon") key value stats.active_anon;
  inactive_file = field (codes "inactive_file") key value stats.inactive_file;
  active_file = field (codes "active_file") key value stats.active_file;
  unevictable = field (codes "unevictable") key value stats.unevictable;
  slab_reclaimable = field (codes "slab_reclaimable") key value stats.slab_reclaimable;
  slab_unreclaimable = field (codes "slab_unreclaimable") key value stats.slab_unreclaimable;
  slab = field (codes "slab") key value stats.slab;
  working_set_refault_anon =
      field (codes "workingset_refault_anon") key value stats.working_set_refault_anon;
  working_set_refault_file =
      field (codes "workingset_refault_file") key value stats.working_set_refault_file;
  working_set_activate_anon =
      field (codes "workingset_activate_anon") key value stats.working_set_activate_anon;
  working_set_activate_file =
      field (codes "workingset_activate_file") key value stats.working_set_activate_file;
  working_set_restore_anon =
      field (codes "workingset_restore_anon") key value stats.working_set_restore_anon;
  working_set_restore_file =
      field (codes "workingset_restore_file") key value stats.working_set_restore_file;
  working_set_node_reclaim =
      field (codes "workingset_nodereclaim") key value stats.working_set_node_reclaim;
  page_faults = field (codes "pgfault") key value stats.page_faults;
  major_page_faults = field (codes "pgmajfault") key value stats.major_page_faults;
  page_refill = field (codes "pgrefill") key value stats.page_refill;
  page_scan = field (codes "pgscan") key value stats.page_scan;
  page_steal = field (codes "pgsteal") key value stats.page_steal;
  page_activate = field (codes "pgactivate") key value stats.page_activate;
  page_deactivate = field (codes "pgdeactivate") key value stats.page_deactivate;
  page_lazy_free = field (codes "pglazyfree") key value stats.page_lazy_free;
  page_lazy_freed = field (codes "pglazyfreed") key value stats.page_lazy_freed;
  thp_fault_alloc = field (codes "thp_fault_alloc") key value stats.thp_fault_alloc;
  thp_collapse_alloc = field (codes "thp_collapse_alloc") key value stats.thp_collapse_alloc;
}

-- A line without a space is skipped.
unfoldable pub stat_parts : List Bytes → MemoryStat → Result MemoryStat
stat_parts (key ∷ text ∷ []) stats = do
  value ← wrap_err "error parsing value" (parse_uint text)
  ok (set_fields key value stats)
stat_parts _ stats = ok stats

unfoldable pub memory_stat_lines : List Bytes → MemoryStat → Result MemoryStat
memory_stat_lines [] stats = ok stats
memory_stat_lines (line ∷ lines) stats = do
  next ← stat_parts (split_n2 b' ' line) stats
  memory_stat_lines lines next

unfoldable pub stat_of_text : Bytes → Result MemoryStat
stat_of_text raw = memory_stat_lines (scan raw).lines no_memory_stat

unfoldable pub fill_stat_struct : Files → Bytes → Result MemoryStat
unfolding stat_of_text
fill_stat_struct files path = do
  raw ←
      wrap_err "error reading memory.stat"
        (read_file files (join_path (path ∷ codes "memory.stat" ∷ [])))
  stat_of_text raw

module _ (f : Float64) (o : Opt f) where
  pub record Events : Type 0 where
    pub low : o.Uint
    pub high : ℕ
    pub max : ℕ
    pub oom : o.Uint
    pub oom_kill : o.Uint
    pub fail : o.Uint

  abbrev pub no_events : Events
  no_events = record {
    low = o.uint_none;
    high = 0;
    max = 0;
    oom = o.uint_none;
    oom_kill = o.uint_none;
    fail = o.uint_none;
  }

  pub record MemoryData : Type 0 where
    pub events : Events
    pub usage : ℕ
    pub low : ℕ
    pub high : o.Uint
    pub max : o.Uint

  abbrev pub no_memory_data : MemoryData
  no_memory_data = record {
    events = no_events;
    usage = 0;
    low = 0;
    high = o.uint_none;
    max = o.uint_none;
  }

  pub record MemorySubsystem : Type 0 where
    pub id : Bytes
    pub path : Bytes
    pub mem : MemoryData
    pub mem_swap : MemoryData
    pub stats : MemoryStat

  unfoldable pub set_event : Bytes → ℕ → Events → Events
  set_event key val evt =
      if key == codes "low"
      then record evt { low = o.uint_with val }
      else if key == codes "high"
      then record evt { high = val }
      else if key == codes "max"
      then record evt { max = val }
      else if key == codes "oom"
      then record evt { oom = o.uint_with val }
      else if key == codes "oom_kill"
      then record evt { oom_kill = o.uint_with val }
      else if key == codes "fail"
      then record evt { fail = o.uint_with val }
      else evt

  unfoldable pub events_of_file : File → Result Events
  events_of_file (failed e) = err (wrap "error reading" e)
  events_of_file (content text) =
      wrap_err "error parsing key from events" (each_param set_event (scan text).lines no_events)

  unfoldable pub fetch_events_file : Files → Bytes → Bytes → Result Events
  unfolding events_of_file
  fetch_events_file files path file = events_of_file (files (join_path (path ∷ file ∷ [])))

  unfoldable pub max_or_uint : Bytes → Result o.Uint
  max_or_uint raw = if trim_space raw == codes "max" then ok o.uint_none else (do
    value ← wrap_err "error parsing raw high value" (parse_uint raw)
    ok (o.uint_with value))

  unfoldable pub max_or_value : Files → Bytes → Bytes → Result o.Uint
  unfolding max_or_uint
  max_or_value files path file = do
    raw ← wrap_err "error reading file" (read_file files (join_path (path ∷ file ∷ [])))
    max_or_uint raw

  unfoldable pub memory_files : Files → Bytes → Bytes → Result MemoryData
  memory_files files path file = do
    low ←
        wrap_err "error reading .low file"
          (parse_uint_from_file files (join_path (path ∷ (file ++ codes ".low") ∷ []) ∷ []))
    high ← wrap_err "error parsing .high file" (max_or_value files path (file ++ codes ".high"))
    max ← wrap_err "error parsing .max file" (max_or_value files path (file ++ codes ".max"))
    current ←
        wrap_err "error reading .current file"
          (parse_uint_from_file files (join_path (path ∷ (file ++ codes ".current") ∷ []) ∷ []))
    events ←
        wrap_err "error fetching events file"
          (fetch_events_file files path (file ++ codes ".events"))
    ok (record { events = events; usage = current; low = low; high = high; max = max })

  -- Root cgroups do not have these files.
  unfoldable pub memory_data : Files → Bytes → Bytes → Result MemoryData
  unfolding memory_files
  memory_data files path file =
      if is_missing (files (join_path (path ∷ (file ++ codes ".high") ∷ [])))
      then ok no_memory_data
      else memory_files files path file

  unfoldable pub get_memory : Files → Bytes → MemorySubsystem → Result MemorySubsystem
  get_memory files path memory = do
    mem ← wrap_err "error reading memory stats" (memory_data files path (codes "memory"))
    mem_swap ←
        wrap_err "error reading memory.swap stats" (memory_data files path (codes "memory.swap"))
    stats ← wrap_err "error fetching memory.stat" (fill_stat_struct files path)
    ok (record memory { mem = mem; mem_swap = mem_swap; stats = stats })

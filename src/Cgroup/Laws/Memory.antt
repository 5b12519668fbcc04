-- ===== src/Cgroup/Laws/Memory.antt =====
-- The memory controller of cgroups V2: memory.stat field by field.
use elastic_agent_system_met.Base.{
  ℕ, ◌<◌, true, false, List, [], ◌∷◌, if◌then◌else◌, ◌≡◌, refl, Bytes, codes, ◌==◌,
  bytes_comparable, length, All, arith, ok, nat_eq,
}
use elastic_agent_system_met.Go.Strings.{is_space}
use elastic_agent_system_met.Go.Strings.Laws.{Free, Free-append, split_n2-append}
use elastic_agent_system_met.Go.Strings.Words.{AllWord}
use elastic_agent_system_met.Go.Paths.{join_path}
use elastic_agent_system_met.Go.Files.{Files, content}
use elastic_agent_system_met.Go.Files.Lines.{unlines, IsLine, scan-unlines}
use elastic_agent_system_met.Cgroup.MemoryV2.{
  MemoryStat, no_memory_stat, set_fields, stat_parts, memory_stat_lines, stat_of_text,
  fill_stat_struct,
}
use elastic_agent_system_met.Cgroup.Laws.Params.{
  Param, IsParam, param_line, param_lines, parse_uint-IsNumber, IsWord-IsNumber,
}

-- The number of the last line with this key; `old` if there is none.
abbrev pub last_amount : Bytes → List Param → ℕ → ℕ
last_amount key [] old = old
last_amount key (p ∷ ps) old = last_amount key ps (if key == p.key then p.amount else old)

-- Each field with the last number of its key.
abbrev pub last_amounts : List Param → MemoryStat → MemoryStat
last_amounts ps stats = record {
  anon = last_amount (codes "anon") ps stats.anon;
  file = last_amount (codes "file") ps stats.file;
  kernel_stack = last_amount (codes "kernel_stack") ps stats.kernel_stack;
  pagetables = last_amount (codes "pagetables") ps stats.pagetables;
  per_cpu = last_amount (codes "percpu") ps stats.per_cpu;
  sock = last_amount (codes "sock") ps stats.sock;
  shmem = last_amount (codes "shmem") ps stats.shmem;
  file_mapped = last_amount (codes "file_mapped") ps stats.file_mapped;
  file_dirty = last_amount (codes "file_dirty") ps stats.file_dirty;
  file_writeback = last_amount (codes "file_writeback") ps stats.file_writeback;
  swap_cached = last_amount (codes "swapcached") ps stats.swap_cached;
  anon_thp = last_amount (codes "anon_thp") ps stats.anon_thp;
  file_thp = last_amount (codes "file_thp") ps stats.file_thp;
  shmem_thp = last_amount (codes "shmem_thp") ps stats.shmem_thp;
  inactive_anon = last_amount (codes "inactive_anon") ps stats.inactive_anon;
  active_anon = last_amount (codes "active_anon") ps stats.active_anon;
  inactive_file = last_amount (codes "inactive_file") ps stats.inactive_file;
  active_file = last_amount (codes "active_file") ps stats.active_file;
  unevictable = last_amount (codes "unevictable") ps stats.unevictable;
  slab_reclaimable = last_amount (codes "slab_reclaimable") ps stats.slab_reclaimable;
  slab_unreclaimable = last_amount (codes "slab_unreclaimable") ps stats.slab_unreclaimable;
  slab = last_amount (codes "slab") ps stats.slab;
  working_set_refault_anon =
      last_amount (codes "workingset_refault_anon") ps stats.working_set_refault_anon;
  working_set_refault_file =
      last_amount (codes "workingset_refault_file") ps stats.working_set_refault_file;
  working_set_activate_anon =
      last_amount (codes "workingset_activate_anon") ps stats.working_set_activate_anon;
  working_set_activate_file =
      last_amount (codes "workingset_activate_file") ps stats.working_set_activate_file;
  working_set_restore_anon =
      last_amount (codes "workingset_restore_anon") ps stats.working_set_restore_anon;
  working_set_restore_file =
      last_amount (codes "workingset_restore_file") ps stats.working_set_restore_file;
  working_set_node_reclaim =
      last_amount (codes "workingset_nodereclaim") ps stats.working_set_node_reclaim;
  page_faults = last_amount (codes "pgfault") ps stats.page_faults;
  major_page_faults = last_amount (codes "pgmajfault") ps stats.major_page_faults;
  page_refill = last_amount (codes "pgrefill") ps stats.page_refill;
  page_scan = last_amount (codes "pgscan") ps stats.page_scan;
  page_steal = last_amount (codes "pgsteal") ps stats.page_steal;
  page_activate = last_amount (codes "pgactivate") ps stats.page_activate;
  page_deactivate = last_amount (codes "pgdeactivate") ps stats.page_deactivate;
  page_lazy_free = last_amount (codes "pglazyfree") ps stats.page_lazy_free;
  page_lazy_freed = last_amount (codes "pglazyfreed") ps stats.page_lazy_freed;
  thp_fault_alloc = last_amount (codes "thp_fault_alloc") ps stats.thp_fault_alloc;
  thp_collapse_alloc = last_amount (codes "thp_collapse_alloc") ps stats.thp_collapse_alloc;
}

Free-of_AllWord : (b : ℕ) (s : Bytes) → is_space b ≡ true → AllWord is_space s → Free b s
Free-of_AllWord b [] e h = tt
Free-of_AllWord b (c ∷ cs) e (h, t) = (ground arith, Free-of_AllWord b cs e t)

Free-param_line :
    (b : ℕ) (p : Param)
    → is_space b ≡ true
    → nat_eq b' ' b ≡ false
    → IsParam p
    → Free b (param_line p)
Free-param_line b p e d h =
    Free-append b p.key (b' ' ∷ p.text) (Free-of_AllWord b p.key e h.word.1)
      (d, Free-of_AllWord b p.text e (IsWord-IsNumber p.text p.amount h.number).1)

memory_stat_lines-last_amounts :
    (ps : List Param) (stats : MemoryStat)
    → All IsParam ps
    → memory_stat_lines (param_lines ps) stats ≡ ok (last_amounts ps stats)
unfolding memory_stat_lines stat_parts set_fields
memory_stat_lines-last_amounts [] stats h = refl
memory_stat_lines-last_amounts (p ∷ ps) stats (h, t) =
    rw
      (
        split_n2-append b' ' p.key p.text (Free-of_AllWord b' ' p.key refl h.word.1),
        parse_uint-IsNumber p.text p.amount h.number,
      )
      (memory_stat_lines-last_amounts ps (set_fields p.key p.amount stats) t)

abbrev pub IsShort : Bytes → Type 0
IsShort l = length l < 65536

IsLine-params :
    (ps : List Param) → All IsParam ps → All IsShort (param_lines ps) → All IsLine (param_lines ps)
IsLine-params [] h k = tt
IsLine-params (p ∷ ps) (h, t) (k, ks) = (
  record {
    no_lf = Free-param_line b'\n' p refl refl h;
    no_cr = Free-param_line b'\r' p refl refl h;
    fits = k;
  },
  IsLine-params ps t ks,
)

-- A file memory.stat of lines "key number" of less than 64 KB each is read so that each field has
-- the number of the last line with its key, and 0 if no line has it; other keys are left out, and a
-- negative number counts as 0.
pub fill_stat_struct-last_amounts :
    (files : Files) (path : Bytes) (ps : List Param)
    → All IsParam ps
    → All IsShort (param_lines ps)
    → files (join_path (path ∷ codes "memory.stat" ∷ [])) ≡ content (unlines (param_lines ps))
    → fill_stat_struct files path ≡ ok (last_amounts ps no_memory_stat)
unfolding fill_stat_struct stat_of_text
fill_stat_struct-last_amounts files path ps h k e =
    rw (e, scan-unlines (param_lines ps) (IsLine-params ps h k))
      (memory_stat_lines-last_amounts ps no_memory_stat h)

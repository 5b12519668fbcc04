-- ===== src/Memory/Systems.antt =====
-- memory_darwin.go, memory_freebsd.go, memory_openbsd.go, memory_aix.go and memory_windows.go. What
-- the calls of the systems return is a parameter.
use elastic_agent_system_met.Base.{
  String, ℕ, ◌+◌, ◌-◌, ◌/◌, ◌^◌, ◌%◌, Bool, List, [], ◌∷◌, if◌then◌else◌, message, Result, ok, err,
  panic, ◌>>=◌, wrap_err,
}
use elastic_agent_system_met.Base.Int.{ℤ, pos, negsuc, add64, sub64, mul64}
use elastic_agent_system_met.Libs.{Float64, Opt}
use elastic_agent_system_met.Memory.Types.{Memory, SwapMetrics}
use elastic_agent_system_met.Memory.Linux.{used_of}

-- `struct uvmexp` of OpenBSD; its numbers are 32 bits wide.
pub record Uvmexp : Type 0 where
  pub pageshift : ℕ
  pub npages : ℕ
  pub free : ℕ

-- A swap device of OpenBSD; `enabled` is its flag SWF_ENABLE.
pub record Swapent : Type 0 where
  pub enabled : Bool
  pub nblks : ℕ
  pub inuse : ℕ

-- `MEMORYSTATUSEX`
pub record MemoryStatusEx : Type 0 where
  pub total_phys : ℕ
  pub avail_phys : ℕ
  pub total_page_file : ℕ
  pub avail_page_file : ℕ

-- `uint64(x) << shift`
unfoldable pub shifted : ℕ → ℕ → ℕ
shifted x shift = mul64 x (2 ^ shift)

-- A difference of uint32.
unfoldable pub sub32 : ℕ → ℕ → ℕ
sub32 a b = (a + 2 ^ 32 - b) % 2 ^ 32

-- `if err != nil { return errors.New("s") }`
abbrev replace_err {ℓ} : {A : Type ℓ} → String → Result A → Result A
replace_err s (ok a) = ok a
replace_err s (err e) = err (message s)
replace_err s panic = panic

module _ (f : Float64) (o : Opt f) where
  open o use {uint_with, uint_none, value_or}

  abbrev pub no_swap : SwapMetrics f o
  no_swap = record { total = uint_none; used = used_of f o uint_none; free = uint_none }

  -- Total, used and free memory, and the part of the used one that can be freed.
  unfoldable pub with_cache : ℕ → ℕ → ℕ → ℕ → SwapMetrics f o → Memory f o
  with_cache total used free cache swap = record {
    total = uint_with total;
    used = used_of f o (uint_with used);
    free = uint_with free;
    cached = uint_none;
    actual = record {
      free = uint_with (add64 free cache);
      used = used_of f o (uint_with (sub64 used cache));
    };
    swap = swap;
  }

  -- `getSwap` of Darwin, on the total, available and used amounts.
  unfoldable pub get_swap_darwin : Result (ℕ × (ℕ × ℕ)) → Result (SwapMetrics f o)
  get_swap_darwin usage = do
    (total, (avail, used)) ← wrap_err "error getting swap usage" usage
    ok (record {
      total = uint_with total;
      used = used_of f o (uint_with used);
      free = uint_with avail;
    })

  -- `get` of Darwin, on the size of the memory and the counts of free and of inactive pages.
  unfoldable pub get_darwin : Result ℕ → Result (ℕ × ℕ) → Result (ℕ × (ℕ × ℕ)) → Result (Memory f o)
  get_darwin memsize vm_info usage = do
    total ← wrap_err "error getting memsize" memsize
    (free_count, inactive_count) ← replace_err "error getting VM info" vm_info
    let kern = shifted inactive_count 12
    let free = shifted free_count 12
    swap ← wrap_err "error getting swap memory" (get_swap_darwin usage)
    ok (with_cache total (sub64 total free) free kern swap)

  -- `get` of FreeBSD, on the counts of pages, their size, and the free and inactive ones.
  unfoldable pub get_freebsd : Result ℕ → Result ℕ → Result ℕ → Result ℕ → Result (Memory f o)
  get_freebsd page_count page_size free_count inactive_count = do
    pagecount ← replace_err "error in vm.stats.vm.v_page_count" page_count
    pagesize ← replace_err "error in vm.stats.vm.v_page_size" page_size
    free ← replace_err "error in vm.stats.vm.v_free_count" free_count
    kern ← replace_err "error in vm.stats.vm.v_inactive_count" inactive_count
    let total = mul64 pagecount pagesize
    let mem_free = mul64 free pagesize
    ok (with_cache total (sub64 total mem_free) mem_free (mul64 kern pagesize) no_swap)

  -- The loop of `getSwap` of OpenBSD over the devices; `blocks` is 1024/DEV_BSIZE.
  unfoldable pub add_devices_openbsd : ℕ → List Swapent → SwapMetrics f o → SwapMetrics f o
  add_devices_openbsd blocks [] swap = swap
  add_devices_openbsd blocks (dev ∷ devs) swap = add_devices_openbsd blocks devs (
      if dev.enabled
      then record swap {
        used = record (swap.used) {
          bytes = uint_with (add64 (value_or swap.used.bytes 0) (dev.inuse / blocks));
        };
        total = uint_with (add64 (value_or swap.total 0) (dev.nblks / blocks));
      }
      else swap)

  -- `getSwap` of OpenBSD: a slice of a negative length cannot be made; `stats` are the devices, none
  -- for a call that returns 0.
  unfoldable pub get_swap_openbsd : ℕ → ℤ → Result (List Swapent) → Result (SwapMetrics f o)
  get_swap_openbsd blocks (pos (ℕ.zero)) stats = ok no_swap
  get_swap_openbsd blocks (negsuc n) stats = panic
  get_swap_openbsd blocks (pos (ℕ.suc n)) stats = do
    devs ← replace_err "error in SWAP_STATS sysctl" stats
    let swap = add_devices_openbsd blocks devs no_swap
    ok (record swap {
      free = uint_with (sub64 (value_or swap.total 0) (value_or swap.used.bytes 0));
    })

  -- `get` of OpenBSD, on the pages of the system and those of the buffer cache.
  unfoldable pub get_openbsd :
      Result Uvmexp → Result ℕ → ℕ → ℤ → Result (List Swapent) → Result (Memory f o)
  get_openbsd uvm numbufpages blocks nswap stats = do
    uvmexp ← replace_err "Error in VM_UVMEXP sysctl call" uvm
    bufpages ← replace_err "Error in VFS_BCACHESTAT sysctl call" numbufpages
    let free = shifted uvmexp.free uvmexp.pageshift
    let used = shifted (sub32 uvmexp.npages uvmexp.free) uvmexp.pageshift
    let total = shifted uvmexp.npages uvmexp.pageshift
    swap ← wrap_err "error getting swap data" (get_swap_openbsd blocks nswap stats)
    ok (with_cache total used free (shifted bufpages uvmexp.pageshift) swap)

  -- `get` of AIX, on the counts of real pages, of the free ones and of those of the file cache.
  unfoldable pub get_aix : Result (ℕ × (ℕ × ℕ)) → ℕ → Result (Memory f o)
  get_aix meminfo pagesize = do
    (real_total, (real_free, numperm)) ← replace_err "perfstat_memory_total" meminfo
    let total = mul64 real_total pagesize
    let free = mul64 real_free pagesize
    ok (with_cache total (sub64 total free) free (mul64 numperm pagesize) no_swap)

  -- `get` of Windows.
  unfoldable pub get_windows : Result MemoryStatusEx → Result (Memory f o)
  get_windows status = do
    m ← wrap_err "error fetching global memory status" status
    let free = uint_with m.avail_phys
    let used = used_of f o (uint_with (sub64 m.total_phys m.avail_phys))
    ok (record {
      total = uint_with m.total_phys;
      used = used;
      free = free;
      cached = uint_none;
      actual = record { free = free; used = used };
      swap = record {
        total = uint_with m.total_page_file;
        used = used_of f o (uint_with (sub64 m.total_page_file m.avail_page_file));
        free = uint_with m.avail_page_file;
      };
    })

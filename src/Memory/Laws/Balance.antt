-- ===== src/Memory/Laws/Balance.antt =====
-- The figures of other systems: what is used and what is free add up to the total.
use elastic_agent_system_met.Base.{ℕ, ◌-◌, ◌^◌, ◌≤◌, ◌<◌, ◌≡◌, List, Result, ok, arith, suc, zero}
use elastic_agent_system_met.Base.Int.{pos, add64, sub64, mul64, u64_mod}
use elastic_agent_system_met.Libs.{Float64, Opt, OptLaws}
use elastic_agent_system_met.Memory.Types.{Memory, SwapMetrics}
use elastic_agent_system_met.Memory.Systems.{
  Uvmexp, Swapent, MemoryStatusEx, shifted, sub32, with_cache, get_darwin, get_freebsd, get_openbsd,
  get_swap_darwin, get_swap_openbsd, get_aix, get_windows,
}

-- What the calls of a system return when they succeed.
pub data Sample : Type 0 where
  darwin : (total free_count inactive_count : ℕ) → ℕ × (ℕ × ℕ) → Sample
  freebsd : (page_count page_size free_count inactive_count : ℕ) → Sample
  openbsd : Uvmexp → (bufpages blocks nswap : ℕ) → List Swapent → Sample
  aix : (real_total real_free numperm pagesize : ℕ) → Sample
  windows : MemoryStatusEx → Sample

-- The ranges of the figures: 64 bits, and 32 bits on OpenBSD, where no more pages are free than
-- there are.
abbrev pub Fits : Sample → Type 0
Fits (darwin total free_count inactive_count usage) = total < u64_mod
Fits (freebsd page_count page_size free_count inactive_count) = Unit {0}
Fits (openbsd u bufpages blocks nswap devs) = (u.free ≤ u.npages) × (u.npages < 2 ^ 32)
Fits (aix real_total real_free numperm pagesize) = Unit {0}
Fits (windows m) = (m.total_phys < u64_mod) × (m.avail_phys < u64_mod)

used_plus_free :
    (total free : ℕ) → total < u64_mod → free < u64_mod → add64 (sub64 total free) free ≡ total
used_plus_free total free h k = omega arith

mul64_plus : (a b p : ℕ) → b ≤ a → add64 (mul64 (a - b) p) (mul64 b p) ≡ mul64 a p
mul64_plus a b p h = grind arith

sub32_of_le : (a b : ℕ) → b ≤ a → a < 2 ^ 32 → sub32 a b ≡ a - b
unfolding sub32
sub32_of_le a b h k = omega arith

module _ (f : Float64) (o : Opt f) (laws : OptLaws o) where
  open o use {value_or}

  -- The call returns figures that add up, modulo 2 ^ 64: used and free memory to the total, and so
  -- do the actual ones.
  abbrev pub Balanced : Result (Memory f o) → Type 0
  Balanced (ok m) =
      (add64 (value_or m.used.bytes 0) (value_or m.free 0) ≡ value_or m.total 0)
      × (add64 (value_or m.actual.used.bytes 0) (value_or m.actual.free 0) ≡ value_or m.total 0)
  Balanced _ = ⊥

  -- `get` of the system on what its calls return.
  abbrev pub get_of : Sample → Result (Memory f o)
  get_of (darwin total free_count inactive_count usage) =
      get_darwin f o (ok total) (ok (free_count, inactive_count)) (ok usage)
  get_of (freebsd page_count page_size free_count inactive_count) =
      get_freebsd f o (ok page_count) (ok page_size) (ok free_count) (ok inactive_count)
  get_of (openbsd u bufpages blocks nswap devs) =
      get_openbsd f o (ok u) (ok bufpages) blocks (pos nswap) (ok devs)
  get_of (aix real_total real_free numperm pagesize) =
      get_aix f o (ok (real_total, (real_free, numperm))) pagesize
  get_of (windows m) = get_windows f o (ok m)

  Balanced-with_cache :
      (total used free cache : ℕ) (swap : SwapMetrics f o)
      → total < u64_mod
      → used < u64_mod
      → cache < u64_mod
      → add64 used free ≡ total
      → Balanced (ok (with_cache f o total used free cache swap))
  unfolding with_cache
  Balanced-with_cache total used free cache swap t u c h = (
    rw
        (
          laws.value_or-uint_with used 0,
          laws.value_or-uint_with free 0,
          laws.value_or-uint_with total 0,
        )
        h,
    rw
        (
          laws.value_or-uint_with (sub64 used cache) 0,
          laws.value_or-uint_with (add64 free cache) 0,
          laws.value_or-uint_with total 0,
        )
        (omega (arith, h)),
  )

  Balanced-free :
      (total free cache : ℕ) (swap : SwapMetrics f o)
      → total < u64_mod
      → free < u64_mod
      → cache < u64_mod
      → Balanced (ok (with_cache f o total (sub64 total free) free cache swap))
  Balanced-free total free cache swap t h c =
      Balanced-with_cache total (sub64 total free) free cache swap t (omega arith) c
        (used_plus_free total free t h)

  -- OpenBSD multiplies the difference of the pages.
  Balanced-pages :
      (u : Uvmexp) (cache : ℕ) (swap : SwapMetrics f o)
      → u.free ≤ u.npages
      → u.npages < 2 ^ 32
      → Balanced (
          ok (
            with_cache f o
              (shifted u.npages u.pageshift)
              (shifted (sub32 u.npages u.free) u.pageshift)
              (shifted u.free u.pageshift)
              (shifted cache u.pageshift)
              swap))
  unfolding shifted
  Balanced-pages u cache swap h k =
      Balanced-with_cache (mul64 u.npages (2 ^ u.pageshift))
        (mul64 (sub32 u.npages u.free) (2 ^ u.pageshift)) (mul64 u.free (2 ^ u.pageshift))
        (mul64 cache (2 ^ u.pageshift)) swap (omega arith) (omega arith) (omega arith)
        (rw (sub32_of_le u.npages u.free h k) (mul64_plus u.npages u.free (2 ^ u.pageshift) h))

  -- When its calls succeed, `get` of Darwin, FreeBSD, OpenBSD, AIX and Windows returns figures where
  -- used and free memory add up to the total modulo 2 ^ 64, and so do the actual used and free
  -- memory. The amounts of bytes that a system gives are below 2 ^ 64; on OpenBSD the count of pages
  -- is below 2 ^ 32, and no more of them are free.
  pub get_of-Balanced : (s : Sample) → Fits s → Balanced (get_of s)
  unfolding get_darwin get_swap_darwin get_freebsd get_openbsd get_swap_openbsd get_aix get_windows
      shifted
  get_of-Balanced (darwin total free_count inactive_count (t, (a, u))) h =
      Balanced-free total (mul64 free_count (2 ^ 12)) (mul64 inactive_count (2 ^ 12)) _ h
        (omega arith) (omega arith)
  get_of-Balanced (freebsd page_count page_size free_count inactive_count) h =
      Balanced-free (mul64 page_count page_size) (mul64 free_count page_size)
        (mul64 inactive_count page_size) _ (omega arith) (omega arith) (omega arith)
  get_of-Balanced (openbsd u bufpages blocks zero devs) (h, k) = Balanced-pages u bufpages _ h k
  get_of-Balanced (openbsd u bufpages blocks (suc n) devs) (h, k) = Balanced-pages u bufpages _ h k
  get_of-Balanced (aix real_total real_free numperm pagesize) h =
      Balanced-free (mul64 real_total pagesize) (mul64 real_free pagesize) (mul64 numperm pagesize)
        _ (omega arith) (omega arith) (omega arith)
  get_of-Balanced (windows m) (h, k) = (both, both)
    where
      both :
          add64
            (value_or (o.uint_with (sub64 m.total_phys m.avail_phys)) 0)
            (value_or (o.uint_with m.avail_phys) 0)
          ≡ value_or (o.uint_with m.total_phys) 0
      both =
          rw
            (
              laws.value_or-uint_with (sub64 m.total_phys m.avail_phys) 0,
              laws.value_or-uint_with m.avail_phys 0,
              laws.value_or-uint_with m.total_phys 0,
            )
            (used_plus_free m.total_phys m.avail_phys h k)

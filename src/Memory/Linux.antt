-- ===== src/Memory/Linux.antt =====
-- memory_linux.go: the metrics that `get` takes from the table, and `Get` over it.
use elastic_agent_system_met.Base.{
  ℕ, List, Option, none, some, Bytes, codes, Result, ok, ◌>>=◌, wrap_err, bytes_comparable,
}
use elastic_agent_system_met.Base.Int.{add64, sub64}
use elastic_agent_system_met.Go.Maps.{lookup}
use elastic_agent_system_met.Go.Files.{Files}
use elastic_agent_system_met.Resolve.{Resolver}
use elastic_agent_system_met.Libs.{Float64, Opt}
use elastic_agent_system_met.Memory.Types.{Memory, UsedMemStats, fill_percentages}
use elastic_agent_system_met.Memory.Meminfo.{parse_meminfo}

-- `table[key]` where a missing key reads as zero.
abbrev pub or_zero : Option ℕ → ℕ
or_zero none = 0
or_zero (some n) = n

module _ (f : Float64) (o : Opt f) where
  open o use {Uint, OptFloat, uint_with, uint_none, value_or, float_none}

  -- `if v, ok := table[key]; ok { field = opt.UintWith(v) }`
  abbrev pub maybe : Option ℕ → Uint
  maybe none = uint_none
  maybe (some n) = uint_with n

  -- `MemAvailable`, or what stands in for it on a kernel before 3.14.
  unfoldable pub actual_free : Option ℕ → ℕ → ℕ → ℕ → Uint
  actual_free (some avail) free buffers cached = uint_with avail
  actual_free none free buffers cached = uint_with (add64 (add64 free buffers) cached)

  unfoldable pub swap_used : Option ℕ → Option ℕ → Uint
  swap_used (some total) (some free) = uint_with (sub64 total free)
  swap_used _ _ = uint_none

  abbrev pub used_of : Uint → UsedMemStats f o
  used_of bytes = record { pct = float_none; bytes = bytes }

  -- The body of `get` behind the read.
  unfoldable pub memory_of_table : List (Bytes × ℕ) → Memory f o
  unfolding actual_free swap_used
  memory_of_table table =
      let total = maybe (lookup (codes "MemTotal") table) in
      let mem_free = lookup (codes "MemFree") table in
      let mem_cached = lookup (codes "Cached") table in
      let buffers = or_zero (lookup (codes "Buffers") table) in
      let available = lookup (codes "MemAvailable") table in
      let really_free = actual_free available (or_zero mem_free) buffers (or_zero mem_cached) in
      let swap_total = lookup (codes "SwapTotal") table in
      let swap_free = lookup (codes "SwapFree") table in
      record {
        total = total;
        used = used_of (uint_with (sub64 (value_or total 0) (value_or (maybe mem_free) 0)));
        free = maybe mem_free;
        cached = maybe mem_cached;
        actual = record {
          free = really_free;
          used = used_of (uint_with (sub64 (value_or total 0) (value_or really_free 0)));
        };
        swap = record {
          total = maybe swap_total;
          used = used_of (swap_used swap_total swap_free);
          free = maybe swap_free;
        };
      }

  -- `get`
  unfoldable pub get_linux : Files → Resolver → Result (Memory f o)
  get_linux fs rootfs = do
    table ← wrap_err "error fetching meminfo" (parse_meminfo fs rootfs)
    ok (memory_of_table table)

  -- `Get`
  unfoldable pub get : Files → Resolver → Result (Memory f o)
  get fs procfs = do
    base ← wrap_err "error getting system memory info" (get_linux fs procfs)
    ok (fill_percentages f o base)

-- ===== src/Memory/Laws/Figures.antt =====
-- The figures that `Get` derives from the table.
use elastic_agent_system_met.Base.{
  ℕ, ◌+◌, ◌-◌, ◌≤◌, ◌<◌, List, ◌≡◌, ◌∙◌, ap, Bytes, codes, arith, none, some, ok, bytes_comparable,
}
use elastic_agent_system_met.Base.Int.{u64_mod, sub64, add64}
use elastic_agent_system_met.Go.Maps.{lookup}
use elastic_agent_system_met.Go.Files.{Files}
use elastic_agent_system_met.Resolve.{Resolver}
use elastic_agent_system_met.Libs.{Float64, Opt, OptLaws}
use elastic_agent_system_met.Round.{round}
use elastic_agent_system_met.Memory.Types.{Memory, fill_percentages}
use elastic_agent_system_met.Memory.Meminfo.{parse_meminfo}
use elastic_agent_system_met.Memory.Linux.{memory_of_table, get_linux, get}

module _ (f : Float64) (o : Opt f) (laws : OptLaws o) where
  open o use {value_or, float_with}

  -- The share of a total, as a percentage metric.
  abbrev pub pct_of : ℕ → ℕ → o.OptFloat
  pct_of n total = float_with (round f (f.div (f.of_uint n) (f.of_uint total)))

  get_of_table :
      (fs : Files) (r : Resolver) (table : List (Bytes × ℕ))
      → parse_meminfo fs r ≡ ok table
      → get f o fs r ≡ ok (fill_percentages f o (memory_of_table f o table))
  unfolding get get_linux
  get_of_table fs r table h = rw h

  sub64_of_le : (a b : ℕ) → b ≤ a → a < u64_mod → sub64 a b ≡ a - b
  sub64_of_le a b h k = omega arith

  -- `fillPercentages` leaves the amounts alone.
  fill-bytes :
      (base : Memory f o)
      → ((fill_percentages f o base).used.bytes ≡ base.used.bytes)
        × ((fill_percentages f o base).actual.used.bytes ≡ base.actual.used.bytes)
        × ((fill_percentages f o base).swap.used.bytes ≡ base.swap.used.bytes)
  unfolding fill_percentages
  fill-bytes base = (ground arith, ground arith, ground arith)

  fill-pct :
      (base : Memory f o) (t : ℕ)
      → base.total ≡ o.uint_with t
      → 0 < t
      → ((fill_percentages f o base).used.pct ≡ pct_of (value_or base.used.bytes 0) t)
        × ((fill_percentages f o base).actual.used.pct
            ≡ pct_of (value_or base.actual.used.bytes 0) t)
  unfolding fill_percentages
  fill-pct base t e h = (
    ground
        (arith, laws.value_or-uint_with t 0, laws.value_or-uint_with t 1, laws.exists-uint_with t),
    ground
        (arith, laws.value_or-uint_with t 0, laws.value_or-uint_with t 1, laws.exists-uint_with t),
  )

  fill-swap_pct :
      (base : Memory f o) (t n : ℕ)
      → base.swap.total ≡ o.uint_with t
      → base.swap.used.bytes ≡ o.uint_with n
      → 0 < t
      → (fill_percentages f o base).swap.used.pct ≡ pct_of n t
  unfolding fill_percentages
  fill-swap_pct base t n e d h =
      ground
        (arith, laws.value_or-uint_with t 0, laws.value_or-uint_with n 0, laws.exists-uint_with n)

  table-used :
      (table : List (Bytes × ℕ)) (t fr av : ℕ)
      → lookup (codes "MemTotal") table ≡ some t
      → lookup (codes "MemFree") table ≡ some fr
      → lookup (codes "MemAvailable") table ≡ some av
      → ((memory_of_table f o table).total ≡ o.uint_with t)
        × ((memory_of_table f o table).used.bytes ≡ o.uint_with (sub64 t fr))
        × ((memory_of_table f o table).actual.used.bytes ≡ o.uint_with (sub64 t av))
  unfolding memory_of_table
  table-used table t fr av ht hf ha = (
    rw ht,
    rw (ht, hf, laws.value_or-uint_with t 0, laws.value_or-uint_with fr 0),
    rw (ht, ha, laws.value_or-uint_with t 0, laws.value_or-uint_with av 0),
  )

  value_of_diff :
      (u : o.Uint) (a b : ℕ)
      → u ≡ o.uint_with (sub64 a b)
      → b ≤ a
      → a < u64_mod
      → value_or u 0 ≡ a - b
  value_of_diff u a b e h k = rw e (laws.value_or-uint_with (sub64 a b) 0 ∙ sub64_of_le a b h k)

  -- If meminfo has a total that is not 0, a free and an available amount, both at most the total,
  -- then `Get` returns; the memory in use and the free memory add up to the total, so do the
  -- actual use and the available memory, and the percentages are the shares of the total.
  pub get-used :
      (fs : Files) (r : Resolver) (table : List (Bytes × ℕ)) (t fr av : ℕ)
      → parse_meminfo fs r ≡ ok table
      → lookup (codes "MemTotal") table ≡ some t
      → lookup (codes "MemFree") table ≡ some fr
      → lookup (codes "MemAvailable") table ≡ some av
      → 0 < t
      → t < u64_mod
      → fr ≤ t
      → av ≤ t
      → (m : Memory f o) × (get f o fs r ≡ ok m)
        × (value_or m.used.bytes 0 + fr ≡ t)
        × (value_or m.actual.used.bytes 0 + av ≡ t)
        × (m.used.pct ≡ pct_of (t - fr) t)
        × (m.actual.used.pct ≡ pct_of (t - av) t)
  get-used fs r table t fr av parsed ht hf ha t0 tb frt avt =
      let base = memory_of_table f o table in
      let (b1, b2, b3) = fill-bytes base in
      let (total, used, actual) = table-used table t fr av ht hf ha in
      let (p1, p2) = fill-pct base t total t0 in
      (
        fill_percentages f o base,
        get_of_table fs r table parsed,
        rw b1 (omega (arith, value_of_diff base.used.bytes t fr used frt tb)),
        rw b2 (omega (arith, value_of_diff base.actual.used.bytes t av actual avt tb)),
        p1 ∙ ap (λ n. pct_of n t) (value_of_diff base.used.bytes t fr used frt tb),
        p2 ∙ ap (λ n. pct_of n t) (value_of_diff base.actual.used.bytes t av actual avt tb),
      )

  table-swap :
      (table : List (Bytes × ℕ)) (st sf : ℕ)
      → lookup (codes "SwapTotal") table ≡ some st
      → lookup (codes "SwapFree") table ≡ some sf
      → ((memory_of_table f o table).swap.total ≡ o.uint_with st)
        × ((memory_of_table f o table).swap.used.bytes ≡ o.uint_with (sub64 st sf))
  unfolding memory_of_table
  table-swap table st sf ht hf = (rw ht, rw (ht, hf))

  -- If meminfo has a swap total that is not 0 and an amount of free swap that is at most the
  -- total, then `Get` returns; used and free swap add up to the total, and the percentage is the
  -- share of the total.
  pub get-swap :
      (fs : Files) (r : Resolver) (table : List (Bytes × ℕ)) (st sf : ℕ)
      → parse_meminfo fs r ≡ ok table
      → lookup (codes "SwapTotal") table ≡ some st
      → lookup (codes "SwapFree") table ≡ some sf
      → 0 < st
      → st < u64_mod
      → sf ≤ st
      → (m : Memory f o) × (get f o fs r ≡ ok m)
        × (value_or m.swap.used.bytes 0 + sf ≡ st)
        × (m.swap.used.pct ≡ pct_of (st - sf) st)
  get-swap fs r table st sf parsed ht hf t0 tb h =
      let base = memory_of_table f o table in
      let (b1, b2, b3) = fill-bytes base in
      let (total, used) = table-swap table st sf ht hf in
      (
        fill_percentages f o base,
        get_of_table fs r table parsed,
        rw b3 (omega (arith, value_of_diff base.swap.used.bytes st sf used h tb)),
        fill-swap_pct base st (sub64 st sf) total used t0
            ∙ ap (λ n. pct_of n st) (sub64_of_le st sf h tb),
      )

  table-fallback :
      (table : List (Bytes × ℕ)) (t fr c b : ℕ)
      → lookup (codes "MemTotal") table ≡ some t
      → lookup (codes "MemFree") table ≡ some fr
      → lookup (codes "Cached") table ≡ some c
      → lookup (codes "Buffers") table ≡ some b
      → lookup (codes "MemAvailable") table ≡ none
      → (memory_of_table f o table).actual.used.bytes ≡ o.uint_with (sub64 t (add64 (add64 fr b) c))
  unfolding memory_of_table
  table-fallback table t fr c b ht hf hc hb ha = rw (
    ht,
    hf,
    hc,
    hb,
    ha,
    laws.value_or-uint_with t 0,
    laws.value_or-uint_with (add64 (add64 fr b) c) 0,
  )

  -- Without `MemAvailable`, free memory, buffers and cache stand in for it; where their sum is
  -- more than the total and below 2 ^ 64, the actual use that `Get` reports is the total plus 2 ^
  -- 64 less that sum.
  pub get_fallback_wraps :
      (fs : Files) (r : Resolver) (table : List (Bytes × ℕ)) (t fr c b : ℕ)
      → parse_meminfo fs r ≡ ok table
      → lookup (codes "MemTotal") table ≡ some t
      → lookup (codes "MemFree") table ≡ some fr
      → lookup (codes "Cached") table ≡ some c
      → lookup (codes "Buffers") table ≡ some b
      → lookup (codes "MemAvailable") table ≡ none
      → t < fr + b + c
      → fr + b + c < u64_mod
      → (m : Memory f o) × (get f o fs r ≡ ok m)
        × (value_or m.actual.used.bytes 0 + (fr + b + c) ≡ t + u64_mod)
  get_fallback_wraps fs r table t fr c b parsed ht hf hc hb ha over fits =
      let base = memory_of_table f o table in
      let (b1, b2, b3) = fill-bytes base in
      let used = table-fallback table t fr c b ht hf hc hb ha in
      (
        fill_percentages f o base,
        get_of_table fs r table parsed,
        rw (b2, used, laws.value_or-uint_with (sub64 t (add64 (add64 fr b) c)) 0) (omega arith),
      )

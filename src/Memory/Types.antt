-- ===== src/Memory/Types.antt =====
-- The metrics of memory.go and their percentages.
use elastic_agent_system_met.Base.{ℕ, Bool, ◌&&◌, not, if◌then◌else◌, nat_eq}
use elastic_agent_system_met.Libs.{Float64, Opt}
use elastic_agent_system_met.Round.{round}

module _ (f : Float64) (o : Opt f) where
  open f use {Float, of_uint, div}
  open o use {Uint, OptFloat, exists, is_zero, value_or, float_with, float_is_zero}

  pub record UsedMemStats : Type 0 where
    pub pct : OptFloat
    pub bytes : Uint

  pub record ActualMemoryMetrics : Type 0 where
    pub free : Uint
    pub used : UsedMemStats

  pub record SwapMetrics : Type 0 where
    pub total : Uint
    pub used : UsedMemStats
    pub free : Uint

  pub record Memory : Type 0 where
    pub total : Uint
    pub used : UsedMemStats
    pub free : Uint
    pub cached : Uint
    pub actual : ActualMemoryMetrics
    pub swap : SwapMetrics

  unfoldable pub used_is_zero : UsedMemStats → Bool
  used_is_zero used = float_is_zero used.pct && is_zero used.bytes

  unfoldable pub swap_is_zero : SwapMetrics → Bool
  unfolding used_is_zero
  swap_is_zero swap = is_zero swap.free && (used_is_zero swap.used && is_zero swap.total)

  -- The share `bytes / total`, rounded.
  abbrev share : Uint → ℕ → UsedMemStats → UsedMemStats
  share total default used = record used {
    pct =
        float_with
          (round f (div (of_uint (value_or used.bytes 0)) (of_uint (value_or total default))));
  }

  unfoldable pub fill_total : Memory → Memory
  fill_total base =
      if exists base.total && not (nat_eq (value_or base.total 0) 0)
      then record base {
        used = share base.total 1 base.used;
        actual = record (base.actual) { used = share base.total 0 base.actual.used };
      }
      else base

  unfoldable pub fill_swap : Memory → Memory
  fill_swap base =
      if not (nat_eq (value_or base.swap.total 0) 0) && exists base.swap.used.bytes
      then record base {
        swap = record (base.swap) { used = share base.swap.total 0 base.swap.used };
      }
      else base

  -- `fillPercentages`
  unfoldable pub fill_percentages : Memory → Memory
  unfolding fill_total fill_swap
  fill_percentages base = fill_swap (fill_total base)

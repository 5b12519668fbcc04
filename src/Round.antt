-- ===== src/Round.antt =====
-- metric/math.go: rounding of the reported percentages.
use elastic_agent_system_met.Base.{if◌then◌else◌}
use elastic_agent_system_met.Base.Int.{ℤ, pos}
use elastic_agent_system_met.Libs.{Float64}

module _ (f : Float64) where
  open f use {Float, of_int, of_uint, half, mul, div, le, pow, modf_frac, ceil, floor}

  unfoldable pub round_with_precision : Float → ℤ → Float
  round_with_precision val precision =
      let scale = pow (of_uint 10) (of_int precision) in
      let digit = mul scale val in
      let fraction = modf_frac digit in
      let rounded = if le half fraction then ceil digit else floor digit in div rounded scale

  unfoldable pub round : Float → Float
  unfolding round_with_precision
  round val = round_with_precision val (pos 4)

-- ===== src/Go/Slices.antt =====
-- Slice expressions of Go, which panic when a bound is out of range. An upper bound may be as large
-- as the capacity in Go; here it is at most the length.
use elastic_agent_system_met.Base.{
  ℕ, ◌-◌, List, leb, ◌&&◌, if◌then◌else◌, length, take, drop, Result, ok, panic,
}

module _ {ℓ} {A : Type ℓ} where
  -- `s[l:r]`
  unfoldable pub slice : List A → ℕ → ℕ → Result (List A)
  slice s l r = if leb l r && leb r (length s) then ok (take (r - l) (drop l s)) else panic

  -- `s[l:]`
  unfoldable pub slice_from : List A → ℕ → Result (List A)
  slice_from s l = if leb l (length s) then ok (drop l s) else panic

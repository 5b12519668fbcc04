-- ===== src/Libs/Calls.antt =====
-- A loop over calls of an operating system, such as getprocs of AIX, that ends by what a call
-- returns: the calls that the loop makes, in their order.
use elastic_agent_system_met.Base.{Error}

-- `value` is what the call leaves in the buffer; the loop goes on behind `more`, and ends behind
-- `final` and `failed`.
pub data Calls {ℓ} (A : Type ℓ) : Type ℓ where
  more : A → Calls A → Calls A
  final : A → Calls A
  failed : Error → Calls A

-- ===== src/Libs/Ints.antt =====
-- `opt.Int` of github.com/elastic/elastic-agent-libs: an int that may be missing. It is a struct of
-- two fields, so Go compares it by `==`.
use elastic_agent_system_met.Base.{◌≡◌, Comparable}
use elastic_agent_system_met.Base.Int.{ℤ}

pub record OptInt : Type 1 where
  pub Int : Type 0
  pub int_with : ℤ → Int
  pub int_none : Int
  pub value_or : Int → ℤ → ℤ
  pub comparable : Comparable Int

pub record OptIntLaws (i : OptInt) : Type 0 where
  pub value_or-int_with : (n d : ℤ) → i.value_or (i.int_with n) d ≡ n
  pub value_or-int_none : (d : ℤ) → i.value_or i.int_none d ≡ d

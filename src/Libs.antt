-- ===== src/Libs.antt =====
-- What the program takes from outside: `float64` arithmetic, and the package `opt` of
-- github.com/elastic/elastic-agent-libs. Both are parameters of the model; `Laws` of each states
-- the documented behaviour that a theorem relies on.
pub mod Mapstr
pub mod Ints
pub mod Calls
use elastic_agent_system_met.Base.{ℕ, Bool, true, false, not, List, [], ◌∷◌, ◌≡◌, Bytes}
use elastic_agent_system_met.Base.Int.{ℤ, add64}

-- `float64` with the conversions and the functions of package `math` that the code calls.
pub record Float64 : Type 1 where
  pub Float : Type 0
  pub of_uint : ℕ → Float
  pub of_int : ℤ → Float
  pub half : Float
  pub add : Float → Float → Float
  pub sub : Float → Float → Float
  pub mul : Float → Float → Float
  pub div : Float → Float → Float
  pub lt : Float → Float → Bool
  pub le : Float → Float → Bool
  pub eq : Float → Float → Bool
  pub is_nan : Float → Bool
  pub pow : Float → Float → Float
  -- The second result of `math.Modf`.
  pub modf_frac : Float → Float
  pub ceil : Float → Float
  pub floor : Float → Float
  -- `strconv.ParseFloat(s, 64)`, `none` for an error.
  pub is_number : Bytes → Bool
  pub parse : Bytes → Float

-- `opt.Uint` and `opt.Float`.
pub record Opt (f : Float64) : Type 1 where
  pub Uint : Type 0
  pub uint_with : ℕ → Uint
  -- `NewUintNone()`, which is also Go's zero value of the type.
  pub uint_none : Uint
  pub exists : Uint → Bool
  pub is_zero : Uint → Bool
  pub value_or : Uint → ℕ → ℕ
  pub sum_opt_uint : List Uint → ℕ
  pub subtract_or_none : Uint → Uint → Uint
  pub OptFloat : Type 0
  pub float_with : f.Float → OptFloat
  pub float_none : OptFloat
  pub float_is_zero : OptFloat → Bool
  pub float_value_or : OptFloat → f.Float → f.Float

-- The documentation of `opt.Uint`: a value that may be missing.
pub record OptLaws {f : Float64} (o : Opt f) : Type 0 where
  pub value_or-uint_with : (n d : ℕ) → o.value_or (o.uint_with n) d ≡ n
  pub value_or-uint_none : (d : ℕ) → o.value_or o.uint_none d ≡ d
  pub exists-uint_with : (n : ℕ) → o.exists (o.uint_with n) ≡ true
  pub exists-uint_none : o.exists o.uint_none ≡ false
  pub is_zero-exists : (u : o.Uint) → o.is_zero u ≡ not (o.exists u)
  pub sum-nil : o.sum_opt_uint [] ≡ 0
  pub sum-cons :
      (u : o.Uint) (us : List o.Uint)
      → o.sum_opt_uint (u ∷ us) ≡ add64 (o.value_or u 0) (o.sum_opt_uint us)

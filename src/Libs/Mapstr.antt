-- ===== src/Libs/Mapstr.antt =====
-- `mapstr.M` of github.com/elastic/elastic-agent-libs: a Go map of strings to values of any type,
-- whose method `Put` also takes dotted keys. The map is the language's; the method is a parameter.
use elastic_agent_system_met.Base.{
  ℕ, Bool, ◌∷◌, ◌≡◌, refl, Bytes, Option, none, some, false, if◌then◌else◌, ◌==◌, bytes_comparable,
  arith, bytes_eq_iff, All, nat_eq,
}
use elastic_agent_system_met.Base.Int.{ℤ}
use elastic_agent_system_met.Libs.{Float64}

module _ (f : Float64) where
  mutual
    pub data Value : Type 0 where
      uint : ℕ → Value
      int : ℤ → Value
      float : f.Float → Value
      text : Bytes → Value
      bool : Bool → Value
      object : M → Value

    pub data M : Type 0 where
      empty : M
      entry : Bytes → Value → M → M

  -- `m[k]`
  unfoldable pub get_value : Bytes → M → Option Value
  get_value k empty = none
  get_value k (entry j v m) = let rest = get_value k m in if j == k then some v else rest

  -- `m[k] = v`
  unfoldable pub set_value : Bytes → Value → M → M
  set_value k v empty = entry k v empty
  set_value k v (entry j w m) =
      let rest = set_value k v m in if j == k then entry k v m else entry j w rest

  pub get_value-set_value :
      (k j : Bytes) (v : Value) (m : M)
      → get_value j (set_value k v m) ≡ (if k == j then some v else get_value j m)
  unfolding get_value set_value
  get_value-set_value k j v empty = refl
  get_value-set_value k j v (entry i w m) =
      ground
        (arith, bytes_eq_iff k j, bytes_eq_iff i k, bytes_eq_iff i j, get_value-set_value k j v m)

  -- `Put(key, value)`, without the value that it replaces and its error.
  pub record Mapstr : Type 0 where
    pub put : M → Bytes → Value → M

  -- The documentation of `Put`: a key with no dot is assigned. A key with a dot is split at its
  -- first one, and `top.rest` is put into the map below `top`, so another entry, whose key has no
  -- dot, stays.
  pub record MapstrLaws (ms : Mapstr) : Type 0 where
    pub put_plain :
        (m : M) (k : Bytes) (v : Value)
        → All (λ c. nat_eq c b'.' ≡ false) k
        → ms.put m k v ≡ set_value k v m
    pub put_dotted :
        (m : M) (top rest j : Bytes) (v : Value)
        → All (λ c. nat_eq c b'.' ≡ false) top
        → All (λ c. nat_eq c b'.' ≡ false) j
        → (top == j) ≡ false
        → get_value j (ms.put m (mathlib.Core.List.◌++◌ top (b'.' ∷ rest)) v) ≡ get_value j m

-- ===== src/Go/Maps.antt =====
-- Go's maps as association lists. Reading a missing key is `none`; writing keeps one entry a key.
pub mod Sums
pub mod Ranges
use elastic_agent_system_met.Base.{
  false, List, [], ◌∷◌, ◌≡◌, refl, ◌∙◌, Option, none, some, if◌then◌else◌, Comparable, ◌==◌, arith,
  beq_self,
}

module _ {ℓ κ} {K : Type ℓ} {V : Type κ} ⦃c : Comparable K⦄ where
  -- `m[k]`
  unfoldable pub lookup : K → List (K × V) → Option V
  lookup wanted [] = none
  lookup wanted ((key, value) ∷ entries) =
      let later = lookup wanted entries in if key == wanted then some value else later

  -- `m[k] = v`
  unfoldable pub insert : K → V → List (K × V) → List (K × V)
  insert new value [] = (new, value) ∷ []
  insert new value ((key, old) ∷ entries) =
      let later = insert new value entries in
      if key == new then (new, value) ∷ entries else (key, old) ∷ later

  -- Reading any key after a write.
  pub lookup-insert :
      (new wanted : K) (value : V) (entries : List (K × V))
      → lookup wanted (insert new value entries)
        ≡ (if new == wanted then some value else lookup wanted entries)
  unfolding lookup insert
  lookup-insert new wanted value [] = refl
  lookup-insert new wanted value ((key, old) ∷ entries) =
      let later = lookup-insert new wanted value entries in
      ground (arith, later, c.same_iff key wanted, c.same_iff new wanted, c.same_iff key new)

  pub lookup-insert_self :
      (new : K) (value : V) (entries : List (K × V))
      → lookup new (insert new value entries) ≡ some value
  lookup-insert_self new value entries = lookup-insert new new value entries ∙ rw (beq_self new)

  pub lookup-insert_ne :
      (new wanted : K) (value : V) (entries : List (K × V))
      → (new == wanted) ≡ false
      → lookup wanted (insert new value entries) ≡ lookup wanted entries
  lookup-insert_ne new wanted value entries other =
      lookup-insert new wanted value entries ∙ rw other

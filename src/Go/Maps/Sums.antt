-- ===== src/Go/Maps/Sums.antt =====
-- Sums over the entries of a Go map, and maps with one entry a key.
use mathlib.Core.List.{Perm, Permᴰ}
use mathlib.Core.Logic.{∥∥₁_elim}
use native.Mathlib.Nat.{ℕ_set}
use elastic_agent_system_met.Base.{
  ℕ, ◌+◌, List, [], ◌∷◌, ◌≡◌, refl, Option, none, some, Comparable, arith, ap,
}
use elastic_agent_system_met.Go.Maps.{lookup, insert, lookup-insert}

abbrev pub value_at {κ} : {V : Type κ} → (V → ℕ) → Option V → ℕ
value_at f none = 0
value_at f (some v) = f v

module _ {ℓ κ} {K : Type ℓ} {V : Type κ} where
  abbrev pub sum_by : (V → ℕ) → List (K × V) → ℕ
  sum_by f [] = 0
  sum_by f ((key, value) ∷ entries) = f value + sum_by f entries

  sum_by-Permᴰ : (f : V → ℕ) {m n : List (K × V)} → Permᴰ m n → sum_by f m ≡ sum_by f n
  sum_by-Permᴰ f Permᴰ.nil = refl
  sum_by-Permᴰ f (Permᴰ.cons e p) = omega (arith, sum_by-Permᴰ f p, ap (λ a. f (a.1)) e)
  sum_by-Permᴰ f (Permᴰ.swap e g) = omega (arith, ap (λ a. f (a.1)) e, ap (λ a. f (a.1)) g)
  sum_by-Permᴰ f (Permᴰ.trans p q) = omega (arith, sum_by-Permᴰ f p, sum_by-Permᴰ f q)

  pub sum_by-Perm : (f : V → ℕ) {m n : List (K × V)} → Perm m n → sum_by f m ≡ sum_by f n
  sum_by-Perm f p = ∥∥₁_elim p (ℕ_set _ _) (λ d. sum_by-Permᴰ f d)

module _ {ℓ κ} {K : Type ℓ} {V : Type κ} ⦃c : Comparable K⦄ where
  -- A write replaces what the key had.
  pub sum_by-insert :
      (f : V → ℕ) (key : K) (value : V) (m : List (K × V))
      → sum_by f (insert key value m) + value_at f (lookup key m) ≡ sum_by f m + f value
  unfolding insert lookup
  sum_by-insert f key value [] = omega arith
  sum_by-insert f key value ((k, v) ∷ m) = ground (arith, sum_by-insert f key value m)

  abbrev pub HasDistinctKeys : List (K × V) → Type κ
  HasDistinctKeys [] = Unit
  HasDistinctKeys ((key, value) ∷ m) = (lookup key m ≡ none) × HasDistinctKeys m

  pub insert-HasDistinctKeys :
      (key : K) (value : V) (m : List (K × V))
      → HasDistinctKeys m
      → HasDistinctKeys (insert key value m)
  unfolding insert
  insert-HasDistinctKeys key value [] h = unfold lookup in (refl, tt)
  insert-HasDistinctKeys key value ((k, v) ∷ m) (h, t) = ground (
    arith,
    insert-HasDistinctKeys key value m t,
    lookup-insert key k value m,
    c.same_iff k key,
    c.same_iff key k,
  )

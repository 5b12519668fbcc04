-- ===== src/Go/Maps/Ranges.antt =====
-- Loops over a Go map, whose order is not specified: where the steps commute, every order of the
-- entries gives the same result.
use mathlib.Core.List.{Permᴰ, Pairwise, mem-cons_self}
use mathlib.Core.List.Permᴰ
use elastic_agent_system_met.Base.{List, [], ◌∷◌, ◌≡◌, refl, subst, Result, ok, err, panic, ◌>>=◌}

-- A chain of two calls that returns a value.
pub bind-ok :
    {A B : Type 0} (r : Result A) (g : A → Result B) {t : B}
    → (r >>= g) ≡ ok t
    → (a : A) × (r ≡ ok a) × (g a ≡ ok t)
bind-ok (ok a) g h = (a, refl, h)
bind-ok (err e) g h = cc
bind-ok panic g h = cc

module _ {C S : Type 0} (step : C → S → Result S) where
  unfoldable pub loop : List C → S → Result S
  loop [] s = ok s
  loop (c ∷ cs) s = step c s >>= (λ next. loop cs next)

  module _ (R : C → C → Type 0) (R-prop : (a b : C) → IsProp (R a b))
      (R-sym : (a b : C) → R a b → R b a)
      (commute : (a b : C)
        → R a b
        → (s t : S) → (step a s >>= step b) ≡ ok t
        → (step b s >>= step a) ≡ ok t) where
    pub loop-Permᴰ :
        {cs ds : List C}
        → Permᴰ cs ds
        → Pairwise R cs
        → (s t : S) → loop cs s ≡ ok t
        → loop ds s ≡ ok t
    unfolding loop
    loop-Permᴰ Permᴰ.nil p s t h = h
    loop-Permᴰ (Permᴰ.cons {a = a} {b = b} {l₁ = l₁} {l₂ = l₂} e d) (Pairwise.cons h q) s t k =
        let (m, e1, e2) = bind-ok (step a s) (λ next. loop l₁ next) k in
        subst (λ c. loop (c ∷ l₂) s ≡ ok t) e (rw e1 (loop-Permᴰ d q m t e2))
    loop-Permᴰ (Permᴰ.swap {a = a} {b = b} {a' = a'} {b' = b'} {l = l} e e') (Pairwise.cons h q) s t
          k =
        let (m, e1, k1) = bind-ok (step a s) (λ next. loop (b ∷ l) next) k in
        let (n, e2, k2) = bind-ok (step b m) (λ next. loop l next) k1 in
        let both : (step a s >>= step b) ≡ ok n = rw e1 e2 in
        let (m', e3, e4) = bind-ok (step b s) (step a) (commute a b (h b mem-cons_self) s n both) in
        subst (λ c. loop (c ∷ b' ∷ l) s ≡ ok t) e'
          (subst (λ c. loop (b ∷ c ∷ l) s ≡ ok t) e (rw (e3, e4) k2))
    loop-Permᴰ (Permᴰ.trans d₁ d₂) p s t h =
        loop-Permᴰ d₂ (Permᴰ.pairwise R-prop R-sym d₁ p) s t (loop-Permᴰ d₁ p s t h)

-- ===== src/Go/Strings/Laws.antt =====
-- Splitting texts that were joined.
use elastic_agent_system_met.Base.{
  ℕ, true, false, List, [], ◌∷◌, ◌++◌, ◌≡◌, refl, ◌∙◌, ap, Bytes, All, arith, nat_eq,
}
use elastic_agent_system_met.Go.Strings.{split, split_n2, join, contains_byte}

-- The byte does not occur.
abbrev pub Free : ℕ → Bytes → Type 0
Free b = All (λ c. nat_eq c b ≡ false)

pub split_of_Free : (sep : ℕ) (s : Bytes) → Free sep s → split sep s ≡ s ∷ []
unfolding split
split_of_Free sep [] h = refl
split_of_Free sep (c ∷ cs) (h, t) = rw (h, split_of_Free sep cs t)

pub split-append :
    (sep : ℕ) (s rest : Bytes) → Free sep s → split sep (s ++ (sep ∷ rest)) ≡ s ∷ split sep rest
unfolding split
split-append sep [] rest h = ground arith
split-append sep (c ∷ cs) rest (h, t) = rw (h, split-append sep cs rest t)

-- A joined text splits into its parts.
pub split-join :
    (sep : ℕ) (x : Bytes) (xs : List Bytes)
    → All (Free sep) (x ∷ xs)
    → split sep (join (sep ∷ []) (x ∷ xs)) ≡ x ∷ xs
unfolding join
split-join sep x [] (h, _) = split_of_Free sep x h
split-join sep x (y ∷ ys) (h, t) =
    split-append sep x (join (sep ∷ []) (y ∷ ys)) h ∙ ap (λ r. x ∷ r) (split-join sep y ys t)

pub contains_byte_of_Free : (b : ℕ) (s : Bytes) → Free b s → contains_byte b s ≡ false
unfolding contains_byte
contains_byte_of_Free b [] h = refl
contains_byte_of_Free b (c ∷ cs) (h, t) = rw (h, contains_byte_of_Free b cs t)

pub contains_byte_here : (b : ℕ) (s rest : Bytes) → contains_byte b (s ++ (b ∷ rest)) ≡ true
unfolding contains_byte
contains_byte_here b [] rest = ground arith
contains_byte_here b (c ∷ cs) rest = ground (arith, contains_byte_here b cs rest)

pub Free-append : (b : ℕ) (s t : Bytes) → Free b s → Free b t → Free b (s ++ t)
Free-append b [] t h k = k
Free-append b (c ∷ cs) t (h, hs) k = (h, Free-append b cs t hs k)

pub Free-of_contains_byte : (b : ℕ) (s : Bytes) → contains_byte b s ≡ false → Free b s
unfolding contains_byte
Free-of_contains_byte b [] h = tt
Free-of_contains_byte b (c ∷ cs) h = (ground arith, Free-of_contains_byte b cs (ground arith))

-- At the first separator.
pub split_n2-append :
    (sep : ℕ) (s rest : Bytes) → Free sep s → split_n2 sep (s ++ (sep ∷ rest)) ≡ s ∷ rest ∷ []
unfolding split_n2
split_n2-append sep [] rest h = ground arith
split_n2-append sep (c ∷ cs) rest (h, t) = rw (h, split_n2-append sep cs rest t) refl

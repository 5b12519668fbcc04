-- ===== src/Go/Strings/Words.antt =====
-- Cutting a text into words.
use elastic_agent_system_met.Base.{
  Bool-cases, inl, inr, ℕ, Bool, true, false, List, [], ◌∷◌, ◌++◌, ◌≡◌, refl, ◌∙◌, ap, ◌≢◌, Bytes,
  All, arith,
}
use elastic_agent_system_met.Go.Strings.{
  fields, fields_func, is_space, is_digit, cons_head, starts_word,
}

module _ (p : ℕ → Bool) where
  -- No byte is a separator.
  abbrev pub AllWord : Bytes → Type 0
  AllWord = All (λ c. p c ≡ false)

  abbrev pub AllSeparators : Bytes → Type 0
  AllSeparators = All (λ c. p c ≡ true)

  -- The text is at its end or goes on with a separator.
  abbrev pub StopsWord : Bytes → Type 0
  StopsWord [] = Unit
  StopsWord (c ∷ cs) = p c ≡ true

  starts_word_of_StopsWord : (rest : Bytes) → StopsWord rest → starts_word p rest ≡ false
  starts_word_of_StopsWord [] h = refl
  starts_word_of_StopsWord (c ∷ cs) h = rw h

  pub fields_func-separators :
      (pad rest : Bytes) → AllSeparators pad → fields_func p (pad ++ rest) ≡ fields_func p rest
  unfolding fields_func
  fields_func-separators [] rest h = refl
  fields_func-separators (c ∷ cs) rest (h, t) = rw (h, fields_func-separators cs rest t)

  fields_func-inside :
      (c : ℕ) (cs : Bytes)
      → p c ≡ false
      → starts_word p cs ≡ true
      → fields_func p (c ∷ cs) ≡ cons_head c (fields_func p cs)
  unfolding fields_func
  fields_func-inside c cs h k = rw (h, k)

  fields_func-end :
      (c : ℕ) (cs : Bytes)
      → p c ≡ false
      → starts_word p cs ≡ false
      → fields_func p (c ∷ cs) ≡ (c ∷ []) ∷ fields_func p cs
  unfolding fields_func
  fields_func-end c cs h k = rw (h, k)

  pub fields_func-word :
      (c : ℕ) (cs rest : Bytes)
      → AllWord (c ∷ cs)
      → StopsWord rest
      → fields_func p ((c ∷ cs) ++ rest) ≡ (c ∷ cs) ∷ fields_func p rest
  fields_func-word c [] rest (h, _) s = fields_func-end c rest h (starts_word_of_StopsWord rest s)
  fields_func-word c (d ∷ ds) rest (h, t) s =
      fields_func-inside c ((d ∷ ds) ++ rest) h (rw t.0)
      ∙ ap (cons_head c) (fields_func-word d ds rest t s)

pub fields-separators :
    (pad rest : Bytes) → AllSeparators is_space pad → fields (pad ++ rest) ≡ fields rest
unfolding fields
fields-separators pad rest h = fields_func-separators (λ c. is_space c) pad rest h

pub fields-word :
    (w rest : Bytes)
    → w ≢ []
    → AllWord is_space w
    → StopsWord is_space rest
    → fields (w ++ rest) ≡ w ∷ fields rest
unfolding fields
fields-word [] rest n h s = absurd (n refl)
fields-word (c ∷ cs) rest n h s = fields_func-word (λ d. is_space d) c cs rest h s

pub AllWord-of_AllDigits : (ds : Bytes) → All (λ c. is_digit c ≡ true) ds → AllWord is_space ds
AllWord-of_AllDigits [] h = tt
AllWord-of_AllDigits (c ∷ cs) (h, t) = (ground arith, AllWord-of_AllDigits cs t)

-- Words, each behind one space.
abbrev pub spaced : List Bytes → Bytes
spaced [] = []
spaced (w ∷ ws) = b' ' ∷ (w ++ spaced ws)

abbrev pub IsWord : Bytes → Type 0
IsWord w = (w ≢ []) × AllWord is_space w

StopsWord-spaced : (ws : List Bytes) → StopsWord is_space (spaced ws)
StopsWord-spaced [] = tt
StopsWord-spaced (w ∷ ws) = refl

pub fields-spaced : (ws : List Bytes) → All IsWord ws → fields (spaced ws) ≡ ws
fields-spaced [] h = unfold fields in refl
fields-spaced (w ∷ ws) ((n, a), h) =
    fields-separators (b' ' ∷ []) (w ++ spaced ws) (refl, tt)
    ∙ fields-word w (spaced ws) n a (StopsWord-spaced ws)
    ∙ ap (λ r. w ∷ r) (fields-spaced ws h)

-- A label, some blanks and spaced words.
pub fields-labelled :
    (label pad : Bytes) (w : Bytes) (ws : List Bytes)
    → IsWord label
    → AllSeparators is_space pad
    → All IsWord (w ∷ ws)
    → fields (label ++ (pad ++ spaced (w ∷ ws))) ≡ label ∷ w ∷ ws
fields-labelled label pad w ws (n, a) p h =
    fields-word label (pad ++ spaced (w ∷ ws)) n a (stops pad p)
    ∙ ap (λ r. label ∷ r) (fields-separators pad (spaced (w ∷ ws)) p ∙ fields-spaced (w ∷ ws) h)
  where
    stops : (q : Bytes) → AllSeparators is_space q → StopsWord is_space (q ++ spaced (w ∷ ws))
    stops [] s = refl
    stops (c ∷ cs) s = s.0

cons_head-ne_nil :
    (c : ℕ) (ws : List Bytes) → All (λ w. w ≢ []) ws → All (λ w. w ≢ []) (cons_head c ws)
cons_head-ne_nil c [] h = (λ e. ground arith, tt)
cons_head-ne_nil c (w ∷ ws) (h, t) = (λ e. ground arith, t)

-- No word of a text is empty.
pub fields_func-ne_nil : (p : ℕ → Bool) (s : Bytes) → All (λ w. w ≢ []) (fields_func p s)
unfolding fields_func
fields_func-ne_nil p [] = tt
fields_func-ne_nil p (c ∷ cs) = elim (Bool-cases (p c)) [
  | inl separator ↦ rw separator (fields_func-ne_nil p cs)
  | inr word ↦ elim (Bool-cases (starts_word p cs)) [
    | inl goes_on ↦
        rw (word, goes_on) (cons_head-ne_nil c (fields_func p cs) (fields_func-ne_nil p cs))
    | inr ends ↦ rw (word, ends) (λ e. ground arith, fields_func-ne_nil p cs)
  ]
]

pub fields-ne_nil : (s : Bytes) → All (λ w. w ≢ []) (fields s)
unfolding fields
fields-ne_nil s = fields_func-ne_nil (λ c. is_space c) s

cons_head-AllWord :
    (p : ℕ → Bool) (c : ℕ) (ws : List Bytes)
    → p c ≡ false
    → All (AllWord p) ws
    → All (AllWord p) (cons_head c ws)
cons_head-AllWord p c [] e h = ((e, tt), tt)
cons_head-AllWord p c (w ∷ ws) e (h, t) = ((e, h), t)

-- No word of a text has a separator.
fields_func-AllWord : (p : ℕ → Bool) (s : Bytes) → All (AllWord p) (fields_func p s)
unfolding fields_func
fields_func-AllWord p [] = tt
fields_func-AllWord p (c ∷ cs) = elim (Bool-cases (p c)) [
  | inl separator ↦ rw separator (fields_func-AllWord p cs)
  | inr word ↦ elim (Bool-cases (starts_word p cs)) [
    | inl goes_on ↦
        rw (word, goes_on)
          (cons_head-AllWord p c (fields_func p cs) word (fields_func-AllWord p cs))
    | inr ends ↦ rw (word, ends) ((word, tt), fields_func-AllWord p cs)
  ]
]

pub fields-AllWord : (s : Bytes) → All (AllWord is_space) (fields s)
unfolding fields
fields-AllWord s = fields_func-AllWord (λ c. is_space c) s

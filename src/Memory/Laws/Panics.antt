-- ===== src/Memory/Laws/Panics.antt =====
-- When the reader of /proc/meminfo panics.
use elastic_agent_system_met.Base.{
  ℕ, List, [], ◌∷◌, ◌≡◌, refl, ◌≢◌, Bytes, All, ok, panic, ◌⊎◌, inl, inr,
}
use elastic_agent_system_met.Go.Strings.{split, fields}
use elastic_agent_system_met.Memory.Meminfo.{read_value, read_parts, read_line, read_table}

-- The line has one colon, and only blanks behind it.
abbrev BlankParts : List Bytes → Type 0
BlankParts (key ∷ value ∷ []) = fields value ≡ []
BlankParts _ = ⊥

abbrev pub IsBlank : Bytes → Type 0
IsBlank line = BlankParts (split b':' line)

read_value-words :
    (table : List (Bytes × ℕ)) (key : Bytes) (words : List Bytes)
    → ((words ≡ []) × (read_value table key words ≡ panic))
      ⊎ ((words ≢ []) × ((t : List (Bytes × ℕ)) × (read_value table key words ≡ ok t)))
unfolding read_value
read_value-words table key [] = inl (refl, refl)
read_value-words table key (w ∷ ws) = inr (cc, (_, refl))

read_parts-cases :
    (table : List (Bytes × ℕ)) (parts : List Bytes)
    → (BlankParts parts × (read_parts table parts ≡ panic))
      ⊎ ((¬ (BlankParts parts)) × ((t : List (Bytes × ℕ)) × (read_parts table parts ≡ ok t)))
unfolding read_parts
read_parts-cases table [] = inr ((λ h. h), (table, refl))
read_parts-cases table (a ∷ []) = inr ((λ h. h), (table, refl))
read_parts-cases table (key ∷ value ∷ []) = read_value-words table key (fields value)
read_parts-cases table (a ∷ b ∷ c ∷ ds) = inr ((λ h. h), (table, refl))

-- Every file is read to its end, or the reader panics: it panics exactly when some line has one
-- colon and only blanks behind it.
pub read_table-panic_iff :
    (lines : List Bytes) (table : List (Bytes × ℕ))
    → ((¬ (All (λ l. ¬ (IsBlank l)) lines)) × (read_table table lines ≡ panic))
      ⊎ (All (λ l. ¬ (IsBlank l)) lines
          × ((t : List (Bytes × ℕ)) × (read_table table lines ≡ ok t)))
unfolding read_table read_line
read_table-panic_iff [] table = inr (tt, (table, refl))
read_table-panic_iff (l ∷ ls) table = elim (read_parts-cases table (split b':' l)) [
  | inl (blank, fails) ↦ inl ((λ a. a.0 blank), rw fails)
  | inr (full, (t, reads)) ↦ elim (read_table-panic_iff ls t) [
    | inl (some_blank, fails) ↦ inl ((λ a. some_blank a.1), rw reads fails)
    | inr (rest, (u, more)) ↦ inr ((full, rest), (u, rw reads more))
  ]
]

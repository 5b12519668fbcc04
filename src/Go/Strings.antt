-- ===== src/Go/Strings.antt =====
-- `strings` and `bytes`: on ASCII text a byte is a rune. `unicode.IsSpace` is read on one byte, so
-- the spaces beyond ASCII (U+0085, U+00A0 and others) count as no space.
pub mod Laws
pub mod Words
use elastic_agent_system_met.Base.{
  ℕ, ◌+◌, Bool, true, false, not, ◌&&◌, ◌||◌, List, [], ◌∷◌, ◌++◌, leb, ◌==◌, if◌then◌else◌, Bytes,
  is_empty, nat_eq, zero, suc,
}

abbrev pub is_space : ℕ → Bool
is_space c = nat_eq c 32 || (leb 9 c && leb c 13)

abbrev pub is_digit : ℕ → Bool
is_digit c = leb b'0' c && leb c b'9'

-- Puts a byte in front of the first piece.
abbrev pub cons_head : ℕ → List Bytes → List Bytes
cons_head c [] = (c ∷ []) ∷ []
cons_head c (x ∷ xs) = (c ∷ x) ∷ xs

-- `strings.Split(s, sep)` for a separator of one byte.
unfoldable pub split : ℕ → Bytes → List Bytes
split sep [] = [] ∷ []
split sep (c ∷ cs) = let rest = split sep cs in if nat_eq c sep then [] ∷ rest else cons_head c rest

-- `strings.SplitN(s, sep, 2)`: at the first separator, if there is one.
unfoldable pub split_n2 : ℕ → Bytes → List Bytes
split_n2 sep [] = [] ∷ []
split_n2 sep (c ∷ cs) =
    let rest = split_n2 sep cs in if nat_eq c sep then [] ∷ cs ∷ [] else cons_head c rest

abbrev pub starts_word : (ℕ → Bool) → Bytes → Bool
starts_word p [] = false
starts_word p (c ∷ cs) = not (p c)

-- `strings.FieldsFunc(s, p)`: the maximal runs of bytes that are no separator.
unfoldable pub fields_func : (ℕ → Bool) → Bytes → List Bytes
fields_func p [] = []
fields_func p (c ∷ cs) =
    let rest = fields_func p cs in
    if p c then rest else if starts_word p cs then cons_head c rest else (c ∷ []) ∷ rest

-- `strings.Fields`
unfoldable pub fields : Bytes → List Bytes
unfolding fields_func
fields s = fields_func (λ c. is_space c) s

unfoldable pub trim_left : Bytes → Bytes
trim_left [] = []
trim_left (c ∷ cs) = let rest = trim_left cs in if is_space c then rest else c ∷ cs

unfoldable pub trim_right : Bytes → Bytes
trim_right [] = []
trim_right (c ∷ cs) =
    let rest = trim_right cs in if is_empty rest && is_space c then [] else c ∷ rest

-- `strings.TrimSpace`
unfoldable pub trim_space : Bytes → Bytes
unfolding trim_left trim_right
trim_space s = trim_left (trim_right s)

-- `strings.HasPrefix(s, prefix)`, with the prefix first.
unfoldable pub has_prefix : Bytes → Bytes → Bool
has_prefix [] s = true
has_prefix (p ∷ ps) [] = false
has_prefix (p ∷ ps) (c ∷ cs) = nat_eq p c && has_prefix ps cs

-- `strings.Contains(s, sub)`, with the part first.
unfoldable pub contains : Bytes → Bytes → Bool
unfolding has_prefix
contains sub [] = is_empty sub
contains sub (c ∷ cs) = has_prefix sub (c ∷ cs) || contains sub cs

-- `strings.Contains(s, sub)` for a part of one byte.
unfoldable pub contains_byte : ℕ → Bytes → Bool
contains_byte b [] = false
contains_byte b (c ∷ cs) = nat_eq c b || contains_byte b cs

-- `strings.ToLower` on ASCII.
unfoldable pub to_lower : Bytes → Bytes
to_lower [] = []
to_lower (c ∷ cs) = (if leb b'A' c && leb c b'Z' then c + 32 else c) ∷ to_lower cs

-- `strings.Join(parts, sep)`
unfoldable pub join : Bytes → List Bytes → Bytes
join sep [] = []
join sep (x ∷ []) = x
join sep (x ∷ y ∷ xs) = x ++ (sep ++ join sep (y ∷ xs))

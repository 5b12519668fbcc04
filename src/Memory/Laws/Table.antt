-- ===== src/Memory/Laws/Table.antt =====
-- A meminfo file as the kernel prints it is read back.
use elastic_agent_system_met.Base.{
  ℕ, ◌<◌, Bool, true, false, List, [], ◌∷◌, ◌++◌, ◌≡◌, refl, ◌∙◌, ap, ◌≢◌, Bytes, codes, All, arith,
  map, if◌then◌else◌, Option, some, ok, ◌==◌, bytes_comparable, beq_self,
}
use elastic_agent_system_met.Base.Int.{mul64, u64_mod}
use elastic_agent_system_met.Go.Strings.{split, fields, is_space}
use elastic_agent_system_met.Go.Strings.Laws.{Free, Free-append, split-append, split_of_Free}
use elastic_agent_system_met.Go.Strings.Words.{
  AllSeparators, fields-separators, fields-word, AllWord-of_AllDigits,
}
use elastic_agent_system_met.Go.Numbers.Decimal.{Decimal, AllDigits, parse_uint-Decimal}
use elastic_agent_system_met.Go.Maps.{lookup, insert, lookup-insert}
use elastic_agent_system_met.Memory.Meminfo.{
  scale, store, read_value, read_parts, read_line, read_table,
}

-- A line of the file: its key, the padding, the numeral, and whether the unit kB follows.
pub record Entry : Type 0 where
  pub key : Bytes
  pub pad : Bytes
  pub numeral : Bytes
  pub number : ℕ
  pub in_kb : Bool

abbrev pub unit_text : Bool → Bytes
unit_text true = codes " kB"
unit_text false = []

abbrev pub print_entry : Entry → Bytes
print_entry e = e.key ++ (b':' ∷ (e.pad ++ (e.numeral ++ unit_text e.in_kb)))

-- The amount in bytes.
abbrev pub amount : Entry → ℕ
amount e = if e.in_kb then mul64 e.number 1024 else e.number

pub record IsEntry (e : Entry) : Type 0 where
  pub key_free : Free b':' e.key
  pub pad_spaces : AllSeparators is_space e.pad
  pub written : Decimal e.numeral e.number
  pub fits : e.number < u64_mod

-- The amount of the last entry with the key, or what was there before.
abbrev pub last_amount : Bytes → List Entry → Option ℕ → Option ℕ
last_amount k [] before = before
last_amount k (e ∷ es) before = last_amount k es (if e.key == k then some (amount e) else before)

Free-of_AllDigits : (ds : Bytes) → AllDigits ds → Free b':' ds
Free-of_AllDigits [] h = tt
Free-of_AllDigits (c ∷ cs) (h, t) = (ground arith, Free-of_AllDigits cs t)

Free-of_AllSeparators : (ds : Bytes) → AllSeparators is_space ds → Free b':' ds
Free-of_AllSeparators [] h = tt
Free-of_AllSeparators (c ∷ cs) (h, t) = (ground arith, Free-of_AllSeparators cs t)

unit-Free : (b : Bool) → Free b':' (unit_text b)
unit-Free true = (refl, (refl, (refl, tt)))
unit-Free false = tt

abbrev words_of_unit : Bool → List Bytes
words_of_unit true = codes "kB" ∷ []
words_of_unit false = []

fields_kb : fields (codes " kB") ≡ codes "kB" ∷ []
unfolding fields
fields_kb = refl

fields_none : fields [] ≡ []
unfolding fields
fields_none = refl

fields-unit :
    (w : Bytes) (b : Bool) → w ≢ [] → AllDigits w → fields (w ++ unit_text b) ≡ w ∷ words_of_unit b
fields-unit w true n d =
    fields-word w (codes " kB") n (AllWord-of_AllDigits w d) refl ∙ ap (λ r. w ∷ r) fields_kb
fields-unit w false n d =
    fields-word w [] n (AllWord-of_AllDigits w d) tt ∙ ap (λ r. w ∷ r) fields_none

scale_unit :
    (w : Bytes) (b : Bool) (n : ℕ) → scale (w ∷ words_of_unit b) n ≡ (if b then mul64 n 1024 else n)
unfolding scale
scale_unit w true n = rw (beq_self (codes "kB"))
scale_unit w false n = refl

module _ (e : Entry) (i : IsEntry e) where
  abbrev value_text : Bytes
  value_text = e.pad ++ (e.numeral ++ unit_text e.in_kb)

  value-Free : Free b':' value_text
  value-Free = Free-append b':' e.pad _ (Free-of_AllSeparators e.pad i.pad_spaces) (
      Free-append b':' e.numeral _ (Free-of_AllDigits e.numeral i.written.digits)
        (unit-Free e.in_kb))

  fields-value : fields value_text ≡ e.numeral ∷ words_of_unit e.in_kb
  fields-value =
      fields-separators e.pad _ i.pad_spaces
      ∙ fields-unit e.numeral e.in_kb i.written.ne_nil i.written.digits

  split-entry : split b':' (print_entry e) ≡ e.key ∷ value_text ∷ []
  split-entry =
      split-append b':' e.key value_text i.key_free
      ∙ ap (λ r. e.key ∷ r) (split_of_Free b':' value_text value-Free)

  read_line-entry :
      (table : List (Bytes × ℕ))
      → read_line table (print_entry e) ≡ ok (insert e.key (amount e) table)
  unfolding read_line read_parts read_value
  read_line-entry table =
      rw (split-entry, fields-value, parse_uint-Decimal e.numeral i.written i.fits)
        (unfold store in rw (scale_unit e.numeral e.in_kb e.number))

-- A file of lines "key: numeral", with or without "kB" behind, is read without an error, and the
-- table has for each key the amount of the last line with that key, in bytes modulo 2 ^ 64, or
-- else what it had before.
pub read_table-entries :
    (es : List Entry) (table : List (Bytes × ℕ)) (k : Bytes)
    → All IsEntry es
    → (t : List (Bytes × ℕ)) × (read_table table (map print_entry es) ≡ ok t)
      × (lookup k t ≡ last_amount k es (lookup k table))
unfolding read_table
read_table-entries [] table k h = (table, refl, refl)
read_table-entries (e ∷ es) table k (i, h) =
    let (t, read, found) = read_table-entries es (insert e.key (amount e) table) k h in
    (t, rw (read_line-entry e i table) read, found ∙ rw (lookup-insert e.key k (amount e) table))

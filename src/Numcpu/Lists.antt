-- ===== src/Numcpu/Lists.antt =====
-- `parseCPUList` counts the CPUs that the list of sysfs names.
use elastic_agent_system_met.Base.{
  ℕ, ◌+◌, ◌-◌, ◌^◌, ◌≤◌, ◌<◌, List, [], ◌∷◌, ◌++◌, ◌≡◌, ◌∙◌, ap, Bytes, All, arith, if◌then◌else◌,
  ok, wrap_err,
}
use elastic_agent_system_met.Base.Int.{pos, ◌+ℤ◌, ◌-ℤ◌, wrap64, wrap64_small}
use elastic_agent_system_met.Go.Strings.{join, contains_byte}
use elastic_agent_system_met.Go.Strings.Laws.{
  Free, Free-append, split-join, contains_byte_of_Free, contains_byte_here,
}
use elastic_agent_system_met.Go.Numbers.Decimal.{
  Decimal, AllDigits, StopsDigits, sscanf_range-Decimal,
}
use elastic_agent_system_met.Numcpu.{parse_cpu_range, count_parts, parse_cpu_list}

-- A part of the list, and how many CPUs it names: one CPU by its number, or a range from `a` to
-- `b`, where a line feed or other text may follow the last numeral.
pub data Names : Bytes → ℕ → Type 0 where
  one :
      (ds rest : Bytes) {a : ℕ}
      → Decimal ds a
      → StopsDigits rest
      → Free b'-' rest
      → Names (ds ++ rest) 1
  range :
      (lo hi rest : Bytes) {a b : ℕ}
      → Decimal lo a
      → Decimal hi b
      → a ≤ b
      → b < 2 ^ 63
      → StopsDigits rest
      → Names (lo ++ (b'-' ∷ (hi ++ rest))) (b - a + 1)

-- The parts of a list, and how many CPUs they name together.
pub data NamesAll : List Bytes → ℕ → Type 0 where
  nil : NamesAll [] 0
  cons :
      {s : Bytes} {ss : List Bytes} {n m : ℕ}
      → Names s n
      → NamesAll ss m
      → NamesAll (s ∷ ss) (n + m)

Free-of_AllDigits : (ds : Bytes) → AllDigits ds → Free b'-' ds
Free-of_AllDigits [] h = tt
Free-of_AllDigits (c ∷ cs) (h, t) = (ground arith, Free-of_AllDigits cs t)

minus_nat : (a b : ℕ) → a ≤ b → pos b -ℤ pos a ≡ pos (b - a)
unfolding ◌-ℤ◌
minus_nat a b h = ground arith

plus_nat : (a b : ℕ) → pos a +ℤ pos b ≡ pos (a + b)
unfolding ◌+ℤ◌
plus_nat a b = ground arith

range_size :
    (a b : ℕ)
    → a ≤ b
    → b < 2 ^ 63
    → b - a + 1 < 2 ^ 63
    → wrap64 (wrap64 (pos b -ℤ pos a) +ℤ pos 1) ≡ pos (b - a + 1)
range_size a b h k l =
    rw (minus_nat a b h, wrap64_small (b - a) (omega arith), plus_nat (b - a) 1)
      (wrap64_small (b - a + 1) l)

parse_cpu_range-Decimal :
    (lo hi rest : Bytes) {a b : ℕ}
    → Decimal lo a
    → Decimal hi b
    → a ≤ b
    → b < 2 ^ 63
    → b - a + 1 < 2 ^ 63
    → StopsDigits rest
    → parse_cpu_range (lo ++ (b'-' ∷ (hi ++ rest))) ≡ ok (pos (b - a + 1))
parse_cpu_range-Decimal lo hi rest {a} {b} d e h k l s =
    unfold parse_cpu_range in
    rw (sscanf_range-Decimal lo hi rest d e (omega arith) k s) (ap ok (range_size a b h k l))

count_parts-step :
    (count : ℕ) (s : Bytes) (ss : List Bytes) (n : ℕ)
    → (if contains_byte b'-' s
        then wrap_err "error parsing line" (parse_cpu_range s)
        else ok (pos 1))
      ≡ ok (pos n)
    → count + n < 2 ^ 63
    → count_parts (pos count) (s ∷ ss) ≡ count_parts (pos (count + n)) ss
count_parts-step count s ss n h b =
    unfold count_parts in rw (h, plus_nat count n, wrap64_small (count + n) b)

count_parts-cons :
    (count : ℕ) {s : Bytes} {n : ℕ} (ss : List Bytes)
    → Names s n
    → count + n < 2 ^ 63
    → count_parts (pos count) (s ∷ ss) ≡ count_parts (pos (count + n)) ss
count_parts-cons count ss (one ds rest d st free) b =
    count_parts-step count (ds ++ rest) ss 1
      (rw (
        contains_byte_of_Free b'-' (ds ++ rest)
          (Free-append b'-' ds rest (Free-of_AllDigits ds d.digits) free)))
      b
count_parts-cons count ss (range lo hi rest {a} {b} d e h k st) bound =
    count_parts-step count (lo ++ (b'-' ∷ (hi ++ rest))) ss (b - a + 1)
      (rw (
        contains_byte_here b'-' lo (hi ++ rest),
        parse_cpu_range-Decimal lo hi rest d e h k (omega arith) st,
      ))
      bound

count_parts-NamesAll :
    (count : ℕ) {ss : List Bytes} {n : ℕ}
    → NamesAll ss n
    → count + n < 2 ^ 63
    → count_parts (pos count) ss ≡ ok (pos (count + n))
count_parts-NamesAll count nil b = unfold count_parts in ground arith
count_parts-NamesAll count (cons {s} {ss} {n} {m} x xs) b =
    count_parts-cons count ss x (omega arith)
    ∙ count_parts-NamesAll (count + n) xs (omega arith)
    ∙ ap (λ k. ok (pos k)) (omega arith)

-- A list as sysfs prints it, of numerals and ranges "a-b" joined by commas, is counted right: the
-- result is the sum of the CPUs that the parts name, if that is below 2 ^ 63.
pub parse_cpu_list-NamesAll :
    (s : Bytes) (ss : List Bytes) (n : ℕ)
    → NamesAll (s ∷ ss) n
    → All (Free b',') (s ∷ ss)
    → n < 2 ^ 63
    → parse_cpu_list (join (b',' ∷ []) (s ∷ ss)) ≡ ok (pos n)
parse_cpu_list-NamesAll s ss n h f b =
    unfold parse_cpu_list in
    rw (split-join b',' s ss f, count_parts-NamesAll 0 h (omega arith)) (ground arith)

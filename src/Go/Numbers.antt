-- ===== src/Go/Numbers.antt =====
-- `strconv` and the integer verbs of `fmt.Sscanf`. `ParseUint` and `ParseInt` return Go's pair of a
-- value and an error, since callers read the value beside an error too.
pub mod Decimal
pub mod Prefixed
pub mod PrefixedLaws
use elastic_agent_system_met.Base.{
  ℕ, ◌+◌, ◌-◌, ◌*◌, ◌/◌, ◌%◌, ◌^◌, Bool, true, false, List, [], ◌∷◌, ◌++◌, ltb, leb, nat_eq,
  if◌then◌else◌, Bytes, Option, none, some, Error, syntax, out_of_range, scan_error, Result, ok,
  err, ◌>>=◌,
}
use elastic_agent_system_met.Base.Int.{ℤ, pos, negsuc, u64_mod}
use elastic_agent_system_met.Go.Strings.{is_digit, is_space}

abbrev pub max_uint64 : ℕ
max_uint64 = 2 ^ 64 - 1

-- The loop of `strconv.ParseUint(s, 10, 64)`.
unfoldable pub parse_digits : ℕ → Bytes → ℕ × Option Error
parse_digits n [] = (n, none)
parse_digits n (c ∷ cs) =
    let n' = n * 10 + (c - b'0') in
    let rest = parse_digits n' cs in
    if is_digit c
    then (if ltb n' u64_mod then rest else (max_uint64, some out_of_range))
    else (0, some syntax)

unfoldable pub parse_uint : Bytes → ℕ × Option Error
unfolding parse_digits
parse_uint [] = (0, some syntax)
parse_uint (c ∷ cs) = parse_digits 0 (c ∷ cs)

-- `if err != nil { return err }` on a pair.
abbrev pub checked {ℓ} : {A : Type ℓ} → A × Option Error → Result A
checked (a, none) = ok a
checked (a, some e) = err e

abbrev neg : ℕ → ℤ
neg n = if nat_eq n 0 then pos 0 else negsuc (n - 1)

abbrev is_syntax : Option Error → Bool
is_syntax (some syntax) = true
is_syntax _ = false

-- The range check of `strconv.ParseInt`, on the unsigned value.
unfoldable pub signed : Bool → ℕ × Option Error → ℤ × Option Error
signed minus (un, fault) =
    if is_syntax fault
    then (pos 0, fault)
    else if minus
    then (if ltb (2 ^ 63) un then (negsuc (2 ^ 63 - 1), some out_of_range) else (neg un, none))
    else if ltb un (2 ^ 63)
    then (pos un, none)
    else (pos (2 ^ 63 - 1), some out_of_range)

unfoldable pub parse_int : Bytes → ℤ × Option Error
unfolding signed
parse_int [] = (pos 0, some syntax)
parse_int (c ∷ cs) =
    if nat_eq c b'+'
    then signed false (parse_uint cs)
    else if nat_eq c b'-'
    then signed true (parse_uint cs)
    else signed false (parse_uint (c ∷ cs))

-- `strconv.Atoi`, with a 64-bit int.
unfoldable pub atoi : Bytes → Result ℤ
atoi s = checked (parse_int s)

-- The decimal digits of a number, as `strconv.Itoa` writes them; `fuel` bounds their count.
unfoldable pub digits_of : ℕ → ℕ → Bytes → Bytes
digits_of ℕ.zero n out = out
digits_of (ℕ.suc fuel) n out =
    let rest = digits_of fuel (n / 10) ((b'0' + n % 10) ∷ out) in
    if ltb n 10 then (b'0' + n) ∷ out else rest

-- `strconv.Itoa` of a number of at most twenty digits, which every uint64 has.
unfoldable pub itoa : ℕ → Bytes
unfolding digits_of
itoa n = digits_of 20 n []

-- `SkipSpace` in `fmt.Sscanf`: a line feed is an error, and so is a carriage return before one.
unfoldable pub skip_space : Bytes → Bytes
skip_space [] = []
skip_space (c ∷ cs) =
    let rest = skip_space cs in
    if is_space c then (if nat_eq c b'\n' then c ∷ cs else rest) else c ∷ cs

unfoldable pub take_digits : Bytes → Bytes
take_digits [] = []
take_digits (c ∷ cs) = let rest = take_digits cs in if is_digit c then c ∷ rest else []

unfoldable pub drop_digits : Bytes → Bytes
drop_digits [] = []
drop_digits (c ∷ cs) = let rest = drop_digits cs in if is_digit c then rest else c ∷ cs

unfoldable pub scan_signed : Bytes → Bytes → Result (ℤ × Bytes)
scan_signed sign s = do n ← checked (parse_int (sign ++ take_digits s)); ok (n, drop_digits s)

unfoldable pub scan_sign : Bytes → Result (ℤ × Bytes)
scan_sign [] = err scan_error
scan_sign (c ∷ cs) =
    if nat_eq c b'+'
    then scan_signed (c ∷ []) cs
    else if nat_eq c b'-'
    then scan_signed (c ∷ []) cs
    else scan_signed [] (c ∷ cs)

-- The verb `%d` into an int.
unfoldable pub scan_int : Bytes → Result (ℤ × Bytes)
scan_int s = scan_sign (skip_space s)

-- The verb `%d` into a uint64.
unfoldable pub scan_uint : Bytes → Result (ℕ × Bytes)
scan_uint s = do
  let t = skip_space s
  n ← checked (parse_uint (take_digits t))
  ok (n, drop_digits t)

-- A byte of the format that stands for itself.
unfoldable pub scan_byte : ℕ → Bytes → Result Bytes
scan_byte b [] = err scan_error
scan_byte b (c ∷ cs) = if nat_eq c b then ok cs else err scan_error

-- `fmt.Sscanf(s, "%d-%d", &first, &last)`; what follows the last verb is not read.
unfoldable pub sscanf_range : Bytes → Result (ℤ × ℤ)
unfolding scan_byte
sscanf_range s = do
  (first, r1) ← scan_int s
  r2 ← scan_byte b'-' r1
  (last, r3) ← scan_int r2
  ok (first, last)

-- `fmt.Sscanf(s, "%d:%d", &major, &minor)`
unfoldable pub sscanf_device : Bytes → Result (ℕ × ℕ)
unfolding scan_byte
sscanf_device s = do
  (major, r1) ← scan_uint s
  r2 ← scan_byte b':' r1
  (minor, r3) ← scan_uint r2
  ok (major, minor)

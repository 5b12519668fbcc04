-- ===== src/Go/Numbers/Prefixed.antt =====
-- The verb `%v` of package fmt into an int, which `fmt.Fscan` uses: a numeral may have a sign, a base
-- prefix (0b, 0o, 0x, or 0 for octal) and underscores between digits.
use elastic_agent_system_met.Base.{
  ℕ, ◌+◌, ◌-◌, ◌*◌, Bool, true, false, not, ◌&&◌, ◌||◌, [], ◌∷◌, ◌++◌, ltb, leb, nat_eq,
  if◌then◌else◌, Bytes, Option, none, some, Error, syntax, out_of_range, scan_error, Result, ok,
  err, ◌>>=◌,
}
use elastic_agent_system_met.Base.Int.{ℤ, pos, u64_mod}
use elastic_agent_system_met.Go.Strings.{is_digit, is_space, trim_left, contains_byte}
use elastic_agent_system_met.Go.Numbers.{max_uint64, checked, signed}

-- `lower` of package strconv, on letters.
abbrev pub lower : ℕ → ℕ
lower c = if leb b'A' c && leb c b'Z' then c + 32 else c

-- A digit of a base up to 36; other bytes get 36, which is a digit of no base.
unfoldable pub digit_value : ℕ → ℕ
digit_value c =
    if is_digit c
    then c - b'0'
    else if leb b'a' (lower c) && leb (lower c) b'z'
    then lower c - b'a' + 10
    else 36

-- The loop of `strconv.ParseUint(s, 0, 64)` behind the prefix: underscores are passed over.
unfoldable pub parse_base : ℕ → ℕ → Bytes → ℕ × Option Error
parse_base base n [] = (n, none)
parse_base base n (c ∷ cs) =
    let next = if nat_eq c b'_' then n else n * base + digit_value c in
    let rest = parse_base base next cs in
    if nat_eq c b'_'
    then rest
    else if ltb (digit_value c) base
    then (if ltb next u64_mod then rest else (max_uint64, some out_of_range))
    else (0, some syntax)

-- The base and the digits behind the first 0: a prefix needs something behind it.
unfoldable pub after_zero : Bytes → ℕ × Bytes
after_zero [] = (8, [])
after_zero (p ∷ []) = (8, p ∷ [])
after_zero (p ∷ d ∷ ds) =
    if nat_eq (lower p) b'b'
    then (2, d ∷ ds)
    else if nat_eq (lower p) b'o'
    then (8, d ∷ ds)
    else if nat_eq (lower p) b'x'
    then (16, d ∷ ds)
    else (8, p ∷ d ∷ ds)

unfoldable pub base_of : Bytes → ℕ × Bytes
base_of [] = (10, [])
base_of (c ∷ cs) = if nat_eq c b'0' then after_zero cs else (10, c ∷ cs)

-- What `underscoreOK` saw last.
pub data Saw : Type 0 where
  saw_start saw_digit saw_underscore saw_other : Saw

abbrev pub is_saw_digit : Saw → Bool
is_saw_digit saw_digit = true
is_saw_digit _ = false

abbrev pub is_saw_underscore : Saw → Bool
is_saw_underscore saw_underscore = true
is_saw_underscore _ = false

abbrev pub is_number_digit : Bool → ℕ → Bool
is_number_digit hex c = is_digit c || (hex && (leb b'a' (lower c) && leb (lower c) b'f'))

unfoldable pub underscores_from : Bool → Saw → Bytes → Bool
underscores_from hex saw [] = not (is_saw_underscore saw)
underscores_from hex saw (c ∷ cs) =
    let later =
      underscores_from hex
        (if is_number_digit hex c
          then saw_digit
          else if nat_eq c b'_'
          then saw_underscore
          else saw_other)
        cs in
    if is_number_digit hex c
    then later
    else if nat_eq c b'_'
    then is_saw_digit saw && later
    else not (is_saw_underscore saw) && later

-- `underscoreOK` of package strconv, on a text without a sign.
unfoldable pub underscore_ok : Bytes → Bool
underscore_ok (z ∷ p ∷ cs) =
    let plain = underscores_from false saw_start (z ∷ p ∷ cs) in
    if nat_eq z b'0' && (nat_eq (lower p) b'b' || (nat_eq (lower p) b'o' || nat_eq (lower p) b'x'))
    then underscores_from (nat_eq (lower p) b'x') saw_digit cs
    else plain
underscore_ok s = underscores_from false saw_start s

abbrev pub check_underscores : Bool → ℕ × Option Error → ℕ × Option Error
check_underscores true (n, none) = (0, some syntax)
check_underscores _ r = r

-- `strconv.ParseUint(s, 0, 64)`
unfoldable pub parse_uint_prefixed : Bytes → ℕ × Option Error
parse_uint_prefixed [] = (0, some syntax)
parse_uint_prefixed (c ∷ cs) =
    let (base, digits) = base_of (c ∷ cs) in
    check_underscores (contains_byte b'_' (c ∷ cs) && not (underscore_ok (c ∷ cs)))
      (parse_base base 0 digits)

-- `strconv.ParseInt(s, 0, 64)`
unfoldable pub parse_int_prefixed : Bytes → ℤ × Option Error
parse_int_prefixed [] = (pos 0, some syntax)
parse_int_prefixed (c ∷ cs) =
    if nat_eq c b'+'
    then signed false (parse_uint_prefixed cs)
    else if nat_eq c b'-'
    then signed true (parse_uint_prefixed cs)
    else signed false (parse_uint_prefixed (c ∷ cs))

unfoldable pub take_while : (ℕ → Bool) → Bytes → Bytes
take_while p [] = []
take_while p (c ∷ cs) = let rest = take_while p cs in if p c then c ∷ rest else []

unfoldable pub drop_while : (ℕ → Bool) → Bytes → Bytes
drop_while p [] = []
drop_while p (c ∷ cs) = let rest = drop_while p cs in if p c then rest else c ∷ cs

-- `accept` of the digits of a base and the underscore.
abbrev pub is_token_of : ℕ → ℕ → Bool
is_token_of base c = nat_eq c b'_' || ltb (digit_value c) base

-- A token that goes on behind what was read, and the rest.
abbrev pub token_behind : ℕ → Bytes → Bytes → Bytes × Bytes
token_behind base before s =
    (before ++ take_while (is_token_of base) s, drop_while (is_token_of base) s)

-- `scanBasePrefix` behind the 0, and the digits.
unfoldable pub zero_token : Bytes → Bytes × Bytes
zero_token [] = (b'0' ∷ [], [])
zero_token (p ∷ cs) =
    if nat_eq (lower p) b'b'
    then token_behind 2 (b'0' ∷ p ∷ []) cs
    else if nat_eq (lower p) b'o'
    then token_behind 8 (b'0' ∷ p ∷ []) cs
    else if nat_eq (lower p) b'x'
    then token_behind 16 (b'0' ∷ p ∷ []) cs
    else token_behind 8 (b'0' ∷ []) (p ∷ cs)

-- `scanNumber`: without a 0 in front, there has to be one decimal digit or underscore.
unfoldable pub number_token : Bytes → Result (Bytes × Bytes)
number_token [] = err scan_error
number_token (c ∷ cs) =
    if nat_eq c b'0'
    then ok (zero_token cs)
    else if is_token_of 10 c
    then ok (token_behind 10 [] (c ∷ cs))
    else err scan_error

unfoldable pub scan_number : Bytes → Bytes → Result (ℤ × Bytes)
scan_number sign s = do
  (token, rest) ← number_token s
  n ← checked (parse_int_prefixed (sign ++ token))
  ok (n, rest)

unfoldable pub scan_signed_value : Bytes → Result (ℤ × Bytes)
scan_signed_value [] = err scan_error
scan_signed_value (c ∷ cs) =
    if nat_eq c b'+' || nat_eq c b'-' then scan_number (c ∷ []) cs else scan_number [] (c ∷ cs)

-- `%v` into an int, where a line feed is a space.
unfoldable pub scan_value : Bytes → Result (ℤ × Bytes)
scan_value s = scan_signed_value (trim_left s)

abbrev pub is_word_byte : ℕ → Bool
is_word_byte c = not (is_space c)

-- `%v` into a string: the next word.
unfoldable pub word_of : Bytes → Result (Bytes × Bytes)
word_of [] = err scan_error
word_of (c ∷ cs) = ok (take_while is_word_byte (c ∷ cs), drop_while is_word_byte (c ∷ cs))

unfoldable pub scan_word : Bytes → Result (Bytes × Bytes)
scan_word s = word_of (trim_left s)

-- ===== src/Go/Numbers/Decimal.antt =====
-- Decimal numerals and what the parsers of `strconv` make of them.
use elastic_agent_system_met.Base.{
  ℕ, ◌+◌, ◌-◌, ◌*◌, ◌^◌, ◌≤◌, ◌<◌, true, false, [], ◌∷◌, ◌++◌, ◌≡◌, refl, ◌≢◌, Bytes, All, none,
  arith, ok,
}
use elastic_agent_system_met.Base.Int.{pos, u64_mod}
use elastic_agent_system_met.Go.Strings.{is_digit}
use elastic_agent_system_met.Go.Numbers.{
  parse_digits, parse_uint, parse_int, signed, take_digits, drop_digits, skip_space, scan_sign,
  scan_signed, scan_int, sscanf_range,
}

-- The weight of the place before a string of digits: ten to the power of its length.
abbrev pub place : Bytes → ℕ
place [] = 1
place (c ∷ cs) = 10 * place cs

-- The number that a string of digits writes, most significant digit first.
abbrev pub value : Bytes → ℕ
value [] = 0
value (c ∷ cs) = (c - b'0') * place cs + value cs

abbrev pub AllDigits : Bytes → Type 0
AllDigits = All (λ c. is_digit c ≡ true)

-- `ds` is a decimal numeral that stands for `n`.
pub record Decimal (ds : Bytes) (n : ℕ) : Type 0 where
  pub ne_nil : ds ≢ []
  pub digits : AllDigits ds
  pub means : value ds ≡ n

-- The text goes on with no digit.
abbrev pub StopsDigits : Bytes → Type 0
StopsDigits [] = Unit
StopsDigits (c ∷ cs) = is_digit c ≡ false

place_pos : (ds : Bytes) → 1 ≤ place ds
place_pos [] = omega arith
place_pos (c ∷ cs) = omega (arith, place_pos cs)

prefix_le : (m : ℕ) (cs : Bytes) → m ≤ m * place cs + value cs
prefix_le m cs = let h = place_pos cs in grind arith

parse_digits-value :
    (n : ℕ) (ds : Bytes)
    → AllDigits ds
    → n * place ds + value ds < u64_mod
    → parse_digits n ds ≡ (n * place ds + value ds, none)
unfolding parse_digits
parse_digits-value n [] h b = ground arith
parse_digits-value n (c ∷ cs) (d, h) b = ground (
  arith,
  prefix_le (n * 10 + (c - b'0')) cs,
  parse_digits-value (n * 10 + (c - b'0')) cs h (omega arith),
)

pub parse_uint-Decimal :
    (ds : Bytes) {n : ℕ} → Decimal ds n → n < u64_mod → parse_uint ds ≡ (n, none)
unfolding parse_uint
parse_uint-Decimal [] d b = absurd (d.ne_nil refl)
parse_uint-Decimal (c ∷ cs) d b =
    ground (arith, d.means, parse_digits-value 0 (c ∷ cs) d.digits (omega (arith, d.means)))

take_digits-append :
    (ds rest : Bytes) → AllDigits ds → StopsDigits rest → take_digits (ds ++ rest) ≡ ds
unfolding take_digits
take_digits-append [] [] h s = refl
take_digits-append [] (r ∷ rest) h s = rw s
take_digits-append (c ∷ cs) rest (d, h) s = rw (d, take_digits-append cs rest h s)

drop_digits-append :
    (ds rest : Bytes) → AllDigits ds → StopsDigits rest → drop_digits (ds ++ rest) ≡ rest
unfolding drop_digits
drop_digits-append [] [] h s = refl
drop_digits-append [] (r ∷ rest) h s = rw s
drop_digits-append (c ∷ cs) rest (d, h) s = rw (d, drop_digits-append cs rest h s)

parse_int-digit :
    (c : ℕ) (cs : Bytes)
    → is_digit c ≡ true
    → parse_int (c ∷ cs) ≡ signed false (parse_uint (c ∷ cs))
unfolding parse_int
parse_int-digit c cs h = ground arith

parse_int-Decimal : (ds : Bytes) {n : ℕ} → Decimal ds n → n < 2 ^ 63 → parse_int ds ≡ (pos n, none)
parse_int-Decimal [] d b = absurd (d.ne_nil refl)
parse_int-Decimal (c ∷ cs) d b =
    rw (parse_int-digit c cs d.digits.0, parse_uint-Decimal (c ∷ cs) d (omega arith))
      (unfold signed in ground arith)

skip_space-digit : (c : ℕ) (cs : Bytes) → is_digit c ≡ true → skip_space (c ∷ cs) ≡ c ∷ cs
unfolding skip_space
skip_space-digit c cs h = ground arith

scan_sign-digit :
    (c : ℕ) (cs : Bytes) → is_digit c ≡ true → scan_sign (c ∷ cs) ≡ scan_signed [] (c ∷ cs)
unfolding scan_sign
scan_sign-digit c cs h = ground arith

scan_signed-Decimal :
    (ds : Bytes) {n : ℕ} (rest : Bytes)
    → Decimal ds n
    → n < 2 ^ 63
    → StopsDigits rest
    → scan_signed [] (ds ++ rest) ≡ ok (pos n, rest)
scan_signed-Decimal ds rest d b s =
    unfold scan_signed in
    rw (
      take_digits-append ds rest d.digits s,
      drop_digits-append ds rest d.digits s,
      parse_int-Decimal ds d b,
    )

-- The verb `%d` reads a numeral and leaves what follows it.
pub scan_int-Decimal :
    (ds : Bytes) {n : ℕ} (rest : Bytes)
    → Decimal ds n
    → n < 2 ^ 63
    → StopsDigits rest
    → scan_int (ds ++ rest) ≡ ok (pos n, rest)
scan_int-Decimal [] rest d b s = absurd (d.ne_nil refl)
scan_int-Decimal (c ∷ cs) rest d b s =
    let plain = scan_signed-Decimal (c ∷ cs) rest d b s in
    unfold scan_int in
    rw (skip_space-digit c (cs ++ rest) d.digits.0, scan_sign-digit c (cs ++ rest) d.digits.0) plain

-- A range of two numerals, with any text behind it that does not go on with a digit.
pub sscanf_range-Decimal :
    (lo hi : Bytes) {a b : ℕ} (rest : Bytes)
    → Decimal lo a
    → Decimal hi b
    → a < 2 ^ 63
    → b < 2 ^ 63
    → StopsDigits rest
    → sscanf_range (lo ++ (b'-' ∷ (hi ++ rest))) ≡ ok (pos a, pos b)
sscanf_range-Decimal lo hi rest d e ha hb s =
    unfold sscanf_range in
    rw (scan_int-Decimal lo (b'-' ∷ (hi ++ rest)) d ha refl, scan_int-Decimal hi rest e hb s)

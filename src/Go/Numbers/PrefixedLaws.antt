-- ===== src/Go/Numbers/PrefixedLaws.antt =====
-- What the verb `%v` makes of a decimal numeral without a leading zero, and that it does not panic.
use elastic_agent_system_met.Base.{
  ℕ, ◌+◌, ◌-◌, ◌*◌, ◌^◌, ◌<◌, true, false, ◌||◌, [], ◌∷◌, ◌++◌, ◌≡◌, refl, ◌∙◌, Bool-cases, inl,
  inr, nat_eq, Bytes, arith, none, some, Error, Option, ok, err, ◌≢◌,
}
use elastic_agent_system_met.Base.Int.{pos}
use elastic_agent_system_met.Base.Returns.{Returns, NoPanic, NoPanic-if, NoPanic-bind}
use elastic_agent_system_met.Go.Strings.{is_digit, is_space, trim_left, contains_byte}
use elastic_agent_system_met.Go.Strings.Words.{AllWord}
use elastic_agent_system_met.Go.Numbers.{parse_digits, parse_uint, checked, signed}
use elastic_agent_system_met.Go.Numbers.Decimal.{Decimal, AllDigits, parse_uint-Decimal}
use elastic_agent_system_met.Go.Numbers.Prefixed.{
  digit_value, parse_base, after_zero, base_of, parse_uint_prefixed, parse_int_prefixed, take_while,
  drop_while, is_token_of, token_behind, zero_token, number_token, scan_number, scan_signed_value,
  scan_value, is_word_byte, word_of, scan_word,
}

-- A numeral that %v reads as a decimal one: 0, or no 0 in front.
abbrev pub NoLeadingZero : Bytes → Type 0
NoLeadingZero [] = Unit
NoLeadingZero (c ∷ []) = Unit
NoLeadingZero (c ∷ d ∷ ds) = nat_eq c b'0' ≡ false

-- The numeral ends here: at the end of the text or at a space.
abbrev pub EndsWord : Bytes → Type 0
EndsWord [] = Unit
EndsWord (c ∷ cs) = is_space c ≡ true

parse_base-parse_digits :
    (n : ℕ) (ds : Bytes) → AllDigits ds → parse_base 10 n ds ≡ parse_digits n ds
unfolding parse_base parse_digits digit_value
parse_base-parse_digits n [] h = refl
parse_base-parse_digits n (c ∷ cs) (h, t) =
    ground (arith, parse_base-parse_digits (n * 10 + (c - b'0')) cs t)

no_underscore : (ds : Bytes) → AllDigits ds → contains_byte b'_' ds ≡ false
unfolding contains_byte
no_underscore [] h = refl
no_underscore (c ∷ cs) (h, t) = ground (arith, no_underscore cs t)

parse_uint_prefixed-plain :
    (ds : Bytes) → AllDigits ds → NoLeadingZero ds → parse_uint_prefixed ds ≡ parse_uint ds
unfolding parse_uint_prefixed parse_uint base_of after_zero
parse_uint_prefixed-plain [] h z = refl
parse_uint_prefixed-plain (c ∷ []) (h, t) z =
    unfold contains_byte parse_base parse_digits digit_value in ground arith
parse_uint_prefixed-plain (c ∷ d ∷ ds) h z =
    ground (arith, z, no_underscore (c ∷ d ∷ ds) h, parse_base-parse_digits 0 (c ∷ d ∷ ds) h)

take_while-token :
    (ds rest : Bytes) → AllDigits ds → EndsWord rest → take_while (is_token_of 10) (ds ++ rest) ≡ ds
unfolding take_while digit_value
take_while-token [] [] h e = refl
take_while-token [] (c ∷ cs) h e = ground arith
take_while-token (c ∷ cs) rest (h, t) e = ground (arith, take_while-token cs rest t e)

drop_while-token :
    (ds rest : Bytes)
    → AllDigits ds
    → EndsWord rest
    → drop_while (is_token_of 10) (ds ++ rest) ≡ rest
unfolding drop_while digit_value
drop_while-token [] [] h e = refl
drop_while-token [] (c ∷ cs) h e = ground arith
drop_while-token (c ∷ cs) rest (h, t) e = ground (arith, drop_while-token cs rest t e)

zero_token-end : (rest : Bytes) → EndsWord rest → zero_token rest ≡ (b'0' ∷ [], rest)
unfolding zero_token take_while drop_while digit_value
zero_token-end [] e = refl
zero_token-end (c ∷ cs) e = ground arith

number_token-plain :
    (ds rest : Bytes)
    → ds ≢ []
    → AllDigits ds
    → NoLeadingZero ds
    → EndsWord rest
    → number_token (ds ++ rest) ≡ ok (ds, rest)
unfolding number_token digit_value
number_token-plain [] rest n h z e = absurd (n refl)
number_token-plain (c ∷ []) rest n h z e = ground (
  arith,
  zero_token-end rest e,
  take_while-token (c ∷ []) rest h e,
  drop_while-token (c ∷ []) rest h e,
)
number_token-plain (c ∷ d ∷ ds) rest n h z e =
    ground
      (arith, z, take_while-token (c ∷ d ∷ ds) rest h e, drop_while-token (c ∷ d ∷ ds) rest h e)

parse_int_prefixed-plain :
    (ds : Bytes) {n : ℕ}
    → Decimal ds n
    → NoLeadingZero ds
    → n < 2 ^ 63
    → parse_int_prefixed ds ≡ (pos n, none)
unfolding parse_int_prefixed signed
parse_int_prefixed-plain [] d z b = absurd (d.ne_nil refl)
parse_int_prefixed-plain (c ∷ cs) d z b =
    let read =
      parse_uint_prefixed-plain (c ∷ cs) d.digits z ∙ parse_uint-Decimal (c ∷ cs) d (omega arith) in
    ground (arith, read, d.digits.0)

trim_left-digit : (c : ℕ) (cs : Bytes) → is_digit c ≡ true → trim_left (c ∷ cs) ≡ c ∷ cs
unfolding trim_left
trim_left-digit c cs h = ground arith

-- A decimal numeral without a leading zero is read, up to the end of the word.
pub scan_value-Decimal :
    (ds : Bytes) {n : ℕ} (rest : Bytes)
    → Decimal ds n
    → NoLeadingZero ds
    → n < 2 ^ 63
    → EndsWord rest
    → scan_value (ds ++ rest) ≡ ok (pos n, rest)
unfolding scan_value scan_signed_value scan_number
scan_value-Decimal [] rest d z b e = absurd (d.ne_nil refl)
scan_value-Decimal (c ∷ cs) rest d z b e = ground (
  arith,
  d.digits.0,
  trim_left-digit c (cs ++ rest) d.digits.0,
  number_token-plain (c ∷ cs) rest d.ne_nil d.digits z e,
  parse_int_prefixed-plain (c ∷ cs) d z b,
)

pub scan_value-blank : (s : Bytes) → scan_value (b' ' ∷ s) ≡ scan_value s
unfolding scan_value trim_left
scan_value-blank s = refl

NoPanic-checked : {A : Type 0} (r : A × Option Error) → NoPanic (checked r)
NoPanic-checked (n, none) = tt
NoPanic-checked (n, some e) = tt

NoPanic-number_token : (s : Bytes) → NoPanic (number_token s)
unfolding number_token
NoPanic-number_token [] = tt
NoPanic-number_token (c ∷ cs) =
    NoPanic-if (nat_eq c b'0') (ok (zero_token cs)) _ tt
      (NoPanic-if (is_token_of 10 c) (ok (token_behind 10 [] (c ∷ cs))) (err _) tt tt)

NoPanic-scan_number : (sign s : Bytes) → NoPanic (scan_number sign s)
unfolding scan_number
NoPanic-scan_number sign s =
    NoPanic-bind (number_token s) _ (NoPanic-number_token s) (λ (token, rest).
      NoPanic-bind (checked (parse_int_prefixed (sign ++ token))) _ (NoPanic-checked _) (λ n. tt))

pub NoPanic-scan_value : (s : Bytes) → NoPanic (scan_value s)
unfolding scan_value scan_signed_value
NoPanic-scan_value s = of_trimmed (trim_left s)
  where
    of_trimmed : (t : Bytes) → NoPanic (scan_signed_value t)
    of_trimmed [] = tt
    of_trimmed (c ∷ cs) =
        NoPanic-if (nat_eq c b'+' || nat_eq c b'-') (scan_number (c ∷ []) cs)
          (scan_number [] (c ∷ cs)) (NoPanic-scan_number (c ∷ []) cs)
          (NoPanic-scan_number [] (c ∷ cs))

take_while-word :
    (w rest : Bytes) → AllWord is_space w → EndsWord rest → take_while is_word_byte (w ++ rest) ≡ w
unfolding take_while
take_while-word [] [] h e = refl
take_while-word [] (c ∷ cs) h e = rw e refl
take_while-word (c ∷ cs) rest (h, t) e = rw (h, take_while-word cs rest t e) refl

drop_while-word :
    (w rest : Bytes)
    → AllWord is_space w
    → EndsWord rest
    → drop_while is_word_byte (w ++ rest) ≡ rest
unfolding drop_while
drop_while-word [] [] h e = refl
drop_while-word [] (c ∷ cs) h e = rw e refl
drop_while-word (c ∷ cs) rest (h, t) e = rw (h, drop_while-word cs rest t e) refl

trim_left-word : (c : ℕ) (cs : Bytes) → is_space c ≡ false → trim_left (c ∷ cs) ≡ c ∷ cs
unfolding trim_left
trim_left-word c cs h = rw h refl

-- The next word is read, up to its end.
pub scan_word-word :
    (c : ℕ) (cs rest : Bytes)
    → AllWord is_space (c ∷ cs)
    → EndsWord rest
    → scan_word ((c ∷ cs) ++ rest) ≡ ok (c ∷ cs, rest)
unfolding scan_word word_of
scan_word-word c cs rest (h, t) e =
    rw
      (
        trim_left-word c (cs ++ rest) h,
        take_while-word (c ∷ cs) rest (h, t) e,
        drop_while-word (c ∷ cs) rest (h, t) e,
      )
      refl

abbrev StartsWord : Bytes → Type 0
StartsWord [] = Unit
StartsWord (c ∷ cs) = is_space c ≡ false

StartsWord-trim_left : (s : Bytes) → StartsWord (trim_left s)
unfolding trim_left
StartsWord-trim_left [] = tt
StartsWord-trim_left (c ∷ cs) = elim (Bool-cases (is_space c)) [
  | inl space ↦ rw space (StartsWord-trim_left cs)
  | inr word ↦ rw word word
]

-- A word that is read is not empty.
pub scan_word-ne_nil : (s : Bytes) → Returns (λ r. r.0 ≢ []) (scan_word s)
unfolding scan_word word_of
scan_word-ne_nil s = of_trimmed (trim_left s) (StartsWord-trim_left s)
  where
    of_trimmed : (t : Bytes) → StartsWord t → Returns (λ r. r.0 ≢ []) (word_of t)
    of_trimmed [] h = tt
    of_trimmed (c ∷ cs) h = λ e. unfold take_while in ground (arith, h, e)

pub NoPanic-scan_word : (s : Bytes) → NoPanic (scan_word s)
unfolding scan_word word_of
NoPanic-scan_word s = of_trimmed (trim_left s)
  where
    of_trimmed : (t : Bytes) → NoPanic (word_of t)
    of_trimmed [] = tt
    of_trimmed (c ∷ cs) = tt

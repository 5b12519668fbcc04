-- ===== src/Hwmon/Laws/Prefixes.antt =====
-- The names of sensor files: a name and its prefix of letters and digits stand for the same sensor.
use elastic_agent_system_met.Base.{
  ℕ, Bool, [], ◌∷◌, ◌++◌, ◌≡◌, refl, sym, ◌∙◌, ap, Bytes, bytes_comparable, leb, ◌&&◌, arith, some,
  ok,
}
use elastic_agent_system_met.Go.Numbers.{atoi, take_digits}
use elastic_agent_system_met.Hwmon.Types.{Sensor}
use elastic_agent_system_met.Hwmon.Detect.{
  take_letters, drop_letters, letters_of, number_of, prefix_of, get_sensor_type,
}

-- The name stands for the sensor: its letters give the type, the digits behind them the number.
pub record Names (name : Bytes) (s : Sensor) : Type 0 where
  pub of_type : get_sensor_type (letters_of name) ≡ some s.dev_type
  pub of_number : atoi (number_of name) ≡ ok s.sensor_num

abbrev is_letter : ℕ → Bool
is_letter c = leb b'a' c && leb c b'z'

-- The prefix of a name has the letters and the digits of the name.
take_letters-prefix :
    (name rest : Bytes)
    → take_letters rest ≡ []
    → take_letters (take_letters name ++ rest) ≡ take_letters name
unfolding take_letters
take_letters-prefix [] rest h = h
take_letters-prefix (c ∷ cs) rest h = ground (arith, take_letters-prefix cs rest h)

drop_letters-prefix :
    (name rest : Bytes) → drop_letters rest ≡ rest → drop_letters (take_letters name ++ rest) ≡ rest
unfolding take_letters drop_letters
drop_letters-prefix [] rest h = h
drop_letters-prefix (c ∷ cs) rest h = ground (arith, drop_letters-prefix cs rest h)

take_letters-digits : (s : Bytes) → take_letters (take_digits s) ≡ []
unfolding take_letters take_digits
take_letters-digits [] = refl
take_letters-digits (c ∷ cs) = ground arith

drop_letters-digits : (s : Bytes) → drop_letters (take_digits s) ≡ take_digits s
unfolding drop_letters take_digits
drop_letters-digits [] = refl
drop_letters-digits (c ∷ cs) = ground arith

take_digits_idem : (s : Bytes) → take_digits (take_digits s) ≡ take_digits s
unfolding take_digits
take_digits_idem [] = refl
take_digits_idem (c ∷ cs) = ground (arith, take_digits_idem cs)

letters_of-prefix : (name : Bytes) → letters_of (prefix_of name) ≡ letters_of name
letters_of-prefix name =
    take_letters-prefix name (number_of name) (take_letters-digits (drop_letters name))

number_of-prefix : (name : Bytes) → number_of (prefix_of name) ≡ number_of name
number_of-prefix name =
    ap (λ s. take_digits s)
      (drop_letters-prefix name (number_of name) (drop_letters-digits (drop_letters name)))
    ∙ take_digits_idem (drop_letters name)

pub Names-prefix :
    (name other : Bytes) (s : Sensor)
    → prefix_of name ≡ prefix_of other
    → Names name s
    → Names other s
Names-prefix name other s e h = record {
  of_type = rw (sym (letters_of-prefix other), sym e, letters_of-prefix name) h.of_type;
  of_number = rw (sym (number_of-prefix other), sym e, number_of-prefix name) h.of_number;
}

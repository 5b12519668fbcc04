-- ===== src/Tests/Fixtures.antt =====
-- Concrete stand-ins for what the model takes as parameters: whole numbers for `float64`, an
-- optional number for `opt.Uint`, and a few files.
use elastic_agent_system_met.Base.{
  ℕ, ◌+◌, ◌-◌, ◌*◌, ◌/◌, ◌^◌, Bool, true, false, not, List, [], ◌∷◌, refl, Bytes, bytes_eq, Option,
  none, some, ltb, leb, nat_eq, if◌then◌else◌, Error, not_exist,
}
use elastic_agent_system_met.Base.Int.{pos_part, add64, sub64}
use elastic_agent_system_met.Go.Files.{Files, content, failed}
use elastic_agent_system_met.Libs.{Float64, Opt, OptLaws}
use elastic_agent_system_met.Resolve.{Resolver}

abbrev pub floats : Float64
floats = record {
  Float = ℕ;
  of_uint = λ n. n;
  of_int = λ i. pos_part i;
  half = 1;
  add = λ a b. a + b;
  sub = λ a b. a - b;
  mul = λ a b. a * b;
  div = λ a b. a / b;
  lt = λ a b. ltb a b;
  le = λ a b. leb a b;
  eq = λ a b. nat_eq a b;
  is_nan = λ a. false;
  pow = λ a b. a ^ b;
  modf_frac = λ a. 0;
  ceil = λ a. a;
  floor = λ a. a;
  is_number = λ s. false;
  parse = λ s. 0;
}

abbrev pub or_else : {A : Type 0} → Option A → A → A
or_else none d = d
or_else (some a) d = a

abbrev pub is_some : {A : Type 0} → Option A → Bool
is_some none = false
is_some (some a) = true

abbrev pub sum64 : List (Option ℕ) → ℕ
sum64 [] = 0
sum64 (u ∷ us) = add64 (or_else u 0) (sum64 us)

abbrev minus : Option ℕ → Option ℕ → Option ℕ
minus (some a) (some b) = some (sub64 a b)
minus _ _ = none

abbrev pub opts : Opt floats
opts = record {
  Uint = Option ℕ;
  uint_with = λ n. some n;
  uint_none = none;
  exists = λ u. is_some u;
  is_zero = λ u. not (is_some u);
  value_or = λ u d. or_else u d;
  sum_opt_uint = λ us. sum64 us;
  subtract_or_none = λ a b. minus a b;
  OptFloat = Option ℕ;
  float_with = λ n. some n;
  float_none = none;
  float_is_zero = λ u. not (is_some u);
  float_value_or = λ u d. or_else u d;
}

abbrev pub opt_laws : OptLaws opts
opt_laws = record {
  value_or-uint_with = λ n d. refl;
  value_or-uint_none = λ d. refl;
  exists-uint_with = λ n. refl;
  exists-uint_none = refl;
  is_zero-exists = λ u. refl;
  sum-nil = refl;
  sum-cons = λ u us. refl;
}

-- `Errs.Err()`: no error for an empty list.
abbrev pub first_error : List Error → Option Error
first_error [] = none
first_error (e ∷ es) = some e

abbrev pub root : Resolver
root = record { resolve_host_fs = λ p. p; is_set = false; join = λ ps. [] }

-- One file with this content, and no other.
abbrev pub one_file : Bytes → Bytes → Files
one_file path text p = if bytes_eq p path then content text else failed not_exist

-- ===== src/Cgroup/Laws/Params.antt =====
-- Files of keys and values.
use elastic_agent_system_met.Base.{
  ℕ, ◌<◌, ◌+◌, ◌*◌, List, [], ◌∷◌, ◌++◌, ◌≡◌, refl, sym, ◌∙◌, ap, ◌≢◌, Bytes, none, some, ok, All,
  arith, out_of_range, ◌⊎◌, inl, inr, subst, Bool-cases, ltb, ◌-◌, ◌^◌,
}
use mathlib.Core.List.{append-nil}
use elastic_agent_system_met.Base.Int.{u64_mod}
use elastic_agent_system_met.Go.Strings.{fields, is_space, trim_space, trim_left, trim_right}
use elastic_agent_system_met.Go.Strings.Words.{
  IsWord, AllWord, AllWord-of_AllDigits, fields-labelled,
}
use elastic_agent_system_met.Go.Numbers
use elastic_agent_system_met.Go.Numbers.{parse_int, signed, parse_digits}
use elastic_agent_system_met.Go.Numbers.Decimal.{
  Decimal, AllDigits, place, value, parse_uint-Decimal,
}
use elastic_agent_system_met.Cgroup.Common.{
  parse_uint, uint_or_munge, munge, key_value, parse_cgroup_param_key_value, each_param,
}

trim_right-word : (s : Bytes) → AllWord is_space s → trim_right s ≡ s
unfolding trim_right
trim_right-word [] h = refl
trim_right-word (c ∷ cs) (h, t) = ground (arith, trim_right-word cs t)

trim_space-word : (s : Bytes) → AllWord is_space s → trim_space s ≡ s
unfolding trim_space trim_left
trim_space-word [] h = unfold trim_right in refl
trim_space-word (c ∷ cs) (h, t) = rw (trim_right-word (c ∷ cs) (h, t), h)

-- A numeral that fits 64 bits is read as its number.
parse_uint-numeral : (ds : Bytes) {n : ℕ} → Decimal ds n → n < u64_mod → parse_uint ds ≡ ok n
unfolding parse_uint uint_or_munge
parse_uint-numeral ds d h =
    rw (trim_space-word ds (AllWord-of_AllDigits ds d.digits), parse_uint-Decimal ds d h) refl

-- A numeral is parsed, or it is out of range and the value is the greatest one.
parse_digits-cases :
    (n : ℕ) (ds : Bytes)
    → AllDigits ds
    → (parse_digits n ds ≡ (n * place ds + value ds, none))
      ⊎ (parse_digits n ds ≡ (2 ^ 64 - 1, some out_of_range))
unfolding parse_digits
parse_digits-cases n [] h = inl (ground arith)
parse_digits-cases n (c ∷ cs) (h, t) =
    let next = n * 10 + (c - b'0') in
    let total : next * place cs + value cs
        ≡ n * (10 * place cs) + ((c - b'0') * place cs + value cs) =
      grind arith in
    elim (Bool-cases (ltb next u64_mod)) [
      | inl small ↦ elim (parse_digits-cases next cs t) [
        | inl e ↦ inl (ground (arith, e, total))
        | inr e ↦ inr (ground (arith, e))
      ]
      | inr big ↦ inr (ground arith)
    ]

-- A minus sign and a numeral other than 0, however long, are read as 0.
parse_uint-negative : (ds : Bytes) {n : ℕ} → Decimal ds n → n ≢ 0 → parse_uint (b'-' ∷ ds) ≡ ok 0
unfolding parse_uint uint_or_munge munge parse_int signed Numbers.parse_uint parse_digits
parse_uint-negative [] d h = absurd (d.ne_nil refl)
parse_uint-negative (c ∷ cs) d h =
    let word = trim_space-word (b'-' ∷ c ∷ cs) (refl, AllWord-of_AllDigits (c ∷ cs) d.digits) in
    elim (parse_digits-cases 0 (c ∷ cs) d.digits) [
      | inl e ↦ rw (word, e) (ground (arith, d.means))
      | inr e ↦ rw (word, e) (ground arith)
    ]

-- A text that stands for a number: a numeral that fits 64 bits, or a negative one, which counts as 0.
abbrev pub IsNumber : Bytes → ℕ → Type 0
IsNumber text n =
    (Decimal text n × (n < u64_mod))
    ⊎ ((ds : Bytes) × ((m : ℕ) × ((text ≡ b'-' ∷ ds) × (Decimal ds m × ((m ≢ 0) × (n ≡ 0))))))

pub record Param : Type 0 where
  pub key : Bytes
  pub text : Bytes
  pub amount : ℕ

pub record IsParam (p : Param) : Type 0 where
  pub word : IsWord p.key
  pub number : IsNumber p.text p.amount

abbrev pub param_line : Param → Bytes
param_line p = p.key ++ (b' ' ∷ p.text)

abbrev pub param_lines : List Param → List Bytes
param_lines [] = []
param_lines (p ∷ ps) = param_line p ∷ param_lines ps

abbrev pub set_params_of : {A : Type 0} → (Bytes → ℕ → A → A) → List Param → A → A
set_params_of set [] data' = data'
set_params_of set (p ∷ ps) data' = set_params_of set ps (set p.key p.amount data')

pub parse_uint-IsNumber : (text : Bytes) (n : ℕ) → IsNumber text n → parse_uint text ≡ ok n
parse_uint-IsNumber text n (inl (d, h)) = parse_uint-numeral text d h
parse_uint-IsNumber text n (inr (ds, (m, (e, (d, (h, z)))))) =
    ap (λ t. parse_uint t) e ∙ parse_uint-negative ds d h ∙ ap ok (sym z)

pub IsWord-IsNumber : (text : Bytes) (n : ℕ) → IsNumber text n → IsWord text
IsWord-IsNumber text n (inl (d, h)) = (d.ne_nil, AllWord-of_AllDigits text d.digits)
IsWord-IsNumber text n (inr (ds, (m, (e, (d, _))))) =
    subst (λ t. IsWord t) (sym e) (λ h. ground arith, (refl, AllWord-of_AllDigits ds d.digits))

fields-param : (p : Param) → IsParam p → fields (param_line p) ≡ p.key ∷ p.text ∷ []
fields-param p h =
    ap (λ t. fields (p.key ++ (b' ' ∷ t))) (sym (append-nil p.text))
    ∙ fields-labelled p.key [] p.text [] h.word tt (IsWord-IsNumber p.text p.amount h.number, tt)

-- A file of lines "key number" sets each parameter to its number, in the order of the lines; a
-- negative number counts as 0.
pub each_param-lines :
    {A : Type 0} (set : Bytes → ℕ → A → A) (ps : List Param) (data' : A)
    → All IsParam ps
    → each_param set (param_lines ps) data' ≡ ok (set_params_of set ps data')
unfolding each_param parse_cgroup_param_key_value key_value
each_param-lines set [] data' h = refl
each_param-lines set (p ∷ ps) data' (h, t) =
    rw (fields-param p h, parse_uint-IsNumber p.text p.amount h.number)
      (each_param-lines set ps (set p.key p.amount data') t)

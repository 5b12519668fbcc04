-- ===== src/Cpu/Laws/Stat.antt =====
-- One line of counters of /proc/stat is read back.
pub mod File
use elastic_agent_system_met.Base.{
  ℕ, ◌<◌, Bool, List, [], ◌∷◌, ◌++◌, ◌≡◌, refl, ◌∙◌, ap, ◌≢◌, ◌↔◌, Bytes, codes, All, arith, Option,
  none, some, ok, panic, Error, Result, ◌>>=◌, get_elem?, length, suc, zero,
}
use elastic_agent_system_met.Base.Int.{u64_mod}
use elastic_agent_system_met.Go.Strings.{fields, is_space}
use elastic_agent_system_met.Go.Strings.Words.{
  spaced, IsWord, AllSeparators, fields-labelled, AllWord-of_AllDigits,
}
use elastic_agent_system_met.Go.Numbers.{parse_uint}
use elastic_agent_system_met.Go.Numbers.Decimal.{Decimal, parse_uint-Decimal}
use elastic_agent_system_met.Libs.{Float64, Opt}
use elastic_agent_system_met.Cpu.Types.{Cpu}
use elastic_agent_system_met.Cpu.Stat.{
  problem, with_fault, try_parse_uint, read_counters, read_fields, parse_cpu_line,
}

-- A numeral that fits a uint64.
pub record Numeral : Type 0 where
  pub digits : Bytes
  pub number : ℕ
  pub written : Decimal digits number
  pub fits : number < u64_mod

-- The counters of a line in the kernel's order, and the fields behind them.
pub record Counters : Type 0 where
  pub user : Numeral
  pub nice : Numeral
  pub system : Numeral
  pub idle : Numeral
  pub iowait : Numeral
  pub irq : Numeral
  pub softirq : Numeral
  pub steal : Numeral
  pub more : List Bytes
  pub more_words : All IsWord more

abbrev pub words_of : Counters → List Bytes
words_of c =
    c.user.digits ∷ c.nice.digits ∷ c.system.digits ∷ c.idle.digits ∷ c.iowait.digits ∷ c.irq.digits
    ∷ c.softirq.digits ∷ c.steal.digits ∷ c.more

numeral-IsWord : (n : Numeral) → IsWord n.digits
numeral-IsWord n = (n.written.ne_nil, AllWord-of_AllDigits n.digits n.written.digits)

words-IsWord : (c : Counters) → All IsWord (words_of c)
words-IsWord c = (
  numeral-IsWord c.user,
  (
    numeral-IsWord c.nice,
    (
      numeral-IsWord c.system,
      (
        numeral-IsWord c.idle,
        (
          numeral-IsWord c.iowait,
          (
            numeral-IsWord c.irq,
            (numeral-IsWord c.softirq, (numeral-IsWord c.steal, c.more_words)),
          ),
        ),
      ),
    ),
  ),
)

parse-numeral : (n : Numeral) → parse_uint n.digits ≡ (n.number, none)
parse-numeral n = parse_uint-Decimal n.digits n.written n.fits

module _ (f : Float64) (o : Opt f) (multi_err : List Error → Option Error)
    (no_errors : multi_err [] ≡ none) where
  -- The sample that the counters stand for.
  abbrev pub sample_of : Counters → Cpu f o
  sample_of c = record {
    user = o.uint_with c.user.number;
    sys = o.uint_with c.system.number;
    idle = o.uint_with c.idle.number;
    nice = o.uint_with c.nice.number;
    irq = o.uint_with c.irq.number;
    wait = o.uint_with c.iowait.number;
    soft_irq = o.uint_with c.softirq.number;
    stolen = o.uint_with c.steal.number;
  }

  read_fields-words :
      (label : Bytes) (c : Counters)
      → read_fields f o multi_err (label ∷ words_of c) ≡ ok (sample_of c)
  unfolding read_fields read_counters
  read_fields-words label c = rw (
    parse-numeral c.user,
    parse-numeral c.nice,
    parse-numeral c.system,
    parse-numeral c.idle,
    parse-numeral c.iowait,
    parse-numeral c.irq,
    parse-numeral c.softirq,
    parse-numeral c.steal,
    no_errors,
  )

  -- A label, blanks and the counters, one space before each, are read as the sample of the numbers
  -- in the kernel's order, whatever fields follow.
  pub parse_cpu_line-sample :
      (label pad : Bytes) (c : Counters)
      → IsWord label
      → AllSeparators is_space pad
      → parse_cpu_line f o multi_err (label ++ (pad ++ spaced (words_of c))) ≡ ok (sample_of c)
  unfolding parse_cpu_line
  parse_cpu_line-sample label pad c l p =
      rw (fields-labelled label pad c.user.digits _ l p (words-IsWord c))
        (read_fields-words label c)

module _ (f : Float64) (o : Opt f) (multi_err : List Error → Option Error) where
  with_fault-ne-panic : {A : Type 0} (a : A) (e : Option Error) → with_fault a e ≢ panic
  unfolding with_fault
  with_fault-ne-panic a none = cc
  with_fault-ne-panic a (some e) = cc

  read_fields_iff :
      (parts : List Bytes) → (read_fields f o multi_err parts ≡ panic) ↔ (length parts < 9)
  unfolding read_fields read_counters
  read_fields_iff [] = ((λ _. omega arith), (λ _. refl))
  read_fields_iff (a ∷ []) = ((λ _. omega arith), (λ _. refl))
  read_fields_iff (a ∷ b ∷ []) = ((λ _. omega arith), (λ _. refl))
  read_fields_iff (a ∷ b ∷ c ∷ []) = ((λ _. omega arith), (λ _. refl))
  read_fields_iff (a ∷ b ∷ c ∷ d ∷ []) = ((λ _. omega arith), (λ _. refl))
  read_fields_iff (a ∷ b ∷ c ∷ d ∷ e ∷ []) = ((λ _. omega arith), (λ _. refl))
  read_fields_iff (a ∷ b ∷ c ∷ d ∷ e ∷ g ∷ []) = ((λ _. omega arith), (λ _. refl))
  read_fields_iff (a ∷ b ∷ c ∷ d ∷ e ∷ g ∷ i ∷ []) = ((λ _. omega arith), (λ _. refl))
  read_fields_iff (a ∷ b ∷ c ∷ d ∷ e ∷ g ∷ i ∷ j ∷ []) = ((λ _. omega arith), (λ _. refl))
  read_fields_iff (a ∷ b ∷ c ∷ d ∷ e ∷ g ∷ i ∷ j ∷ k ∷ rest) =
      ((λ p. absurd (with_fault-ne-panic _ _ p)), (λ h. absurd (omega arith)))

  -- The parser of a line panics exactly when the line has fewer than nine fields.
  pub parse_cpu_line-panic_iff :
      (line : Bytes) → (parse_cpu_line f o multi_err line ≡ panic) ↔ (length (fields line) < 9)
  unfolding parse_cpu_line
  parse_cpu_line-panic_iff line = read_fields_iff (fields line)

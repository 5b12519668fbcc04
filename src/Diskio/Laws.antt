-- ===== src/Diskio/Laws.antt =====
-- The rollover of 32-bit counters, and what the sampler remembers.
use elastic_agent_system_met.Base.{
  ℕ, ◌+◌, ◌^◌, ◌≤◌, ◌<◌, ◌%◌, false, ◌≡◌, ◌⊎◌, inl, inr, arith, Option, none, some, Error, Result,
  ok, err, panic, Bytes, if◌then◌else◌, ◌==◌, bytes_comparable, Bool-cases,
}
use elastic_agent_system_met.Base.Int.{ℤ}
use native.Mathlib.Decide.{dec_lt}
use elastic_agent_system_met.Go.Maps.{lookup, lookup-insert}
use elastic_agent_system_met.Libs.{Float64}
use elastic_agent_system_met.Diskio.{
  IoCountersStat, return_or_fix_32_bit_rollover, IoMetric, no_metric, rates, capped, IoStat,
  remember, calc_from, calc_io_statistics, delta_ms,
}

-- The counter `now` of 32 bits, read `moved` ticks after it stood at `prev`.
abbrev pub counted_on : ℕ → ℕ → ℕ
counted_on prev moved = (prev + moved) % 2 ^ 32

-- A 32-bit counter that moved on by less than a whole turn: the delta is what it moved by, but one
-- less if it rolled over.
pub rollover-delta :
    (prev moved : ℕ)
    → prev < 2 ^ 32
    → moved < 2 ^ 32
    → ((prev + moved < 2 ^ 32)
        × (return_or_fix_32_bit_rollover (counted_on prev moved) prev ≡ moved))
      ⊎ ((2 ^ 32 ≤ prev + moved)
          × (return_or_fix_32_bit_rollover (counted_on prev moved) prev + 1 ≡ moved))
unfolding return_or_fix_32_bit_rollover
rollover-delta prev moved h k = elim (dec_lt (prev + moved) (2 ^ 32)) [
  | yes stays ↦ inl (stays, ground arith)
  | no turns ↦ inr (omega arith, ground arith)
]

err-ne-ok : {A : Type 0} {e : Error} {a : A} → err e ≡ ok a → ⊥
err-ne-ok h = cc

ok-injective : {A : Type 0} {a b : A} → ok a ≡ ok b → a ≡ b
ok-injective h = cc

module _ (f : Float64) (Sample : Type 0) (cpu_total : Sample → ℕ) where
  -- What the sampler remembers of a disk after a call for `counter`.
  abbrev pub remembered :
      Result (IoMetric f) → IoCountersStat → Option IoCountersStat → Option IoCountersStat
  remembered (ok m) counter before = some counter
  remembered (err e) counter before = before
  remembered panic counter before = before

  calc_from-remembers :
      (cpus : ℤ) (counter : IoCountersStat) (last : Option IoCountersStat)
      (stat : IoStat f Sample cpu_total) (disk : Bytes)
      → lookup disk (calc_from f Sample cpu_total cpus counter last stat).1.last_disk_io_counters
        ≡ (if counter.name == disk
            then remembered
                (calc_from f Sample cpu_total cpus counter last stat).0
                counter
                (lookup disk stat.last_disk_io_counters)
            else lookup disk stat.last_disk_io_counters)
  unfolding calc_from remember
  calc_from-remembers cpus counter none stat disk =
      lookup-insert counter.name disk counter stat.last_disk_io_counters
  calc_from-remembers cpus counter (some last) stat disk =
      ground (arith, lookup-insert counter.name disk counter stat.last_disk_io_counters)

  -- A call that returns metrics remembers its counters for the disk that they name; a call that
  -- fails remembers nothing; what is remembered of the other disks stays.
  pub calc-remembers :
      (cpus : ℤ) (counter : IoCountersStat) (stat : IoStat f Sample cpu_total) (disk : Bytes)
      → lookup disk
          (calc_io_statistics f Sample cpu_total cpus counter stat).1.last_disk_io_counters
        ≡ (if counter.name == disk
            then remembered
                (calc_io_statistics f Sample cpu_total cpus counter stat).0
                counter
                (lookup disk stat.last_disk_io_counters)
            else lookup disk stat.last_disk_io_counters)
  unfolding calc_io_statistics
  calc-remembers cpus counter stat disk =
      calc_from-remembers cpus counter (lookup counter.name stat.last_disk_io_counters) stat disk

  module _ (irreflexive : (x : f.Float) → f.lt x x ≡ false)
      (small : f.lt (f.of_uint 100) (f.of_uint 0) ≡ false) where
    capped_le : (x : f.Float) → f.lt (f.of_uint 100) (capped f x) ≡ false
    capped_le x = elim (Bool-cases (f.lt (f.of_uint 100) x)) [
      | inl over ↦ rw over (irreflexive (f.of_uint 100))
      | inr within ↦ rw within within
    ]

    calc_from-capped :
        (cpus : ℤ) (counter : IoCountersStat) (last : Option IoCountersStat)
        (stat : IoStat f Sample cpu_total) (m : IoMetric f)
        → (calc_from f Sample cpu_total cpus counter last stat).0 ≡ ok m
        → f.lt (f.of_uint 100) m.busy_pct ≡ false
    unfolding calc_from
    calc_from-capped cpus counter none stat m h = let e : no_metric f ≡ m = cc in rw (← e) small
    calc_from-capped cpus counter (some last) stat m h =
        elim (Bool-cases (f.le (delta_ms f Sample cpu_total cpus stat) (f.of_uint 0))) [
          | inl refused ↦ absurd (err-ne-ok (rw refused at h))
          | inr taken ↦
              let e : rates f (delta_ms f Sample cpu_total cpus stat) last counter ≡ m =
                ok-injective (rw taken at h) in
              rw (← e) (unfold rates in capped_le _)
        ]

    -- A disk is reported as busy for at most 100 percent of the time, where no float is less than
    -- itself and 100 is not less than 0.
    pub busy_capped :
        (cpus : ℤ) (counter : IoCountersStat) (stat : IoStat f Sample cpu_total) (m : IoMetric f)
        → (calc_io_statistics f Sample cpu_total cpus counter stat).0 ≡ ok m
        → f.lt (f.of_uint 100) m.busy_pct ≡ false
    unfolding calc_io_statistics
    busy_capped cpus counter stat m h =
        calc_from-capped cpus counter (lookup counter.name stat.last_disk_io_counters) stat m h

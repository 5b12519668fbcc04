-- ===== src/Process/Percent.antt =====
-- helpers.go: the shares of memory and of CPU time.
use elastic_agent_system_met.Base.{
  ℕ, suc, ◌/◌, ◌-◌, ◌^◌, ◌||◌, if◌then◌else◌, ltb, nat_eq, Result, ok, ◌>>=◌,
}
use elastic_agent_system_met.Base.Int.{ℤ, pos, negsuc, ◌-ℤ◌, sub64, signed64}
use elastic_agent_system_met.Round.{round}
use elastic_agent_system_met.Process.Types.{Deps, ProcState}

-- `t1.Sub(t0)` of times in nanoseconds, which stops at the ends of int64.
unfoldable pub time_sub : ℤ → ℤ → ℤ
unfolding ◌-ℤ◌
time_sub t1 t0 = elim (t1 -ℤ t0) [
  | pos n ↦ if ltb n (2 ^ 63) then pos n else pos (2 ^ 63 - 1)
  | negsuc n ↦ if ltb n (2 ^ 63) then negsuc n else negsuc (2 ^ 63 - 1)
]

-- `t / time.Millisecond`, which Go rounds towards zero.
unfoldable pub to_millis : ℤ → ℤ
unfolding ◌-ℤ◌
to_millis (pos n) = pos (n / 1000000)
to_millis (negsuc n) = pos 0 -ℤ pos (suc n / 1000000)

module _ (d : Deps) where
  unfoldable pub get_proc_mem_percentage : ProcState d → ℕ → d.o.OptFloat
  get_proc_mem_percentage proc total_phy_mem =
      if nat_eq total_phy_mem 0
      then d.o.float_none
      else d.o.float_with (
          round d.f (
            d.f.div (d.f.of_uint (d.o.value_or proc.memory.rss.bytes 0))
              (d.f.of_uint total_phy_mem)))

  -- The ticks of the second sample over those of the first, as int64.
  unfoldable pub tick_delta : ProcState d → ProcState d → ℤ
  tick_delta s0 s1 =
      signed64 (sub64 (d.o.value_or s1.cpu.total.ticks 0) (d.o.value_or s0.cpu.total.ticks 0))

  unfoldable pub cpu_share : ProcState d → ProcState d → d.f.Float
  cpu_share s0 s1 =
      d.f.div (d.f.of_int (tick_delta s0 s1))
        (d.f.of_int (to_millis (time_sub s1.sample_time s0.sample_time)))

  unfoldable pub with_share : ProcState d → d.f.Float → ℤ → ProcState d
  with_share s1 pct cpus = record s1 {
    cpu = record (s1.cpu) {
      total = record (s1.cpu.total) {
        norm_pct = d.o.float_with (round d.f (d.f.div pct (d.f.of_int cpus)));
        pct = d.o.float_with (round d.f pct);
      };
    };
  }

  -- `cpus` is what `numcpu.NumCPU()` gives.
  unfoldable pub get_proc_cpu_percentage :
      Result ℤ → ProcState d → ProcState d → Result (ProcState d)
  get_proc_cpu_percentage cpus s0 s1 =
      if d.o.is_zero s0.cpu.total.ticks || d.o.is_zero s1.cpu.total.ticks
      then ok s1
      else if d.f.is_nan (cpu_share s0 s1)
      then ok s1
      else (do n ← cpus; ok (with_share s1 (cpu_share s0 s1) n))

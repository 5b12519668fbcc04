-- ===== src/Tests/Diskio.antt =====
-- Disk counters.
use elastic_agent_system_met.Base.{
  ℕ, ◌+◌, ◌^◌, ◌≤◌, ◌<◌, false, [], ◌≡◌, refl, ◌⊎◌, codes, arith, ok, bytes_eq, if◌then◌else◌, ◌==◌,
  bytes_comparable, ltb,
}
use elastic_agent_system_met.Base.Int.{pos}
use elastic_agent_system_met.Go.Maps.{lookup, insert}
use elastic_agent_system_met.Diskio.{
  IoCountersStat, return_or_fix_32_bit_rollover, no_metric, IoStat, calc_io_statistics, calc_from,
  remember,
}
use elastic_agent_system_met.Diskio.Laws.{
  counted_on, remembered, rollover-delta, calc-remembers, busy_capped,
}
use elastic_agent_system_met.Tests.Fixtures.{floats}

open_diskio : Unit {0}
unfolding calc_io_statistics calc_from remember lookup insert bytes_eq return_or_fix_32_bit_rollover
open_diskio = tt

abbrev sda : IoCountersStat
sda = record {
  name = codes "sda";
  read_count = 5;
  merged_read_count = 1;
  read_bytes = 100;
  read_time = 7;
  write_count = 2;
  merged_write_count = 0;
  write_bytes = 30;
  write_time = 4;
  io_time = 9;
  weighted_io = 3;
}

abbrev fresh : IoStat floats ℕ (λ s. s)
fresh = record { last_disk_io_counters = []; last_cpu = 10; cur_cpu = 20 }

first_call : (calc_io_statistics floats ℕ (λ s. s) (pos 1) sda fresh).0 ≡ ok (no_metric floats)
unfolding open_diskio
first_call = refl

rollover-delta_example :
    ((4_294_967_290 + 10 < 2 ^ 32)
      × (return_or_fix_32_bit_rollover (counted_on 4_294_967_290 10) 4_294_967_290 ≡ 10))
    ⊎ ((2 ^ 32 ≤ 4_294_967_290 + 10)
        × (return_or_fix_32_bit_rollover (counted_on 4_294_967_290 10) 4_294_967_290 + 1 ≡ 10))
rollover-delta_example = rollover-delta 4_294_967_290 10 (omega arith) (omega arith)

calc-remembers_example :
    lookup
      (codes "sda")
      (calc_io_statistics floats ℕ (λ s. s) (pos 1) sda fresh).1.last_disk_io_counters
    ≡ (if sda.name == codes "sda"
        then remembered floats ℕ
            (λ s. s)
            (calc_io_statistics floats ℕ (λ s. s) (pos 1) sda fresh).0
            sda
            (lookup (codes "sda") fresh.last_disk_io_counters)
        else lookup (codes "sda") fresh.last_disk_io_counters)
calc-remembers_example = calc-remembers floats ℕ (λ s. s) (pos 1) sda fresh (codes "sda")

irreflexive : (x : ℕ) → ltb x x ≡ false
irreflexive x = ground arith

busy_capped_example : floats.lt 100 0 ≡ false
busy_capped_example =
    busy_capped floats ℕ (λ s. s) (λ x. irreflexive x) refl (pos 1) sda fresh (no_metric floats)
      first_call

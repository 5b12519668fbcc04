-- ===== src/Diskio.antt =====
-- metric/system/diskio/diskstat.go and diskstat_linux.go: rates between two samples of the disk
-- counters. `Sample` and `cpu_total` are `sigar.Cpu` and its `Total`, of github.com/elastic/gosigar.
pub mod Windows
pub mod Laws
use elastic_agent_system_met.Base.{
  ℕ, ◌+◌, ◌-◌, Bool, true, false, List, [], if◌then◌else◌, Bytes, leb, ltb, Option, none, some,
  Error, message, Result, ok, err, bytes_comparable,
}
use elastic_agent_system_met.Base.Int.{ℤ, add64, sub64}
use elastic_agent_system_met.Go.Maps.{lookup, insert}
use elastic_agent_system_met.Libs.{Float64}
use elastic_agent_system_met.Round.{round}

-- The fields that the code reads of `disk.IOCountersStat`, of github.com/shirou/gopsutil.
pub record IoCountersStat : Type 0 where
  pub name : Bytes
  pub read_count : ℕ
  pub merged_read_count : ℕ
  pub read_bytes : ℕ
  pub read_time : ℕ
  pub write_count : ℕ
  pub merged_write_count : ℕ
  pub write_bytes : ℕ
  pub write_time : ℕ
  pub io_time : ℕ
  pub weighted_io : ℕ

abbrev pub max_uint32 : ℕ
max_uint32 = 4_294_967_295

unfoldable pub return_or_fix_32_bit_rollover : ℕ → ℕ → ℕ
return_or_fix_32_bit_rollover current prev =
    if leb prev current
    then current - prev
    else if ltb max_uint32 prev
    then 0
    else add64 (max_uint32 - prev) current

-- `GetCLKTCK`
abbrev pub get_clktck : ℕ
get_clktck = 100

module _ (f : Float64) where
  open f use {Float, of_uint, of_int, mul, div, lt, le}

  pub record IoMetric : Type 0 where
    pub read_request_merge_count_per_sec : Float
    pub write_request_merge_count_per_sec : Float
    pub read_request_count_per_sec : Float
    pub write_request_count_per_sec : Float
    pub read_bytes_per_sec : Float
    pub write_bytes_per_sec : Float
    pub avg_request_size : Float
    pub avg_queue_size : Float
    pub avg_await_time : Float
    pub avg_read_await_time : Float
    pub avg_write_await_time : Float
    pub avg_service_time : Float
    pub busy_pct : Float

  -- `IOMetric{}`
  abbrev pub no_metric : IoMetric
  no_metric = record {
    read_request_merge_count_per_sec = of_uint 0;
    write_request_merge_count_per_sec = of_uint 0;
    read_request_count_per_sec = of_uint 0;
    write_request_count_per_sec = of_uint 0;
    read_bytes_per_sec = of_uint 0;
    write_bytes_per_sec = of_uint 0;
    avg_request_size = of_uint 0;
    avg_queue_size = of_uint 0;
    avg_await_time = of_uint 0;
    avg_read_await_time = of_uint 0;
    avg_write_await_time = of_uint 0;
    avg_service_time = of_uint 0;
    busy_pct = of_uint 0;
  }

  -- `float64(x) / float64(n)` if there were any requests, else zero.
  abbrev pub per_io : ℕ → ℕ → Float
  per_io x n = if ltb 0 n then div (of_uint x) (of_uint n) else of_uint 0

  -- The averages for reads and writes are rounded only if they are set.
  abbrev pub rounded_per_io : ℕ → ℕ → Float
  rounded_per_io x n = if ltb 0 n then round f (div (of_uint x) (of_uint n)) else of_uint 0

  abbrev pub capped : Float → Float
  capped busy = if lt (of_uint 100) busy then of_uint 100 else busy

  -- The metrics of two samples of one disk, `deltams` milliseconds apart.
  unfoldable pub rates : Float → IoCountersStat → IoCountersStat → IoMetric
  rates deltams last counter =
      let rd_ios = sub64 counter.read_count last.read_count in
      let rd_merges = sub64 counter.merged_read_count last.merged_read_count in
      let rd_bytes = sub64 counter.read_bytes last.read_bytes in
      let rd_ticks = return_or_fix_32_bit_rollover counter.read_time last.read_time in
      let wr_ios = sub64 counter.write_count last.write_count in
      let wr_merges = sub64 counter.merged_write_count last.merged_write_count in
      let wr_bytes = sub64 counter.write_bytes last.write_bytes in
      let wr_ticks = return_or_fix_32_bit_rollover counter.write_time last.write_time in
      let ticks = return_or_fix_32_bit_rollover counter.io_time last.io_time in
      let aveq = return_or_fix_32_bit_rollover counter.weighted_io last.weighted_io in
      let n_ios = add64 rd_ios wr_ios in
      let n_ticks = add64 rd_ticks wr_ticks in
      let n_bytes = add64 rd_bytes wr_bytes in
      let per_sec = λ (x : ℕ). round f (div (mul (of_uint 1000) (of_uint x)) deltams) in
      record {
        read_request_merge_count_per_sec = per_sec rd_merges;
        write_request_merge_count_per_sec = per_sec wr_merges;
        read_request_count_per_sec = per_sec rd_ios;
        write_request_count_per_sec = per_sec wr_ios;
        read_bytes_per_sec = per_sec rd_bytes;
        write_bytes_per_sec = per_sec wr_bytes;
        avg_request_size = round f (per_io n_bytes n_ios);
        avg_queue_size = round f (div (of_uint aveq) deltams);
        avg_await_time = round f (per_io n_ticks n_ios);
        avg_read_await_time = rounded_per_io rd_ticks rd_ios;
        avg_write_await_time = rounded_per_io wr_ticks wr_ios;
        avg_service_time = round f (per_io ticks n_ios);
        busy_pct = capped (round f (div (mul (of_uint 100) (of_uint ticks)) deltams));
      }

  module _ (Sample : Type 0) (cpu_total : Sample → ℕ) where
    pub record IoStat : Type 0 where
      pub last_disk_io_counters : List (Bytes × IoCountersStat)
      pub last_cpu : Sample
      pub cur_cpu : Sample

    -- `NewDiskIOStat`, on the zero value of the sample.
    unfoldable pub new_disk_io_stat : Sample → IoStat
    new_disk_io_stat zero_cpu = record {
      last_disk_io_counters = [];
      last_cpu = zero_cpu;
      cur_cpu = zero_cpu;
    }

    -- `OpenSampling`, on what `curCPU.Get()` reads.
    unfoldable pub open_sampling : Result Sample → IoStat → IoStat
    open_sampling (ok cpu) stat = record stat { cur_cpu = cpu }
    open_sampling _ stat = stat

    -- `CloseSampling`
    unfoldable pub close_sampling : IoStat → IoStat
    close_sampling stat = record stat { last_cpu = stat.cur_cpu }

    -- The milliseconds between the samples; `cpus` is `numcpu.NumCPU()`.
    unfoldable pub delta_ms : ℤ → IoStat → Float
    delta_ms cpus stat =
        div
          (div
            (mul (of_uint 1000)
              (of_uint (sub64 (cpu_total stat.cur_cpu) (cpu_total stat.last_cpu))))
            (of_int cpus))
          (of_uint get_clktck)

    unfoldable pub remember : IoCountersStat → IoStat → IoStat
    remember counter stat = record stat {
      last_disk_io_counters = insert counter.name counter stat.last_disk_io_counters;
    }

    -- `CalcIOStatistics`, on the last counters of the disk.
    unfoldable pub calc_from :
        ℤ → IoCountersStat → Option IoCountersStat → IoStat → Result IoMetric × IoStat
    calc_from cpus counter none stat = (ok no_metric, remember counter stat)
    calc_from cpus counter (some last) stat =
        if le (delta_ms cpus stat) (of_uint 0)
        then (
          err (
              message
                "the delta cpu time between close sampling and open sampling is less or equal to 0"),
          stat,
        )
        else (ok (rates (delta_ms cpus stat) last counter), remember counter stat)

    unfoldable pub calc_io_statistics : ℤ → IoCountersStat → IoStat → Result IoMetric × IoStat
    unfolding calc_from
    calc_io_statistics cpus counter stat =
        calc_from cpus counter (lookup counter.name stat.last_disk_io_counters) stat

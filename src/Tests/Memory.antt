-- ===== src/Tests/Memory.antt =====
-- /proc/meminfo.
use elastic_agent_system_met.Base.{
  ℕ, ◌+◌, ◌-◌, ◌^◌, List, [], ◌∷◌, ◌≡◌, refl, Bytes, codes, arith, true, ok, panic, some, none,
  bytes_eq, All, map, ◌⊎◌, bytes_comparable,
}
use elastic_agent_system_met.Go.Strings.{split, fields}
use elastic_agent_system_met.Go.Numbers.{parse_uint}
use elastic_agent_system_met.Go.Maps.{lookup, insert}
use elastic_agent_system_met.Go.Files.{Files, read_lines}
use elastic_agent_system_met.Memory.{
  Memory, get, parse_meminfo, read_table, read_line, read_parts, read_value, store, scale,
}
use elastic_agent_system_met.Memory.Laws.Table.{
  Entry, print_entry, IsEntry, last_amount, read_table-entries,
}
use elastic_agent_system_met.Memory.Laws.Panics.{IsBlank, read_table-panic_iff}
use elastic_agent_system_met.Memory.Laws.Figures.{pct_of, get-used, get-swap, get_fallback_wraps}
use elastic_agent_system_met.Tests.Fixtures.{floats, opts, opt_laws, root, one_file}

open_meminfo : Unit {0}
unfolding parse_meminfo read_table read_line read_parts read_value store scale split fields
    parse_uint insert lookup read_lines bytes_eq
open_meminfo = tt

abbrev host : Files
host =
    one_file (codes "/proc/meminfo") (
      codes
        "MemTotal:   8 kB\nMemFree: 2 kB\nMemAvailable: 4 kB\nSwapTotal: 3 kB\nSwapFree: 1 kB\n")

abbrev table : List (Bytes × ℕ)
table =
    (codes "MemTotal", 8192)
    ∷ (codes "MemFree", 2048)
    ∷ (codes "MemAvailable", 4096)
    ∷ (codes "SwapTotal", 3072)
    ∷ (codes "SwapFree", 1024)
    ∷ []

parse_host : parse_meminfo host root ≡ ok table
unfolding open_meminfo
parse_host = refl

-- A key with nothing behind its colon.
parse_blank :
    parse_meminfo (one_file (codes "/proc/meminfo") (codes "MemTotal: 8 kB\nHugePages:\n")) root
    ≡ panic
unfolding open_meminfo
parse_blank = refl

total_found : lookup (codes "MemTotal") table ≡ some 8192
unfolding open_meminfo
total_found = refl

free_found : lookup (codes "MemFree") table ≡ some 2048
unfolding open_meminfo
free_found = refl

available_found : lookup (codes "MemAvailable") table ≡ some 4096
unfolding open_meminfo
available_found = refl

swap_total_found : lookup (codes "SwapTotal") table ≡ some 3072
unfolding open_meminfo
swap_total_found = refl

swap_free_found : lookup (codes "SwapFree") table ≡ some 1024
unfolding open_meminfo
swap_free_found = refl

get-used_example :
    (m : Memory floats opts) × (get floats opts host root ≡ ok m)
    × (opts.value_or m.used.bytes 0 + 2048 ≡ 8192)
    × (opts.value_or m.actual.used.bytes 0 + 4096 ≡ 8192)
    × (m.used.pct ≡ pct_of floats opts opt_laws (8192 - 2048) 8192)
    × (m.actual.used.pct ≡ pct_of floats opts opt_laws (8192 - 4096) 8192)
get-used_example =
    get-used floats opts opt_laws host root table 8192 2048 4096 parse_host total_found free_found
      available_found (omega arith) (omega arith) (omega arith) (omega arith)

get-swap_example :
    (m : Memory floats opts) × (get floats opts host root ≡ ok m)
    × (opts.value_or m.swap.used.bytes 0 + 1024 ≡ 3072)
    × (m.swap.used.pct ≡ pct_of floats opts opt_laws (3072 - 1024) 3072)
get-swap_example =
    get-swap floats opts opt_laws host root table 3072 1024 parse_host swap_total_found
      swap_free_found (omega arith) (omega arith) (omega arith)

abbrev old_host : Files
old_host =
    one_file (codes "/proc/meminfo")
      (codes "MemTotal: 8 kB\nMemFree: 2 kB\nBuffers: 3 kB\nCached: 5 kB\n")

abbrev old_table : List (Bytes × ℕ)
old_table =
    (codes "MemTotal", 8192)
    ∷ (codes "MemFree", 2048)
    ∷ (codes "Buffers", 3072)
    ∷ (codes "Cached", 5120)
    ∷ []

old_found :
    (parse_meminfo old_host root ≡ ok old_table)
    × (lookup (codes "MemTotal") old_table ≡ some 8192)
    × (lookup (codes "MemFree") old_table ≡ some 2048)
    × (lookup (codes "Cached") old_table ≡ some 5120)
    × (lookup (codes "Buffers") old_table ≡ some 3072)
    × (lookup (codes "MemAvailable") old_table ≡ none)
unfolding open_meminfo
old_found = (refl, refl, refl, refl, refl, refl)

get_fallback_wraps_example :
    (m : Memory floats opts) × (get floats opts old_host root ≡ ok m)
    × (opts.value_or m.actual.used.bytes 0 + (2048 + 3072 + 5120) ≡ 8192 + 2 ^ 64)
get_fallback_wraps_example =
    get_fallback_wraps floats opts opt_laws old_host root old_table 8192 2048 5120 3072 old_found.0
      old_found.1 old_found.2 old_found.3 old_found.4 old_found.5 (omega arith) (omega arith)

abbrev entry : Entry
entry = record {
  key = codes "Cached";
  pad = codes "  ";
  numeral = codes "12";
  number = 12;
  in_kb = true;
}

entry-IsEntry : IsEntry entry
entry-IsEntry = record {
  key_free = (refl, (refl, (refl, (refl, (refl, (refl, tt))))));
  pad_spaces = (refl, (refl, tt));
  written = record { ne_nil = cc; digits = (refl, (refl, tt)); means = refl };
  fits = omega arith;
}

read_table-entries_example :
    (t : List (Bytes × ℕ)) × (read_table [] (map print_entry (entry ∷ [])) ≡ ok t)
    × (lookup (codes "Cached") t
        ≡ last_amount (codes "Cached") (entry ∷ []) (lookup (codes "Cached") []))
read_table-entries_example = read_table-entries (entry ∷ []) [] (codes "Cached") (entry-IsEntry, tt)

read_table-panic_iff_example :
    ((¬ (All (λ l. ¬ (IsBlank l)) (codes "HugePages:" ∷ [])))
      × (read_table [] (codes "HugePages:" ∷ []) ≡ panic))
    ⊎ (All (λ l. ¬ (IsBlank l)) (codes "HugePages:" ∷ [])
        × ((t : List (Bytes × ℕ)) × (read_table [] (codes "HugePages:" ∷ []) ≡ ok t)))
read_table-panic_iff_example = read_table-panic_iff (codes "HugePages:" ∷ []) []
